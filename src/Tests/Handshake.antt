-- ===== src/Tests/Handshake.antt =====
-- The limits on handshakes at concrete inputs.
use rxcore.Prelude.{◌≡◌, ◌≤◌, refl, [], ◌∷◌, ◌++◌, length, replicate}
use rxcore.Prelude.Loops.{eq_bytes}
use rxcore.Handshake.{Ip, canonical_ip, enter, leave, ip_limit_exceeded}
use rxcore.Handshake.Steps.{System, takes, enters, leaves, returns, Reach, here, next}
use rxcore.Handshake.Counts.{count}
use rxcore.Handshake.Balance.{handshakes_bounded, handshakes_leak_nothing}

abbrev host : Ip
host = 10 ∷ 0 ∷ 0 ∷ 7 ∷ []

mapped : canonical_ip (replicate 10 0 ++ (255 ∷ 255 ∷ host)) ≡ host
unfolding canonical_ip
mapped = refl

third : enter host ((host, 2) ∷ []) ≡ ip_limit_exceeded
unfolding enter eq_bytes
third = refl

-- One connection has entered.
abbrev running : System
running = record {
  permits = 3;
  holding = [];
  guards = host ∷ [];
  releasing = 0;
  active = (host, 1) ∷ [];
}

running_reached : Reach 4 running
unfolding enter canonical_ip
running_reached =
    next (next here (takes host 3 refl)) (enters [] [] host ((host, 1) ∷ []) refl refl)

handshakes_bounded_example : (length running.guards ≤ 4) × ((ip : Ip) → count ip running.guards ≤ 2)
handshakes_bounded_example = handshakes_bounded 4 running running_reached

abbrev idle : System
idle = record { permits = 4; holding = []; guards = []; releasing = 0; active = [] }

-- The connection ends.
idle_reached : Reach 4 idle
unfolding leave eq_bytes
idle_reached = next (next running_reached (leaves [] [] host refl)) (returns 0 refl)

handshakes_leak_nothing_example : (idle.permits ≡ 4) × (idle.active ≡ [])
handshakes_leak_nothing_example = handshakes_leak_nothing 4 idle idle_reached refl refl refl
