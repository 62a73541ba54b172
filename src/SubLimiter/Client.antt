-- ===== src/SubLimiter/Client.antt =====
-- `get_client_ip` of target_core/src/api/mod.rs, and the limit on the subscriptions of a client.
use rxcore.Prelude.{ℕ, List, [], ◌∷◌, Option, none, some, Bool, false, ◌||◌, if◌then◌else◌}
use rxcore.Prelude.Loops.{any, eq_bytes}
use rxcore.Prelude.Assoc.{Map}
use rxcore.Text.{Str, split}
use rxcore.Text.Ip.{IpAddr, v4, v6, parse_ip, is_loopback}
use rxcore.Endpoint.{trim}
use rxcore.Login.{Ip}
use rxcore.SubLimiter.{check_sub_rate_limit}

abbrev pub octets_of : IpAddr → Ip
octets_of (v4 a b c d) = a ∷ b ∷ c ∷ d ∷ []
octets_of (v6 octets) = octets

-- Equality of addresses.
unfoldable pub eq_ip : IpAddr → IpAddr → Bool
unfolding eq_bytes
eq_ip (v4 a b c d) (v4 e f g h) = eq_bytes (octets_of (v4 a b c d)) (octets_of (v4 e f g h))
eq_ip (v6 octets) (v6 others) = eq_bytes octets others
eq_ip _ _ = false

unfoldable pub is_trusted : List IpAddr → IpAddr → Bool
unfolding is_loopback eq_ip
is_trusted trusted peer_ip = is_loopback peer_ip || any (λ ip. eq_ip ip peer_ip) trusted

abbrev pub or_peer : IpAddr → Option IpAddr → IpAddr
or_peer peer_ip none = peer_ip
or_peer peer_ip (some ip) = ip

abbrev pub first_ip : List Str → Option IpAddr
first_ip [] = none
first_ip (part ∷ parts) = parse_ip (trim part)

abbrev pub forwarded : Option Str → Option IpAddr
forwarded none = none
forwarded (some xff) = first_ip (split 44 xff)

-- `xff` is the value of x-forwarded-for, if there is one and it is a text.
unfoldable pub get_client_ip : List IpAddr → (peer_ip : IpAddr) (xff : Option Str) → IpAddr
unfolding is_trusted split trim parse_ip
get_client_ip trusted peer_ip xff =
    if is_trusted trusted peer_ip then or_peer peer_ip (forwarded xff) else peer_ip

-- A request for a subscription: when, from which peer, with which header.
pub record Request : Type 0 where
  pub time : ℕ
  pub peer_ip : IpAddr
  pub xff : Option Str

-- Whether `serve_subscription` goes on.
unfoldable pub admit : List IpAddr → Request → Map Ip (List ℕ) → Bool × Map Ip (List ℕ)
unfolding get_client_ip check_sub_rate_limit
admit trusted r m =
    check_sub_rate_limit r.time (octets_of (get_client_ip trusted r.peer_ip r.xff)) m
