-- ===== src/Quota.antt =====
-- Traffic quotas: `reserve_quota` and the one-way copy loops of target_core/src/transport/mod.rs,
-- `reserve_udp_datagram`, `authenticate_client` and the recorders of target_core/src/state.rs.
-- An AtomicI64 holds the bytes that a user may still move, and -1 stands for no limit.
pub mod Reserve
pub mod Threads
pub mod Account
pub mod Copy
use rxcore.Prelude.{ℕ, zero, suc, min, List, [], ◌∷◌, Option, none, some, Bool, true, false}
use rxcore.Prelude.Int.{ℤ, pos, negsuc, ◌-ℤ◌, ltb_ℤ}
use rxcore.Prelude.{if◌then◌else◌}

-- What one turn of a compare-exchange loop does with the value that it has loaded: return at once,
-- or try to exchange it for `new` and then return `granted`.
pub data Attempt : Type 0 where
  return : ℕ → Attempt
  exchange : ℕ → ℤ → Attempt

-- The loop body of `reserve_quota`. In the last case 0 ≤ granted ≤ current, so nothing wraps.
unfoldable pub reserve_attempt : ℤ → ℕ → Attempt
reserve_attempt (negsuc zero) requested = return requested
reserve_attempt (negsuc (suc n)) requested = return 0
reserve_attempt (pos zero) requested = return 0
reserve_attempt (pos (suc n)) requested =
    exchange (min requested (suc n)) (pos (suc n) -ℤ pos (min requested (suc n)))

-- A granted number of bytes, with the exchange that took it, if there was one.
pub record Grant : Type 0 where
  pub granted : ℕ
  pub exchanged : Option (ℤ × ℤ)

-- The whole loop: `failures` are the values that the failing exchanges report, spurious failures
-- of the weak exchange among them; the exchange after the last of them succeeds.
unfoldable pub reserve_quota : List ℤ → ℤ → ℕ → Grant
reserve_quota [] current requested = elim (reserve_attempt current requested) [
  | return n ↦ record { granted = n; exchanged = none }
  | exchange n new ↦ record { granted = n; exchanged = some (current, new) }
]
reserve_quota (actual ∷ failures) current requested = elim (reserve_attempt current requested) [
  | return n ↦ record { granted = n; exchanged = none }
  | exchange n new ↦ reserve_quota failures actual requested
]

-- `reserve_udp_datagram`: all of a datagram or nothing. `false` and `true` are its results.
pub data DatagramAttempt : Type 0 where
  return : Bool → DatagramAttempt
  exchange : ℤ → DatagramAttempt

unfoldable pub datagram_attempt : ℤ → ℕ → DatagramAttempt
datagram_attempt (negsuc zero) len = return true
datagram_attempt (negsuc (suc n)) len = return false
datagram_attempt (pos n) len =
    if ltb_ℤ (pos n) (pos len) then return false else exchange (pos n -ℤ pos len)

unfoldable pub reserve_udp_datagram : List ℤ → ℤ → ℕ → Bool × Option (ℤ × ℤ)
reserve_udp_datagram [] current len = elim (datagram_attempt current len) [
  | return b ↦ (b, none)
  | exchange new ↦ (true, some (current, new))
]
reserve_udp_datagram (actual ∷ failures) current len = elim (datagram_attempt current len) [
  | return b ↦ (b, none)
  | exchange new ↦ reserve_udp_datagram failures actual len
]
