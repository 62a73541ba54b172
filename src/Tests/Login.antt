-- ===== src/Tests/Login.antt =====
-- The login limiter at concrete inputs.
use rxcore.Prelude.{◌≡◌, refl, List, [], ◌∷◌, true, false, arith}
use rxcore.Prelude.Loops.{eq_bytes}
use rxcore.Login.{Ip, new, is_allowed}
use rxcore.Login.History.{Event, asks, fails, run, history, empty, permits}
use rxcore.Login.Window.{is_allowed-permits}

abbrev ip : Ip
ip = 10 ∷ 0 ∷ 0 ∷ 7 ∷ []

abbrev failures : List Event
failures = fails 1 ip ∷ fails 2 ip ∷ asks 2 ip ∷ fails 3 ip ∷ fails 4 ip ∷ fails 5 ip ∷ []

locked : (is_allowed 300 ip (run failures new)).0 ≡ false
unfolding run new is_allowed eq_bytes
locked = refl

open_again : (is_allowed 301 ip (run failures new)).0 ≡ true
unfolding run new is_allowed eq_bytes
open_again = refl

is_allowed-permits_example :
    (is_allowed 300 ip (run failures new)).0 ≡ permits (history failures empty) 300 ip
is_allowed-permits_example = is_allowed-permits failures 300 ip (
  omega arith,
  (omega arith, (omega arith, (omega arith, (omega arith, (omega arith, omega arith))))),
)
