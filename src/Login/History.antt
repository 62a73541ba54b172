-- ===== src/Login/History.antt =====
-- A history of the limiter's use that forgets nothing, and the limiter run on the same events.
use rxcore.Prelude.{ℕ, ◌≤◌, List, [], ◌∷◌, ◌++◌, Bool, ◌&&◌, not, leb, length, if◌then◌else◌}
use rxcore.Prelude.Loops.{retain, eq_bytes}
use rxcore.Prelude.Assoc.{bytes_eq}
use rxcore.Login.{Ip, LoginRateLimiter, in_window, is_allowed, record_failure, record_success}

pub data Event : Type 0 where
  asks : ℕ → Ip → Event
  fails : ℕ → Ip → Event
  succeeds : ℕ → Ip → Event

abbrev pub time_of : Event → ℕ
time_of (asks t ip) = t
time_of (fails t ip) = t
time_of (succeeds t ip) = t

-- The events follow one another in time, from `start` on, up to `now`.
abbrev pub InTime : ℕ → List Event → ℕ → Type 0
InTime start [] now = start ≤ now
InTime start (e ∷ es) now = (start ≤ time_of e) × InTime (time_of e) es now

unfoldable pub step : Event → LoginRateLimiter → LoginRateLimiter
unfolding is_allowed record_failure record_success
step (asks t ip) l = (is_allowed t ip l).1
step (fails t ip) l = record_failure t ip l
step (succeeds t ip) l = record_success ip l

unfoldable pub run : List Event → LoginRateLimiter → LoginRateLimiter
unfolding step
run [] l = l
run (e ∷ es) l = run es (step e l)

-- All failures ever, and those of each address since its last success.
pub record History : Type 0 where
  pub all : List ℕ
  pub of : Ip → List ℕ

abbrev pub empty : History
empty = record { all = []; of = λ ip. [] }

unfoldable pub note : Event → History → History
unfolding eq_bytes
note (asks t ip) h = h
note (fails t ip) h = record {
  all = h.all ++ t ∷ [];
  of = λ j. if eq_bytes ip j then h.of ip ++ t ∷ [] else h.of j;
}
note (succeeds t ip) h = record h { of = λ j. if eq_bytes ip j then [] else h.of j }

unfoldable pub history : List Event → History → History
unfolding note
history [] h = h
history (e ∷ es) h = history es (note e h)

-- Fewer than 20 failures of anybody and fewer than 5 of the address in the last 300 seconds.
abbrev pub permits : History → ℕ → Ip → Bool
permits h now ip =
    not (leb 20 (length (retain (in_window now) h.all)))
    && not (leb 5 (length (retain (in_window now) (h.of ip))))
