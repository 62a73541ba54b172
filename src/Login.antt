-- ===== src/Login.antt =====
-- `LoginRateLimiter` of target_core/src/auth.rs. Time is counted in seconds, an address is its octets.
pub mod History
pub mod Window
use rxcore.Prelude.{
  ℕ, zero, suc, ◌+◌, ◌-◌, List, [], ◌∷◌, ◌++◌, Option, none, some, Bool, true, false, not, leb, ltb,
  length, if◌then◌else◌,
}
use rxcore.Prelude.Loops.{retain}
use rxcore.Prelude.Assoc.{Map, lookup, insert, remove, bytes_eq}

abbrev pub Ip : Type 0
Ip = List ℕ

pub record LoginRateLimiter : Type 0 where
  pub attempts : Map Ip (List ℕ)
  pub global_attempts : List ℕ

unfoldable pub new : LoginRateLimiter
new = record { attempts = []; global_attempts = [] }

-- `now.duration_since(t) < window`, which saturates at zero.
abbrev pub in_window : ℕ → ℕ → Bool
in_window now t = ltb (now - t) 300

-- The entry of an address, if there is one, without what is too old.
unfoldable pub is_allowed : ℕ → Ip → LoginRateLimiter → Bool × LoginRateLimiter
unfolding lookup insert
is_allowed now ip l =
    let global = retain (in_window now) l.global_attempts in
    let purged = record l { global_attempts = global } in
    if leb 20 (length global) then (false, purged) else elim (lookup ip l.attempts) [
      | none ↦ (true, purged)
      | some times ↦
          let entry = retain (in_window now) times in
          (not (leb 5 (length entry)), record purged { attempts = insert ip entry l.attempts })
    ]

abbrev pub or_empty : Option (List ℕ) → List ℕ
or_empty none = []
or_empty (some times) = times

unfoldable pub record_failure : ℕ → Ip → LoginRateLimiter → LoginRateLimiter
unfolding lookup insert
record_failure now ip l = record {
  attempts = insert ip (or_empty (lookup ip l.attempts) ++ now ∷ []) l.attempts;
  global_attempts = l.global_attempts ++ now ∷ [];
}

unfoldable pub record_success : Ip → LoginRateLimiter → LoginRateLimiter
unfolding remove
record_success ip l = record l { attempts = remove ip l.attempts }
