-- ===== src/Tests/SingleFlight.antt =====
-- Shared lookups at concrete inputs.
use rxcore.Prelude.{ℕ, ◌≡◌, refl, List, [], ◌∷◌, some}
use rxcore.Prelude.Loops.{eq_bytes}
use rxcore.Prelude.Assoc.{lookup, nat_eq, bytes_eq}
use rxcore.Text.{Str}
use rxcore.SingleFlight.{ok, ready, follow, Event, called, resolved, sends, run, new}
use rxcore.SingleFlight.Lookups.{run_one_lookup}

abbrev name : Str
name = 97 ∷ []

abbrev calls : List Event
calls = called name ∷ called name ∷ []

leads_once : lookup 0 (run calls new).looking ≡ some name
unfolding run eq_bytes
leads_once = refl

run_one_lookup_example : ◌≡◌ {A = ℕ} 0 0
run_one_lookup_example = run_one_lookup calls 0 0 name leads_once leads_once

-- The follower of a lookup that ends sees its result.
answered :
    follow 0 (run (called name ∷ resolved 0 (ok (7 ∷ []) 60) ∷ sends 0 ∷ []) new)
    ≡ ready (ok (7 ∷ []) 60)
unfolding follow run eq_bytes
answered = refl
