-- ===== src/Prelude/Window.antt =====
-- Times in a window that slides.
use Prim.Native.Nat.{ℕ, ◌-◌, ◌≤◌}
use mathlib.Core.Path.{◌≡◌, refl, ap}
use mathlib.Core.Logic.{inl, inr}
use mathlib.Core.Bool.{Bool, false}
use mathlib.Core.List.{List, [], ◌∷◌, ◌++◌}
use native.Mathlib.Omega.{arith}
use rxcore.Prelude.Tests.{ltb, Bool-cases, if◌then◌else◌}
use rxcore.Prelude.Loops.{retain}

-- `now.duration_since(t) < window`, which saturates at zero.
abbrev pub recent : (window now : ℕ) → ℕ → Bool
recent window now t = ltb (now - t) window

pub retain-append {ℓ} :
    {A : Type ℓ} (p : A → Bool) (xs ys : List A) → retain p (xs ++ ys) ≡ retain p xs ++ retain p ys
retain-append p [] ys = refl
retain-append p (x ∷ xs) ys = elim (Bool-cases (p x)) [
  | inl e ↦ rw e (ap (◌∷◌ x) (retain-append p xs ys))
  | inr e ↦ rw e (retain-append p xs ys)
]

-- What is purged at one time is not counted at a later one.
pub retain_later :
    (window now later : ℕ) (ts : List ℕ)
    → now ≤ later
    → retain (recent window later) (retain (recent window now) ts) ≡ retain (recent window later) ts
retain_later window now later [] h = refl
retain_later window now later (t ∷ ts) h = elim (Bool-cases (recent window now t)) [
  | inl e ↦ rw e (cons_same (recent window later t) (retain_later window now later ts h))
  | inr e ↦ rw (e, later_false e) (retain_later window now later ts h)
]
  where
    later_false : recent window now t ≡ false → recent window later t ≡ false
    later_false e = ground arith

    cons_same :
        (b : Bool) {xs ys : List ℕ}
        → xs ≡ ys
        → (if b then t ∷ xs else xs) ≡ (if b then t ∷ ys else ys)
    cons_same b e = ap (λ l. if b then t ∷ l else l) e
