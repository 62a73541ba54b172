-- ===== src/Prelude/Assoc.antt =====
-- Hash maps as association lists. The order of a list is the order in which keys came in; a map
-- that is built by `insert` and `remove` holds each key once (`IsMap`).
use Prim.Native.Nat.{ℕ, ◌+◌, ◌≤◌}
use mathlib.Core.Path.{◌≡◌, refl, sym}
use mathlib.Core.Logic.{◌↔◌, ◌⊎◌, inl, inr}
use mathlib.Core.Bool.{Bool, true, false}
use mathlib.Core.Option.{Option, none, some}
use mathlib.Core.List.{List, [], ◌∷◌}
use native.Mathlib.Omega.{arith}
use rxcore.Prelude.Tests.{◌==◌ as nat_beq, ==_iff, Bool-cases, if◌then◌else◌}
use rxcore.Prelude.Lists.{length}
use rxcore.Prelude.Loops.{eq_bytes, eq_bytes→eq, eq_bytes_refl}

pub record Eq (K : Type 0) : Type 0 where
  pub beq : K → K → Bool
  pub beq_iff : (a b : K) → (beq a b ≡ true) ↔ (a ≡ b)

infix 50 ◌==◌
abbrev pub ◌==◌ : {K : Type 0} ⦃e : Eq K⦄ → K → K → Bool
◌==◌ ⦃e⦄ = e.beq

instance abbrev pub nat_eq : Eq ℕ
nat_eq = record { beq = nat_beq; beq_iff = ==_iff }

pub eq_bytes_iff : (a b : List ℕ) → (eq_bytes a b ≡ true) ↔ (a ≡ b)
eq_bytes_iff a b = (eq_bytes→eq a b, λ h. rw h (eq_bytes_refl b))

instance abbrev pub bytes_eq : Eq (List ℕ)
bytes_eq = record { beq = eq_bytes; beq_iff = eq_bytes_iff }

abbrev pub Map : Type 0 → Type 0 → Type 0
Map K V = List (K × V)

pub beq_refl : {K : Type 0} ⦃e : Eq K⦄ (k : K) → (k == k) ≡ true
beq_refl ⦃e⦄ k = (e.beq_iff k k).1 refl

-- Two keys are one, or the map keeps them apart.
pub key_cases : {K : Type 0} ⦃e : Eq K⦄ (j k : K) → (j ≡ k) ⊎ ((k == j) ≡ false)
key_cases ⦃e⦄ j k = elim (Bool-cases (k == j)) [
  | inl same ↦ inl (sym ((e.beq_iff k j).0 same))
  | inr apart ↦ inr apart
]

module _ {K V : Type 0} ⦃e : Eq K⦄ where
  unfoldable pub lookup : K → Map K V → Option V
  lookup k [] = none
  lookup k ((j, v) ∷ m) = if j == k then some v else lookup k m

  unfoldable pub insert : K → V → Map K V → Map K V
  insert k v [] = (k, v) ∷ []
  insert k v ((j, w) ∷ m) = if j == k then (k, v) ∷ m else (j, w) ∷ insert k v m

  unfoldable pub remove : K → Map K V → Map K V
  remove k [] = []
  remove k ((j, w) ∷ m) = let rest = remove k m in if j == k then rest else (j, w) ∷ rest

  pub lookup-insert :
      (j k : K) (v : V) (m : Map K V)
      → lookup j (insert k v m) ≡ (if k == j then some v else lookup j m)
  unfolding lookup insert
  lookup-insert j k v [] = refl
  lookup-insert j k v ((i, w) ∷ m) =
      ground (arith, e.beq_iff k j, e.beq_iff i k, e.beq_iff i j, lookup-insert j k v m)

  pub lookup-remove :
      (j k : K) (m : Map K V) → lookup j (remove k m) ≡ (if k == j then none else lookup j m)
  unfolding lookup remove
  lookup-remove j k [] = ground arith
  lookup-remove j k ((i, w) ∷ m) =
      ground (arith, e.beq_iff k j, e.beq_iff i k, e.beq_iff i j, lookup-remove j k m)

  pub length-remove-le : (k : K) (m : Map K V) → length (remove k m) ≤ length m
  unfolding remove
  length-remove-le k [] = omega arith
  length-remove-le k ((i, w) ∷ m) = ground (arith, length-remove-le k m)

  pub length-remove-some :
      (k : K) (m : Map K V) (v : V) → lookup k m ≡ some v → length (remove k m) + 1 ≤ length m
  unfolding remove lookup
  length-remove-some k [] v h = cc
  length-remove-some k ((i, w) ∷ m) v h =
      ground (arith, length-remove-le k m, length-remove-some k m v)

  pub length-insert-le : (k : K) (v : V) (m : Map K V) → length (insert k v m) ≤ length m + 1
  unfolding insert
  length-insert-le k v [] = omega arith
  length-insert-le k v ((i, w) ∷ m) = ground (arith, length-insert-le k v m)

  pub length-insert-some :
      (k : K) (v w : V) (m : Map K V) → lookup k m ≡ some w → length (insert k v m) ≡ length m
  unfolding insert lookup
  length-insert-some k v w [] h = cc
  length-insert-some k v w ((i, x) ∷ m) h = ground (arith, length-insert-some k v w m)

  pub lookup-insert_self : (k : K) (v : V) (m : Map K V) → lookup k (insert k v m) ≡ some v
  lookup-insert_self k v m = rw (lookup-insert k k v m) (rw (beq_refl k) refl)

  -- Each key stands in the list once.
  abbrev pub IsMap : Map K V → Type 0
  IsMap [] = Unit
  IsMap ((k, v) ∷ m) = (lookup k m ≡ none) × IsMap m

  pub IsMap-insert : (k : K) (v : V) (m : Map K V) → IsMap m → IsMap (insert k v m)
  unfolding insert lookup
  IsMap-insert k v [] h = (refl, tt)
  IsMap-insert k v ((j, w) ∷ m) h =
      ground (arith, e.beq_iff j k, e.beq_iff k j, lookup-insert j k v m, IsMap-insert k v m h.1)

  pub IsMap-remove : (k : K) (m : Map K V) → IsMap m → IsMap (remove k m)
  unfolding remove
  IsMap-remove k [] h = tt
  IsMap-remove k ((j, w) ∷ m) h = ground (arith, lookup-remove j k m, IsMap-remove k m h.1)

  pub remove-none : (k : K) (m : Map K V) → lookup k m ≡ none → remove k m ≡ m
  unfolding remove lookup
  remove-none k [] h = refl
  remove-none k ((j, w) ∷ m) h = ground (arith, remove-none k m)

  pub length-remove-IsMap :
      (k : K) (m : Map K V) (v : V)
      → IsMap m
      → lookup k m ≡ some v
      → length (remove k m) + 1 ≡ length m
  unfolding remove lookup
  length-remove-IsMap k [] v h s = cc
  length-remove-IsMap k ((j, w) ∷ m) v h s =
      ground (arith, e.beq_iff j k, remove-none k m, length-remove-IsMap k m v h.1)

  pub length-insert-none :
      (k : K) (v : V) (m : Map K V) → lookup k m ≡ none → length (insert k v m) ≡ length m + 1
  unfolding insert lookup
  length-insert-none k v [] h = omega arith
  length-insert-none k v ((j, w) ∷ m) h = ground (arith, length-insert-none k v m)

  pub lookup-insert_ne :
      (j k : K) (v : V) (m : Map K V) → (k == j) ≡ false → lookup j (insert k v m) ≡ lookup j m
  lookup-insert_ne j k v m h = rw (lookup-insert j k v m) (rw h refl)

  pub lookup-remove_self : (k : K) (m : Map K V) → lookup k (remove k m) ≡ none
  lookup-remove_self k m = rw (lookup-remove k k m) (rw (beq_refl k) refl)

  pub lookup-remove_ne :
      (j k : K) (m : Map K V) → (k == j) ≡ false → lookup j (remove k m) ≡ lookup j m
  lookup-remove_ne j k m h = rw (lookup-remove j k m) (rw h refl)
