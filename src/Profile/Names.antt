-- ===== src/Profile/Names.antt =====
-- Names that are trimmed and in lower case stay so.
use rxcore.Prelude.{ℕ, ◌≡◌, refl, ap, ◌∙◌, [], ◌∷◌, map, true, false, arith, Bool-cases, inl, inr}
use rxcore.Text.{Str, lower, to_lowercase}
use rxcore.Endpoint.{is_whitespace, trim_start, trim_end, trim, onto_trimmed}

is_whitespace-lower : (c : ℕ) → is_whitespace (lower c) ≡ is_whitespace c
unfolding lower
is_whitespace-lower c = ground arith

lower_twice : (c : ℕ) → lower (lower c) ≡ lower c
unfolding lower
lower_twice c = ground arith

to_lowercase_twice : (s : Str) → to_lowercase (to_lowercase s) ≡ to_lowercase s
unfolding to_lowercase
to_lowercase_twice [] = refl
to_lowercase_twice (c ∷ s) = rw (lower_twice c) (ap (◌∷◌ (lower c)) (to_lowercase_twice s))

trim_start-lower : (s : Str) → trim_start (map lower s) ≡ map lower (trim_start s)
unfolding trim_start
trim_start-lower [] = refl
trim_start-lower (c ∷ s) = elim (Bool-cases (is_whitespace c)) [
  | inl e ↦ rw (is_whitespace-lower c, e) (trim_start-lower s)
  | inr e ↦ rw (is_whitespace-lower c, e) refl
]

onto_trimmed-lower :
    (c : ℕ) (s : Str) → onto_trimmed (lower c) (map lower s) ≡ map lower (onto_trimmed c s)
onto_trimmed-lower c [] = elim (Bool-cases (is_whitespace c)) [
  | inl e ↦ rw (is_whitespace-lower c, e) refl
  | inr e ↦ rw (is_whitespace-lower c, e) refl
]
onto_trimmed-lower c (d ∷ s) = refl

trim_end-lower : (s : Str) → trim_end (map lower s) ≡ map lower (trim_end s)
unfolding trim_end
trim_end-lower [] = refl
trim_end-lower (c ∷ s) =
    ap (onto_trimmed (lower c)) (trim_end-lower s) ∙ onto_trimmed-lower c (trim_end s)

trim-to_lowercase : (s : Str) → trim (to_lowercase s) ≡ to_lowercase (trim s)
unfolding trim to_lowercase
trim-to_lowercase s = ap trim_end (trim_start-lower s) ∙ trim_end-lower (trim_start s)

trim_start_white :
    (c : ℕ) (s : Str) → is_whitespace c ≡ true → trim_start (onto_trimmed c s) ≡ trim_start s
unfolding trim_start
trim_start_white c [] e = rw e refl
trim_start_white c (d ∷ s) e = rw e refl

trim_start_black :
    (c : ℕ) (s : Str) → is_whitespace c ≡ false → trim_start (onto_trimmed c s) ≡ onto_trimmed c s
unfolding trim_start
trim_start_black c [] e = rw e (rw e refl)
trim_start_black c (d ∷ s) e = rw e refl

trim_start-trim_end : (s : Str) → trim_start (trim_end s) ≡ trim_end (trim_start s)
unfolding trim_start trim_end
trim_start-trim_end [] = refl
trim_start-trim_end (c ∷ s) = elim (Bool-cases (is_whitespace c)) [
  | inl e ↦ trim_start_white c (trim_end s) e ∙ (trim_start-trim_end s ∙ rw e refl)
  | inr e ↦ trim_start_black c (trim_end s) e ∙ rw e refl
]

trim_start_twice : (s : Str) → trim_start (trim_start s) ≡ trim_start s
unfolding trim_start
trim_start_twice [] = refl
trim_start_twice (c ∷ s) = elim (Bool-cases (is_whitespace c)) [
  | inl e ↦ rw e (trim_start_twice s)
  | inr e ↦ rw e (rw e refl)
]

trim_end_onto : (c : ℕ) (s : Str) → trim_end (onto_trimmed c s) ≡ onto_trimmed c (trim_end s)
unfolding trim_end
trim_end_onto c [] = elim (Bool-cases (is_whitespace c)) [
  | inl e ↦ rw e refl
  | inr e ↦ rw e (rw e refl)
]
trim_end_onto c (d ∷ s) = refl

trim_end_twice : (s : Str) → trim_end (trim_end s) ≡ trim_end s
unfolding trim_end
trim_end_twice [] = refl
trim_end_twice (c ∷ s) = trim_end_onto c (trim_end s) ∙ ap (onto_trimmed c) (trim_end_twice s)

trim_twice : (s : Str) → trim (trim s) ≡ trim s
unfolding trim
trim_twice s =
    ap trim_end (trim_start-trim_end (trim_start s))
    ∙ (trim_end_twice (trim_start (trim_start s)) ∙ ap trim_end (trim_start_twice s))

-- What the code makes of a name, it makes of the result again.
pub lowered_twice : (s : Str) → to_lowercase (trim (to_lowercase (trim s))) ≡ to_lowercase (trim s)
lowered_twice s =
    ap to_lowercase (trim-to_lowercase (trim s) ∙ ap to_lowercase (trim_twice s))
    ∙ to_lowercase_twice (trim s)

pub trim_lowered : (s : Str) → trim (to_lowercase (trim s)) ≡ to_lowercase (trim s)
trim_lowered s = trim-to_lowercase (trim s) ∙ ap to_lowercase (trim_twice s)
