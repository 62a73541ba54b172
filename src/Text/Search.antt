-- ===== src/Text/Search.antt =====
-- What the string functions find.
use rxcore.Prelude.{
  ℕ, zero, suc, ◌-◌, ◌≡◌, ◌≢◌, ◌↔◌, inl, inr, refl, sym, ◌∙◌, ap, subst, [], ◌∷◌, ◌++◌, Option,
  none, some, true, false, length, length-append, get_elem?, take, take-append-drop, arith,
  Bool-cases, Option-cases, ◌==◌,
}
use rxcore.Prelude.Loops.{All, eq_bytes→eq, eq_bytes_refl, drop_append}
use rxcore.Text.{Str, ends_with, find, rfind, split, suc_of}

-- A string ends with a suffix exactly when it is something followed by it.
pub ends_with_iff : (s t : Str) → (ends_with s t ≡ true) ↔ ((p : Str) × (s ≡ p ++ t))
unfolding ends_with
ends_with_iff s t = (
  λ h. (
    take (length s - length t) s,
    sym (take-append-drop (length s - length t) s)
        ∙ ap (λ l. take (length s - length t) s ++ l) (eq_bytes→eq _ _ h),
  ),
  λ (p, e).
      rw (e, drop_append p t (length (p ++ t) - length t) (omega (arith, length-append p t)))
        (eq_bytes_refl t),
)

pub get_elem?-append : (p : Str) (c : ℕ) (s : Str) → get_elem? (p ++ c ∷ s) (length p) ≡ some c
get_elem?-append [] c s = refl
get_elem?-append (x ∷ p) c s = get_elem?-append p c s

-- The byte before a tail.
pub last_before :
    (p s : Str) (n c : ℕ)
    → suc n ≡ length p
    → get_elem? (p ++ s) n ≡ some c
    → (q : Str) × (p ≡ q ++ c ∷ [])
last_before [] s n c h e = absurd (omega arith)
last_before (x ∷ []) s zero c h e = ([], ground arith)
last_before (x ∷ []) s (suc n) c h e = absurd (omega arith)
last_before (x ∷ y ∷ p) s zero c h e = absurd (omega arith)
last_before (x ∷ y ∷ p) s (suc n) c h e =
    let (q, is) = last_before (y ∷ p) s n c (omega arith) e in (x ∷ q, ap (◌∷◌ x) is)

abbrev pub Absent : ℕ → Str → Type 0
Absent b = All (λ c. c ≢ b)

pub rfind-Absent : (b : ℕ) (s : Str) → Absent b s → rfind b s ≡ none
unfolding rfind
rfind-Absent b [] a = refl
rfind-Absent b (c ∷ s) a = rw (rfind-Absent b s a.1, rfind) (ground (arith, a.0))

pub rfind_last : (b : ℕ) (p s : Str) → Absent b s → rfind b (p ++ b ∷ s) ≡ some (length p)
unfolding rfind
rfind_last b [] s a = rw (rfind-Absent b s a, rfind) (ground arith)
rfind_last b (c ∷ p) s a = rw (rfind_last b p s a, rfind) refl

pub find-Absent : (b : ℕ) (s : Str) → Absent b s → find b s ≡ none
unfolding find
find-Absent b [] a = refl
find-Absent b (c ∷ s) a = rw (find-Absent b s a.1, find) (ground (arith, a.0))

pub find_first : (b : ℕ) (p s : Str) → Absent b p → find b (p ++ b ∷ s) ≡ some (length p)
unfolding find
find_first b [] s a = ground arith
find_first b (c ∷ p) s a = rw (find_first b p s a.1, find) (ground (arith, a.0))

All-last : (P : ℕ → Type 0) (p : Str) (b : ℕ) → All P (p ++ b ∷ []) → P b
All-last P [] b a = a.0
All-last P (x ∷ p) b a = All-last P p b a.1

-- The last byte of a string lies in each of its tails.
pub last_in_tail :
    (P : ℕ → Type 0) (p q t : Str) (b c : ℕ) → p ++ b ∷ [] ≡ q ++ c ∷ t → All P (c ∷ t) → P b
last_in_tail P [] [] t b c e a = subst P (cc) a.0
last_in_tail P [] (x ∷ []) t b c e a = absurd (cc)
last_in_tail P [] (x ∷ y ∷ q) t b c e a = absurd (cc)
last_in_tail P (y ∷ p) [] t b c e a = All-last P p b (subst (All P) (cc) a.1)
last_in_tail P (y ∷ p) (x ∷ q) t b c e a = last_in_tail P p q t b c (cc) a

pub Absent-append : (b : ℕ) (p s : Str) → Absent b p → Absent b s → Absent b (p ++ s)
Absent-append b [] s h k = k
Absent-append b (c ∷ p) s h k = (h.0, Absent-append b p s h.1 k)

rfind_one : (b c : ℕ) (s : Str) → rfind b s ≡ none → c == b ≡ false → rfind b (c ∷ s) ≡ none
unfolding rfind
rfind_one b c s e f = rw (e, rfind) (rw f refl)

pub rfind_split :
    (b : ℕ) (s : Str) (idx : ℕ) → rfind b s ≡ some idx → (p : Str) × (q : Str) × (s ≡ p ++ b ∷ q)
unfolding rfind
rfind_split b [] idx h = cc
rfind_split b (c ∷ s) idx h = elim (Option-cases (rfind b s)) [
  | inl e ↦ elim (Bool-cases (c == b)) [
    | inl f ↦ ([], s, ground arith)
    | inr f ↦ cc (h, rfind_one b c s e f)
  ]
  | inr (i, e) ↦ let (p, q, is) = rfind_split b s i e in (c ∷ p, q, ap (◌∷◌ c) is)
]

-- A colon somewhere in a string is found.
pub rfind_found : (b : ℕ) (p q : Str) → (idx : ℕ) × (rfind b (p ++ b ∷ q) ≡ some idx)
unfolding rfind
rfind_found b [] q = elim (Option-cases (rfind b q)) [
  | inl e ↦ (0, rw (e, rfind) (ground arith))
  | inr (i, e) ↦ (suc i, rw (e, rfind) refl)
]
rfind_found b (c ∷ p) q = let (i, e) = rfind_found b p q in (suc i, rw (e, rfind) refl)

-- A string in which a bracket is found at 0 begins with it.
pub find_zero : (b : ℕ) (s : Str) → find b s ≡ some 0 → (rest : Str) × (s ≡ b ∷ rest)
unfolding find
find_zero b [] h = cc
find_zero b (c ∷ s) h = elim (Bool-cases (c == b)) [
  | inl e ↦ (s, ground arith)
  | inr e ↦ absurd (suc_of_zero (find b s) (rw e at h))
]
  where
    suc_of_zero : (o : Option ℕ) → ¬ (suc_of o ≡ some 0)
    suc_of_zero none h = cc
    suc_of_zero (some n) h = ground arith

-- The parts of a text.
pub split-Absent : (sep : ℕ) (s : Str) → Absent sep s → split sep s ≡ s ∷ []
unfolding split
split-Absent sep [] h = refl
split-Absent sep (c ∷ cs) h = ground (arith, split-Absent sep cs h.1, h.0)

pub split_behind :
    (sep : ℕ) (s rest : Str) → Absent sep s → split sep (s ++ sep ∷ rest) ≡ s ∷ split sep rest
unfolding split
split_behind sep [] rest h = ground arith
split_behind sep (c ∷ cs) rest h = ground (arith, split_behind sep cs rest h.1, h.0)
