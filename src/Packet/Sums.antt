-- ===== src/Packet/Sums.antt =====
-- Sums of words, folded: a checksum makes up for what it sums.
use rxcore.Prelude.{
  ℕ, zero, suc, ◌+◌, ◌-◌, ◌*◌, ◌/◌, ◌%◌, ◌^◌, ◌≤◌, ◌<◌, ◌≡◌, refl, ◌∙◌, List, [], ◌∷◌, ltb,
  ltb-false, ltb→lt, Bool-cases, ◌⊎◌, inl, inr, length, arith,
}
use rxcore.Prelude.Words.{IsByte, u16_from_be_bytes}
use rxcore.Prelude.Loops.{All}
use rxcore.Packet.{sum_words, fold_carries, internet_checksum}

-- The sum with no wrap-around.
abbrev pub total : List ℕ → ℕ
total [] = 0
total (last ∷ []) = u16_from_be_bytes last 0
total (hi ∷ lo ∷ rest) = u16_from_be_bytes hi lo + total rest

pub total_bound : (l : List ℕ) → All IsByte l → total l ≤ 65535 * length l
total_bound [] a = omega arith
total_bound (last ∷ []) a = omega (arith, a.0)
total_bound (hi ∷ lo ∷ rest) a = omega (arith, a.0, a.1.0, total_bound rest a.1.1)

sum_words_lem : (l : List ℕ) (sum : ℕ) → sum + total l < 2 ^ 32 → sum_words sum l ≡ sum + total l
unfolding sum_words
sum_words_lem [] sum h = omega arith
sum_words_lem (last ∷ []) sum h = omega (arith, h)
sum_words_lem (hi ∷ lo ∷ rest) sum h =
    let small : (sum + u16_from_be_bytes hi lo) % 2 ^ 32 ≡ sum + u16_from_be_bytes hi lo =
      omega (arith, h) in
    rw small (sum_words_lem rest (sum + u16_from_be_bytes hi lo) (omega (arith, h)) ∙ omega arith)

-- A number that folds to another: equal modulo 65535, and 0 only for 0.
abbrev Folds : ℕ → ℕ → Type 0
Folds n f = (q : ℕ) × (n ≡ q * 65535 + f) × (f ≤ 65535) × ((n ≡ 0) ⊎ (0 < f))

zero_or : (n : ℕ) → (n ≡ 0) ⊎ (0 < n)
zero_or zero = inl refl
zero_or (suc n) = inr (omega arith)

carry : ℕ → ℕ
carry n = n % 65536 + n / 65536

fold_lem : (n : ℕ) → n < 2 ^ 32 → Folds n (fold_carries 2 n)
unfolding fold_carries carry
fold_lem n h = elim (Bool-cases (ltb 65535 n)) [
  | inr e ↦ rw e (0, omega arith, ltb-false 65535 n e, zero_or n)
  | inl e ↦ rw e (elim (Bool-cases (ltb 65535 (carry n))) [
    | inr e2 ↦ rw e2 (
      n / 65536,
      omega arith,
      ltb-false 65535 (carry n) e2,
      inr (omega (arith, ltb→lt 65535 n e)),
    )
    | inl e2 ↦ rw e2 (
      n / 65536 + carry n / 65536,
      omega arith,
      omega (arith, h),
      inr (omega (arith, ltb→lt 65535 (carry n) e2)),
    )
  ])
]

makes_up :
    (n f c q q2 g : ℕ)
    → n ≡ q * 65535 + f
    → f ≤ 65535
    → c ≡ 65535 - f
    → n + c ≡ q2 * 65535 + g
    → g ≤ 65535
    → (n + c ≡ 0) ⊎ (0 < g)
    → g ≡ 65535
makes_up n f c q q2 g e small is e2 small2 (inl z) = absurd (omega arith)
makes_up n f c q q2 g e small is e2 small2 (inr z) = omega arith

abbrev pub complement : ℕ → ℕ
complement n = (2 ^ 32 - 1 - n) % 2 ^ 16

-- With the checksum of what it summed added, a sum has the checksum 0.
pub checksum_makes_up :
    (n : ℕ)
    → n + 65535 < 2 ^ 32
    → complement (fold_carries 2 (n + complement (fold_carries 2 n))) ≡ 0
checksum_makes_up n h =
    let (q, e, small, z) = fold_lem n (omega (arith, h)) in
    let c : complement (fold_carries 2 n) ≡ 65535 - fold_carries 2 n = omega (arith, small) in
    let (q2, e2, small2, z2) = fold_lem (n + complement (fold_carries 2 n)) (omega (arith, h, c)) in
    let whole = makes_up n (fold_carries 2 n) _ q q2 _ e small c e2 small2 z2 in
    omega (arith, whole)

zero_add : (n : ℕ) → 0 + n ≡ n
zero_add n = omega arith

pub internet_checksum_lem :
    (l : List ℕ)
    → All IsByte l
    → length l ≤ 65535
    → (internet_checksum l ≡ complement (fold_carries 2 (total l))) × (total l + 65535 < 2 ^ 32)
unfolding internet_checksum
internet_checksum_lem l a h =
    let bound = total_bound l a in
    (
      rw (sum_words_lem l 0 (omega (arith, bound, h)) ∙ zero_add (total l)) refl,
      omega (arith, bound, h),
    )
