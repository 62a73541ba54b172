-- ===== src/Endpoint/Decimal.antt =====
-- Decimal texts of 16-bit numbers are read back.
use rxcore.Prelude.{
  ℕ, zero, suc, ◌+◌, ◌-◌, ◌*◌, ◌/◌, ◌%◌, ◌<◌, ◌≤◌, ◌≡◌, refl, ap, ◌∙◌, [], ◌∷◌, ◌++◌, Option, some,
  false, ◌&&◌, leb, ltb, ◌==◌, if◌then◌else◌, arith, inl, inr, Bool-cases, ltb→lt, if_then_some,
}
use rxcore.Prelude.Loops.{All}
use rxcore.Text.{Str}
use rxcore.Endpoint.{u16_digits, u16_unsigned, parse_u16}

-- The decimal text of a number, `u16::to_string`; a digit for each unit of fuel and one more.
abbrev pub decimal_from : ℕ → ℕ → Str
decimal_from zero n = (48 + n % 10) ∷ []
decimal_from (suc fuel) n =
    let rest = decimal_from fuel (n / 10) in
    if ltb n 10 then (48 + n) ∷ [] else rest ++ (48 + n % 10) ∷ []

abbrev pub decimal : ℕ → Str
decimal n = decimal_from 4 n

some_lem : {a b : ℕ} → ◌≡◌ {A = Option ℕ} (some a) (some b) → a ≡ b
some_lem h = cc

u16_digits_snoc :
    (s : Str) (acc value d : ℕ)
    → u16_digits acc s ≡ some value
    → d < 10
    → value * 10 + d < 65536
    → u16_digits acc (s ++ (48 + d) ∷ []) ≡ some (value * 10 + d)
unfolding u16_digits
u16_digits_snoc [] acc value d h small fits = let e : acc ≡ value = some_lem h in ground arith
u16_digits_snoc (c ∷ cs) acc value d h small fits =
    let next = acc * 10 + (c - 48) in
    let (digit, h1) = if_then_some (leb 48 c && leb c 57) _ value h in
    let (room, h2) = if_then_some (leb next 65535) _ value h1 in
    rw (digit, room) (u16_digits_snoc cs next value d h2 small fits)

-- Numbers of that many digits.
abbrev bound : ℕ → ℕ
bound zero = 10
bound (suc fuel) = 10 * bound fuel

digits_lem : (fuel n : ℕ) → n < bound fuel → n < 65536 → u16_digits 0 (decimal_from fuel n) ≡ some n
unfolding u16_digits
digits_lem zero n h fits =
    u16_digits_snoc [] 0 0 (n % 10) refl (omega arith) (omega arith)
    ∙ ap (λ m. some m) (omega arith)
digits_lem (suc fuel) n h fits = elim (Bool-cases (ltb n 10)) [
  | inl e ↦
      rw e (
        u16_digits_snoc [] 0 0 n refl (ltb→lt n 10 e) (omega arith)
        ∙ ap (λ m. some m) (omega arith))
  | inr e ↦ rw e (
      u16_digits_snoc (decimal_from fuel (n / 10)) 0 (n / 10) (n % 10)
        (digits_lem fuel (n / 10) (omega arith) (omega arith)) (omega arith) (omega arith)
      ∙ ap (λ m. some m) (omega arith))
]

abbrev pub IsDigit : ℕ → Type 0
IsDigit c = (48 ≤ c) × (c ≤ 57)

All-snoc : (xs : Str) (x : ℕ) → All IsDigit xs → IsDigit x → All IsDigit (xs ++ x ∷ [])
All-snoc [] x h k = (k, tt)
All-snoc (y ∷ ys) x h k = (h.0, All-snoc ys x h.1 k)

decimal_from-AreDigits : (fuel n : ℕ) → All IsDigit (decimal_from fuel n)
decimal_from-AreDigits zero n = ((omega arith, omega arith), tt)
decimal_from-AreDigits (suc fuel) n = elim (Bool-cases (ltb n 10)) [
  | inl e ↦ rw e ((omega arith, omega (arith, ltb→lt n 10 e)), tt)
  | inr e ↦ rw e (
      All-snoc (decimal_from fuel (n / 10)) (48 + n % 10) (decimal_from-AreDigits fuel (n / 10))
        (omega arith, omega arith))
]

-- The text is not empty; its last digit.
abbrev pub EndsInDigit : Str → Type 0
EndsInDigit s = (front : Str) × (d : ℕ) × (s ≡ front ++ d ∷ []) × IsDigit d

decimal_from-EndsInDigit : (fuel n : ℕ) → EndsInDigit (decimal_from fuel n)
decimal_from-EndsInDigit zero n = ([], 48 + n % 10, refl, (omega arith, omega arith))
decimal_from-EndsInDigit (suc fuel) n = elim (Bool-cases (ltb n 10)) [
  | inl e ↦ rw e ([], 48 + n, refl, (omega arith, omega (arith, ltb→lt n 10 e)))
  | inr e ↦ rw e (decimal_from fuel (n / 10), 48 + n % 10, refl, (omega arith, omega arith))
]

pub decimal-AreDigits : (n : ℕ) → All IsDigit (decimal n)
decimal-AreDigits n = decimal_from-AreDigits 4 n

pub decimal-EndsInDigit : (n : ℕ) → EndsInDigit (decimal n)
decimal-EndsInDigit n = decimal_from-EndsInDigit 4 n

-- Reading digits that are not empty is the same with and without the test for a sign.
unsigned_lem : (s : Str) → All IsDigit s → EndsInDigit s → parse_u16 s ≡ u16_digits 0 s
unfolding parse_u16 u16_unsigned
unsigned_lem [] h (front, d, e, k) = absurd (nil_lem front e)
  where
    nil_lem : (front : Str) → ¬ (◌≡◌ {A = Str} [] (front ++ d ∷ []))
    nil_lem [] e = cc
    nil_lem (x ∷ xs) e = cc
unsigned_lem (c ∷ cs) h e = rw (sign_lem h.0) refl
  where
    sign_lem : IsDigit c → (c == 43) ≡ false
    sign_lem h = ground arith

-- A 16-bit number is read back from its decimal text.
pub parse_u16-decimal : (n : ℕ) → n < 65536 → parse_u16 (decimal n) ≡ some n
parse_u16-decimal n h =
    unsigned_lem (decimal n) (decimal-AreDigits n) (decimal-EndsInDigit n)
    ∙ digits_lem 4 n (omega arith) h
