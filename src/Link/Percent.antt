-- ===== src/Link/Percent.antt =====
-- Percent encoding is undone.
use rxcore.Prelude.{
  ℕ, ◌+◌, ◌/◌, ◌%◌, ◌<◌, ◌≡◌, ◌≢◌, refl, ap, ◌∙◌, [], ◌∷◌, some, Bool, true, false, ◌&&◌, ◌||◌, leb,
  ltb, ◌==◌, if◌then◌else◌, arith, inl, inr, ◌⊎◌, Bool-cases,
}
use rxcore.Prelude.Loops.{All}
use rxcore.Prelude.Words.{IsByte}
use rxcore.Text.{Str, lower}
use rxcore.Text.Search.{Absent}
use rxcore.Text.Ip.{to_digit}
use rxcore.Link.{hex_byte, decoded, len_utf8, decode_percent}

-- The unreserved characters of RFC 3986: letters, digits, `-`, `.`, `_` and `~`.
abbrev pub is_unreserved : ℕ → Bool
is_unreserved c =
    (leb 65 c && leb c 90)
    || ((leb 97 c && leb c 122)
        || ((leb 48 c && leb c 57) || ((c == 45) || ((c == 46) || ((c == 95) || (c == 126))))))

abbrev pub hex_digit : ℕ → ℕ
hex_digit d = if ltb d 10 then 48 + d else 55 + d

unfoldable pub encode_percent : Str → Str
encode_percent [] = []
encode_percent (b ∷ bs) =
    let rest = encode_percent bs in
    if is_unreserved b then b ∷ rest else 37 ∷ hex_digit (b / 16) ∷ hex_digit (b % 16) ∷ rest

to_digit-hex_digit : (d : ℕ) → d < 16 → to_digit 16 (hex_digit d) ≡ some d
unfolding to_digit lower
to_digit-hex_digit d h = ground arith

hex_digit_ne : (d : ℕ) → d < 16 → (hex_digit d == 43) ≡ false
hex_digit_ne d h = ground arith

hex_byte-hex_digit : (b : ℕ) → b < 256 → hex_byte (hex_digit (b / 16)) (hex_digit (b % 16)) ≡ some b
unfolding hex_byte
hex_byte-hex_digit b h =
    rw
      (
        hex_digit_ne (b / 16) (omega arith),
        to_digit-hex_digit (b / 16) (omega arith),
        to_digit-hex_digit (b % 16) (omega arith),
      )
      (ap (λ n. some n) (omega arith))

decode_one : (c : ℕ) (rest : Str) → c ≢ 37 → decode_percent (c ∷ rest) ≡ c ∷ decode_percent rest
unfolding decode_percent
decode_one c [] h = refl
decode_one c (x ∷ []) h = ground (arith, h)
decode_one c (x ∷ y ∷ rest) h = ground (arith, h)

ascii_lem : (c : ℕ) → c < 128 → len_utf8 c ≡ 1
unfolding len_utf8
ascii_lem c h = ground arith

hex_digit_ascii : (d : ℕ) → d < 16 → hex_digit d < 128
hex_digit_ascii d h = ground arith

decode_escape :
    (h1 h2 b : ℕ) (rest : Str)
    → h1 < 128
    → h2 < 128
    → hex_byte h1 h2 ≡ some b
    → decode_percent (37 ∷ h1 ∷ h2 ∷ rest) ≡ b ∷ decode_percent rest
unfolding decode_percent
decode_escape h1 h2 b rest a1 a2 h =
    rw (ascii_lem h1 a1, ascii_lem h2 a2) (ap (λ o. decoded h1 h2 o (decode_percent rest)) h)

unreserved_ne : (b : ℕ) → is_unreserved b ≡ true → b ≢ 37
unreserved_ne b h = ground arith

empty_lem : decode_percent [] ≡ []
unfolding decode_percent
empty_lem = refl

-- Text of characters below 256 is given back after percent encoding.
pub decode_percent-encode_percent : (s : Str) → All IsByte s → decode_percent (encode_percent s) ≡ s
unfolding encode_percent
decode_percent-encode_percent [] h = empty_lem
decode_percent-encode_percent (b ∷ bs) h = elim (Bool-cases (is_unreserved b)) [
  | inl e ↦ rw e (
      decode_one b (encode_percent bs) (unreserved_ne b e)
      ∙ ap (◌∷◌ b) (decode_percent-encode_percent bs h.1))
  | inr e ↦ rw e (
      decode_escape (hex_digit (b / 16)) (hex_digit (b % 16)) b (encode_percent bs)
        (hex_digit_ascii (b / 16) (omega (arith, h.0))) (hex_digit_ascii (b % 16) (omega arith))
        (hex_byte-hex_digit b h.0)
      ∙ ap (◌∷◌ b) (decode_percent-encode_percent bs h.1))
]

-- What percent encoding leaves is unreserved, a percent sign or a digit: no separator of a link.
abbrev pub IsSeparator : ℕ → Type 0
IsSeparator c = (c ≡ 35) ⊎ ((c ≡ 38) ⊎ ((c ≡ 61) ⊎ (c ≡ 63)))

digit_ne : (c d : ℕ) → IsSeparator c → d < 16 → hex_digit d ≢ c
digit_ne c d s h = ground arith

pub encode_percent-Absent :
    (c : ℕ) (s : Str) → IsSeparator c → All IsByte s → Absent c (encode_percent s)
unfolding encode_percent
encode_percent-Absent c [] k h = tt
encode_percent-Absent c (b ∷ bs) k h = elim (Bool-cases (is_unreserved b)) [
  | inl e ↦ rw e (plain_lem k e, encode_percent-Absent c bs k h.1)
  | inr e ↦ rw e (
    percent_lem k,
    (
      digit_ne c (b / 16) k (omega (arith, h.0)),
      (digit_ne c (b % 16) k (omega arith), encode_percent-Absent c bs k h.1),
    ),
  )
]
  where
    plain_lem : IsSeparator c → is_unreserved b ≡ true → b ≢ c
    plain_lem k e = ground arith

    percent_lem : IsSeparator c → 37 ≢ c
    percent_lem k = ground arith
