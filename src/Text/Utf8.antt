-- ===== src/Text/Utf8.antt =====
-- `str::from_utf8` of the standard library as a test on bytes.
use rxcore.Prelude.{ℕ, zero, suc, [], ◌∷◌, Bool, true, false, ◌&&◌, ltb, leb, ◌==◌, if◌then◌else◌}
use rxcore.Text.{Str}

-- What the first byte of a character asks for: how many bytes more, and the bounds of the next.
pub data First : Type 0 where
  follows : (more lo hi : ℕ) → First
  invalid : First

unfoldable pub first_byte : ℕ → First
first_byte b =
    if ltb b 128
    then follows 0 0 0
    else if ltb b 194
    then invalid
    else if ltb b 224
    then follows 1 128 191
    else if b == 224
    then follows 2 160 191
    else if b == 237
    then follows 2 128 159
    else if ltb b 240
    then follows 2 128 191
    else if b == 240
    then follows 3 144 191
    else if ltb b 244
    then follows 3 128 191
    else if b == 244
    then follows 3 128 143
    else invalid

-- `more` bytes are to come, the next of them from `lo` to `hi`.
unfoldable pub utf8_from : (more lo hi : ℕ) → Str → Bool
unfolding first_byte
utf8_from zero lo hi [] = true
utf8_from (suc more) lo hi [] = false
utf8_from (suc more) lo hi (b ∷ bs) = leb lo b && (leb b hi && utf8_from more 128 191 bs)
utf8_from zero lo hi (b ∷ bs) = elim (first_byte b) [
  | invalid ↦ false
  | follows more lo' hi' ↦ utf8_from more lo' hi' bs
]

unfoldable pub is_utf8 : Str → Bool
unfolding utf8_from
is_utf8 s = utf8_from 0 0 0 s
