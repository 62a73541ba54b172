-- ===== src/Prelude/Words.antt =====
-- Machine words. Unsigned words are numbers below 2 ^ w; an i64 is an integer between -2 ^ 63 and
-- 2 ^ 63 - 1, and `wrap_i64` is the two's complement wrap-around of its arithmetic.
use Prim.Native.Nat.{ℕ, ◌+◌, ◌-◌, ◌*◌, ◌/◌, ◌%◌, ◌^◌, ◌<◌}
use mathlib.Core.List.{List, [], ◌∷◌}
use rxcore.Prelude.Tests.{ltb, if◌then◌else◌}
use rxcore.Prelude.Int.{ℤ, pos, negsuc, ◌-ℤ◌}

abbrev pub IsByte : ℕ → Type 0
IsByte b = b < 256

-- u16::from_be_bytes and u16::to_be_bytes.
abbrev pub u16_from_be_bytes : ℕ → ℕ → ℕ
u16_from_be_bytes hi lo = hi * 256 + lo

abbrev pub u16_to_be_bytes : ℕ → List ℕ
u16_to_be_bytes n = (n / 256 % 256) ∷ (n % 256) ∷ []

-- u32::from_be_bytes and u32::to_be_bytes.
abbrev pub u32_from_be_bytes : ℕ → ℕ → ℕ → ℕ → ℕ
u32_from_be_bytes a b c d = ((a * 256 + b) * 256 + c) * 256 + d

abbrev pub u32_to_be_bytes : ℕ → List ℕ
u32_to_be_bytes n = (n / 16777216 % 256) ∷ (n / 65536 % 256) ∷ (n / 256 % 256) ∷ (n % 256) ∷ []

-- `n as i64` of an unsigned 64-bit `n`.
unfoldable pub to_i64 : ℕ → ℤ
to_i64 n = if ltb (n % 2 ^ 64) (2 ^ 63) then pos (n % 2 ^ 64) else negsuc (2 ^ 64 - n % 2 ^ 64 - 1)

unfoldable pub wrap_i64 : ℤ → ℤ
unfolding to_i64
wrap_i64 (pos n) = to_i64 n
wrap_i64 (negsuc n) =
    if ltb (n % 2 ^ 64) (2 ^ 63) then negsuc (n % 2 ^ 64) else pos (2 ^ 64 - n % 2 ^ 64 - 1)

-- Wrapping subtraction, as `AtomicI64::fetch_sub` does it.
unfoldable pub sub_i64 : ℤ → ℤ → ℤ
sub_i64 a b = wrap_i64 (a -ℤ b)

-- Wrapping addition of a 64-bit counter, as `AtomicU64::fetch_add` does it.
unfoldable pub add_u64 : ℕ → ℕ → ℕ
add_u64 a b = (a + b) % 2 ^ 64
