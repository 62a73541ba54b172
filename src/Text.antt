-- ===== src/Text.antt =====
-- Strings of the standard library, as lists of bytes. Host names, addresses and routing patterns are
-- ASCII text, on which `to_lowercase` is the map below.
pub mod Search
pub mod Ip
pub mod Utf8
use rxcore.Prelude.{
  ℕ, zero, suc, ◌+◌, ◌-◌, List, [], ◌∷◌, map, Option, none, some, Bool, true, false, ◌&&◌, ltb, leb,
  ◌==◌, length, drop, take, if◌then◌else◌,
}
use rxcore.Prelude.Loops.{eq_bytes}

abbrev pub Str : Type 0
Str = List ℕ

-- `u8::to_ascii_lowercase`.
unfoldable pub lower : ℕ → ℕ
lower c = if leb 65 c && leb c 90 then c + 32 else c

unfoldable pub to_lowercase : Str → Str
unfolding lower
to_lowercase s = map lower s

unfoldable pub eq_ignore_ascii_case : Str → Str → Bool
unfolding lower
eq_ignore_ascii_case s t = eq_bytes (map lower s) (map lower t)

-- `str::strip_prefix`.
unfoldable pub strip_prefix : Str → Str → Option Str
strip_prefix [] s = some s
strip_prefix (p ∷ ps) [] = none
strip_prefix (p ∷ ps) (c ∷ cs) = let rest = strip_prefix ps cs in if p == c then rest else none

-- `str::ends_with`: a longer suffix has another length than the whole string.
unfoldable pub ends_with : Str → Str → Bool
unfolding eq_bytes
ends_with s suffix = eq_bytes (drop (length s - length suffix) s) suffix

abbrev pub is_some {ℓ} : {A : Type ℓ} → Option A → Bool
is_some none = false
is_some (some a) = true

-- `str::contains` of a string.
unfoldable pub contains_str : Str → Str → Bool
unfolding strip_prefix
contains_str [] p = is_some (strip_prefix p [])
contains_str (c ∷ cs) p =
    let rest = contains_str cs p in if is_some (strip_prefix p (c ∷ cs)) then true else rest

abbrev pub suc_of : Option ℕ → Option ℕ
suc_of none = none
suc_of (some n) = some (suc n)

-- `str::find` and `str::rfind` of a byte.
unfoldable pub find : ℕ → Str → Option ℕ
find b [] = none
find b (c ∷ cs) = let rest = suc_of (find b cs) in if c == b then some 0 else rest

unfoldable pub rfind : ℕ → Str → Option ℕ
rfind b [] = none
rfind b (c ∷ cs) = elim (rfind b cs) [
  | some i ↦ some (suc i)
  | none ↦ if c == b then some 0 else none
]

-- `str::split` of a byte: the parts between the separators, one more than there are separators.
abbrev onto_first : ℕ → List Str → List Str
onto_first c [] = (c ∷ []) ∷ []
onto_first c (p ∷ ps) = (c ∷ p) ∷ ps

unfoldable pub split : ℕ → Str → List Str
split sep [] = [] ∷ []
split sep (c ∷ cs) = let rest = split sep cs in if c == sep then [] ∷ rest else onto_first c rest
