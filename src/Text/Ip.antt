-- ===== src/Text/Ip.antt =====
-- `Ipv4Addr::from_str`, `Ipv6Addr::from_str` and `IpAddr::from_str` of the standard library, which
-- the router and the proxies use, and the classes of addresses that they ask for.
use rxcore.Prelude.{
  ℕ, zero, suc, ◌+◌, ◌-◌, ◌*◌, ◌/◌, ◌%◌, List, [], ◌∷◌, ◌++◌, Option, none, some, Bool, true, false,
  ◌&&◌, ◌||◌, leb, ltb, ◌==◌, not, length, replicate, if◌then◌else◌,
}
use rxcore.Prelude.Loops.{eq_bytes}
use rxcore.Text.{Str, lower, strip_prefix}

pub data IpAddr : Type 0 where
  v4 : (a b c d : ℕ) → IpAddr
  v6 : (octets : List ℕ) → IpAddr

-- The value of a digit in a radix of 10 or 16.
unfoldable pub to_digit : ℕ → ℕ → Option ℕ
unfolding lower
to_digit radix c =
    if leb 48 c && leb c 57
    then some (c - 48)
    else if (radix == 16) && (leb 97 (lower c) && leb (lower c) 102)
    then some (lower c - 87)
    else none

-- Digits up to the first byte that is none: their number, their value, and the rest.
unfoldable pub read_digits : ℕ → ℕ → ℕ → Str → ℕ × ℕ × Str
unfolding to_digit
read_digits radix count acc [] = (count, acc, [])
read_digits radix count acc (c ∷ cs) = elim (to_digit radix c) [
  | none ↦ (count, acc, c ∷ cs)
  | some d ↦ read_digits radix (count + 1) (acc * radix + d) cs
]

abbrev starts_zero : Str → Bool
starts_zero (c ∷ cs) = c == 48
starts_zero [] = false

-- A decimal octet: one to three digits, no leading zero, below 256.
unfoldable pub read_octet : Str → Option (ℕ × Str)
unfolding read_digits
read_octet s =
    let (count, value, rest) = read_digits 10 0 0 s in
    if leb 1 count && (leb count 3 && (leb value 255 && not (starts_zero s && ltb 1 count)))
    then some (value, rest)
    else none

-- A group of one to four hexadecimal digits.
unfoldable pub read_group : Str → Option (ℕ × Str)
unfolding read_digits
read_group s =
    let (count, value, rest) = read_digits 16 0 0 s in
    if leb 1 count && leb count 4 then some (value, rest) else none

-- A separator, which the first of a sequence does not have.
unfoldable pub read_separator : ℕ → ℕ → Str → Option Str
read_separator sep zero s = some s
read_separator sep (suc i) [] = none
read_separator sep (suc i) (c ∷ cs) = if c == sep then some cs else none

abbrev then_octet : Option Str → Option (ℕ × Str)
then_octet none = none
then_octet (some s) = read_octet s

-- `left` octets, the first of which has the index `i`.
unfoldable pub read_octets : (left i : ℕ) → Str → Option (List ℕ × Str)
unfolding read_octet read_separator
read_octets zero i s = some ([], s)
read_octets (suc left) i s = elim (then_octet (read_separator 46 i s)) [
  | none ↦ none
  | some (octet, rest) ↦ elim (read_octets left (suc i) rest) [
    | none ↦ none
    | some (octets, end) ↦ some (octet ∷ octets, end)
  ]
]

abbrev then_octets : Option Str → Option (List ℕ × Str)
then_octets none = none
then_octets (some s) = read_octets 4 0 s

abbrev then_group : Option Str → Option (ℕ × Str)
then_group none = none
then_group (some s) = read_group s

-- An IPv4 address at the end of an IPv6 address takes the place of two groups.
abbrev embedded : (left i : ℕ) → Str → Option (List ℕ × Str)
unfolding read_octets
embedded zero i s = none
embedded (suc left) i s = then_octets (read_separator 58 i s)

-- Up to `left` groups as octets, and whether an IPv4 address ended them.
unfoldable pub read_groups : (left i : ℕ) → Str → List ℕ × Bool × Str
unfolding read_group read_separator read_octets
read_groups zero i s = ([], false, s)
read_groups (suc left) i s = elim (embedded left i s) [
  | some (octets, rest) ↦ (octets, true, rest)
  | none ↦ elim (then_group (read_separator 58 i s)) [
    | none ↦ ([], false, s)
    | some (group, rest) ↦
        let (octets, is_v4, end) = read_groups left (suc i) rest in
        (group / 256 ∷ group % 256 ∷ octets, is_v4, end)
  ]
]

-- What follows the `::` of an address.
abbrev read_tail : List ℕ → Option Str → Option (List ℕ × Str)
unfolding read_groups
read_tail head none = none
read_tail head (some s) =
    let (tail, is_v4, rest) = read_groups (7 - length head / 2) 0 s in
    some (head ++ replicate (16 - length head - length tail) 0 ++ tail, rest)

unfoldable pub read_ipv6 : Str → Option (List ℕ × Str)
unfolding read_groups strip_prefix
read_ipv6 s =
    let (head, is_v4, rest) = read_groups 8 0 s in
    if length head == 16
    then some (head, rest)
    else if is_v4
    then none
    else read_tail head (strip_prefix (58 ∷ 58 ∷ []) rest)

-- The whole text must be used.
abbrev as_v4 : Option (List ℕ × Str) → Option IpAddr
as_v4 (some (a ∷ b ∷ c ∷ d ∷ [], [])) = some (v4 a b c d)
as_v4 _ = none

abbrev as_v6 : Option (List ℕ × Str) → Option IpAddr
as_v6 (some (octets, [])) = some (v6 octets)
as_v6 _ = none

abbrev or_else : Option IpAddr → Option IpAddr → Option IpAddr
or_else (some ip) other = some ip
or_else none other = other

-- `str::parse::<IpAddr>`.
unfoldable pub parse_ip : Str → Option IpAddr
unfolding read_octets read_ipv6
parse_ip s = or_else (as_v4 (read_octets 4 0 s)) (as_v6 (read_ipv6 s))

-- `is_loopback`.
unfoldable pub is_loopback : IpAddr → Bool
unfolding eq_bytes
is_loopback (v4 a b c d) = a == 127
is_loopback (v6 octets) = eq_bytes octets (replicate 15 0 ++ 1 ∷ [])

-- `is_private`, `is_link_local`, `is_broadcast` and `is_documentation` of an IPv4 address.
unfoldable pub is_private : (a b : ℕ) → Bool
is_private a b = (a == 10) || (((a == 172) && (leb 16 b && leb b 31)) || ((a == 192) && (b == 168)))

unfoldable pub is_link_local : (a b : ℕ) → Bool
is_link_local a b = (a == 169) && (b == 254)

unfoldable pub is_broadcast : (a b c d : ℕ) → Bool
is_broadcast a b c d = (a == 255) && ((b == 255) && ((c == 255) && (d == 255)))

unfoldable pub is_documentation : (a b c : ℕ) → Bool
is_documentation a b c =
    ((a == 192) && ((b == 0) && (c == 2)))
    || (((a == 198) && ((b == 51) && (c == 100))) || ((a == 203) && ((b == 0) && (c == 113))))
