-- ===== src/ClientHello/Extensions.antt =====
-- The parser reads back the extensions that a TLS client writes. The encoding below is that of RFC 8446, section 4.
use rxcore.Prelude.{
  ℕ, zero, suc, ◌+◌, ◌*◌, ◌/◌, ◌%◌, ◌≤◌, ◌<◌, ◌≡◌, ◌≢◌, refl, ap, ◌∙◌, List, [], ◌∷◌, ◌++◌,
  append-nil, inl, inr, Option, some, true, false, ltb, ◌==◌, length, length-append, arith,
  Bool-cases, if◌then◌else◌,
}
use rxcore.Prelude.Words.{u16_to_be_bytes}
use rxcore.Prelude.Loops.{All, take_append, drop_append}
use rxcore.Text.{Str}
use rxcore.Text.Utf8.{is_utf8}
use rxcore.ClientHello.{
  take_bytes, get_u16, name_loop, read_server_name, share_loop, read_key_share, Found,
  read_extension, is_complete, extension_loop,
}

-- The extensions that the parser reads, and any other.
pub data Extension : Type 0 where
  server_name : Str → Extension
  key_share : Str → Extension
  other : ℕ → Str → Extension

abbrev pub vec16 : Str → Str
vec16 s = u16_to_be_bytes (length s) ++ s

-- One name of type 0, or one key of group 29 (X25519).
abbrev pub type_of : Extension → ℕ
type_of (server_name s) = 0
type_of (key_share s) = 51
type_of (other n s) = n

abbrev pub body_of : Extension → Str
body_of (server_name host) = vec16 (0 ∷ vec16 host)
body_of (key_share key) = vec16 (0 ∷ 29 ∷ vec16 key)
body_of (other n s) = s

abbrev pub encode_extension : Extension → Str
encode_extension e = u16_to_be_bytes (type_of e) ++ vec16 (body_of e)

abbrev pub encode_extensions : List Extension → Str
encode_extensions [] = []
encode_extensions (e ∷ es) = encode_extension e ++ encode_extensions es

-- An extension that fits: names are UTF-8, keys have 32 bytes.
abbrev pub IsExtension : Extension → Type 0
IsExtension (server_name host) = (length host < 65000) × (is_utf8 host ≡ true)
IsExtension (key_share key) = length key ≡ 32
IsExtension (other n s) = (n < 65536) × (n ≢ 0) × (n ≢ 51) × (length s < 65536)

-- What an extension says.
abbrev pub see : Extension → Found → Found
see (server_name host) f = record f { server_name = some host }
see (key_share key) f = record f { public_key = some key }
see (other n s) f = f

-- Extensions are seen in order until both a name and a key are known.
abbrev pub see_all : List Extension → Found → Found
see_all [] f = f
see_all (e ∷ es) f = if is_complete (see e f) then see e f else see_all es (see e f)

pub u16_lem : (n : ℕ) → n < 65536 → (n / 256 % 256) * 256 + n % 256 ≡ n
u16_lem n h = omega arith

get_u16_lem : (n : ℕ) (s : Str) → n < 65536 → get_u16 (u16_to_be_bytes n ++ s) ≡ some (n, s)
get_u16_lem n s h = ap (λ m. some (m, s)) (omega arith)

pub take_bytes_lem : (n : ℕ) (p s : Str) → n ≡ length p → take_bytes n (p ++ s) ≡ some (p, s)
unfolding take_bytes
take_bytes_lem n p s h =
    let fits : ltb (length (p ++ s)) n ≡ false = fits_lem (length-append p s) in
    rw fits (rw (take_append p s n h, drop_append p s n h) refl)
  where
    fits_lem : length (p ++ s) ≡ length p + length s → ltb (length (p ++ s)) n ≡ false
    fits_lem e = ground arith

pub take_bytes_all : (n : ℕ) (s : Str) → n ≡ length s → take_bytes n s ≡ some (s, [])
take_bytes_all n s h = rw (append-nil s) at (take_bytes_lem n s [] h)

name_lem :
    (host : Str) (old : Option Str)
    → length host < 65000
    → is_utf8 host ≡ true
    → read_server_name (body_of (server_name host)) old ≡ some (some host)
unfolding read_server_name name_loop
name_lem host old h u =
    let inner = 0 ∷ vec16 host in
    rw (u16_lem (length inner) (omega arith), read_server_name)
      (rw (take_bytes_all (length inner) inner refl) (
        rw (u16_lem (length host) (omega arith), name_loop)
          (rw (take_bytes_all (length host) host refl) (rw u refl))))

key_lem :
    (key : Str) (old : Option Str)
    → length key ≡ 32
    → read_key_share (body_of (key_share key)) old ≡ some (some key)
unfolding read_key_share share_loop
key_lem key old h =
    let inner = 0 ∷ 29 ∷ vec16 key in
    rw (u16_lem (length inner) (omega arith), read_key_share)
      (rw (take_bytes_all (length inner) inner refl) (
        rw (u16_lem (length key) (omega arith), share_loop)
          (rw (take_bytes_all (length key) key refl) (rw h refl))))

read_extension_lem :
    (e : Extension) (f : Found)
    → IsExtension e
    → read_extension (type_of e) (body_of e) f ≡ some (see e f)
unfolding read_extension
read_extension_lem (server_name host) f h = rw (name_lem host f.server_name h.0 h.1) refl
read_extension_lem (key_share key) f h = rw (key_lem key f.public_key h) refl
read_extension_lem (other n s) f (small, no_name, no_key, len) = skip
  where
    zero_no : n == 0 ≡ false
    zero_no = ground arith

    key_no : n == 51 ≡ false
    key_no = ground arith

    skip : read_extension n s f ≡ some f
    skip = rw zero_no (rw key_no refl)

body_small : (e : Extension) → IsExtension e → length (body_of e) < 65536
body_small (server_name host) h = omega (arith, h.0)
body_small (key_share key) h = omega (arith, h)
body_small (other n s) h = h.3

type_small : (e : Extension) → IsExtension e → type_of e < 65536
type_small (server_name host) h = omega arith
type_small (key_share key) h = omega arith
type_small (other n s) h = h.0

-- One round of the loop on an encoded extension.
round_bytes :
    (n : ℕ) (s rest : Str) (fuel : ℕ) (f f' : Found)
    → n < 65536
    → length s < 65536
    → read_extension n s f ≡ some f'
    → extension_loop (suc fuel) ((u16_to_be_bytes n ++ vec16 s) ++ rest) f
      ≡ (if is_complete f' then some f' else extension_loop fuel rest f')
unfolding extension_loop
round_bytes n s rest fuel f f' h k e =
    rw (u16_lem (length s) k, extension_loop)
      (rw (take_bytes_lem (length s) s rest refl) (rw (u16_lem n h) (rw e refl)))

round_lem :
    (e : Extension) (rest : Str) (fuel : ℕ) (f : Found)
    → IsExtension e
    → extension_loop (suc fuel) (encode_extension e ++ rest) f
      ≡ (if is_complete (see e f) then some (see e f) else extension_loop fuel rest (see e f))
round_lem e rest fuel f h =
    round_bytes (type_of e) (body_of e) rest fuel f (see e f) (type_small e h) (body_small e h)
      (read_extension_lem e f h)

pub extension_loop_lem :
    (es : List Extension) (fuel : ℕ) (f : Found)
    → All IsExtension es
    → length es < fuel
    → extension_loop fuel (encode_extensions es) f ≡ some (see_all es f)
unfolding extension_loop
extension_loop_lem [] zero f h k = absurd (omega arith)
extension_loop_lem [] (suc fuel) f h k = refl
extension_loop_lem (e ∷ es) zero f h k = absurd (omega arith)
extension_loop_lem (e ∷ es) (suc fuel) f h k =
    round_lem e (encode_extensions es) fuel f h.0 ∙ elim (Bool-cases (is_complete (see e f))) [
      | inl c ↦ rw c refl
      | inr c ↦ rw c (extension_loop_lem es fuel (see e f) h.1 (omega arith))
    ]

pub enough_fuel : (es : List Extension) → length es ≤ length (encode_extensions es)
enough_fuel [] = omega arith
enough_fuel (e ∷ es) =
    omega (arith, enough_fuel es, length-append (encode_extension e) (encode_extensions es))
