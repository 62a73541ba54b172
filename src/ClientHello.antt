-- ===== src/ClientHello.antt =====
-- `parse_client_hello` of target_core/src/transport/reality.rs. A cursor is the list of the bytes
-- that remain. A check of what remains and the read behind it are one step, since the one is exactly
-- what the other needs.
pub mod Extensions
pub mod Wire
pub mod Total
use rxcore.Prelude.{
  ℕ, zero, suc, ◌+◌, ◌-◌, List, [], ◌∷◌, Option, none, some, Bool, true, false, ◌&&◌, ltb, ◌==◌,
  length, take, drop, if◌then◌else◌,
}
use rxcore.Prelude.Words.{u16_from_be_bytes}
use rxcore.Text.{Str, is_some}
use rxcore.Text.Utf8.{is_utf8}

pub record ClientHelloInfo : Type 0 where
  pub session_id : List ℕ
  pub session_id_offset : ℕ
  pub client_random : List ℕ
  pub public_key : Option (List ℕ)
  pub server_name : Option Str

pub data HelloError : Type 0 where
  short_version : HelloError
  short_random : HelloError
  short_session_id_len : HelloError
  short_session_id : HelloError
  short_cipher_suites_len : HelloError
  short_cipher_suites : HelloError
  short_compression_len : HelloError
  short_compression : HelloError
  short_extensions : HelloError
  out_of_fuel : HelloError

pub data HelloResult : Type 0 where
  not_hello : HelloResult
  hello : ClientHelloInfo → HelloResult
  error : HelloError → HelloResult

unfoldable pub take_bytes : ℕ → Str → Option (Str × Str)
take_bytes n s = if ltb (length s) n then none else some (take n s, drop n s)

abbrev pub get_u8 : Str → Option (ℕ × Str)
get_u8 (b ∷ s) = some (b, s)
get_u8 [] = none

abbrev pub get_u16 : Str → Option (ℕ × Str)
get_u16 (a ∷ b ∷ s) = some (u16_from_be_bytes a b, s)
get_u16 _ = none

abbrev pub if_utf8 : Str → Option Str → Option Str
unfolding is_utf8
if_utf8 s old = if is_utf8 s then some s else old

-- The loop over the names of the server_name extension; `none` is the end of the fuel, here and in the
-- loops below.
unfoldable pub name_loop : ℕ → Str → Option Str → Option (Option Str)
unfolding take_bytes is_utf8
name_loop zero list old = none
name_loop (suc fuel) [] old = some old
name_loop (suc fuel) (name_type ∷ list) old = elim (get_u16 list) [
  | none ↦ some old
  | some (name_len, rest) ↦ elim (take_bytes name_len rest) [
    | none ↦ some old
    | some (name, later) ↦
        let next = name_loop fuel later old in
        if name_type == 0 then some (if_utf8 name old) else next
  ]
]

unfoldable pub read_server_name : Str → Option Str → Option (Option Str)
unfolding take_bytes name_loop
read_server_name ext_data old = elim (get_u16 ext_data) [
  | none ↦ some old
  | some (list_len, rest) ↦ elim (take_bytes list_len rest) [
    | none ↦ some old
    | some (list, later) ↦ name_loop (suc (length list)) list old
  ]
]

-- The loop over the key shares: the first X25519 key of 32 bytes.
unfoldable pub share_loop : ℕ → Str → Option Str → Option (Option Str)
unfolding take_bytes
share_loop zero shares old = none
share_loop (suc fuel) shares old = elim (get_u16 shares) [
  | none ↦ some old
  | some (group, s1) ↦ elim (get_u16 s1) [
    | none ↦ some old
    | some (key_len, s2) ↦ elim (take_bytes key_len s2) [
      | none ↦ some old
      | some (key, later) ↦
          let next = share_loop fuel later old in
          if (group == 29) && (key_len == 32) then some (some key) else next
    ]
  ]
]

unfoldable pub read_key_share : Str → Option Str → Option (Option Str)
unfolding take_bytes share_loop
read_key_share ext_data old = elim (get_u16 ext_data) [
  | none ↦ some old
  | some (shares_len, rest) ↦ elim (take_bytes shares_len rest) [
    | none ↦ some old
    | some (shares, later) ↦ share_loop (suc (length shares)) shares old
  ]
]

pub record Found : Type 0 where
  pub public_key : Option Str
  pub server_name : Option Str

abbrev pub found_name : Found → Option (Option Str) → Option Found
found_name f none = none
found_name f (some name) = some (record f { server_name = name })

abbrev pub found_key : Found → Option (Option Str) → Option Found
found_key f none = none
found_key f (some key) = some (record f { public_key = key })

-- One extension.
unfoldable pub read_extension : ℕ → Str → Found → Option Found
unfolding read_server_name read_key_share
read_extension ext_type ext_data f =
    if ext_type == 0
    then found_name f (read_server_name ext_data f.server_name)
    else if ext_type == 51
    then found_key f (read_key_share ext_data f.public_key)
    else some f

abbrev pub is_complete : Found → Bool
is_complete f = is_some f.public_key && is_some f.server_name

-- The loop over the extensions.
unfoldable pub extension_loop : ℕ → Str → Found → Option Found
unfolding take_bytes read_extension
extension_loop zero extensions f = none
extension_loop (suc fuel) extensions f = elim (get_u16 extensions) [
  | none ↦ some f
  | some (ext_type, s1) ↦ elim (get_u16 s1) [
    | none ↦ some f
    | some (ext_len, s2) ↦ elim (take_bytes ext_len s2) [
      | none ↦ some f
      | some (ext_data, later) ↦ elim (read_extension ext_type ext_data f) [
        | none ↦ none
        | some f' ↦
            let next = extension_loop fuel later f' in if is_complete f' then some f' else next
      ]
    ]
  ]
]

abbrev needs {ℓ} : {A : Type ℓ} → HelloError → Option A → (A → HelloResult) → HelloResult
needs e none k = error e
needs e (some a) k = k a

-- The extensions, if there are any; each round of the loop takes four bytes at least.
unfoldable pub parse_extensions : List ℕ → ℕ → List ℕ → Str → HelloResult
unfolding take_bytes extension_loop
parse_extensions session_id offset random cursor = elim (get_u16 cursor) [
  | none ↦ hello (record {
    session_id = session_id;
    session_id_offset = offset;
    client_random = random;
    public_key = none;
    server_name = none;
  })
  | some (extensions_len, s) ↦
      needs short_extensions (take_bytes extensions_len s) λ (extensions, later).
        needs out_of_fuel
          (extension_loop (suc (length extensions)) extensions
            (record { public_key = none; server_name = none }))
          λ f. hello (record {
            session_id = session_id;
            session_id_offset = offset;
            client_random = random;
            public_key = f.public_key;
            server_name = f.server_name;
          })
]

-- What follows the message's type and length.
unfoldable pub parse_body : ℕ → Str → HelloResult
unfolding take_bytes parse_extensions
parse_body payload_len cursor = needs short_version (take_bytes 2 cursor) λ (version, c1).
    needs short_random (take_bytes 32 c1) λ (random, c2).
      needs short_session_id_len (get_u8 c2) λ (session_id_len, c3).
        needs short_session_id (take_bytes session_id_len c3) λ (session_id, c4).
          needs short_cipher_suites_len (get_u16 c4) λ (cipher_suites_len, c5).
            needs short_cipher_suites (take_bytes cipher_suites_len c5) λ (suites, c6).
              needs short_compression_len (get_u8 c6) λ (compression_len, c7).
                needs short_compression (take_bytes compression_len c7)
                  λ (methods, c8). parse_extensions session_id (payload_len - length c3) random c8

unfoldable pub parse_client_hello : Str → HelloResult
unfolding parse_body
parse_client_hello (msg_type ∷ a ∷ b ∷ c ∷ cursor) =
    if msg_type == 1 then parse_body (length cursor + 4) cursor else not_hello
parse_client_hello _ = not_hello
