-- ===== src/Profile.antt =====
-- `RealityProfile::validate_and_normalize` and `derive_reality_public_key` of
-- target_core/src/config.rs. Texts are ASCII. The crates base64, hex and x25519_dalek are given by
-- functions.
pub mod Again
pub mod Names
pub mod Normal
use rxcore.Prelude.{
  ℕ, ◌+◌, ◌%◌, List, [], ◌∷◌, Option, none, some, Bool, true, false, ◌||◌, ltb, not, ◌==◌, length,
  if◌then◌else◌,
}
use rxcore.Prelude.Int.{ℤ}
use rxcore.Text.{Str, to_lowercase, split, is_some}
use rxcore.Text.Ip.{parse_ip}
use rxcore.Endpoint.{trim, parse_u16}

pub record RealityProfile : Type 0 where
  pub id : Str
  pub name : Str
  pub inbound_tag : Str
  pub listen : Str
  pub port : ℕ
  pub dest : Str
  pub server_names : List Str
  pub private_key : Str
  pub public_key : Str
  pub short_ids : List Str
  pub fingerprint : Str
  pub created_at : ℤ
  pub updated_at : ℤ

pub data ConfigError : Type 0 where
  empty_name empty_inbound_tag empty_listen invalid_listen empty_dest not_host_port invalid_port
        no_server_names empty_hostname no_short_ids odd_short_id invalid_short_id
        invalid_private_key wrong_key_length no_public_key :
      ConfigError

-- Base64 of the standard alphabet, hex, the public key of x25519 and base64 for URLs.
pub record Crates : Type 0 where
  pub decode_base64 : Str → Option Str
  pub decode_hex : Str → Option Str
  pub public_of : Str → Str
  pub encode_url : Str → Str

abbrev pub is_blank : Str → Bool
is_blank s = length (trim s) == 0

unfoldable pub check_parts : List Str → Option ConfigError
unfolding parse_u16 trim
check_parts (host ∷ port ∷ []) =
    if is_blank host || is_blank port
    then some not_host_port
    else if is_some (parse_u16 port)
    then none
    else some invalid_port
check_parts _ = some not_host_port

-- The tests that change nothing.
unfoldable pub check_texts : RealityProfile → Option ConfigError
unfolding check_parts parse_ip split trim
check_texts p =
    if is_blank p.name
    then some empty_name
    else if is_blank p.inbound_tag
    then some empty_inbound_tag
    else if is_blank p.listen
    then some empty_listen
    else if not (is_some (parse_ip p.listen))
    then some invalid_listen
    else if is_blank p.dest
    then some empty_dest
    else check_parts (split 58 p.dest)

-- The names up to the first that is blank are changed in any case.
abbrev pub with_name : Str → List Str × Option ConfigError → List Str × Option ConfigError
with_name name (names, failed) = (name ∷ names, failed)

unfoldable pub normalize_each_name : List Str → List Str × Option ConfigError
unfolding trim to_lowercase
normalize_each_name [] = ([], none)
normalize_each_name (name ∷ names) =
    let rest = normalize_each_name names in
    if is_blank name
    then (name ∷ names, some empty_hostname)
    else with_name (to_lowercase (trim name)) rest

unfoldable pub normalize_names : List Str → List Str × Option ConfigError
unfolding normalize_each_name
normalize_names [] = ([], some no_server_names)
normalize_names (name ∷ names) = normalize_each_name (name ∷ names)

module _ (crates : Crates) where
  -- What is wrong with a short id that is trimmed and in lower case.
  abbrev pub check_short_id : Str → Option ConfigError
  check_short_id sid =
      if ltb (length sid) 2 || (ltb 16 (length sid) || not ((length sid % 2) == 0))
      then some odd_short_id
      else if is_some (crates.decode_hex sid)
      then none
      else some invalid_short_id

  abbrev pub with_short_id :
      Str
      → List Str
      → Option ConfigError
      → List Str × Option ConfigError
      → List Str × Option ConfigError
  with_short_id sid sids none rest = with_name sid rest
  with_short_id sid sids (some e) rest = (sid ∷ sids, some e)

  unfoldable pub normalize_each_id : List Str → List Str × Option ConfigError
  unfolding trim to_lowercase
  normalize_each_id [] = ([], none)
  normalize_each_id (sid ∷ sids) =
      let lowered = to_lowercase (trim sid) in
      with_short_id lowered sids (check_short_id lowered) (normalize_each_id sids)

  unfoldable pub normalize_ids : List Str → List Str × Option ConfigError
  unfolding normalize_each_id
  normalize_ids [] = ([], some no_short_ids)
  normalize_ids (sid ∷ sids) = normalize_each_id (sid ∷ sids)

  abbrev pub or_hex : Option Str → Str → Option Str
  or_hex (some bytes) key = some bytes
  or_hex none key = crates.decode_hex key

  abbrev pub check_key : Option Str → Option ConfigError
  check_key none = some invalid_private_key
  check_key (some bytes) = if length bytes == 32 then none else some wrong_key_length

  abbrev pub public_key_of : Option Str → Option Str
  public_key_of none = none
  public_key_of (some bytes) =
      if length bytes == 32 then some (crates.encode_url (crates.public_of bytes)) else none

  unfoldable pub derive_reality_public_key : Str → Option Str
  derive_reality_public_key key = public_key_of (or_hex (crates.decode_base64 key) key)

  abbrev pub with_public : RealityProfile → Option Str → RealityProfile × Option ConfigError
  with_public p none = (p, some no_public_key)
  with_public p (some key) = (record p { public_key = key }, none)

  abbrev pub with_key : RealityProfile → Option ConfigError → RealityProfile × Option ConfigError
  with_key p (some e) = (p, some e)
  with_key p none = with_public p (derive_reality_public_key p.private_key)

  abbrev pub with_ids :
      RealityProfile → List Str × Option ConfigError → RealityProfile × Option ConfigError
  with_ids p (ids, some e) = (record p { short_ids = ids }, some e)
  with_ids p (ids, none) =
      with_key (record p { short_ids = ids })
        (check_key (or_hex (crates.decode_base64 p.private_key) p.private_key))

  abbrev pub with_names :
      RealityProfile → List Str × Option ConfigError → RealityProfile × Option ConfigError
  with_names p (names, some e) = (record p { server_names = names }, some e)
  with_names p (names, none) =
      with_ids (record p { server_names = names }) (normalize_ids p.short_ids)

  abbrev pub with_texts : RealityProfile → Option ConfigError → RealityProfile × Option ConfigError
  with_texts p (some e) = (p, some e)
  with_texts p none = with_names p (normalize_names p.server_names)

  unfoldable pub validate_and_normalize : RealityProfile → RealityProfile × Option ConfigError
  unfolding check_texts normalize_names normalize_ids derive_reality_public_key
  validate_and_normalize p = with_texts p (check_texts p)
