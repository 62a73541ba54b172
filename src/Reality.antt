-- ===== src/Reality.antt =====
-- The Reality server of target_core/src/transport/reality.rs: how `accept` reads the records of a
-- ClientHello, how `verify_client_reality` decides, and what the stream behind it gives
-- (`PrefixedStream`). The cryptography of the crates is given by functions. The loops that read pieces
-- until they have what they need are the taking of so many bytes; the end of the input before that is
-- the end of the stream. The time limits are not modelled.
pub mod Records
pub mod Prefix
pub mod Names
pub mod Fragments
pub mod Verify
use rxcore.Prelude.{
  ℕ, zero, suc, ◌+◌, ◌-◌, ◌*◌, List, [], ◌∷◌, ◌++◌, map, Option, none, some, Bool, true, false,
  ◌&&◌, ◌||◌, not, leb, ltb, ◌==◌, length, take, drop, min, replicate, if◌then◌else◌,
}
use rxcore.Prelude.Loops.{eq_bytes, any}
use rxcore.Prelude.Words.{u16_from_be_bytes}
use rxcore.Text.{Str, to_lowercase, ends_with, strip_prefix, is_some}
use rxcore.ClientHello.{ClientHelloInfo, HelloResult, hello, parse_client_hello}

-- What the reading of the ClientHello ends in: all that was read, the payload of the records, and what
-- is left of the input.
pub data ReadTask : Type 0 where
  finished : (buffer handshake_payload rest : Str) → ReadTask
  closed_early : ReadTask
  invalid_length : ReadTask
  too_large : ReadTask

-- Whether the payload holds a whole ClientHello, or is none.
unfoldable pub is_whole : Str → Bool
is_whole (msg_type ∷ a ∷ b ∷ c ∷ body) =
    if msg_type == 1 then leb ((a * 256 + b) * 256 + c) (length body) else true
is_whole _ = false

-- The payload of a record of `record_len` bytes, handed on with what was read.
unfoldable pub read_payload :
    (record_len : ℕ) (buffer payload input : Str) → (Str → Str → Str → ReadTask) → ReadTask
read_payload record_len buffer payload input next =
    if (record_len == 0) || ltb 18432 record_len
    then invalid_length
    else if ltb 65536 (length payload + record_len)
    then too_large
    else if ltb (length input) record_len
    then closed_early
    else next (buffer ++ take record_len input) (payload ++ take record_len input)
        (drop record_len input)

-- The header of a record; another type than a handshake's ends the loop.
unfoldable pub read_record : (buffer payload input : Str) → (Str → Str → Str → ReadTask) → ReadTask
unfolding read_payload
read_record buffer payload (content_type ∷ major ∷ minor ∷ hi ∷ lo ∷ input) next =
    let buffer' = buffer ++ (content_type ∷ major ∷ minor ∷ hi ∷ lo ∷ []) in
    if not (content_type == 22)
    then finished buffer' payload input
    else read_payload (u16_from_be_bytes hi lo) buffer' payload input next
read_record buffer payload input next = closed_early

-- `left` of the eight records may still come.
unfoldable pub read_records : (left : ℕ) (buffer payload input : Str) → ReadTask
unfolding read_record is_whole
read_records zero buffer payload input = finished buffer payload input
read_records (suc left) buffer payload input =
    if leb 65536 (length payload)
    then finished buffer payload input
    else read_record buffer payload input λ buffer' payload' rest.
      let more = read_records left buffer' payload' rest in
      if is_whole payload' then finished buffer' payload' rest else more

unfoldable pub read_client_hello : Str → ReadTask
unfolding read_records
read_client_hello input = read_records 8 [] [] input

-- The crates' part: the key that both sides derive from the shared secret and the client's salt, and
-- the opening of the sealed session id.
pub record Crypto : Type 0 where
  pub derive : (private_key public_key salt : List ℕ) → Option (List ℕ)
  pub decrypt : (key nonce aad sealed : List ℕ) → Option (List ℕ)

pub record RealityConfig : Type 0 where
  pub private_key : List ℕ
  pub short_ids : List (List ℕ)
  pub server_names : List Str
  pub dest : Option Str

-- The session id stands as zeros in the authenticated data, as far as that goes.
unfoldable pub clear_at : (pos : ℕ) → Str → Str
clear_at pos aad = take pos aad ++ (replicate (min 32 (length aad - pos)) 0 ++ drop (pos + 32) aad)

-- Where the first short id of the configuration that the opened session id has stands in it.
unfoldable pub short_id_at : List (List ℕ) → List ℕ → Option ℕ
unfolding eq_bytes
short_id_at [] buf = none
short_id_at (sid ∷ sids) buf =
    let rest = short_id_at sids buf in
    if eq_bytes sid (take 8 (drop 4 buf))
    then some 4
    else if eq_bytes sid (take 8 (drop 8 buf))
    then some 8
    else rest

-- A stream whose first bytes were read before.
pub record PrefixedStream : Type 0 where
  pub prefix : Str
  pub position : ℕ
  pub inner : Str

unfoldable pub new_prefixed : Str → Str → PrefixedStream
new_prefixed prefix inner = record { prefix = prefix; position = 0; inner = inner }

-- A read into a buffer with room for `remaining` bytes: what it is given. Of the inner stream, which
-- gives what it likes, `ready` bytes are there.
unfoldable pub poll_read : (remaining ready : ℕ) → PrefixedStream → Str × PrefixedStream
poll_read remaining ready s =
    let left = length s.prefix - s.position in
    if ltb 0 left
    then (
      take (min remaining left) (drop s.position s.prefix),
      record s { position = s.position + min remaining left },
    )
    else (
      take (min remaining ready) s.inner,
      record s { inner = drop (min remaining ready) s.inner },
    )

-- What `accept` does with a client: the TLS handshake with the key over the stream with its prefix, the
-- fallback, which writes what was read to the destination and then copies, or an
-- error.
pub data Accept : Type 0 where
  handshake : (auth_key : List ℕ) → PrefixedStream → Accept
  fall_back : (dest : Str) (buffer rest : Str) → Accept
  rejected : Accept

abbrev key_of : Option (ℕ × List ℕ) → Option (List ℕ)
key_of none = none
key_of (some (offset, auth_key)) = some auth_key

module _ (config : RealityConfig) where
  unfoldable pub check_opened : List ℕ → Option (List ℕ) → Option (ℕ × List ℕ)
  unfolding short_id_at
  check_opened auth_key none = none
  check_opened auth_key (some buf) =
      if ltb (length buf) 16 then none else elim (short_id_at config.short_ids buf) [
        | none ↦ none
        | some offset ↦ some (offset, auth_key)
      ]

  unfoldable pub is_named : Option Str → Bool
  unfolding to_lowercase eq_bytes
  is_named none = false
  is_named (some sni) = any (λ s. eq_bytes (to_lowercase s) (to_lowercase sni)) config.server_names

  unfoldable pub sni_valid : Option Str → Bool
  unfolding is_named
  sni_valid server_name = (length config.server_names == 0) || is_named server_name

module _ (crypto : Crypto) (config : RealityConfig) where
  unfoldable pub check_key : ClientHelloInfo → Str → Option (List ℕ) → Option (ℕ × List ℕ)
  unfolding check_opened clear_at
  check_key info handshake_payload none = none
  check_key info handshake_payload (some auth_key) = check_opened config auth_key (
      crypto.decrypt auth_key (take 12 (drop 20 info.client_random))
        (clear_at info.session_id_offset handshake_payload) info.session_id)

  unfoldable pub check_public_key : ClientHelloInfo → Str → Option (List ℕ) → Option (ℕ × List ℕ)
  unfolding check_key
  check_public_key info handshake_payload none = none
  check_public_key info handshake_payload (some public_key) =
      if not (length public_key == 32)
      then none
      else check_key info handshake_payload
          (crypto.derive config.private_key public_key (take 20 info.client_random))

  unfoldable pub verify_client_reality : ClientHelloInfo → Str → Option (ℕ × List ℕ)
  unfolding check_public_key
  verify_client_reality info handshake_payload =
      if not (length info.session_id == 32)
      then none
      else check_public_key info handshake_payload info.public_key

  unfoldable pub authenticated : HelloResult → Str → Option (List ℕ)
  unfolding sni_valid verify_client_reality
  authenticated (hello info) handshake_payload =
      if sni_valid config info.server_name
      then key_of (verify_client_reality info handshake_payload)
      else none
  authenticated _ handshake_payload = none

  -- Without a key the client is passed on to the destination, with all that was read of it.
  unfoldable pub proceed : Str → Str → Option (List ℕ) → Accept
  proceed buffer rest (some auth_key) = handshake auth_key (new_prefixed buffer rest)
  proceed buffer rest none = elim config.dest [
    | none ↦ rejected
    | some dest ↦ fall_back dest buffer rest
  ]

  unfoldable pub accept_read : ReadTask → Accept
  unfolding parse_client_hello authenticated proceed
  accept_read (finished buffer payload rest) =
      proceed buffer rest (authenticated (parse_client_hello payload) payload)
  accept_read _ = rejected

  unfoldable pub accept : Str → Accept
  unfolding read_client_hello accept_read
  accept input = accept_read (read_client_hello input)

-- `name_matches_pattern`: a pattern that begins with "*." stands for one label; a label without
-- dots does not end in one.
unfoldable pub one_label : Str → Bool
one_label [] = false
one_label prefix = not (any (λ c. c == 46) prefix)

unfoldable pub name_matches_pattern : Str → Str → Bool
unfolding to_lowercase ends_with one_label eq_bytes strip_prefix
name_matches_pattern name pattern =
    let name' = to_lowercase name in
    let pattern' = to_lowercase pattern in
    let suffix = drop 1 pattern' in
    if is_some (strip_prefix (42 ∷ 46 ∷ []) pattern')
    then ends_with name' suffix && one_label (take (length name' - length suffix) name')
    else eq_bytes name' pattern'
