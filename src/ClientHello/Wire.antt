-- ===== src/ClientHello/Wire.antt =====
-- The parser reads back what a TLS client writes.
use rxcore.Prelude.{
  ℕ, suc, ◌+◌, ◌-◌, ◌/◌, ◌%◌, ◌<◌, ◌≡◌, refl, sym, ◌∙◌, List, ◌∷◌, ◌++◌, none, length,
  length-append, arith,
}
use rxcore.Prelude.Loops.{All}
use rxcore.Text.{Str}
use rxcore.ClientHello.{
  ClientHelloInfo, hello, Found, parse_extensions, parse_body, parse_client_hello,
}
use rxcore.ClientHello.Extensions.{
  Extension, vec16, encode_extensions, IsExtension, see_all, u16_lem, take_bytes_lem,
  take_bytes_all, extension_loop_lem, enough_fuel,
}

-- A ClientHello as the client composes it.
pub record Hello : Type 0 where
  pub version : Str
  pub random : Str
  pub session_id : Str
  pub cipher_suites : Str
  pub compression_methods : Str
  pub extensions : List Extension

abbrev pub vec8 : Str → Str
vec8 s = length s ∷ s

abbrev pub encode_body : Hello → Str
encode_body h =
    h.version
    ++ (h.random
        ++ (vec8 h.session_id
            ++ (vec16 h.cipher_suites
                ++ (vec8 h.compression_methods ++ vec16 (encode_extensions h.extensions)))))

abbrev pub encode : Hello → Str
encode h =
    let len = length (encode_body h) in
    1 ∷ (len / 65536 % 256) ∷ (len / 256 % 256) ∷ (len % 256) ∷ encode_body h

pub record IsHello (h : Hello) : Type 0 where
  pub version_len : length h.version ≡ 2
  pub random_len : length h.random ≡ 32
  pub session_id_len : length h.session_id < 256
  pub suites_len : length h.cipher_suites < 65536
  pub methods_len : length h.compression_methods < 256
  pub extensions_len : length (encode_extensions h.extensions) < 65536
  pub extensions_fit : All IsExtension h.extensions

abbrev pub nothing_found : Found
nothing_found = record { public_key = none; server_name = none }

abbrev pub info_of : Hello → ClientHelloInfo
info_of h = record {
  session_id = h.session_id;
  session_id_offset = 39;
  client_random = h.random;
  public_key = (see_all h.extensions nothing_found).public_key;
  server_name = (see_all h.extensions nothing_found).server_name;
}

parse_extensions_lem :
    (h : Hello)
    → IsHello h
    → parse_extensions h.session_id 39 h.random (vec16 (encode_extensions h.extensions))
      ≡ hello (info_of h)
unfolding parse_extensions
parse_extensions_lem h v =
    let exts = encode_extensions h.extensions in
    rw (u16_lem (length exts) v.extensions_len, parse_extensions)
      (rw (take_bytes_all (length exts) exts refl) (
        rw
          (extension_loop_lem h.extensions (suc (length exts)) nothing_found v.extensions_fit
            (omega (arith, enough_fuel h.extensions)))
          refl))

-- The rest of a body, from each field on.
abbrev from_methods : Hello → Str
from_methods h = vec8 h.compression_methods ++ vec16 (encode_extensions h.extensions)

abbrev from_suites : Hello → Str
from_suites h = vec16 h.cipher_suites ++ from_methods h

abbrev from_session : Hello → Str
from_session h = vec8 h.session_id ++ from_suites h

-- The offset is the number of bytes before the session id.
offset_lem :
    (h : Hello)
    → IsHello h
    → length (encode_body h) + 4 - length (h.session_id ++ from_suites h) ≡ 39
offset_lem h v =
    let outer : length (encode_body h) ≡ length h.version + length (h.random ++ from_session h) =
      length-append h.version (h.random ++ from_session h) in
    let inner : length (h.random ++ from_session h)
        ≡ length h.random + suc (length (h.session_id ++ from_suites h)) =
      length-append h.random (from_session h) in
    omega (arith, outer, inner, v.version_len, v.random_len)

parse_parts :
    (version random session_id suites methods exts : Str) (total : ℕ)
    → length version ≡ 2
    → length random ≡ 32
    → length suites < 65536
    → parse_body total (
        version
        ++ (random
            ++ ((length session_id ∷ session_id)
                ++ (vec16 suites ++ ((length methods ∷ methods) ++ exts)))))
      ≡ parse_extensions session_id
          (total - length (session_id ++ (vec16 suites ++ ((length methods ∷ methods) ++ exts))))
          random
          exts
unfolding parse_body
parse_parts version random session_id suites methods exts total v r s =
    let after_suites = (length methods ∷ methods) ++ exts in
    let after_id = vec16 suites ++ after_suites in
    rw
      (
        take_bytes_lem 2 version (random ++ ((length session_id ∷ session_id) ++ after_id)) (sym v),
        parse_body,
      )
      (rw (take_bytes_lem 32 random ((length session_id ∷ session_id) ++ after_id) (sym r)) (
        rw (take_bytes_lem (length session_id) session_id after_id refl) (
          rw (u16_lem (length suites) s) (
            rw (take_bytes_lem (length suites) suites after_suites refl)
              (rw (take_bytes_lem (length methods) methods exts refl) refl)))))

-- Parsing an encoded ClientHello whose fields fit gives back its session id, which starts at byte 39,
-- its random bytes, and of its extensions the server name and the X25519 key: the last ones before
-- both are known.
pub parse_client_hello-encode :
    (h : Hello) → IsHello h → parse_client_hello (encode h) ≡ hello (info_of h)
unfolding parse_client_hello
parse_client_hello-encode h v =
    parse_parts h.version h.random h.session_id h.cipher_suites h.compression_methods
      (vec16 (encode_extensions h.extensions)) (length (encode_body h) + 4) v.version_len
      v.random_len v.suites_len
    ∙ rw (offset_lem h v) (parse_extensions_lem h v)
