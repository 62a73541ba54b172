-- ===== src/Tests/Vless.antt =====
-- The VLESS header at concrete inputs.
use rxcore.Prelude.{ℕ, ◌≡◌, refl, List, [], ◌∷◌, ◌++◌, some, true, Bool, replicate, arith}
use rxcore.Prelude.Loops.{eq_bytes}
use rxcore.Text.{Str}
use rxcore.Text.Utf8.{is_utf8}
use rxcore.Text.Ip.{parse_ip}
use rxcore.Vless.{
  domain, accepted, rejected, unsupported_version, parse_vless_inbound, encode_header,
}
use rxcore.Vless.Header.{Fits, parse_vless_inbound-encode_header}

abbrev uuid : List ℕ
uuid = replicate 16 3

abbrev is_user_allowed : List ℕ → Bool
unfolding eq_bytes
is_user_allowed id = eq_bytes id uuid

-- "a.b", port 443, over UDP.
abbrev name : Str
name = 97 ∷ 46 ∷ 98 ∷ []

abbrev header : Str
header = (0 ∷ uuid) ++ (0 ∷ 2 ∷ 1 ∷ 187 ∷ 2 ∷ 3 ∷ name)

allowed : is_user_allowed uuid ≡ true
unfolding is_user_allowed
allowed = refl

encoded : encode_header true true uuid name 443 ≡ some header
unfolding encode_header
encoded = refl

name-Fits : Fits name (parse_ip name)
unfolding parse_ip is_utf8
name-Fits = (omega arith, refl)

parse_vless_inbound-encode_header_example :
    parse_vless_inbound is_user_allowed true (header ++ 9 ∷ [])
    ≡ accepted (record {
      dest = domain name;
      port = 443;
      uuid = uuid;
      cmd = 2;
      response = 0 ∷ 0 ∷ [];
      unread = 9 ∷ [];
    })
unfolding parse_ip
parse_vless_inbound-encode_header_example =
    parse_vless_inbound-encode_header is_user_allowed true true uuid name 443 header (9 ∷ []) refl
      allowed (omega arith) name-Fits encoded

wrong_version :
    parse_vless_inbound is_user_allowed true (replicate 18 1) ≡ rejected unsupported_version
unfolding parse_vless_inbound
wrong_version = refl
