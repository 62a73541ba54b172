-- ===== src/Link.antt =====
-- `decode_percent` and `parse_vless_link` of src-tauri/src/main.rs. Here a text is its characters by
-- their code points. The id of a configuration is drawn at random and is left out.
pub mod Percent
pub mod Links
use rxcore.Prelude.{
  ℕ, zero, suc, ◌+◌, ◌*◌, List, [], ◌∷◌, ◌++◌, Option, none, some, Bool, true, false, ◌&&◌, ltb,
  leb, ◌==◌, length, if◌then◌else◌,
}
use rxcore.Prelude.Loops.{eq_bytes}
use rxcore.Text.{Str, split, strip_prefix}
use rxcore.Text.Ip.{to_digit}
use rxcore.Endpoint.{parse_u16}

-- `u8::from_str_radix` of two characters, the first of which may be a plus.
abbrev two_digits : Option ℕ → Option ℕ → Option ℕ
two_digits (some a) (some b) = some (a * 16 + b)
two_digits _ _ = none

unfoldable pub hex_byte : ℕ → ℕ → Option ℕ
unfolding to_digit
hex_byte h1 h2 = if h1 == 43 then to_digit 16 h2 else two_digits (to_digit 16 h1) (to_digit 16 h2)

abbrev pub decoded : ℕ → ℕ → Option ℕ → Str → Str
decoded h1 h2 none rest = 37 ∷ h1 ∷ h2 ∷ rest
decoded h1 h2 (some byte) rest = byte ∷ rest

-- The bytes of a character in UTF-8, which `String::len` counts.
unfoldable pub len_utf8 : ℕ → ℕ
len_utf8 c = if ltb c 128 then 1 else if ltb c 2048 then 2 else if ltb c 65536 then 3 else 4

-- A percent sign takes two characters of one byte, or one of two bytes, which is no number. A longer
-- character, and one that is not of one byte in the second place, is copied behind the percent sign
-- but not taken, so it comes once more. Two characters that are a byte in hexadecimal stand for the
-- character with this number.
unfoldable pub decode_percent : Str → Str
unfolding hex_byte len_utf8
decode_percent [] = []
decode_percent (c ∷ []) = c ∷ []
decode_percent (c ∷ h1 ∷ []) =
    let next = decode_percent (h1 ∷ []) in
    if c == 37 then (if leb (len_utf8 h1) 2 then 37 ∷ h1 ∷ [] else 37 ∷ h1 ∷ next) else c ∷ next
decode_percent (c ∷ h1 ∷ h2 ∷ rest) =
    let behind = decode_percent rest in
    let second = decode_percent (h2 ∷ rest) in
    let next = decode_percent (h1 ∷ h2 ∷ rest) in
    if c == 37
    then (if len_utf8 h1 == 1
        then (if len_utf8 h2 == 1
            then decoded h1 h2 (hex_byte h1 h2) behind
            else 37 ∷ h1 ∷ h2 ∷ second)
        else if len_utf8 h1 == 2
        then 37 ∷ h1 ∷ second
        else 37 ∷ h1 ∷ next)
    else c ∷ next

pub record ProxyConfig : Type 0 where
  pub name : Str
  pub server : Str
  pub port : ℕ
  pub uuid : Str
  pub sni : Str
  pub allow_insecure : Bool

-- "vless://", "VLESS Config" and "sni".
abbrev pub vless_prefix : Str
vless_prefix = 118 ∷ 108 ∷ 101 ∷ 115 ∷ 115 ∷ 58 ∷ 47 ∷ 47 ∷ []

abbrev pub default_name : Str
default_name = 86 ∷ 76 ∷ 69 ∷ 83 ∷ 83 ∷ 32 ∷ 67 ∷ 111 ∷ 110 ∷ 102 ∷ 105 ∷ 103 ∷ []

abbrev pub sni_key : Str
sni_key = 115 ∷ 110 ∷ 105 ∷ []

-- The second part of a text, if there is one.
abbrev pub second : List Str → Option Str
second (a ∷ b ∷ _) = some b
second _ = none

abbrev pub first : List Str → Str
first [] = []
first (a ∷ _) = a

abbrev pub exactly_two : List Str → Option (Str × Str)
exactly_two (a ∷ b ∷ []) = some (a, b)
exactly_two _ = none

unfoldable pub name_of : Option Str → Str
unfolding decode_percent
name_of none = default_name
name_of (some s) = decode_percent s

-- The last `sni` of the parameters counts.
unfoldable pub read_param : Option (Str × Str) → Str → Str
unfolding decode_percent eq_bytes
read_param none sni = sni
read_param (some (key, value)) sni = if eq_bytes key sni_key then decode_percent value else sni

unfoldable pub read_params : List Str → Str → Str
unfolding split read_param
read_params [] sni = sni
read_params (param ∷ params) sni =
    read_params params (read_param (exactly_two (split 61 param)) sni)

unfoldable pub query_sni : Option Str → Str
unfolding split read_params
query_sni none = []
query_sni (some query) = read_params (split 38 query) []

unfoldable pub config_of : (name uuid server : Str) (sni : Str) → Option ℕ → Option ProxyConfig
config_of name uuid server sni none = none
config_of name uuid server sni (some port) = some (record {
  name = name;
  server = server;
  port = port;
  uuid = uuid;
  sni = if length sni == 0 then server else sni;
  allow_insecure = false;
})

unfoldable pub with_server : (name uuid : Str) (sni : Str) → Option (Str × Str) → Option ProxyConfig
unfolding config_of parse_u16
with_server name uuid sni none = none
with_server name uuid sni (some (server, port)) = config_of name uuid server sni (parse_u16 port)

unfoldable pub with_user : (name : Str) (sni : Str) → Option (Str × Str) → Option ProxyConfig
unfolding with_server split
with_user name sni none = none
with_user name sni (some (uuid, host_port)) =
    with_server name uuid sni (exactly_two (split 58 host_port))

unfoldable pub parse_content : Str → Option ProxyConfig
unfolding split name_of query_sni with_user
parse_content content =
    let parts = split 35 content in
    let main_parts = split 63 (first parts) in
    with_user (name_of (second parts)) (query_sni (second main_parts))
      (exactly_two (split 64 (first main_parts)))

abbrev parse_behind : Option Str → Option ProxyConfig
unfolding parse_content
parse_behind none = none
parse_behind (some content) = parse_content content

unfoldable pub parse_vless_link : Str → Option ProxyConfig
unfolding strip_prefix parse_content
parse_vless_link link = parse_behind (strip_prefix vless_prefix link)
