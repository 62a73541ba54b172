-- ===== src/Vless.antt =====
-- The request header of the VLESS protocol: `parse_vless_inbound` of
-- target_core/src/inbound/vless.rs, and the header that `VlessClientOutbound::handle` of
-- target_core/src/outbound/vless_client.rs sends. The input is the bytes that will arrive; a read
-- beyond them is an I/O error. The server's buffer grows by exactly what each read asks for, so a
-- read gives the bytes behind those that are there. The text of an address that the server hands on
-- is kept as the address.
pub mod Header
use rxcore.Prelude.{
  ℕ, zero, suc, ◌+◌, ◌-◌, ◌%◌, ◌^◌, List, [], ◌∷◌, ◌++◌, Option, none, some, Bool, true, false,
  ◌&&◌, not, ltb, ◌==◌, length, take, drop, if◌then◌else◌,
}
use rxcore.Prelude.Words.{u16_from_be_bytes, u16_to_be_bytes}
use rxcore.Text.{Str}
use rxcore.Text.Utf8.{is_utf8}
use rxcore.Text.Ip.{IpAddr, v4, v6, parse_ip}

pub data Dest : Type 0 where
  ip : IpAddr → Dest
  domain : Str → Dest

pub data VlessError : Type 0 where
  unexpected_eof : VlessError
  unsupported_version : VlessError
  invalid_uuid : VlessError
  invalid_command : VlessError
  invalid_utf8 : VlessError
  invalid_address_type : VlessError
  write_failed : VlessError

pub record Request : Type 0 where
  pub dest : Dest
  pub port : ℕ
  pub uuid : List ℕ
  pub cmd : ℕ
  pub response : List ℕ
  pub unread : Str

pub data VlessResult : Type 0 where
  accepted : Request → VlessResult
  rejected : VlessError → VlessResult

-- `read_exact_to_buf` for `n` bytes more than there are, handed on.
unfoldable pub read_exact_to_buf : ℕ → Str → (Str → Str → VlessResult) → VlessResult
read_exact_to_buf n input k =
    if ltb (length input) n then rejected unexpected_eof else k (take n input) (drop n input)

unfoldable pub utf8_domain : (Dest → Str → VlessResult) → Str → Str → VlessResult
unfolding is_utf8
utf8_domain k domain_slice rest =
    if is_utf8 domain_slice then k (domain domain_slice) rest else rejected invalid_utf8

-- A domain behind the byte with its length.
unfoldable pub read_domain : (Dest → Str → VlessResult) → Str → Str → VlessResult
unfolding read_exact_to_buf utf8_domain
read_domain k [] rest = rejected unexpected_eof
read_domain k (domain_len ∷ _) rest = read_exact_to_buf domain_len rest (utf8_domain k)

unfoldable pub ipv4_dest : (Dest → Str → VlessResult) → Str → Str → VlessResult
ipv4_dest k (a ∷ b ∷ c ∷ d ∷ _) rest = k (ip (v4 a b c d)) rest
ipv4_dest k _ rest = rejected unexpected_eof

unfoldable pub ipv6_dest : (Dest → Str → VlessResult) → Str → Str → VlessResult
ipv6_dest k octets rest = k (ip (v6 octets)) rest

-- The destination, by the type of its address.
unfoldable pub read_dest : ℕ → Str → (Dest → Str → VlessResult) → VlessResult
unfolding read_exact_to_buf read_domain ipv4_dest ipv6_dest
read_dest addr_type input k =
    if addr_type == 1
    then read_exact_to_buf 4 input (ipv4_dest k)
    else if addr_type == 2
    then read_exact_to_buf 1 input (read_domain k)
    else if addr_type == 3
    then read_exact_to_buf 16 input (ipv6_dest k)
    else rejected invalid_address_type

-- The response, once the destination is known.
unfoldable pub respond : Bool → (uuid : List ℕ) (cmd port : ℕ) → Dest → Str → VlessResult
respond false uuid cmd port dest rest = rejected write_failed
respond true uuid cmd port dest rest = accepted (record {
  dest = dest;
  port = port;
  uuid = uuid;
  cmd = cmd;
  response = 0 ∷ 0 ∷ [];
  unread = rest;
})

-- Behind the addons: command, port and type of address.
unfoldable pub read_command : Bool → List ℕ → Str → Str → VlessResult
unfolding read_dest respond
read_command write_ok uuid (cmd ∷ hi ∷ lo ∷ addr_type ∷ _) input =
    if not (cmd == 1) && not (cmd == 2)
    then rejected invalid_command
    else read_dest addr_type input (respond write_ok uuid cmd (u16_from_be_bytes hi lo))
read_command write_ok uuid _ input = rejected unexpected_eof

unfoldable pub skip_addons : Bool → List ℕ → ℕ → Str → Str → VlessResult
unfolding read_command
skip_addons write_ok uuid addon_len chunk rest =
    read_command write_ok uuid (drop addon_len chunk) rest

unfoldable pub read_addons : Bool → List ℕ → Str → Str → VlessResult
unfolding read_exact_to_buf skip_addons
read_addons write_ok uuid [] input = rejected unexpected_eof
read_addons write_ok uuid (addon_len ∷ _) input =
    read_exact_to_buf (addon_len + 4) input (skip_addons write_ok uuid addon_len)

-- Version, user and the length of the addons.
unfoldable pub read_head : (List ℕ → Bool) → Bool → Str → Str → VlessResult
unfolding read_addons
read_head is_user_allowed write_ok [] input = rejected unexpected_eof
read_head is_user_allowed write_ok (version ∷ head) input =
    let uuid = take 16 head in
    if not (version == 0)
    then rejected unsupported_version
    else if not (is_user_allowed uuid)
    then rejected invalid_uuid
    else read_addons write_ok uuid (drop 16 head) input

unfoldable pub parse_vless_inbound : (List ℕ → Bool) → Bool → Str → VlessResult
unfolding read_exact_to_buf read_head
parse_vless_inbound is_user_allowed write_ok input =
    read_exact_to_buf 18 input (read_head is_user_allowed write_ok)

-- The client's side: the address by its text, `none` for an IPv6 address in IPv4-only mode.
unfoldable pub encode_parsed : Bool → Str → Option IpAddr → Option Str
encode_parsed ipv4_only dest_addr (some (v4 a b c d)) = some (1 ∷ a ∷ b ∷ c ∷ d ∷ [])
encode_parsed ipv4_only dest_addr (some (v6 octets)) = if ipv4_only then none else some (3 ∷ octets)
encode_parsed ipv4_only dest_addr none = some (2 ∷ (length dest_addr % 2 ^ 8) ∷ dest_addr)

unfoldable pub encode_dest : Bool → Str → Option Str
unfolding parse_ip encode_parsed
encode_dest ipv4_only dest_addr = encode_parsed ipv4_only dest_addr (parse_ip dest_addr)

abbrev behind : Str → Option Str → Option Str
behind head none = none
behind head (some tail) = some (head ++ tail)

unfoldable pub encode_header :
    (ipv4_only is_udp : Bool) (uuid : List ℕ) (dest_addr : Str) (dest_port : ℕ) → Option Str
unfolding encode_dest
encode_header ipv4_only is_udp uuid dest_addr dest_port =
    behind ((0 ∷ uuid) ++ (0 ∷ (if is_udp then 2 else 1) ∷ u16_to_be_bytes dest_port))
      (encode_dest ipv4_only dest_addr)

-- The two bytes of the response, as the client reads them.
unfoldable pub response_accepted : Str → Bool
response_accepted (version ∷ addons ∷ _) = version == 0
response_accepted _ = false
