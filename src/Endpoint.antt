-- ===== src/Endpoint.antt =====
-- The texts of endpoints and names of target_core/src/transport/mod.rs: `parse_endpoint`,
-- `build_dns_query` and `reject_ipv6_ip`. Texts are ASCII, whose white space `str::trim` takes off.
pub mod Decimal
pub mod Host
pub mod Query
use rxcore.Prelude.{
  ℕ, zero, suc, ◌+◌, ◌-◌, ◌*◌, ◌%◌, ◌^◌, List, [], ◌∷◌, ◌++◌, Option, none, some, Bool, true, false,
  ◌||◌, ◌&&◌, leb, ltb, ◌==◌, length, take, drop, if◌then◌else◌,
}
use rxcore.Prelude.Loops.{any, eq_bytes, concat}
use rxcore.Prelude.Words.{u16_to_be_bytes, u32_from_be_bytes}
use rxcore.Text.{Str, rfind, split}
use rxcore.Text.Ip.{IpAddr, v4, v6}

abbrev pub is_whitespace : ℕ → Bool
is_whitespace c = (leb 9 c && leb c 13) || (c == 32)

unfoldable pub trim_start : Str → Str
trim_start [] = []
trim_start (c ∷ cs) = let rest = trim_start cs in if is_whitespace c then rest else c ∷ cs

abbrev pub onto_trimmed : ℕ → Str → Str
onto_trimmed c [] = if is_whitespace c then [] else c ∷ []
onto_trimmed c (d ∷ ds) = c ∷ d ∷ ds

unfoldable pub trim_end : Str → Str
trim_end [] = []
trim_end (c ∷ cs) = onto_trimmed c (trim_end cs)

unfoldable pub trim : Str → Str
unfolding trim_start trim_end
trim s = trim_end (trim_start s)

-- `str::parse::<u16>`: digits, perhaps behind a plus, of a value that fits.
unfoldable pub u16_digits : ℕ → Str → Option ℕ
u16_digits acc [] = some acc
u16_digits acc (c ∷ cs) =
    let rest = u16_digits (acc * 10 + (c - 48)) cs in
    if leb 48 c && leb c 57 then (if leb (acc * 10 + (c - 48)) 65535 then rest else none) else none

unfoldable pub u16_unsigned : Str → Option ℕ
unfolding u16_digits
u16_unsigned [] = none
u16_unsigned (c ∷ cs) = u16_digits 0 (c ∷ cs)

unfoldable pub parse_u16 : Str → Option ℕ
unfolding u16_unsigned
parse_u16 [] = none
parse_u16 (c ∷ cs) = if c == 43 then u16_unsigned cs else u16_unsigned (c ∷ cs)

pub data EndpointError : Type 0 where
  empty_endpoint ipv6_rejected no_port invalid_port port_zero empty_host default_port_zero :
      EndpointError

pub data Endpoint : Type 0 where
  ok : (host : Str) (port : ℕ) → Endpoint
  error : EndpointError → Endpoint

unfoldable pub count_byte : ℕ → Str → ℕ
count_byte b [] = 0
count_byte b (c ∷ cs) = let rest = count_byte b cs in if c == b then suc rest else rest

-- The port, and then the host, of a text with a colon.
unfoldable pub with_port : Str → Option ℕ → Endpoint
unfolding trim
with_port host none = error invalid_port
with_port host (some port) =
    if port == 0
    then error port_zero
    else if length (trim host) == 0
    then error empty_host
    else ok host port

unfoldable pub split_at_colon : Str → ℕ → Option ℕ → Endpoint
unfolding parse_u16 with_port
split_at_colon input default_port none =
    if default_port == 0 then error default_port_zero else ok input default_port
split_at_colon input default_port (some colon) =
    let port_str = drop (colon + 1) input in
    if length port_str == 0
    then error no_port
    else with_port (take colon input) (parse_u16 port_str)

unfoldable pub parse_trimmed : Str → ℕ → Endpoint
unfolding count_byte rfind split_at_colon
parse_trimmed input default_port =
    if length input == 0
    then error empty_endpoint
    else if any (λ c. c == 91) input || (any (λ c. c == 93) input || ltb 1 (count_byte 58 input))
    then error ipv6_rejected
    else split_at_colon input default_port (rfind 58 input)

unfoldable pub parse_endpoint : Str → (default_port : ℕ) → Endpoint
unfolding trim parse_trimmed
parse_endpoint input default_port = parse_trimmed (trim input) default_port

unfoldable pub query_labels : List Str → Str
query_labels [] = []
query_labels (part ∷ parts) =
    let rest = query_labels parts in
    if length part == 0 then rest else ((length part % 2 ^ 8) ∷ part) ++ rest

-- A query for the A record of a name, with the id `txid`, which is drawn at random.
unfoldable pub build_dns_query : (txid : ℕ) → Str → Str
unfolding split query_labels
build_dns_query txid hostname =
    u16_to_be_bytes txid
    ++ ((1 ∷ 0 ∷ 0 ∷ 1 ∷ 0 ∷ 0 ∷ 0 ∷ 0 ∷ 0 ∷ 0 ∷ [])
        ++ (query_labels (split 46 hostname) ++ (0 ∷ 0 ∷ 1 ∷ 0 ∷ 1 ∷ [])))

abbrev last_four : List ℕ → Option IpAddr
last_four (a ∷ b ∷ c ∷ d ∷ _) = some (v4 a b c d)
last_four _ = none

-- `Ipv6Addr::to_ipv4`: of an address whose first 80 bits are zero, and whose next 16 are zero or one.
unfoldable pub to_ipv4 : List ℕ → Option IpAddr
unfolding eq_bytes
to_ipv4 octets =
    if eq_bytes (take 10 octets) (0 ∷ 0 ∷ 0 ∷ 0 ∷ 0 ∷ 0 ∷ 0 ∷ 0 ∷ 0 ∷ 0 ∷ [])
      && (eq_bytes (take 2 (drop 10 octets)) (0 ∷ 0 ∷ [])
          || eq_bytes (take 2 (drop 10 octets)) (255 ∷ 255 ∷ []))
    then last_four (drop 12 octets)
    else none

-- The IPv4 address, or an error. The log line of the code, at most one in two seconds, is left out.
unfoldable pub reject_ipv6_ip : IpAddr → (ipv4_only : Bool) → Option IpAddr
unfolding to_ipv4
reject_ipv6_ip (v4 a b c d) ipv4_only = some (v4 a b c d)
reject_ipv6_ip (v6 octets) ipv4_only = if ipv4_only then none else to_ipv4 octets
