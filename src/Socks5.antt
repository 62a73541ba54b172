-- ===== src/Socks5.antt =====
-- The datagrams of SOCKS5 UDP: the reader in `handle_socks5_connection` and `UdpTarget` of
-- target_core/src/inbound/socks5.rs, and `wrap_socks5_udp_host` and `parse_socks5_udp` of
-- target_core/src/transport/mod.rs. A datagram is the bytes that were received, so that the length
-- tests of the code are tests on what is left of it.
pub mod Datagram
pub mod Request
use rxcore.Prelude.{
  ℕ, ◌+◌, ◌%◌, ◌^◌, List, [], ◌∷◌, ◌++◌, Option, none, some, Bool, true, false, ltb, ◌==◌, length,
  take, drop, if◌then◌else◌,
}
use rxcore.Prelude.Words.{u16_from_be_bytes, u16_to_be_bytes}
use rxcore.Text.{Str}
use rxcore.Text.Utf8.{is_utf8}
use rxcore.Text.Ip.{IpAddr, v4, v6, parse_ip}

pub data UdpTarget : Type 0 where
  ip : IpAddr → (port : ℕ) → UdpTarget
  domain : Str → (port : ℕ) → UdpTarget

unfoldable pub target_port : UdpTarget → ℕ
target_port (ip addr port) = port
target_port (domain name port) = port

-- The port behind an address, and the payload behind the port.
unfoldable pub read_port : (ℕ → UdpTarget) → Str → Option (UdpTarget × Str)
read_port target (hi ∷ lo ∷ payload) = some (target (u16_from_be_bytes hi lo), payload)
read_port target _ = none

unfoldable pub ipv4_target : Str → Option (UdpTarget × Str)
unfolding read_port
ipv4_target (a ∷ b ∷ c ∷ d ∷ rest) = read_port (ip (v4 a b c d)) rest
ipv4_target _ = none

unfoldable pub read_ipv4 : Str → Option (UdpTarget × Str)
unfolding ipv4_target
read_ipv4 input = if ltb (length input) 6 then none else ipv4_target input

unfoldable pub read_ipv6 : Str → Option (UdpTarget × Str)
unfolding read_port
read_ipv6 input =
    if ltb (length input) 18 then none else read_port (ip (v6 (take 16 input))) (drop 16 input)

-- A domain behind the byte with its length; it must be UTF-8.
unfoldable pub read_domain : Str → Option (UdpTarget × Str)
unfolding read_port is_utf8
read_domain [] = none
read_domain (len ∷ input) =
    if ltb (length input) (len + 2)
    then none
    else if is_utf8 (take len input)
    then read_port (domain (take len input)) (drop len input)
    else none

unfoldable pub read_target : ℕ → Str → Option (UdpTarget × Str)
unfolding read_ipv4 read_ipv6 read_domain
read_target atyp input =
    if atyp == 1
    then read_ipv4 input
    else if atyp == 4
    then read_ipv6 input
    else if atyp == 3
    then read_domain input
    else none

-- The datagram of a client: the target and the payload, `none` where the loop goes on without it.
unfoldable pub parse_datagram : Str → Option (UdpTarget × Str)
unfolding read_target
parse_datagram (_ ∷ _ ∷ frag ∷ atyp ∷ rest) = if frag == 0 then read_target atyp rest else none
parse_datagram _ = none

-- The address of a host by its text.
unfoldable pub wrapped_address : Str → Option IpAddr → Str
wrapped_address dest_host (some (v4 a b c d)) = 1 ∷ a ∷ b ∷ c ∷ d ∷ []
wrapped_address dest_host (some (v6 octets)) = 4 ∷ octets
wrapped_address dest_host none = 3 ∷ (length dest_host % 2 ^ 8) ∷ dest_host

unfoldable pub wrap_socks5_udp_host : (dest_host : Str) (dest_port : ℕ) (payload : Str) → Str
unfolding parse_ip wrapped_address
wrap_socks5_udp_host dest_host dest_port payload =
    0
    ∷ 0
    ∷ 0
    ∷ (wrapped_address dest_host (parse_ip dest_host) ++ (u16_to_be_bytes dest_port ++ payload))

pub data Unwrapped : Type 0 where
  from : IpAddr → (port offset : ℕ) → Unwrapped
  too_short : Unwrapped
  unsupported_type : Unwrapped

-- The two bytes of the port at an offset that the length tests have covered.
unfoldable pub port_at : IpAddr → (offset : ℕ) → Str → Unwrapped
port_at addr offset (hi ∷ lo ∷ _) = from addr (u16_from_be_bytes hi lo) (offset + 2)
port_at addr offset _ = too_short

unfoldable pub unwrap_ipv4 : Str → Unwrapped
unfolding port_at
unwrap_ipv4 (a ∷ b ∷ c ∷ d ∷ rest) = port_at (v4 a b c d) 8 rest
unwrap_ipv4 _ = too_short

-- The source of a reply of a SOCKS5 proxy, and where its payload begins.
unfoldable pub parse_socks5_udp : Str → Unwrapped
unfolding unwrap_ipv4 port_at
parse_socks5_udp (_ ∷ _ ∷ _ ∷ atyp ∷ rest) =
    if atyp == 1
    then (if ltb (length rest + 4) 10 then too_short else unwrap_ipv4 rest)
    else if atyp == 4
    then (if ltb (length rest + 4) 22
        then too_short
        else port_at (v6 (take 16 rest)) 20 (drop 16 rest))
    else unsupported_type
parse_socks5_udp _ = too_short
