-- ===== src/Socks5/Datagram.antt =====
-- What `wrap_socks5_udp_host` builds, the readers of datagrams take apart.
use rxcore.Prelude.{
  ℕ, ◌+◌, ◌*◌, ◌/◌, ◌%◌, ◌^◌, ◌<◌, ◌≡◌, refl, sym, ap, ◌∙◌, List, ◌∷◌, ◌++◌, Option, none, some,
  true, false, ltb, length, length-append, arith, drop, append_assoc,
}
use rxcore.Prelude.Words.{u16_to_be_bytes}
use rxcore.Prelude.Loops.{take_append, drop_append}
use rxcore.Text.{Str}
use rxcore.Text.Utf8.{is_utf8}
use rxcore.Text.Ip.{IpAddr, v4, v6, parse_ip}
use rxcore.Socks5.{
  UdpTarget, ip, domain, read_port, read_ipv4, read_ipv6, read_domain, read_target, parse_datagram,
  wrapped_address, wrap_socks5_udp_host, from, parse_socks5_udp, port_at,
}

-- What a host and a port stand for.
abbrev pub target_of : Str → ℕ → Option IpAddr → UdpTarget
target_of host port none = domain host port
target_of host port (some addr) = ip addr port

-- A name of at most 255 bytes that is UTF-8; an IPv6 address of 16 octets.
abbrev pub Fits : Str → Option IpAddr → Type 0
Fits host none = (length host < 256) × (is_utf8 host ≡ true)
Fits host (some (v4 a b c d)) = Unit
Fits host (some (v6 octets)) = length octets ≡ 16

u16_lem : (n : ℕ) → n < 65536 → (n / 256 % 256) * 256 + n % 256 ≡ n
u16_lem n h = omega arith

read_port_lem :
    (target : ℕ → UdpTarget) (port : ℕ) (payload : Str)
    → port < 65536
    → read_port target (u16_to_be_bytes port ++ payload) ≡ some (target port, payload)
unfolding read_port
read_port_lem target port payload h = rw (u16_lem port h) refl

pub read_ipv4_lem :
    (a b c d port : ℕ) (payload : Str)
    → port < 65536
    → read_ipv4 (a ∷ b ∷ c ∷ d ∷ (u16_to_be_bytes port ++ payload))
      ≡ some (ip (v4 a b c d) port, payload)
unfolding read_ipv4
read_ipv4_lem a b c d port payload h = ground (arith, u16_lem port h)

pub read_ipv6_lem :
    (octets : List ℕ) (port : ℕ) (payload : Str)
    → length octets ≡ 16
    → port < 65536
    → read_ipv6 (octets ++ (u16_to_be_bytes port ++ payload)) ≡ some (ip (v6 octets) port, payload)
unfolding read_ipv6
read_ipv6_lem octets port payload len h =
    rw (covered_lem (length-append octets (u16_to_be_bytes port ++ payload))) (
      rw
        (
          take_append octets (u16_to_be_bytes port ++ payload) 16 (sym len),
          drop_append octets (u16_to_be_bytes port ++ payload) 16 (sym len),
        )
        (read_port_lem (ip (v6 octets)) port payload h))
  where
    covered_lem :
        length (octets ++ (u16_to_be_bytes port ++ payload))
          ≡ length octets + length (u16_to_be_bytes port ++ payload)
        → ltb (length (octets ++ (u16_to_be_bytes port ++ payload))) 18 ≡ false
    covered_lem e = ground arith

pub read_domain_lem :
    (name : Str) (port : ℕ) (payload : Str)
    → is_utf8 name ≡ true
    → port < 65536
    → read_domain (length name ∷ (name ++ (u16_to_be_bytes port ++ payload)))
      ≡ some (domain name port, payload)
unfolding read_domain
read_domain_lem name port payload u h =
    let rest = u16_to_be_bytes port ++ payload in
    rw (covered_lem (length-append name rest)) (
      rw (take_append name rest (length name) refl, drop_append name rest (length name) refl)
        (rw u (read_port_lem (domain name) port payload h)))
  where
    covered_lem :
        length (name ++ (u16_to_be_bytes port ++ payload))
          ≡ length name + length (u16_to_be_bytes port ++ payload)
        → ltb (length (name ++ (u16_to_be_bytes port ++ payload))) (length name + 2) ≡ false
    covered_lem e = ground arith

wrapped_lem :
    (host : Str) (port : ℕ) (payload : Str) (o : Option IpAddr)
    → Fits host o
    → port < 65536
    → parse_datagram (0 ∷ 0 ∷ 0 ∷ (wrapped_address host o ++ (u16_to_be_bytes port ++ payload)))
      ≡ some (target_of host port o, payload)
unfolding parse_datagram wrapped_address read_target
wrapped_lem host port payload none f h =
    let small : length host % 2 ^ 8 ≡ length host = omega (arith, f.0) in
    rw small (read_domain_lem host port payload f.1 h)
wrapped_lem host port payload (some (v4 a b c d)) f h = read_ipv4_lem a b c d port payload h
wrapped_lem host port payload (some (v6 octets)) f h = read_ipv6_lem octets port payload f h

-- A datagram that is wrapped for a host that fits and a port of 16 bits is read back as that host and
-- port, with its payload.
pub parse_datagram-wrap_socks5_udp_host :
    (host : Str) (port : ℕ) (payload : Str)
    → Fits host (parse_ip host)
    → port < 65536
    → parse_datagram (wrap_socks5_udp_host host port payload)
      ≡ some (target_of host port (parse_ip host), payload)
unfolding wrap_socks5_udp_host
parse_datagram-wrap_socks5_udp_host host port payload f h =
    wrapped_lem host port payload (parse_ip host) f h

port_at_lem :
    (addr : IpAddr) (offset port : ℕ) (payload : Str)
    → port < 65536
    → port_at addr offset (u16_to_be_bytes port ++ payload) ≡ from addr port (offset + 2)
unfolding port_at
port_at_lem addr offset port payload h = rw (u16_lem port h) refl

-- The length of an address with its type, and of the header in front of the payload.
abbrev pub header_length : IpAddr → ℕ
header_length (v4 a b c d) = 10
header_length (v6 octets) = 22

abbrev pub IsAddress : IpAddr → Type 0
IsAddress (v4 a b c d) = Unit
IsAddress (v6 octets) = length octets ≡ 16

-- Behind three bytes, an address with its type, a port and a payload give the address, the port and
-- the place of the payload.
pub parse_socks5_udp_lem :
    (addr : IpAddr) (host : Str) (port : ℕ) (payload : Str)
    → IsAddress addr
    → port < 65536
    → let packet =
        0 ∷ 0 ∷ 0 ∷ (wrapped_address host (some addr) ++ (u16_to_be_bytes port ++ payload)) in
      (parse_socks5_udp packet ≡ from addr port (header_length addr))
      × (drop (header_length addr) packet ≡ payload)
unfolding parse_socks5_udp wrapped_address
parse_socks5_udp_lem (v4 a b c d) host port payload f h = (ground (arith, u16_lem port h), refl)
parse_socks5_udp_lem (v6 octets) host port payload f h =
    let rest = u16_to_be_bytes port ++ payload in
    (
      rw (covered_lem (length-append octets rest)) (
          rw (take_append octets rest 16 (sym f), drop_append octets rest 16 (sym f))
            (port_at_lem (v6 octets) 20 port payload h)),
      drop_lem,
    )
  where
    covered_lem :
        length (octets ++ (u16_to_be_bytes port ++ payload))
          ≡ length octets + length (u16_to_be_bytes port ++ payload)
        → ltb (length (octets ++ (u16_to_be_bytes port ++ payload)) + 4) 22 ≡ false
    covered_lem e = ground arith

    drop_lem : drop 18 (octets ++ (u16_to_be_bytes port ++ payload)) ≡ payload
    drop_lem =
        ap (drop 18) (sym (append_assoc octets (u16_to_be_bytes port) payload))
        ∙ drop_append (octets ++ u16_to_be_bytes port) payload 18
            (omega (arith, f, length-append octets (u16_to_be_bytes port)))
