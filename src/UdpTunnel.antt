-- ===== src/UdpTunnel.antt =====
-- The frames of the UDP tunnel: the two tasks of `run_global_vless_udp_tunnel` of
-- target_core/src/inbound/socks5.rs on the client, and `handle_multiplexed` of
-- target_core/src/outbound/udp.rs on the server. A stream is the bytes that will arrive; a read
-- beyond them fails. Both readers keep their buffer from frame to frame, but a frame too short for
-- what it says fails its length test whatever the buffer still holds, so the frame alone is kept.
pub mod Carries
pub mod Datagrams
pub mod Replies
use rxcore.Prelude.{
  ℕ, zero, suc, ◌+◌, ◌-◌, ◌%◌, ◌^◌, List, [], ◌∷◌, ◌++◌, Option, none, some, Bool, true, false,
  ◌||◌, ltb, ◌==◌, length, take, drop, if◌then◌else◌,
}
use rxcore.Prelude.Words.{u16_from_be_bytes, u16_to_be_bytes}
use rxcore.Text.{Str}
use rxcore.Text.Ip.{IpAddr, v4, v6}
use rxcore.Socks5.{
  UdpTarget, ip, domain, target_port, read_ipv4, read_ipv6, read_domain, Unwrapped, from,
  parse_socks5_udp,
}

pub record UdpUpstreamPacket : Type 0 where
  pub assoc_id : ℕ
  pub target : UdpTarget
  pub payload : Str

unfoldable pub encode_target : UdpTarget → Str
encode_target (ip (v4 a b c d) port) = 1 ∷ a ∷ b ∷ c ∷ d ∷ []
encode_target (ip (v6 octets) port) = 4 ∷ octets
encode_target (domain name port) = 3 ∷ (length name % 2 ^ 8) ∷ name

-- The body of a frame in front of the payload, and the whole frame. The length is cast to a u16.
unfoldable pub frame_head : UdpUpstreamPacket → Str
unfolding encode_target target_port
frame_head p =
    u16_to_be_bytes p.assoc_id ++ (encode_target p.target ++ u16_to_be_bytes (target_port p.target))

unfoldable pub encode_frame : UdpUpstreamPacket → Str
unfolding frame_head
encode_frame p =
    let total_len = length (frame_head p) + length p.payload in
    u16_to_be_bytes (total_len % 2 ^ 16) ++ (frame_head p ++ p.payload)

pub data Frame : Type 0 where
  frame : (assoc_id : ℕ) (body rest : Str) → Frame
  stop : Frame

-- One frame off the stream; a length below 2 or an end of the stream stops the loop.
unfoldable pub read_frame : Str → Frame
read_frame (h0 ∷ h1 ∷ a0 ∷ a1 ∷ rest) =
    let total_len = u16_from_be_bytes h0 h1 in
    if ltb total_len 2 || ltb 65535 total_len
    then stop
    else if ltb (length rest) (total_len - 2)
    then stop
    else frame (u16_from_be_bytes a0 a1) (take (total_len - 2) rest) (drop (total_len - 2) rest)
read_frame _ = stop

-- The server's reading of a body: the target and the payload, `none` where the loop goes on.
unfoldable pub parse_frame : Bool → Str → Option (UdpTarget × Str)
unfolding read_ipv4 read_ipv6 read_domain
parse_frame ipv4_only [] = none
parse_frame ipv4_only (atyp ∷ input) =
    if atyp == 1
    then read_ipv4 input
    else if atyp == 4
    then (if ipv4_only then none else read_ipv6 input)
    else if atyp == 3
    then read_domain input
    else none

abbrev push_packet : ℕ → Option (UdpTarget × Str) → List UdpUpstreamPacket → List UdpUpstreamPacket
push_packet assoc_id none later = later
push_packet assoc_id (some (target, payload)) later =
    record { assoc_id = assoc_id; target = target; payload = payload } ∷ later

unfoldable pub serve_frame : Bool → Frame → (Str → List UdpUpstreamPacket) → List UdpUpstreamPacket
unfolding parse_frame
serve_frame ipv4_only stop later = []
serve_frame ipv4_only (frame assoc_id body rest) later =
    push_packet assoc_id (parse_frame ipv4_only body) (later rest)

-- The packets that the server takes off its stream, in order. Each frame takes at least four bytes,
-- so as much fuel as there are bytes is enough.
unfoldable pub serve_frames : Bool → ℕ → Str → List UdpUpstreamPacket
unfolding read_frame serve_frame
serve_frames ipv4_only zero input = []
serve_frames ipv4_only (suc fuel) input =
    serve_frame ipv4_only (read_frame input) (λ rest. serve_frames ipv4_only fuel rest)

-- What the server sends back for a datagram from a remote address, or from a SOCKS5 proxy between.
unfoldable pub encode_reply : ℕ → IpAddr → (port : ℕ) → Str → Str
unfolding encode_frame
encode_reply assoc_id src port payload =
    encode_frame (record { assoc_id = assoc_id; target = ip src port; payload = payload })

abbrev reply_from : ℕ → Unwrapped → Str → Option Str
unfolding encode_reply
reply_from assoc_id (from src port offset) packet =
    some (encode_reply assoc_id src port (drop offset packet))
reply_from assoc_id _ packet = none

unfoldable pub downlink_frame :
    (is_socks : Bool) (assoc_id : ℕ) (remote : IpAddr) (remote_port : ℕ) → Str → Option Str
unfolding parse_socks5_udp encode_reply
downlink_frame true assoc_id remote remote_port packet =
    reply_from assoc_id (parse_socks5_udp packet) packet
downlink_frame false assoc_id remote remote_port packet =
    some (encode_reply assoc_id remote remote_port packet)

abbrev domain_offset : Str → Option ℕ
domain_offset [] = none
domain_offset (len ∷ _) = some (1 + (1 + len + 2))

-- The client's reading of a body: where the payload begins.
unfoldable pub body_offset : Str → Option ℕ
body_offset (atyp ∷ rest) =
    if atyp == 1
    then some 7
    else if atyp == 3
    then domain_offset rest
    else if atyp == 4
    then some 19
    else none
body_offset [] = none

-- The datagram that the client's application is sent, and the payload bytes that are counted.
unfoldable pub relay_at : Str → Option ℕ → Option (Str × ℕ)
relay_at body none = none
relay_at body (some offset) =
    if ltb (length body) offset
    then none
    else some (0 ∷ 0 ∷ 0 ∷ (take offset body ++ drop offset body), length (drop offset body))

unfoldable pub relay_frame : Str → Option (Str × ℕ)
unfolding body_offset relay_at
relay_frame body = relay_at body (body_offset body)
