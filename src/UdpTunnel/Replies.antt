-- ===== src/UdpTunnel/Replies.antt =====
-- What the server sends back reaches the client's application as a SOCKS5 datagram.
use rxcore.Prelude.{
  ℕ, ◌+◌, ◌-◌, ◌<◌, ◌≤◌, ◌≡◌, refl, ap, ◌∙◌, [], ◌∷◌, ◌++◌, some, length, length-append, arith,
  drop, take-append-drop, length-drop,
}
use rxcore.Prelude.Words.{u16_to_be_bytes}
use rxcore.Text.{Str}
use rxcore.Text.Ip.{IpAddr, v4, v6}
use rxcore.Socks5.{ip, target_port, wrapped_address, from, parse_socks5_udp}
use rxcore.Socks5.Datagram.{IsAddress, header_length, parse_socks5_udp_lem}
use rxcore.UdpTunnel.{
  UdpUpstreamPacket, encode_target, frame, read_frame, encode_reply, relay_frame, relay_at,
  body_offset,
}
use rxcore.UdpTunnel.Carries.{IsPacket, body_of, read_frame-encode_frame}

abbrev reply : ℕ → IpAddr → ℕ → Str → UdpUpstreamPacket
reply assoc_id src port payload = record {
  assoc_id = assoc_id;
  target = ip src port;
  payload = payload;
}

relay_lem :
    (body : Str) (offset : ℕ)
    → offset ≤ length body
    → relay_at body (some offset) ≡ some (0 ∷ 0 ∷ 0 ∷ body, length body - offset)
unfolding relay_at
relay_lem body offset h =
    rw (take-append-drop offset body) (ground (arith, length-drop offset body))

offset_lem :
    (id : ℕ) (src : IpAddr) (port : ℕ) (payload : Str)
    → IsAddress src
    → let body = body_of (reply id src port payload) in
      (body_offset body ≡ some (header_length src - 3))
      × (length body + 3 ≡ header_length src + length payload)
unfolding body_of encode_target target_port body_offset
offset_lem id (v4 a b c d) port payload h = (refl, omega arith)
offset_lem id (v6 octets) port payload h =
    (refl, omega (arith, h, length-append octets (u16_to_be_bytes port ++ payload)))

packet_lem :
    (id : ℕ) (src : IpAddr) (port : ℕ) (payload : Str)
    → id < 65536
    → IsAddress src
    → port < 65536
    → header_length src + length payload < 65536
    → IsPacket (reply id src port payload)
unfolding encode_target
packet_lem id (v4 a b c d) port payload small h p fits = (small, p, omega (arith, fits))
packet_lem id (v6 octets) port payload small h p fits = (small, (h, p), omega (arith, h, fits))

header_long : (src : IpAddr) → 3 ≤ header_length src
header_long (v4 a b c d) = omega arith
header_long (v6 octets) = omega arith

wrapped_lem :
    (id : ℕ) (src : IpAddr) (port : ℕ) (payload : Str)
    → body_of (reply id src port payload)
      ≡ wrapped_address [] (some src) ++ (u16_to_be_bytes port ++ payload)
unfolding body_of encode_target target_port wrapped_address
wrapped_lem id (v4 a b c d) port payload = refl
wrapped_lem id (v6 octets) port payload = refl

abbrev pub Delivered : Str → Str → ℕ → IpAddr → ℕ → Str → Type 0
Delivered wire rest assoc_id src port payload =
    (body : Str) × (datagram : Str) × (read_frame (wire ++ rest) ≡ frame assoc_id body rest)
    × (relay_frame body ≡ some (datagram, length payload))
    × (parse_socks5_udp datagram ≡ from src port (header_length src))
    × (drop (header_length src) datagram ≡ payload)

-- A datagram that the server receives from an address and sends back, on an association of 16 bits,
-- from a port of 16 bits and no longer than a frame can say, comes off the client's stream with that
-- association and is relayed, with as many bytes counted as it has, as a SOCKS5 datagram that gives
-- the application the same address, port and payload.
pub relay_frame-encode_reply :
    (assoc_id : ℕ) (src : IpAddr) (port : ℕ) (payload rest : Str)
    → assoc_id < 65536
    → IsAddress src
    → port < 65536
    → header_length src + length payload < 65536
    → Delivered (encode_reply assoc_id src port payload) rest assoc_id src port payload
unfolding encode_reply relay_frame
relay_frame-encode_reply assoc_id src port payload rest id is p fits =
    let packet = reply assoc_id src port payload in
    let body = body_of packet in
    let (at, len) = offset_lem assoc_id src port payload is in
    let (parsed, dropped) = parse_socks5_udp_lem src [] port payload is p in
    let wrapped = wrapped_lem assoc_id src port payload in
    (
      body,
      0 ∷ 0 ∷ 0 ∷ body,
      read_frame-encode_frame packet rest (packet_lem assoc_id src port payload id is p fits),
      rw at (
          relay_lem body (header_length src - 3) (omega (arith, len, header_long src))
          ∙ ap (λ n. some (0 ∷ 0 ∷ 0 ∷ body, n)) (omega (arith, len, header_long src))),
      ap (λ b. parse_socks5_udp (0 ∷ 0 ∷ 0 ∷ b)) wrapped ∙ parsed,
      ap (λ b. drop (header_length src) (0 ∷ 0 ∷ 0 ∷ b)) wrapped ∙ dropped,
    )
