-- ===== src/UdpTunnel/Carries.antt =====
-- The server takes off the stream what the client put there.
use rxcore.Prelude.{
  ℕ, zero, suc, ◌+◌, ◌-◌, ◌*◌, ◌/◌, ◌%◌, ◌^◌, ◌<◌, ◌≤◌, ◌≡◌, refl, ap, ◌∙◌, List, [], ◌∷◌, ◌++◌,
  Bool, true, false, length, length-append, arith, if◌then◌else◌, map, append_assoc,
}
use rxcore.Prelude.Words.{u16_to_be_bytes}
use rxcore.Prelude.Loops.{take_append, drop_append, All, concat}
use rxcore.Text.{Str}
use rxcore.Text.Utf8.{is_utf8}
use rxcore.Text.Ip.{v4, v6}
use rxcore.Socks5.{UdpTarget, ip, domain, target_port}
use rxcore.Socks5.Datagram.{read_ipv4_lem, read_ipv6_lem, read_domain_lem}
use rxcore.UdpTunnel.{
  UdpUpstreamPacket, encode_target, frame_head, encode_frame, frame, read_frame, parse_frame,
  serve_frames, serve_frame, push_packet,
}

-- A name of at most 255 bytes that is UTF-8, an IPv6 address of 16 octets; a port of 16 bits.
abbrev pub IsTarget : UdpTarget → Type 0
IsTarget (domain name port) = (length name < 256) × (is_utf8 name ≡ true) × (port < 65536)
IsTarget (ip (v4 a b c d) port) = port < 65536
IsTarget (ip (v6 octets) port) = (length octets ≡ 16) × (port < 65536)

-- An id of 16 bits, a target as above, and a frame whose length is not cut.
abbrev pub IsPacket : UdpUpstreamPacket → Type 0
IsPacket p =
    (p.assoc_id < 65536)
    × IsTarget p.target
    × (length (encode_target p.target) + length p.payload + 4 < 65536)

-- What the mode lets through.
unfoldable pub kept : Bool → List UdpUpstreamPacket → List UdpUpstreamPacket
kept ipv4_only [] = []
kept ipv4_only (p ∷ ps) =
    let rest = kept ipv4_only ps in
    elim p.target [
      | domain name port ↦ p ∷ rest
      | ip (v4 a b c d) port ↦ p ∷ rest
      | ip (v6 octets) port ↦ if ipv4_only then rest else p ∷ rest
    ]

length-frame_head :
    (p : UdpUpstreamPacket) → length (frame_head p) ≡ length (encode_target p.target) + 4
unfolding frame_head
length-frame_head p =
    omega (arith, length-append (encode_target p.target) (u16_to_be_bytes (target_port p.target)))

u16_lem : (n : ℕ) → n < 65536 → (n / 256 % 256) * 256 + n % 256 ≡ n
u16_lem n h = omega arith

unfoldable pub body_of : UdpUpstreamPacket → Str
unfolding encode_target target_port
body_of p = encode_target p.target ++ (u16_to_be_bytes (target_port p.target) ++ p.payload)

read_body_lem :
    (total_len assoc_id : ℕ) (body rest : Str)
    → total_len ≡ length body + 2
    → total_len < 65536
    → assoc_id < 65536
    → read_frame (u16_to_be_bytes total_len ++ (u16_to_be_bytes assoc_id ++ (body ++ rest)))
      ≡ frame assoc_id body rest
unfolding read_frame
read_body_lem total_len assoc_id body rest len fits id =
    rw (u16_lem total_len fits, u16_lem assoc_id id)
      (rw
        (
          take_append body rest (total_len - 2) (omega arith),
          drop_append body rest (total_len - 2) (omega arith),
        )
        (ground (arith, length-append body rest)))

split_lem :
    (p : UdpUpstreamPacket) (rest : Str)
    → encode_frame p ++ rest
      ≡ u16_to_be_bytes ((length (frame_head p) + length p.payload) % 65536)
        ++ (u16_to_be_bytes p.assoc_id ++ (body_of p ++ rest))
unfolding encode_frame frame_head body_of
split_lem p rest =
    ap
      (λ l.
        u16_to_be_bytes ((length (frame_head p) + length p.payload) % 65536)
        ++ (u16_to_be_bytes p.assoc_id ++ l))
      (ap (λ l. l ++ rest)
        (append_assoc (encode_target p.target) (u16_to_be_bytes (target_port p.target)) p.payload))

-- The frame of a packet is read back as its id and its body.
pub read_frame-encode_frame :
    (p : UdpUpstreamPacket) (rest : Str)
    → IsPacket p
    → read_frame (encode_frame p ++ rest) ≡ frame p.assoc_id (body_of p) rest
unfolding body_of
read_frame-encode_frame p rest h =
    ap read_frame (split_lem p rest)
    ∙ read_body_lem ((length (frame_head p) + length p.payload) % 65536) p.assoc_id (body_of p) rest
        (omega (arith, h, length-frame_head p, length_lem)) (omega arith) h.0
  where
    length_lem : length (body_of p) ≡ length (encode_target p.target) + (2 + length p.payload)
    length_lem = omega (
      arith,
      length-append (encode_target p.target) (u16_to_be_bytes (target_port p.target) ++ p.payload),
    )

body_lem :
    (ipv4_only : Bool) (id : ℕ) (target : UdpTarget) (payload : Str)
    (later : List UdpUpstreamPacket)
    → IsTarget target
    → let p : UdpUpstreamPacket = record { assoc_id = id; target = target; payload = payload } in
      push_packet id (parse_frame ipv4_only (body_of p)) (kept ipv4_only later)
      ≡ kept ipv4_only (p ∷ later)
unfolding parse_frame kept body_of
body_lem ipv4_only id (domain name port) payload later h =
    let small : length name % 2 ^ 8 ≡ length name = omega (arith, h.0) in
    rw small (rw (read_domain_lem name port payload h.1 h.2) refl)
body_lem ipv4_only id (ip (v4 a b c d) port) payload later h =
    rw (read_ipv4_lem a b c d port payload h) refl
body_lem true id (ip (v6 octets) port) payload later h = refl
body_lem false id (ip (v6 octets) port) payload later h =
    rw (read_ipv6_lem octets port payload h.0 h.1) refl

encode_frame_long : (p : UdpUpstreamPacket) → 4 ≤ length (encode_frame p)
unfolding encode_frame frame_head
encode_frame_long p = omega arith

serve_step :
    (ipv4_only : Bool) (fuel : ℕ) (input : Str) (id : ℕ) (body rest : Str)
    → read_frame input ≡ frame id body rest
    → serve_frames ipv4_only (suc fuel) input
      ≡ push_packet id (parse_frame ipv4_only body) (serve_frames ipv4_only fuel rest)
unfolding serve_frames
serve_step ipv4_only fuel input id body rest e =
    ap (λ f. serve_frame ipv4_only f (λ r. serve_frames ipv4_only fuel r)) e

serve_lem :
    (ipv4_only : Bool) (fuel : ℕ) (ps : List UdpUpstreamPacket)
    → All IsPacket ps
    → length (concat (map encode_frame ps)) ≤ fuel
    → serve_frames ipv4_only fuel (concat (map encode_frame ps)) ≡ kept ipv4_only ps
unfolding serve_frames kept
serve_lem ipv4_only zero [] h enough = refl
serve_lem ipv4_only (suc fuel) [] h enough = refl
serve_lem ipv4_only zero (p ∷ ps) h enough = absurd (
    omega
      (arith, encode_frame_long p, length-append (encode_frame p) (concat (map encode_frame ps))))
serve_lem ipv4_only (suc fuel) (p ∷ ps) h enough =
    let wire = concat (map encode_frame ps) in
    serve_step ipv4_only fuel (encode_frame p ++ wire) p.assoc_id (body_of p) wire
      (read_frame-encode_frame p wire h.0)
    ∙ rw
        (serve_lem ipv4_only fuel ps h.1
          (omega (arith, encode_frame_long p, length-append (encode_frame p) wire)))
        (body_lem ipv4_only p.assoc_id p.target p.payload ps h.0.1)

-- The server takes off its stream the packets that were sent, in order and whole, less those with an
-- IPv6 target if the mode is IPv4 only, where ids and ports have 16 bits, names at most 255 bytes,
-- and no frame is longer than its 16-bit length can say.
pub serve_frames-encode_frame :
    (ipv4_only : Bool) (ps : List UdpUpstreamPacket)
    → All IsPacket ps
    → let wire = concat (map encode_frame ps) in
      serve_frames ipv4_only (length wire) wire ≡ kept ipv4_only ps
serve_frames-encode_frame ipv4_only ps h =
    serve_lem ipv4_only (length (concat (map encode_frame ps))) ps h (omega arith)
