-- ===== src/UdpTunnel/Datagrams.antt =====
-- A datagram that the client accepts comes out of the tunnel as it went in.
use rxcore.Prelude.{
  ℕ, zero, suc, ◌+◌, ◌*◌, ◌<◌, ◌≤◌, ◌≡◌, ap, [], ◌∷◌, none, some, Bool, ltb, length, arith,
  if◌then◌else◌, take, drop, append-nil, length-take, length-drop, inl, inr, Bool-cases, ltb-false,
  ◌==◌, if_else_some, if_then_some, subst,
}
use rxcore.Prelude.Words.{IsByte}
use rxcore.Prelude.Loops.{All}
use rxcore.Text.{Str}
use rxcore.Text.Utf8.{is_utf8}
use rxcore.Text.Ip.{v4, v6}
use rxcore.Socks5.{
  UdpTarget, ip, domain, read_port, read_ipv4, read_ipv6, read_domain, read_target, parse_datagram,
}
use rxcore.UdpTunnel.{UdpUpstreamPacket, encode_target, encode_frame, serve_frames}
use rxcore.UdpTunnel.Carries.{IsTarget, kept, serve_frames-encode_frame}

read_port_bytes :
    (target : ℕ → UdpTarget) (input payload : Str) (t : UdpTarget)
    → read_port target input ≡ some (t, payload)
    → All IsByte input
    → (port : ℕ) × (port < 65536) × (t ≡ target port) × (length input ≡ 2 + length payload)
unfolding read_port
read_port_bytes target [] payload t e h = cc
read_port_bytes target (x ∷ []) payload t e h = cc
read_port_bytes target (hi ∷ lo ∷ rest) payload t e h =
    let (b, bs) = h in
    let same : payload ≡ rest = cc in
    (hi * 256 + lo, omega arith, cc, omega (arith, ap length same))

All-drop : (n : ℕ) (xs : Str) → All IsByte xs → All IsByte (drop n xs)
All-drop zero xs h = h
All-drop (suc n) [] h = tt
All-drop (suc n) (x ∷ xs) h = All-drop n xs h.1

-- A target that was read, with the lengths of what it was read from.
abbrev WasRead : ℕ → UdpTarget → Str → Type 0
WasRead n target payload =
    IsTarget target × (n + 1 ≡ length (encode_target target) + 2 + length payload)

ipv4_lem :
    (input payload : Str) (target : UdpTarget)
    → read_ipv4 input ≡ some (target, payload)
    → All IsByte input
    → WasRead (length input) target payload
unfolding read_ipv4 encode_target
ipv4_lem [] payload target e h = cc
ipv4_lem (a ∷ []) payload target e h = cc
ipv4_lem (a ∷ b ∷ []) payload target e h = cc
ipv4_lem (a ∷ b ∷ c ∷ []) payload target e h = cc
ipv4_lem (a ∷ b ∷ c ∷ d ∷ rest) payload target e h =
    let (_, read) =
      if_else_some (ltb (length (a ∷ b ∷ c ∷ d ∷ rest)) 6) (read_port (ip (v4 a b c d)) rest)
        (target, payload) e in
    let (port, small, is, len) =
      read_port_bytes (ip (v4 a b c d)) rest payload target read h.1.1.1.1 in
    rw is (small, omega (arith, len))

ipv6_lem :
    (input payload : Str) (target : UdpTarget)
    → read_ipv6 input ≡ some (target, payload)
    → All IsByte input
    → WasRead (length input) target payload
unfolding read_ipv6 encode_target
ipv6_lem input payload target e h =
    let octets = take 16 input in
    let (covered, read) =
      if_else_some (ltb (length input) 18) (read_port (ip (v6 octets)) (drop 16 input))
        (target, payload) e in
    let (port, small, is, len) =
      read_port_bytes (ip (v6 octets)) (drop 16 input) payload target read (All-drop 16 input h) in
    let long = ltb-false (length input) 18 covered in
    rw is (
      (omega (arith, length-take 16 input, long), small),
      omega (arith, length-take 16 input, length-drop 16 input, long, len),
    )

domain_lem :
    (input payload : Str) (target : UdpTarget)
    → read_domain input ≡ some (target, payload)
    → All IsByte input
    → WasRead (length input) target payload
unfolding read_domain encode_target
domain_lem [] payload target e h = cc
domain_lem (n ∷ input) payload target e h =
    let name = take n input in
    let inside = read_port (domain name) (drop n input) in
    let (covered, e') =
      if_else_some (ltb (length input) (n + 2)) (if is_utf8 name then inside else none)
        (target, payload) e in
    let (u, read) = if_then_some (is_utf8 name) inside (target, payload) e' in
    let (port, small, is, len) =
      read_port_bytes (domain name) (drop n input) payload target read (All-drop n input h.1) in
    let long = ltb-false (length input) (n + 2) covered in
    rw is (
      (omega (arith, length-take n input, long, h.0), u, small),
      omega (arith, length-take n input, length-drop n input, long, len),
    )

target_lem :
    (atyp : ℕ) (input payload : Str) (target : UdpTarget)
    → read_target atyp input ≡ some (target, payload)
    → All IsByte input
    → WasRead (length input) target payload
unfolding read_target
target_lem atyp input payload target e h = elim (Bool-cases (atyp == 1)) [
  | inl is ↦ ipv4_lem input payload target (ground arith) h
  | inr not_1 ↦ elim (Bool-cases (atyp == 4)) [
    | inl is ↦ ipv6_lem input payload target (ground arith) h
    | inr not_4 ↦ elim (Bool-cases (atyp == 3)) [
      | inl is ↦ domain_lem input payload target (ground arith) h
      | inr not_3 ↦ absurd (ground arith)
    ]
  ]
]

-- What is left of a datagram that is accepted: its bytes, its target, and how long both are.
datagram_lem :
    (datagram payload : Str) (target : UdpTarget)
    → parse_datagram datagram ≡ some (target, payload)
    → All IsByte datagram
    → IsTarget target × (length datagram ≡ length (encode_target target) + 5 + length payload)
unfolding parse_datagram
datagram_lem [] payload target e h = cc
datagram_lem (r ∷ []) payload target e h = cc
datagram_lem (r ∷ s ∷ []) payload target e h = cc
datagram_lem (r ∷ s ∷ frag ∷ []) payload target e h = cc
datagram_lem (r ∷ s ∷ frag ∷ atyp ∷ rest) payload target e h =
    let (_, read) = if_then_some (frag == 0) (read_target atyp rest) (target, payload) e in
    let (is, len) = target_lem atyp rest payload target read h.1.1.1.1 in (is, omega (arith, len))

-- A datagram of at most 65535 bytes that the client accepts always fits a frame, and the server reads
-- from that frame the client's association, the same target and the same payload; the one exception is
-- an IPv6 target in IPv4-only mode, which the server passes over.
pub serve_frames-parse_datagram :
    (ipv4_only : Bool) (assoc_id : ℕ) (datagram payload : Str) (target : UdpTarget)
    → assoc_id < 65536
    → All IsByte datagram
    → length datagram ≤ 65535
    → parse_datagram datagram ≡ some (target, payload)
    → let packet : UdpUpstreamPacket = record {
      assoc_id = assoc_id;
      target = target;
      payload = payload;
    } in
      serve_frames ipv4_only (length (encode_frame packet)) (encode_frame packet)
      ≡ kept ipv4_only (packet ∷ [])
serve_frames-parse_datagram ipv4_only assoc_id datagram payload target id bytes small e =
    let p : UdpUpstreamPacket = record {
      assoc_id = assoc_id;
      target = target;
      payload = payload;
    } in
    let (is, len) = datagram_lem datagram payload target e bytes in
    subst (λ wire. serve_frames ipv4_only (length wire) wire ≡ kept ipv4_only (p ∷ []))
      (append-nil (encode_frame p))
      (serve_frames-encode_frame ipv4_only (p ∷ []) ((id, is, omega (arith, len)), tt))
