-- ===== src/Tests/Socks5.antt =====
-- SOCKS5 and the UDP tunnel at concrete inputs.
use rxcore.Prelude.{◌≡◌, refl, [], ◌∷◌, ◌++◌, some, false, inl, arith, length}
use rxcore.Prelude.Loops.{All}
use rxcore.Prelude.Words.{IsByte}
use rxcore.Text.{Str}
use rxcore.Text.Ip.{IpAddr, v4, v6, parse_ip}
use rxcore.Text.Utf8.{is_utf8}
use rxcore.Socks5.{ip, domain, parse_datagram}
use rxcore.Socks5.Datagram.{Fits}
use rxcore.Socks5.Request.{dispatched, handle_socks5_connection, failed, unsupported_command}
use rxcore.Socks5.Request.Client.{greeting, request, IsDest, handle_socks5_connection-request}
use rxcore.UdpTunnel.{UdpUpstreamPacket, encode_frame, encode_target, serve_frames}
use rxcore.UdpTunnel.Carries.{IsPacket, kept}
use rxcore.UdpTunnel.Datagrams.{serve_frames-parse_datagram}

-- "a.b" and 8.8.8.8
abbrev name : Str
name = 97 ∷ 46 ∷ 98 ∷ []

abbrev google : IpAddr
google = v4 8 8 8 8

name-Fits : Fits name (parse_ip name)
unfolding parse_ip is_utf8
name-Fits = (omega arith, refl)

abbrev datagram : Str
datagram = 0 ∷ 0 ∷ 0 ∷ 3 ∷ 3 ∷ 97 ∷ 46 ∷ 98 ∷ 1 ∷ 187 ∷ 7 ∷ []

name-IsDest : IsDest (domain name 443)
unfolding is_utf8
name-IsDest = (refl, omega arith)

handle_socks5_connection-request_example :
    handle_socks5_connection google 1080
      (greeting (0 ∷ 2 ∷ []) ++ (request 1 (domain name 443) ++ 9 ∷ []))
    ≡ dispatched (5 ∷ 0 ∷ 5 ∷ 0 ∷ 0 ∷ 1 ∷ 0 ∷ 0 ∷ 0 ∷ 0 ∷ 0 ∷ 0 ∷ []) (domain name 443) (9 ∷ [])
handle_socks5_connection-request_example =
    handle_socks5_connection-request google 1080 (0 ∷ 2 ∷ []) (9 ∷ []) 1 (domain name 443)
      (inl refl) name-IsDest

bind_refused :
    handle_socks5_connection google 1080 (5 ∷ 1 ∷ 0 ∷ 5 ∷ 2 ∷ 0 ∷ 1 ∷ [])
    ≡ failed (5 ∷ 0 ∷ 5 ∷ 7 ∷ 0 ∷ 1 ∷ 0 ∷ 0 ∷ 0 ∷ 0 ∷ 0 ∷ 0 ∷ []) unsupported_command
unfolding handle_socks5_connection
bind_refused = refl

abbrev to_name : UdpUpstreamPacket
to_name = record { assoc_id = 258; target = domain name 443; payload = 7 ∷ [] }

abbrev to_v6 : UdpUpstreamPacket
to_v6 = record {
  assoc_id = 3;
  target = ip (v6 (1 ∷ 2 ∷ 3 ∷ 4 ∷ 5 ∷ 6 ∷ 7 ∷ 8 ∷ 9 ∷ 10 ∷ 11 ∷ 12 ∷ 13 ∷ 14 ∷ 15 ∷ 16 ∷ [])) 53;
  payload = [];
}

packets-ArePackets : All IsPacket (to_name ∷ to_v6 ∷ [])
unfolding is_utf8 encode_target
packets-ArePackets = (
  (omega arith, (omega arith, refl, omega arith), omega arith),
  ((omega arith, (refl, omega arith), omega arith), tt),
)

datagram-AreBytes : All IsByte datagram
datagram-AreBytes = (
  omega arith,
  (
    omega arith,
    (
      omega arith,
      (
        omega arith,
        (
          omega arith,
          (
            omega arith,
            (omega arith, (omega arith, (omega arith, (omega arith, (omega arith, tt))))),
          ),
        ),
      ),
    ),
  ),
)

datagram_parsed : parse_datagram datagram ≡ some (domain name 443, 7 ∷ [])
unfolding parse_datagram
datagram_parsed = refl

serve_frames-parse_datagram_example :
    serve_frames false (length (encode_frame to_name)) (encode_frame to_name) ≡ to_name ∷ []
unfolding kept
serve_frames-parse_datagram_example =
    serve_frames-parse_datagram false 258 datagram (7 ∷ []) (domain name 443) (omega arith)
      datagram-AreBytes (omega arith) datagram_parsed
