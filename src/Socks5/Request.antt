-- ===== src/Socks5/Request.antt =====
-- `handle_socks5_connection` of target_core/src/inbound/socks5.rs up to the dispatch of a connection or
-- the start of an association: the greeting, the request and their answers. The input is the bytes
-- that will arrive; a read beyond them is an I/O error, and writes succeed. The text of an address
-- that is handed on is kept as the address.
pub mod Client
use rxcore.Prelude.{
  ℕ, ◌+◌, List, [], ◌∷◌, ◌++◌, Bool, true, false, ◌&&◌, not, ltb, ◌==◌, length, take, drop,
  if◌then◌else◌,
}
use rxcore.Prelude.Loops.{any}
use rxcore.Prelude.Words.{u16_from_be_bytes, u16_to_be_bytes}
use rxcore.Text.{Str}
use rxcore.Text.Utf8.{is_utf8}
use rxcore.Text.Ip.{IpAddr, v4, v6}
use rxcore.Socks5.{UdpTarget, ip, domain}

pub data Socks5Error : Type 0 where
  unexpected_eof unsupported_version no_acceptable_methods invalid_version unsupported_command :
      Socks5Error
  unsupported_address_type invalid_utf8 : Socks5Error

-- What was sent, and then: the destination of a connection with the bytes that were not read, an
-- association, or an error.
pub data Outcome : Type 0 where
  dispatched : (sent : Str) (dest : UdpTarget) (unread : Str) → Outcome
  associated : (sent : Str) (dest : UdpTarget) (unread : Str) → Outcome
  failed : (sent : Str) → Socks5Error → Outcome

-- `read_exact_to_buf` for `n` bytes more than there are, handed on.
unfoldable pub read_more : Str → ℕ → Str → (Str → Str → Outcome) → Outcome
read_more sent n input k =
    if ltb (length input) n then failed sent unexpected_eof else k (take n input) (drop n input)

-- The address of the reply to UDP ASSOCIATE.
unfoldable pub associate_reply : IpAddr → (bound_port : ℕ) → Str
associate_reply (v4 a b c d) bound_port = 5 ∷ 0 ∷ 0 ∷ 1 ∷ a ∷ b ∷ c ∷ d ∷ u16_to_be_bytes bound_port
associate_reply (v6 octets) bound_port = (5 ∷ 0 ∷ 0 ∷ 4 ∷ octets) ++ u16_to_be_bytes bound_port

abbrev pub connect_reply : Str
connect_reply = 5 ∷ 0 ∷ 0 ∷ 1 ∷ 0 ∷ 0 ∷ 0 ∷ 0 ∷ 0 ∷ 0 ∷ []

abbrev pub accept_reply : Str
accept_reply = 5 ∷ 0 ∷ []

module _ (local_ip : IpAddr) (bound_port : ℕ) where
  -- Once the port is there: CONNECT is dispatched, UDP ASSOCIATE answered with the bound socket.
  unfoldable pub serve : ℕ → (ℕ → UdpTarget) → Str → Str → Outcome
  unfolding associate_reply
  serve cmd dest (hi ∷ lo ∷ _) rest =
      let target = dest (u16_from_be_bytes hi lo) in
      if cmd == 1
      then dispatched (accept_reply ++ connect_reply) target rest
      else associated (accept_reply ++ associate_reply local_ip bound_port) target rest
  serve cmd dest _ rest = failed accept_reply unexpected_eof

  unfoldable pub read_port_of : ℕ → (ℕ → UdpTarget) → Str → Outcome
  unfolding read_more serve
  read_port_of cmd dest rest = read_more accept_reply 2 rest (serve cmd dest)

  unfoldable pub ipv4_dest : ℕ → Str → Str → Outcome
  unfolding read_port_of
  ipv4_dest cmd (a ∷ b ∷ c ∷ d ∷ _) rest = read_port_of cmd (ip (v4 a b c d)) rest
  ipv4_dest cmd _ rest = failed accept_reply unexpected_eof

  unfoldable pub ipv6_dest : ℕ → Str → Str → Outcome
  unfolding read_port_of
  ipv6_dest cmd octets rest = read_port_of cmd (ip (v6 octets)) rest

  unfoldable pub domain_dest : ℕ → Str → Str → Outcome
  unfolding read_port_of is_utf8
  domain_dest cmd name rest =
      if is_utf8 name then read_port_of cmd (domain name) rest else failed accept_reply invalid_utf8

  unfoldable pub domain_length : ℕ → Str → Str → Outcome
  unfolding read_more domain_dest
  domain_length cmd (domain_len ∷ _) rest = read_more accept_reply domain_len rest (domain_dest cmd)
  domain_length cmd [] rest = failed accept_reply unexpected_eof

  unfoldable pub read_dest : (cmd atyp : ℕ) → Str → Outcome
  unfolding read_more ipv4_dest ipv6_dest domain_length
  read_dest cmd atyp rest =
      if atyp == 1
      then read_more accept_reply 4 rest (ipv4_dest cmd)
      else if atyp == 3
      then read_more accept_reply 1 rest (domain_length cmd)
      else if atyp == 4
      then read_more accept_reply 16 rest (ipv6_dest cmd)
      else failed (accept_reply ++ (5 ∷ 8 ∷ 0 ∷ 1 ∷ 0 ∷ 0 ∷ 0 ∷ 0 ∷ 0 ∷ 0 ∷ []))
          unsupported_address_type

  -- The request: version, command, a reserved byte and the type of the address.
  unfoldable pub read_request : Str → Str → Outcome
  unfolding read_dest
  read_request (version ∷ cmd ∷ _ ∷ atyp ∷ _) rest =
      if not (version == 5)
      then failed accept_reply invalid_version
      else if not (cmd == 1) && not (cmd == 3)
      then failed (accept_reply ++ (5 ∷ 7 ∷ 0 ∷ 1 ∷ 0 ∷ 0 ∷ 0 ∷ 0 ∷ 0 ∷ 0 ∷ [])) unsupported_command
      else read_dest cmd atyp rest
  read_request _ rest = failed accept_reply unexpected_eof

  -- The methods of the greeting: no authentication must be one of them.
  unfoldable pub choose_method : Str → Str → Outcome
  unfolding read_more read_request
  choose_method methods rest =
      if any (λ m. m == 0) methods
      then read_more accept_reply 4 rest read_request
      else failed (5 ∷ 255 ∷ []) no_acceptable_methods

  unfoldable pub read_greeting : Str → Str → Outcome
  unfolding read_more choose_method
  read_greeting (version ∷ nmethods ∷ _) rest =
      if not (version == 5)
      then failed [] unsupported_version
      else read_more [] nmethods rest choose_method
  read_greeting _ rest = failed [] unexpected_eof

  unfoldable pub handle_socks5_connection : Str → Outcome
  unfolding read_more read_greeting
  handle_socks5_connection input = read_more [] 2 input read_greeting
