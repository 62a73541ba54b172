-- ===== src/Socks5/Request/Client.antt =====
-- A client that keeps to SOCKS5 is understood.
use rxcore.Prelude.{
  ℕ, ◌+◌, ◌*◌, ◌/◌, ◌%◌, ◌<◌, ◌≡◌, refl, sym, ap, ◌∙◌, [], ◌∷◌, ◌++◌, true, false, ltb, ◌==◌,
  length, length-append, append_assoc, arith, if◌then◌else◌, ◌⊎◌, inl, inr,
}
use rxcore.Prelude.Loops.{any, take_append, drop_append}
use rxcore.Prelude.Words.{u16_to_be_bytes}
use rxcore.Text.{Str}
use rxcore.Text.Utf8.{is_utf8}
use rxcore.Text.Ip.{IpAddr, v4, v6}
use rxcore.Socks5.{UdpTarget, ip, domain, target_port}
use rxcore.Socks5.Request.{
  Outcome, dispatched, associated, read_more, associate_reply, connect_reply, accept_reply, serve,
  read_port_of, ipv4_dest, ipv6_dest, domain_dest, domain_length, read_dest, read_request,
  choose_method, read_greeting, handle_socks5_connection, failed, no_acceptable_methods,
}

-- The address of a request by RFC 1928: its type, and its bytes.
abbrev pub address_type : UdpTarget → ℕ
address_type (ip (v4 a b c d) port) = 1
address_type (domain name port) = 3
address_type (ip (v6 octets) port) = 4

abbrev pub address_bytes : UdpTarget → Str
address_bytes (ip (v4 a b c d) port) = a ∷ b ∷ c ∷ d ∷ []
address_bytes (domain name port) = length name ∷ name
address_bytes (ip (v6 octets) port) = octets

abbrev pub IsDest : UdpTarget → Type 0
IsDest (ip (v4 a b c d) port) = port < 65536
IsDest (domain name port) = (is_utf8 name ≡ true) × (port < 65536)
IsDest (ip (v6 octets) port) = (length octets ≡ 16) × (port < 65536)

-- A greeting with its methods, and a request behind it.
abbrev pub greeting : Str → Str
greeting methods = 5 ∷ length methods ∷ methods

abbrev pub request : ℕ → UdpTarget → Str
request cmd dest =
    5 ∷ cmd ∷ 0 ∷ address_type dest ∷ (address_bytes dest ++ u16_to_be_bytes (target_port dest))

read_more_lem :
    (sent : Str) (n : ℕ) (p s : Str) (k : Str → Str → Outcome)
    → n ≡ length p
    → read_more sent n (p ++ s) k ≡ k p s
unfolding read_more
read_more_lem sent n p s k h =
    rw (fits_lem (length-append p s)) (rw (take_append p s n h, drop_append p s n h) refl)
  where
    fits_lem : length (p ++ s) ≡ length p + length s → ltb (length (p ++ s)) n ≡ false
    fits_lem e = ground arith

u16_lem : (n : ℕ) → n < 65536 → (n / 256 % 256) * 256 + n % 256 ≡ n
u16_lem n h = omega arith

module _ (local_ip : IpAddr) (bound_port : ℕ) where
  -- What a command and a destination are answered with.
  abbrev pub answered : ℕ → UdpTarget → Str → Outcome
  answered cmd dest unread =
      if cmd == 1
      then dispatched (accept_reply ++ connect_reply) dest unread
      else associated (accept_reply ++ associate_reply local_ip bound_port) dest unread

  port_lem :
      (cmd port : ℕ) (dest : ℕ → UdpTarget) (rest : Str)
      → port < 65536
      → read_port_of local_ip bound_port cmd dest (u16_to_be_bytes port ++ rest)
        ≡ answered cmd (dest port) rest
  unfolding read_port_of serve
  port_lem cmd port dest rest h =
      read_more_lem accept_reply 2 (u16_to_be_bytes port) rest (serve local_ip bound_port cmd dest)
        refl
      ∙ rw (u16_lem port h) refl

  dest_lem :
      (cmd : ℕ) (dest : UdpTarget) (rest : Str)
      → IsDest dest
      → read_dest local_ip bound_port cmd
          (address_type dest)
          (address_bytes dest ++ (u16_to_be_bytes (target_port dest) ++ rest))
        ≡ answered cmd dest rest
  unfolding read_dest target_port ipv4_dest ipv6_dest domain_length domain_dest
  dest_lem cmd (ip (v4 a b c d) port) rest h =
      read_more_lem accept_reply 4 (a ∷ b ∷ c ∷ d ∷ []) (u16_to_be_bytes port ++ rest)
        (ipv4_dest local_ip bound_port cmd) refl
      ∙ port_lem cmd port (ip (v4 a b c d)) rest h
  dest_lem cmd (ip (v6 octets) port) rest h =
      read_more_lem accept_reply 16 octets (u16_to_be_bytes port ++ rest)
        (ipv6_dest local_ip bound_port cmd) (sym h.0)
      ∙ port_lem cmd port (ip (v6 octets)) rest h.1
  dest_lem cmd (domain name port) rest h =
      let behind = u16_to_be_bytes port ++ rest in
      read_more_lem accept_reply 1 (length name ∷ []) (name ++ behind)
        (domain_length local_ip bound_port cmd) refl
      ∙ (read_more_lem accept_reply (length name) name behind (domain_dest local_ip bound_port cmd)
            refl
          ∙ rw h.0 (port_lem cmd port (domain name) rest h.1))

  head_lem :
      (cmd : ℕ) (dest : UdpTarget) (rest : Str)
      → (cmd ≡ 1) ⊎ (cmd ≡ 3)
      → IsDest dest
      → read_request local_ip bound_port
          (5 ∷ cmd ∷ 0 ∷ address_type dest ∷ [])
          (address_bytes dest ++ (u16_to_be_bytes (target_port dest) ++ rest))
        ≡ answered cmd dest rest
  unfolding read_request
  head_lem cmd dest rest (inl one) h = rw one (dest_lem 1 dest rest h)
  head_lem cmd dest rest (inr three) h = rw three (dest_lem 3 dest rest h)

  -- What is answered to the methods of a greeting.
  abbrev pub by_methods : Str → Outcome → Outcome
  by_methods methods accepted =
      if any (λ m. m == 0) methods then accepted else failed (5 ∷ 255 ∷ []) no_acceptable_methods

  -- A client that greets with its methods and then requests a connection or an association is
  -- dispatched, or associated, to the destination and port that it asked for, with the answers of
  -- SOCKS5 sent and the bytes behind its request left unread, if no authentication is one of the
  -- methods; if it is not, the client is sent the refusal and nothing else. The destination is an IPv4
  -- address, 16 octets or a name in UTF-8, the port has 16 bits.
  pub handle_socks5_connection-request :
      (methods rest : Str) (cmd : ℕ) (dest : UdpTarget)
      → (cmd ≡ 1) ⊎ (cmd ≡ 3)
      → IsDest dest
      → handle_socks5_connection local_ip bound_port
          (greeting methods ++ (request cmd dest ++ rest))
        ≡ by_methods methods (answered cmd dest rest)
  unfolding handle_socks5_connection read_greeting choose_method
  handle_socks5_connection-request methods rest cmd dest c h =
      let behind = request cmd dest ++ rest in
      let tail = address_bytes dest ++ (u16_to_be_bytes (target_port dest) ++ rest) in
      read_more_lem [] 2 (5 ∷ length methods ∷ []) (methods ++ behind)
        (read_greeting local_ip bound_port) refl
      ∙ (read_more_lem [] (length methods) methods behind (choose_method local_ip bound_port) refl
          ∙ ap (by_methods methods) (
              ap
                (λ l.
                  read_more accept_reply 4 (5 ∷ cmd ∷ 0 ∷ address_type dest ∷ l)
                    (read_request local_ip bound_port))
                (append_assoc (address_bytes dest) (u16_to_be_bytes (target_port dest)) rest)
              ∙ (read_more_lem accept_reply 4 (5 ∷ cmd ∷ 0 ∷ address_type dest ∷ []) tail
                    (read_request local_ip bound_port) refl
                  ∙ head_lem cmd dest rest c h)))
