-- ===== src/Vless/Header.antt =====
-- The server reads the request that the client sends.
use rxcore.Prelude.{
  ℕ, ◌+◌, ◌*◌, ◌/◌, ◌%◌, ◌^◌, ◌<◌, ◌≡◌, refl, sym, ap, ◌∙◌, List, [], ◌∷◌, ◌++◌, Option, none, some,
  Bool, true, false, ltb, length, length-append, arith, if◌then◌else◌,
}
use rxcore.Prelude.Words.{u16_to_be_bytes, u16_from_be_bytes}
use rxcore.Prelude.Loops.{take_append, drop_append}
use rxcore.Text.{Str}
use rxcore.Text.Utf8.{is_utf8}
use rxcore.Text.Ip.{IpAddr, v4, v6, parse_ip}
use rxcore.Vless.{
  Dest, ip, domain, VlessResult, accepted, read_exact_to_buf, read_domain, utf8_domain, ipv4_dest,
  ipv6_dest, read_dest, respond, skip_addons, read_addons, read_command, read_head,
  parse_vless_inbound, encode_parsed, encode_dest, encode_header, behind,
}

-- What the text of a destination stands for.
abbrev pub dest_of : Str → Option IpAddr → Dest
dest_of dest_addr none = domain dest_addr
dest_of dest_addr (some addr) = ip addr

-- A name of at most 255 bytes; an IPv6 address of 16 octets.
abbrev pub Fits : Str → Option IpAddr → Type 0
Fits dest_addr none = (length dest_addr < 256) × (is_utf8 dest_addr ≡ true)
Fits dest_addr (some (v4 a b c d)) = Unit
Fits dest_addr (some (v6 octets)) = length octets ≡ 16

read_exact_lem :
    (n : ℕ) (p s : Str) (k : Str → Str → VlessResult)
    → n ≡ length p
    → read_exact_to_buf n (p ++ s) k ≡ k p s
unfolding read_exact_to_buf
read_exact_lem n p s k h =
    rw (fits_lem (length-append p s)) (rw (take_append p s n h, drop_append p s n h) refl)
  where
    fits_lem : length (p ++ s) ≡ length p + length s → ltb (length (p ++ s)) n ≡ false
    fits_lem e = ground arith

read_domain_lem :
    (name rest : Str) (k : Dest → Str → VlessResult)
    → is_utf8 name ≡ true
    → read_exact_to_buf 1 ((length name ∷ name) ++ rest) (read_domain k) ≡ k (domain name) rest
unfolding read_domain utf8_domain
read_domain_lem name rest k u =
    read_exact_lem 1 (length name ∷ []) (name ++ rest) (read_domain k) refl
    ∙ (read_exact_lem (length name) name rest (utf8_domain k) refl ∙ rw u refl)

read_dest_lem :
    (ipv4_only : Bool) (dest_addr bytes rest : Str) (o : Option IpAddr)
    (k : Dest → Str → VlessResult)
    → Fits dest_addr o
    → encode_parsed ipv4_only dest_addr o ≡ some bytes
    → (t : ℕ) × (tail : Str) × (bytes ≡ t ∷ tail)
      × (read_dest t (tail ++ rest) k ≡ k (dest_of dest_addr o) rest)
unfolding encode_parsed read_dest
read_dest_lem ipv4_only dest_addr bytes rest none k f e =
    let small : length dest_addr % 2 ^ 8 ≡ length dest_addr = omega (arith, f.0) in
    (2, (length dest_addr % 2 ^ 8) ∷ dest_addr, cc, rw small (read_domain_lem dest_addr rest k f.1))
read_dest_lem ipv4_only dest_addr bytes rest (some (v4 a b c d)) k f e =
    (1, a ∷ b ∷ c ∷ d ∷ [], cc, read_exact_lem 4 (a ∷ b ∷ c ∷ d ∷ []) rest (ipv4_dest k) refl)
read_dest_lem false dest_addr bytes rest (some (v6 octets)) k f e =
    (3, octets, cc, read_exact_lem 16 octets rest (ipv6_dest k) (sym f))
read_dest_lem true dest_addr bytes rest (some (v6 octets)) k f e = cc

u16_lem : (n : ℕ) → n < 65536 → (n / 256 % 256) * 256 + n % 256 ≡ n
u16_lem n h = omega arith

behind-some :
    (head header : Str) (o : Option Str)
    → behind head o ≡ some header
    → (bytes : Str) × (o ≡ some bytes) × (header ≡ head ++ bytes)
behind-some head header none e = cc
behind-some head header (some bytes) e = (bytes, refl, cc)

shape :
    (u tail rest : Str) (c hi lo t : ℕ)
    → ((u ++ (0 ∷ c ∷ hi ∷ lo ∷ [])) ++ (t ∷ tail)) ++ rest
      ≡ (u ++ 0 ∷ []) ++ ((c ∷ hi ∷ lo ∷ t ∷ []) ++ (tail ++ rest))
shape [] tail rest c hi lo t = refl
shape (x ∷ u) tail rest c hi lo t = ap (◌∷◌ x) (shape u tail rest c hi lo t)

head_lem :
    (allowed : List ℕ → Bool) (uuid input : Str)
    → length uuid ≡ 16
    → allowed uuid ≡ true
    → read_head allowed true (0 ∷ (uuid ++ 0 ∷ [])) input ≡ read_addons true uuid (0 ∷ []) input
unfolding read_head
head_lem allowed uuid input len ok =
    rw (take_append uuid (0 ∷ []) 16 (sym len), drop_append uuid (0 ∷ []) 16 (sym len)) (rw ok refl)

command_lem :
    (is_udp : Bool) (uuid input : Str) (hi lo t : ℕ)
    → read_command true uuid ((if is_udp then 2 else 1) ∷ hi ∷ lo ∷ t ∷ []) input
      ≡ read_dest t input (respond true uuid (if is_udp then 2 else 1) (u16_from_be_bytes hi lo))
unfolding read_command
command_lem true uuid input hi lo t = refl
command_lem false uuid input hi lo t = refl

-- The server accepts the request that a client sends, for an allowed user of 16 bytes, a port of 16
-- bits and a destination that fits, and reads the destination, the port, the user and the command
-- that the client was given; what follows the header is left unread.
pub parse_vless_inbound-encode_header :
    (is_user_allowed : List ℕ → Bool) (ipv4_only is_udp : Bool) (uuid : List ℕ) (dest_addr : Str)
    (port : ℕ) (header rest : Str)
    → length uuid ≡ 16
    → is_user_allowed uuid ≡ true
    → port < 65536
    → Fits dest_addr (parse_ip dest_addr)
    → encode_header ipv4_only is_udp uuid dest_addr port ≡ some header
    → parse_vless_inbound is_user_allowed true (header ++ rest)
      ≡ accepted (record {
        dest = dest_of dest_addr (parse_ip dest_addr);
        port = port;
        uuid = uuid;
        cmd = if is_udp then 2 else 1;
        response = 0 ∷ 0 ∷ [];
        unread = rest;
      })
unfolding parse_vless_inbound encode_header encode_dest read_addons skip_addons respond
parse_vless_inbound-encode_header allowed ipv4_only is_udp uuid dest_addr port header rest len ok p
      f e =
    let cmd : ℕ = if is_udp then 2 else 1 in
    let hi = port / 256 % 256 in
    let lo = port % 256 in
    let (bytes, is, whole) =
      behind-some ((0 ∷ uuid) ++ (0 ∷ cmd ∷ u16_to_be_bytes port)) header
        (encode_dest ipv4_only dest_addr) e in
    let reply = respond true uuid cmd (u16_from_be_bytes hi lo) in
    let (t, tail, parts, dest) =
      read_dest_lem ipv4_only dest_addr bytes rest (parse_ip dest_addr) reply f is in
    let input = (cmd ∷ hi ∷ lo ∷ t ∷ []) ++ (tail ++ rest) in
    ap (λ l. parse_vless_inbound allowed true (l ++ rest))
      (whole ∙ ap (λ b. ((0 ∷ uuid) ++ (0 ∷ cmd ∷ u16_to_be_bytes port)) ++ b) parts)
    ∙ (ap (parse_vless_inbound allowed true) (shape (0 ∷ uuid) tail rest cmd hi lo t)
        ∙ (read_exact_lem 18 ((0 ∷ uuid) ++ 0 ∷ []) input (read_head allowed true)
              (omega (arith, len, length-append uuid (0 ∷ [])))
            ∙ (head_lem allowed uuid input len ok
                ∙ (read_exact_lem 4 (cmd ∷ hi ∷ lo ∷ t ∷ []) (tail ++ rest)
                      (skip_addons true uuid 0) refl
                    ∙ (command_lem is_udp uuid (tail ++ rest) hi lo t
                        ∙ (dest ∙ rw (u16_lem port p) refl))))))
