-- ===== src/Packet.antt =====
-- `internet_checksum` and `fix_ipv4_checksums` of the desktop client, src-tauri/src/main.rs. The
-- packet is at least 20 bytes long where it is indexed.
pub mod Sums
pub mod Bytes
pub mod Checksum
use rxcore.Prelude.{
  ℕ, zero, suc, ◌+◌, ◌-◌, ◌*◌, ◌/◌, ◌%◌, ◌^◌, min, List, [], ◌∷◌, ◌++◌, Bool, true, false, not, ltb,
  leb, ◌==◌, length, take, drop, set, get_or, if◌then◌else◌,
}
use rxcore.Prelude.Words.{u16_from_be_bytes, u16_to_be_bytes}

-- The sum of the 16-bit words, a last single byte being the high half of one.
unfoldable pub sum_words : ℕ → List ℕ → ℕ
sum_words sum [] = sum
sum_words sum (last ∷ []) = (sum + u16_from_be_bytes last 0) % 2 ^ 32
sum_words sum (hi ∷ lo ∷ rest) = sum_words ((sum + u16_from_be_bytes hi lo) % 2 ^ 32) rest

-- `while sum > 0xffff`: each unit of fuel is a round.
unfoldable pub fold_carries : ℕ → ℕ → ℕ
fold_carries zero sum = sum
fold_carries (suc fuel) sum =
    let rest = fold_carries fuel (sum % 2 ^ 16 + sum / 2 ^ 16) in
    if ltb 65535 sum then rest else sum

-- Two rounds are enough for a sum of 32 bits. `!sum as u16`.
unfoldable pub internet_checksum : List ℕ → ℕ
unfolding sum_words fold_carries
internet_checksum bytes = (2 ^ 32 - 1 - fold_carries 2 (sum_words 0 bytes)) % 2 ^ 16

-- Two bytes of the packet.
unfoldable pub put16 : ℕ → ℕ → List ℕ → List ℕ
put16 i v packet = set (set packet i (v / 256 % 256)) (suc i) (v % 256)

unfoldable pub pseudo_header : (proto len ihl packet_len : ℕ) → List ℕ → List ℕ
pseudo_header proto len ihl packet_len packet =
    take 8 (drop 12 packet)
    ++ ((0 ∷ proto ∷ u16_to_be_bytes (len % 2 ^ 16)) ++ take (packet_len - ihl) (drop ihl packet))

-- The part for TCP (20 bytes at least, checksum at 16) and for UDP (8 bytes, checksum at 6).
unfoldable pub fix_transport : (proto min_len offset ihl packet_len : ℕ) → List ℕ → List ℕ
unfolding put16 internet_checksum pseudo_header
fix_transport proto min_len offset ihl packet_len packet =
    let len = packet_len - ihl in
    let zeroed = put16 (ihl + offset) 0 packet in
    if leb min_len len
    then (if leb (ihl + offset + 2) packet_len
        then put16 (ihl + offset)
            (internet_checksum (pseudo_header proto len ihl packet_len zeroed)) zeroed
        else packet)
    else packet

unfoldable pub fix_header : ℕ → List ℕ → List ℕ
unfolding put16 internet_checksum
fix_header ihl packet =
    let zeroed = put16 10 0 packet in put16 10 (internet_checksum (take ihl zeroed)) zeroed

unfoldable pub by_protocol : (proto ihl packet_len : ℕ) → List ℕ → List ℕ
unfolding fix_transport
by_protocol proto ihl packet_len packet =
    if proto == 6
    then fix_transport 6 20 16 ihl packet_len packet
    else if proto == 17
    then fix_transport 17 8 6 ihl packet_len packet
    else packet

abbrev pub ihl_of : List ℕ → ℕ
ihl_of packet = get_or packet 0 0 % 16 * 4

abbrev pub packet_len_of : List ℕ → ℕ
packet_len_of packet =
    min (length packet) (u16_from_be_bytes (get_or packet 2 0) (get_or packet 3 0))

unfoldable pub fix_ipv4_checksums : List ℕ → List ℕ
unfolding fix_header by_protocol
fix_ipv4_checksums packet =
    if ltb (length packet) 20
    then packet
    else if not (get_or packet 0 0 / 16 == 4)
    then packet
    else if ltb (length packet) (ihl_of packet)
    then packet
    else if ltb (packet_len_of packet) (ihl_of packet)
    then packet
    else by_protocol (get_or packet 9 0) (ihl_of packet) (packet_len_of packet)
        (fix_header (ihl_of packet) packet)
