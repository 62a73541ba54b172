-- ===== src/Sniffer.antt =====
-- `parse_sni_from_bytes` of target_core/src/dispatcher/sniffer.rs: the server name of a ClientHello,
-- found by indices into the bytes that were peeked. An index or a slice out of bounds is a panic.
pub mod Answers
pub mod Bounds
use rxcore.Prelude.{
  ℕ, zero, suc, ◌+◌, ◌-◌, ◌*◌, List, [], ◌∷◌, Option, none, some, Bool, true, false, ◌&&◌, not, ltb,
  leb, ◌==◌, length, take, drop, get_elem?, if◌then◌else◌,
}
use rxcore.Prelude.Words.{u16_from_be_bytes}
use rxcore.Text.{Str}
use rxcore.Text.Utf8.{is_utf8}

pub data Sniff : Type 0 where
  found : Str → Sniff
  nothing : Sniff
  panics : Sniff
  out_of_fuel : Sniff

-- `s[i]`, handed on.
unfoldable pub at : Str → ℕ → (ℕ → Sniff) → Sniff
at s i k = elim (get_elem? s i) [ none ↦ panics | some b ↦ k b ]

abbrev pub u16_at : Str → ℕ → (ℕ → Sniff) → Sniff
unfolding at
u16_at s i k = at s i λ a. at s (i + 1) λ b. k (u16_from_be_bytes a b)

-- `&s[i..j]`, handed on.
unfoldable pub slice : Str → ℕ → ℕ → (Str → Sniff) → Sniff
slice s i j k = if leb i j && leb j (length s) then k (take (j - i) (drop i s)) else panics

abbrev if_utf8 : Str → Sniff → Sniff
unfolding is_utf8
if_utf8 hostname otherwise = if is_utf8 hostname then found hostname else otherwise

-- The loop over the names up to `stop`, and what goes on behind it.
unfoldable pub name_loop : ℕ → Str → ℕ → ℕ → Sniff → Sniff
unfolding at slice is_utf8
name_loop zero payload inner stop next = out_of_fuel
name_loop (suc fuel) payload inner stop next =
    if ltb stop (inner + 3)
    then next
    else (at payload inner λ name_type. u16_at payload (inner + 1) λ name_len.
        let start = inner + 3 in
        let rest = name_loop fuel payload (start + name_len) stop next in
        if ltb stop (start + name_len)
        then next
        else if name_type == 0
        then slice payload start (start + name_len) (λ hostname. if_utf8 hostname rest)
        else rest)

-- The body of the server_name extension from `index` to `stop`; `nothing` leaves the outer loop.
unfoldable pub server_name : Str → ℕ → ℕ → Sniff → Sniff
unfolding at name_loop
server_name payload index stop next =
    if ltb stop (index + 2)
    then nothing
    else (u16_at payload index λ list_len.
        if ltb stop (index + 2 + list_len)
        then nothing
        else name_loop (suc (length payload)) payload (index + 2) stop next)

unfoldable pub extension_loop : ℕ → Str → ℕ → ℕ → Sniff
unfolding at server_name
extension_loop zero payload index target_end = out_of_fuel
extension_loop (suc fuel) payload index target_end =
    if ltb target_end (index + 4)
    then nothing
    else (u16_at payload index λ ext_type. u16_at payload (index + 2) λ ext_data_len.
        let start = index + 4 in
        let rest = extension_loop fuel payload (start + ext_data_len) target_end in
        if ltb target_end (start + ext_data_len)
        then nothing
        else if ext_type == 0
        then server_name payload start (start + ext_data_len) rest
        else rest)

-- From the session id on.
unfoldable pub parse_fields : Str → Sniff
unfolding at extension_loop
parse_fields payload =
    if leb (length payload) 38
    then nothing
    else (at payload 38 λ session_id_len.
        let i1 = 38 + (1 + session_id_len) in
        if ltb (length payload) (i1 + 2)
        then nothing
        else (u16_at payload i1 λ cipher_suites_len.
            let i2 = i1 + (2 + cipher_suites_len) in
            if ltb (length payload) (i2 + 1)
            then nothing
            else (at payload i2 λ comp_len.
                let i3 = i2 + (1 + comp_len) in
                if ltb (length payload) (i3 + 2)
                then nothing
                else (u16_at payload i3 λ ext_len.
                    let target_end = i3 + 2 + ext_len in
                    if ltb (length payload) target_end
                    then nothing
                    else extension_loop (suc (length payload)) payload (i3 + 2) target_end))))

unfoldable pub parse_handshake : Str → Sniff
unfolding at parse_fields
parse_handshake payload =
    if ltb (length payload) 4
    then nothing
    else (at payload 0 λ handshake_type.
        if not (handshake_type == 1)
        then nothing
        else (at payload 1 λ a. at payload 2 λ b. at payload 3 λ c.
            if ltb (length payload) (4 + (a * 65536 + b * 256 + c))
            then nothing
            else parse_fields payload))

unfoldable pub parse_sni_from_bytes : Str → Sniff
unfolding at slice parse_handshake
parse_sni_from_bytes buf =
    if ltb (length buf) 5
    then nothing
    else (at buf 0 λ content_type.
        if not (content_type == 22)
        then nothing
        else (u16_at buf 3 λ record_len.
            if ltb (length buf) (5 + record_len)
            then nothing
            else slice buf 5 (5 + record_len) parse_handshake))
