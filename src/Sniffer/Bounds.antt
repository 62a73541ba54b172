-- ===== src/Sniffer/Bounds.antt =====
-- No index is out of bounds, whatever the bytes say, and a name that is found is in them.
use rxcore.Prelude.{
  ltb-false, leb-false, ℕ, zero, suc, ◌+◌, ◌-◌, ◌*◌, ◌≤◌, ◌<◌, not, ltb, leb, ◌==◌, length, take,
  drop, arith,
}
use rxcore.Text.{Str}
use rxcore.Text.Utf8.{is_utf8}
use rxcore.Sniffer.{
  Sniff, found, slice, name_loop, server_name, extension_loop, parse_fields, parse_handshake,
  parse_sni_from_bytes, if_utf8,
}
use rxcore.Sniffer.Answers.{
  Infix, IsAnswer, at-IsAnswer, u16_at-IsAnswer, if-IsAnswer, guard-IsAnswer, slice-IsAnswer,
  take-drop-Infix, Infix-trans,
}

if_utf8-IsAnswer :
    (buf h : Str) (r : Sniff) → Infix h buf → IsAnswer buf r → IsAnswer buf (if_utf8 h r)
unfolding if_utf8
if_utf8-IsAnswer buf h r i g = if-IsAnswer buf (is_utf8 h) (found h) r (λ u. (i, u)) (λ _. g)

slice_name-IsAnswer :
    (buf s : Str) (i j : ℕ) (r : Sniff)
    → Infix s buf
    → i ≤ j
    → j ≤ length s
    → IsAnswer buf r
    → IsAnswer buf (slice s i j (λ hostname. if_utf8 hostname r))
slice_name-IsAnswer buf s i j r f h l g =
    let name = take (j - i) (drop i s) in
    slice-IsAnswer buf s i j (λ hostname. if_utf8 hostname r) h l
      (if_utf8-IsAnswer buf name r (Infix-trans name s buf (take-drop-Infix s i (j - i)) f) g)

-- The fuel covers what is left up to `stop`.
name_loop-IsAnswer :
    (fuel : ℕ) (buf payload : Str) (inner stop : ℕ) (next : Sniff)
    → Infix payload buf
    → stop ≤ length payload
    → inner ≤ stop
    → stop < fuel + inner
    → IsAnswer buf next
    → IsAnswer buf (name_loop fuel payload inner stop next)
unfolding name_loop
name_loop-IsAnswer zero buf payload inner stop next f s i h n = absurd (omega arith)
name_loop-IsAnswer (suc fuel) buf payload inner stop next f s i h n =
    if-IsAnswer buf (ltb stop (inner + 3)) _ _ (λ _. n)
      λ e.
        let room = ltb-false stop (inner + 3) e in
        at-IsAnswer buf payload inner _ (omega (arith, room, s)) λ name_type.
          u16_at-IsAnswer buf payload (inner + 1) _ (omega (arith, room, s)) λ name_len.
            if-IsAnswer buf (ltb stop (inner + 3 + name_len)) _ _ (λ _. n)
              λ e2.
                let fits = ltb-false stop (inner + 3 + name_len) e2 in
                let rest =
                  name_loop-IsAnswer fuel buf payload (inner + 3 + name_len) stop next f s fits
                    (omega (arith, h)) n in
                if-IsAnswer buf (name_type == 0)
                  (slice payload (inner + 3) (inner + 3 + name_len) (λ hostname.
                    if_utf8 hostname (name_loop fuel payload (inner + 3 + name_len) stop next)))
                  (name_loop fuel payload (inner + 3 + name_len) stop next)
                  (λ _.
                    slice_name-IsAnswer buf payload (inner + 3) (inner + 3 + name_len)
                      (name_loop fuel payload (inner + 3 + name_len) stop next) f (omega arith)
                      (omega (arith, fits, s)) rest)
                  (λ _. rest)

server_name-IsAnswer :
    (buf payload : Str) (index stop : ℕ) (next : Sniff)
    → Infix payload buf
    → stop ≤ length payload
    → IsAnswer buf next
    → IsAnswer buf (server_name payload index stop next)
unfolding server_name
server_name-IsAnswer buf payload index stop next f s n =
    guard-IsAnswer buf (ltb stop (index + 2)) _ λ e.
      let room = ltb-false stop (index + 2) e in
      u16_at-IsAnswer buf payload index _ (omega (arith, room, s)) λ list_len.
        guard-IsAnswer buf (ltb stop (index + 2 + list_len)) _ λ _.
          name_loop-IsAnswer (suc (length payload)) buf payload (index + 2) stop next f s room
            (omega (arith, s)) n

extension_loop-IsAnswer :
    (fuel : ℕ) (buf payload : Str) (index target_end : ℕ)
    → Infix payload buf
    → target_end ≤ length payload
    → index ≤ target_end
    → target_end < fuel + index
    → IsAnswer buf (extension_loop fuel payload index target_end)
unfolding extension_loop
extension_loop-IsAnswer zero buf payload index target_end f s i h = absurd (omega arith)
extension_loop-IsAnswer (suc fuel) buf payload index target_end f s i h =
    guard-IsAnswer buf (ltb target_end (index + 4)) _ λ e.
      let room = ltb-false target_end (index + 4) e in
      u16_at-IsAnswer buf payload index _ (omega (arith, room, s)) λ ext_type.
        u16_at-IsAnswer buf payload (index + 2) _ (omega (arith, room, s)) λ len.
          guard-IsAnswer buf (ltb target_end (index + 4 + len)) _ λ e2.
            let fits = ltb-false target_end (index + 4 + len) e2 in
            let rest =
              extension_loop-IsAnswer fuel buf payload (index + 4 + len) target_end f s fits
                (omega (arith, h)) in
            if-IsAnswer buf (ext_type == 0)
              (server_name payload (index + 4) (index + 4 + len)
                (extension_loop fuel payload (index + 4 + len) target_end))
              (extension_loop fuel payload (index + 4 + len) target_end)
              (λ _.
                server_name-IsAnswer buf payload (index + 4) (index + 4 + len) _ f
                  (omega (arith, fits, s)) rest)
              (λ _. rest)

parse_fields-IsAnswer :
    (buf payload : Str) → Infix payload buf → IsAnswer buf (parse_fields payload)
unfolding parse_fields
parse_fields-IsAnswer buf payload f =
    let n = length payload in
    guard-IsAnswer buf (leb n 38) _ λ e. at-IsAnswer buf payload 38 _ (leb-false n 38 e) λ id.
      let i1 = 38 + (1 + id) in
      guard-IsAnswer buf (ltb n (i1 + 2)) _ λ e1.
        let r1 = ltb-false n (i1 + 2) e1 in
        u16_at-IsAnswer buf payload i1 _ (omega (arith, r1)) λ suites.
          let i2 = i1 + (2 + suites) in
          guard-IsAnswer buf (ltb n (i2 + 1)) _ λ e2.
            let r2 = ltb-false n (i2 + 1) e2 in
            at-IsAnswer buf payload i2 _ (omega (arith, r2)) λ comp.
              let i3 = i2 + (1 + comp) in
              guard-IsAnswer buf (ltb n (i3 + 2)) _ λ e3.
                let r3 = ltb-false n (i3 + 2) e3 in
                u16_at-IsAnswer buf payload i3 _ (omega (arith, r3)) λ ext_len.
                  let target_end = i3 + 2 + ext_len in
                  guard-IsAnswer buf (ltb n target_end) _ λ e4.
                    let r4 = ltb-false n target_end e4 in
                    extension_loop-IsAnswer (suc n) buf payload (i3 + 2) target_end f r4
                      (omega arith) (omega (arith, r4))

parse_handshake-IsAnswer :
    (buf payload : Str) → Infix payload buf → IsAnswer buf (parse_handshake payload)
unfolding parse_handshake
parse_handshake-IsAnswer buf payload f =
    let n = length payload in
    guard-IsAnswer buf (ltb n 4) _ λ e.
      let room = ltb-false n 4 e in
      at-IsAnswer buf payload 0 _ (omega (arith, room)) λ handshake_type.
        guard-IsAnswer buf (not (handshake_type == 1)) _ λ _.
          at-IsAnswer buf payload 1 _ (omega (arith, room)) λ a.
            at-IsAnswer buf payload 2 _ (omega (arith, room)) λ b.
              at-IsAnswer buf payload 3 _ (omega (arith, room)) λ c.
                guard-IsAnswer buf (ltb n (4 + (a * 65536 + b * 256 + c))) _
                  λ _. parse_fields-IsAnswer buf payload f

-- Sniffing any bytes whatever ends, with no index out of bounds, in no name or in a name that stands
-- in the bytes and is UTF-8.
pub parse_sni_from_bytes-IsAnswer : (buf : Str) → IsAnswer buf (parse_sni_from_bytes buf)
unfolding parse_sni_from_bytes
parse_sni_from_bytes-IsAnswer buf = guard-IsAnswer buf (ltb (length buf) 5) _ λ e.
    let room = ltb-false (length buf) 5 e in
    at-IsAnswer buf buf 0 _ (omega (arith, room)) λ content_type.
      guard-IsAnswer buf (not (content_type == 22)) _ λ _.
        u16_at-IsAnswer buf buf 3 _ (omega (arith, room)) λ record_len.
          guard-IsAnswer buf (ltb (length buf) (5 + record_len))
            (slice buf 5 (5 + record_len) parse_handshake)
            λ e2.
              let fits = ltb-false (length buf) (5 + record_len) e2 in
              slice-IsAnswer buf buf 5 (5 + record_len) parse_handshake (omega arith) fits (
                parse_handshake-IsAnswer buf (take (5 + record_len - 5) (drop 5 buf))
                  (take-drop-Infix buf 5 (5 + record_len - 5)))
