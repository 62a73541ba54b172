-- ===== src/Packet/Checksum.antt =====
-- The header of a packet that has been fixed passes the check of its receiver.
use rxcore.Prelude.{
  ℕ, ◌+◌, ◌-◌, ◌/◌, ◌%◌, ◌≤◌, ◌≡◌, refl, sym, ap, ◌∙◌, subst, List, ◌∷◌, ◌++◌, Bool, false, not,
  ltb, leb, ◌==◌, length, length-append, length-take, take, drop, take-append-drop, length-drop,
  get_or, arith, Bool-cases, inl, inr, if◌then◌else◌,
}
use rxcore.Prelude.Words.{IsByte}
use rxcore.Prelude.Loops.{All}
use rxcore.Packet.{
  fold_carries, internet_checksum, put16, fix_transport, fix_header, by_protocol, ihl_of,
  packet_len_of, fix_ipv4_checksums,
}
use rxcore.Packet.Sums.{total, complement, checksum_makes_up, internet_checksum_lem}
use rxcore.Packet.Bytes.{
  put16_middle, total_middle, All-middle, All-take, take-put16, take_before, two_more,
}

-- The header with its checksum field set has the checksum 0.
header_ok :
    (pre post : List ℕ) (x y : ℕ)
    → length pre ≡ 10
    → All IsByte (pre ++ (x ∷ y ∷ post))
    → length (pre ++ (x ∷ y ∷ post)) ≤ 65535
    → internet_checksum (
        put16 10
          (internet_checksum (put16 10 0 (pre ++ (x ∷ y ∷ post))))
          (put16 10 0 (pre ++ (x ∷ y ∷ post))))
      ≡ 0
header_ok pre post x y ten a h =
    let zeroed = pre ++ (0 ∷ 0 ∷ post) in
    let zeroed_bytes = All-middle pre post x y 0 0 a (omega arith) (omega arith) in
    let len : length zeroed ≤ 65535 =
      omega (arith, h, length-append pre (0 ∷ 0 ∷ post), length-append pre (x ∷ y ∷ post)) in
    let (sum0, room) = internet_checksum_lem zeroed zeroed_bytes len in
    let c = complement (fold_carries 2 (total zeroed)) in
    let fixed = pre ++ ((c / 256 % 256) ∷ (c % 256) ∷ post) in
    let fixed_bytes =
      All-middle pre post x y (c / 256 % 256) (c % 256) a (omega arith) (omega arith) in
    let fixed_len : length fixed ≤ 65535 = omega (
      arith,
      h,
      length-append pre ((c / 256 % 256) ∷ (c % 256) ∷ post),
      length-append pre (x ∷ y ∷ post),
    ) in
    let (sum1, room1) = internet_checksum_lem fixed fixed_bytes fixed_len in
    let adds : total fixed ≡ total zeroed + c =
      total_middle pre post (c / 256 % 256) (c % 256) 5 (omega (arith, ten)) ∙ omega arith in
    rw
      (
        put16_middle pre post x y 10 0 (sym ten),
        sum0,
        put16_middle pre post 0 0 10 c (sym ten),
        sum1,
        adds,
      )
      (checksum_makes_up (total zeroed) room)

-- The transport's checksum stands behind the header.
take-fix_transport :
    (proto min_len offset ihl packet_len : ℕ) (l : List ℕ)
    → take ihl (fix_transport proto min_len offset ihl packet_len l) ≡ take ihl l
unfolding fix_transport
take-fix_transport proto min_len offset ihl packet_len l =
    elim (Bool-cases (leb min_len (packet_len - ihl))) [
      | inr e ↦ rw e refl
      | inl e ↦ elim (Bool-cases (leb (ihl + offset + 2) packet_len)) [
        | inr f ↦ rw (e, f) refl
        | inl f ↦
            rw (e, f)
              (take_before ihl (ihl + offset) _ (put16 (ihl + offset) 0 l) (omega arith)
                ∙ take_before ihl (ihl + offset) 0 l (omega arith))
      ]
    ]

take-by_protocol :
    (proto ihl packet_len : ℕ) (l : List ℕ)
    → take ihl (by_protocol proto ihl packet_len l) ≡ take ihl l
unfolding by_protocol
take-by_protocol proto ihl packet_len l = elim (Bool-cases (proto == 6)) [
  | inl e ↦ rw e (take-fix_transport 6 20 16 ihl packet_len l)
  | inr e ↦ elim (Bool-cases (proto == 17)) [
    | inl f ↦ rw (e, f) (take-fix_transport 17 8 6 ihl packet_len l)
    | inr f ↦ rw (e, f) refl
  ]
]

fix_header_ok :
    (ihl : ℕ) (packet : List ℕ)
    → All IsByte packet
    → 20 ≤ ihl
    → ihl ≤ 65535
    → ihl ≤ length packet
    → internet_checksum (take ihl (fix_header ihl packet)) ≡ 0
unfolding fix_header
fix_header_ok ihl packet a long small fits =
    let h = take ihl packet in
    let len : length h ≡ ihl = length-take ihl packet ∙ omega (arith, fits) in
    let (x, y, post, more) = two_more (drop 10 h) (omega (arith, length-drop 10 h, len, long)) in
    let split : h ≡ take 10 h ++ (x ∷ y ∷ post) =
      sym (take-append-drop 10 h) ∙ ap (λ l. take 10 h ++ l) more in
    let pre_len : length (take 10 h) ≡ 10 = length-take 10 h ∙ omega (arith, len, long) in
    let whole =
      header_ok (take 10 h) post x y pre_len (subst (All IsByte) split (All-take ihl packet a))
        (subst (λ l. length l ≤ 65535) split (omega (arith, len, small))) in
    let at_h =
      subst
        (λ l. internet_checksum (put16 10 (internet_checksum (put16 10 0 l)) (put16 10 0 l)) ≡ 0)
        (sym split) whole in
    rw
      (
        take-put16 ihl 10 (internet_checksum (take ihl (put16 10 0 packet))) (put16 10 0 packet),
        take-put16 ihl 10 0 packet,
      )
      at_h

four_guards :
    (a b c d : Bool) (x y : List ℕ)
    → a ≡ false
    → b ≡ false
    → c ≡ false
    → d ≡ false
    → (if a then x else if b then x else if c then x else if d then x else y) ≡ y
four_guards a b c d x y h i j k = rw (h, i, j, k) refl

fixes :
    (packet : List ℕ)
    → get_or packet 0 0 / 16 ≡ 4
    → 20 ≤ length packet
    → ihl_of packet ≤ length packet
    → ihl_of packet ≤ packet_len_of packet
    → fix_ipv4_checksums packet
      ≡ by_protocol
          (get_or packet 9 0)
          (ihl_of packet)
          (packet_len_of packet)
          (fix_header (ihl_of packet) packet)
unfolding fix_ipv4_checksums
fixes packet version long whole fits =
    four_guards (ltb (length packet) 20) (not (get_or packet 0 0 / 16 == 4))
      (ltb (length packet) (ihl_of packet)) (ltb (packet_len_of packet) (ihl_of packet)) packet _
      (le_ltb long) (is_four version) (le_ltb whole) (le_ltb fits)
  where
    le_ltb : {m n : ℕ} → m ≤ n → ltb n m ≡ false
    le_ltb h = ground arith

    is_four : {n : ℕ} → n ≡ 4 → not (n == 4) ≡ false
    is_four h = ground arith

-- A packet of bytes with a well-formed IPv4 header (version 4, a header length of 20 at least that the
-- packet and its total length cover) is given a header that passes its check: its checksum is 0,
-- whatever transport it carries.
pub fix_ipv4_checksums-header :
    (packet : List ℕ)
    → All IsByte packet
    → get_or packet 0 0 / 16 ≡ 4
    → 20 ≤ ihl_of packet
    → ihl_of packet ≤ packet_len_of packet
    → internet_checksum (take (ihl_of packet) (fix_ipv4_checksums packet)) ≡ 0
fix_ipv4_checksums-header packet a version long fits =
    let whole : ihl_of packet ≤ length packet = omega (arith, fits) in
    let small : ihl_of packet ≤ 65535 = omega arith in
    ap (λ l. internet_checksum (take (ihl_of packet) l))
      (fixes packet version (omega (arith, long, whole)) whole fits)
    ∙ (ap internet_checksum (
          take-by_protocol (get_or packet 9 0) (ihl_of packet) (packet_len_of packet)
            (fix_header (ihl_of packet) packet))
        ∙ fix_header_ok (ihl_of packet) packet a long small whole)
