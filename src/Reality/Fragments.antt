-- ===== src/Reality/Fragments.antt =====
-- A ClientHello that is cut into records is put together again.
use rxcore.Prelude.{
  ℕ, zero, suc, ◌+◌, ◌*◌, ◌/◌, ◌%◌, ◌<◌, ◌≤◌, ◌≡◌, refl, sym, ap, ◌∙◌, subst, List, [], ◌∷◌, ◌++◌,
  map, true, false, leb, length, if◌then◌else◌, arith, append_assoc, append-nil, length-append,
}
use rxcore.Prelude.Loops.{All, concat, take_append, drop_append}
use rxcore.Prelude.Words.{u16_to_be_bytes}
use rxcore.Text.{Str}
use rxcore.Reality.{
  ReadTask, finished, is_whole, read_payload, read_record, read_records, read_client_hello,
}

-- A handshake record of TLS, and the pieces that fit one.
abbrev pub record_of : Str → Str
record_of piece = (22 ∷ 3 ∷ 1 ∷ u16_to_be_bytes (length piece)) ++ piece

abbrev pub IsPiece : Str → Type 0
IsPiece piece = (0 < length piece) × (length piece ≤ 18432)

-- A ClientHello message whose length field is that of its body.
abbrev pub IsMessage : Str → Type 0
IsMessage (t ∷ a ∷ b ∷ c ∷ body) =
    (t ≡ 1) × ((a * 256 + b) * 256 + c ≡ length body) × (length body + 4 ≤ 65536)
IsMessage _ = ⊥

message_whole : (msg : Str) → IsMessage msg → is_whole msg ≡ true
unfolding is_whole
message_whole (t ∷ a ∷ b ∷ c ∷ body) h = ground arith
message_whole [] h = absurd h
message_whole (t ∷ []) h = absurd h
message_whole (t ∷ a ∷ []) h = absurd h
message_whole (t ∷ a ∷ b ∷ []) h = absurd h

message_long : (msg : Str) → IsMessage msg → length msg ≤ 65536
message_long (t ∷ a ∷ b ∷ c ∷ body) h = omega (arith, h)
message_long [] h = absurd h
message_long (t ∷ []) h = absurd h
message_long (t ∷ a ∷ []) h = absurd h
message_long (t ∷ a ∷ b ∷ []) h = absurd h

-- A proper prefix of a message is not whole.
part_not_whole : (xs ys : Str) → IsMessage (xs ++ ys) → 0 < length ys → is_whole xs ≡ false
unfolding is_whole
part_not_whole [] ys h l = refl
part_not_whole (t ∷ []) ys h l = refl
part_not_whole (t ∷ a ∷ []) ys h l = refl
part_not_whole (t ∷ a ∷ b ∷ []) ys h l = refl
part_not_whole (t ∷ a ∷ b ∷ c ∷ xs) ys h l = ground (arith, length-append xs ys)

u16_lem : (n : ℕ) → n ≤ 18432 → (n / 256 % 256) * 256 + n % 256 ≡ n
u16_lem n h = omega arith

payload_lem :
    (n : ℕ) (buffer payload piece more : Str) (next : Str → Str → Str → ReadTask)
    → n ≡ length piece
    → IsPiece piece
    → length payload + length piece ≤ 65536
    → read_payload n buffer payload (piece ++ more) next
      ≡ next (buffer ++ piece) (payload ++ piece) more
unfolding read_payload
payload_lem n buffer payload piece more next is h fits =
    rw (take_append piece more n is, drop_append piece more n is)
      (ground (arith, length-append piece more))

record_lem :
    (buffer payload piece more : Str) (next : Str → Str → Str → ReadTask)
    → IsPiece piece
    → length payload + length piece ≤ 65536
    → read_record buffer payload (record_of piece ++ more) next
      ≡ next (buffer ++ record_of piece) (payload ++ piece) more
unfolding read_record
record_lem buffer payload piece more next h fits =
    let header = 22 ∷ 3 ∷ 1 ∷ u16_to_be_bytes (length piece) in
    payload_lem _ (buffer ++ header) payload piece more next (u16_lem (length piece) h.1) h fits
    ∙ ap (λ b. next b (payload ++ piece) more) (append_assoc buffer header piece)

-- What follows a piece.
abbrev after : ℕ → Str → Str → Str → ReadTask
unfolding is_whole read_records
after left buffer payload rest =
    if is_whole payload then finished buffer payload rest else read_records left buffer payload rest

step_lem :
    (left : ℕ) (buffer payload piece more : Str)
    → IsPiece piece
    → length payload + length piece ≤ 65536
    → read_records (suc left) buffer payload (record_of piece ++ more)
      ≡ after left (buffer ++ record_of piece) (payload ++ piece) more
unfolding read_records after
step_lem left buffer payload piece more h fits =
    rw (room_lem h.0 fits) (record_lem buffer payload piece more (after left) h fits)
  where
    room_lem :
        0 < length piece
        → length payload + length piece ≤ 65536
        → leb 65536 (length payload) ≡ false
    room_lem h fits = ground arith

after_whole :
    (left : ℕ) (buffer payload rest : Str)
    → is_whole payload ≡ true
    → after left buffer payload rest ≡ finished buffer payload rest
unfolding after
after_whole left buffer payload rest h = rw h refl

after_part :
    (left : ℕ) (buffer payload rest : Str)
    → is_whole payload ≡ false
    → after left buffer payload rest ≡ read_records left buffer payload rest
unfolding after
after_part left buffer payload rest h = rw h refl

fits_lem :
    (payload piece tail : Str)
    → IsMessage (payload ++ (piece ++ tail))
    → length payload + length piece ≤ 65536
fits_lem payload piece tail m = omega (
  arith,
  message_long (payload ++ (piece ++ tail)) m,
  length-append payload (piece ++ tail),
  length-append piece tail,
)

concat-long : (q : Str) (qs : List Str) → IsPiece q → 0 < length (concat (q ∷ qs))
concat-long q qs h = omega (arith, length-append q (concat qs), h)

records_lem :
    (left : ℕ) (buffer payload piece rest : Str) (pieces : List Str)
    → length pieces < left
    → IsPiece piece
    → All IsPiece pieces
    → IsMessage (payload ++ (piece ++ concat pieces))
    → read_records left buffer payload (concat (map record_of (piece ∷ pieces)) ++ rest)
      ≡ finished
          (buffer ++ concat (map record_of (piece ∷ pieces)))
          (payload ++ (piece ++ concat pieces))
          rest
records_lem zero buffer payload piece rest pieces few p ps m = absurd (omega arith)
records_lem (suc left) buffer payload piece rest [] few p ps m =
    let whole : is_whole (payload ++ piece) ≡ true =
      subst (λ l. is_whole (payload ++ l) ≡ true) (append-nil piece)
        (message_whole (payload ++ (piece ++ [])) m) in
    ap (λ l. read_records (suc left) buffer payload (l ++ rest)) (append-nil (record_of piece))
    ∙ (step_lem left buffer payload piece rest p (fits_lem payload piece [] m)
        ∙ (after_whole left (buffer ++ record_of piece) (payload ++ piece) rest whole
            ∙ ap (λ l. finished (buffer ++ l.0) (payload ++ l.1) rest)
                (pair_lem (append-nil (record_of piece)) (append-nil piece))))
  where
    pair_lem : {a b c d : Str} → a ≡ b → c ≡ d → ◌≡◌ {A = Str × Str} (b, d) (a, c)
    pair_lem e f = rw (e, f) refl
records_lem (suc left) buffer payload piece rest (q ∷ qs) few p ps m =
    let tail = concat (map record_of (q ∷ qs)) in
    let m' : IsMessage ((payload ++ piece) ++ (q ++ concat qs)) =
      subst IsMessage (sym (append_assoc payload piece (q ++ concat qs))) m in
    ap (read_records (suc left) buffer payload) (append_assoc (record_of piece) tail rest)
    ∙ (step_lem left buffer payload piece (tail ++ rest) p
          (fits_lem payload piece (q ++ concat qs) m)
        ∙ (after_part left (buffer ++ record_of piece) (payload ++ piece) (tail ++ rest)
              (part_not_whole (payload ++ piece) (q ++ concat qs) m' (concat-long q qs ps.0))
            ∙ (records_lem left (buffer ++ record_of piece) (payload ++ piece) q rest qs
                  (omega arith) ps.0 ps.1 m'
                ∙ ap (λ l. finished l.0 l.1 rest)
                    (pair_lem (append_assoc buffer (record_of piece) tail)
                      (append_assoc payload piece (q ++ concat qs))))))
  where
    pair_lem : {a b c d : Str} → a ≡ b → c ≡ d → ◌≡◌ {A = Str × Str} (a, c) (b, d)
    pair_lem e f = rw (e, f) refl

-- A ClientHello of at most 64 KiB that is cut into one to eight pieces of 1 to 18432 bytes, each in its
-- handshake record, is put together again: `accept` goes on with the message itself, has kept the
-- records as they came, and leaves what follows them unread.
pub read_client_hello-record_of :
    (piece rest : Str) (pieces : List Str)
    → length pieces < 8
    → IsPiece piece
    → All IsPiece pieces
    → IsMessage (concat (piece ∷ pieces))
    → let wire = concat (map record_of (piece ∷ pieces)) in
      read_client_hello (wire ++ rest) ≡ finished wire (concat (piece ∷ pieces)) rest
unfolding read_client_hello
read_client_hello-record_of piece rest pieces few p ps m =
    records_lem 8 [] [] piece rest pieces few p ps m
