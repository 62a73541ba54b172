-- ===== src/Mux/Frame/Wire.antt =====
-- The reader undoes the writer, in whatever pieces the bytes arrive.
use rxcore.Prelude.{
  ℕ, zero, suc, ◌+◌, ◌^◌, ◌≤◌, ◌<◌, ◌≡◌, refl, sym, ◌∙◌, ap, List, [], ◌∷◌, ◌++◌, append_assoc,
  some, length, length-append, take, drop, arith,
}
use rxcore.Prelude.Words.{u16_to_be_bytes, u32_to_be_bytes}
use rxcore.Prelude.Loops.{All, take_append, drop_append}
use rxcore.Mux.Frame.{
  MuxFrame, header, write_frame, Streams, deliver, Read, end_of_input, fill, finished, truncated,
  parse_header, run_connection_reader,
}
use rxcore.Mux.Frame.Fill.{GiveData, contents, Fills, fill-Fills, fill_short}

-- A frame that fits its header.
abbrev pub IsWire : MuxFrame → Type 0
IsWire f = (f.stream_id < 2 ^ 30) × (f.cmd < 4) × (length f.payload ≤ 65535)

-- What the writer sends for a list of frames.
abbrev pub wire : List MuxFrame → List ℕ
wire [] = []
wire (f ∷ fs) = write_frame f ++ wire fs

abbrev pub deliver_all : Streams → List MuxFrame → Streams
deliver_all streams [] = streams
deliver_all streams (f ∷ fs) = deliver_all (deliver f.cmd f.stream_id f.payload streams) fs

abbrev pub header_bytes : MuxFrame → List ℕ
header_bytes f = u32_to_be_bytes (header f) ++ u16_to_be_bytes (length f.payload)

pub write_frame_lem :
    (f : MuxFrame) → length f.payload ≤ 65535 → write_frame f ≡ header_bytes f ++ f.payload
unfolding write_frame
write_frame_lem f h = ground arith

-- A list that begins with `p`, cut somewhere behind `p`.
split_prefix :
    (whole rest p more : List ℕ)
    → whole ++ rest ≡ p ++ more
    → length p ≤ length whole
    → (tail : List ℕ) × (whole ≡ p ++ tail) × (tail ++ rest ≡ more)
split_prefix whole rest [] more e h = (whole, refl, e)
split_prefix [] rest (x ∷ p) more e h = absurd (omega arith)
split_prefix (y ∷ whole) rest (x ∷ p) more e h =
    let (tail, is, left) = split_prefix whole rest p more (cc) (omega arith) in (tail, cc, left)

parse_header_lem :
    (f : MuxFrame) (tail : List ℕ)
    → IsWire f
    → parse_header (header_bytes f ++ tail) ≡ some (f.cmd, f.stream_id, length f.payload)
unfolding parse_header
parse_header_lem f tail w = ground arith

payload_lem :
    (f : MuxFrame) (tail : List ℕ)
    → (take (length f.payload) (drop 6 ((header_bytes f ++ f.payload) ++ tail)) ≡ f.payload)
      × (drop (length f.payload) (drop 6 ((header_bytes f ++ f.payload) ++ tail)) ≡ tail)
payload_lem f tail = (take_append f.payload tail _ refl, drop_append f.payload tail _ refl)

-- One round of the reader on an input that begins with a frame.
record Reads (f : MuxFrame) (more buf : List ℕ) (reads : List Read) : Type 0 where
  main_buf : List ℕ
  later : List Read
  run :
      (fuel : ℕ) (streams : Streams)
      → run_connection_reader (suc fuel) buf reads streams
        ≡ run_connection_reader fuel main_buf later (deliver f.cmd f.stream_id f.payload streams)
  left : main_buf ++ contents later ≡ more
  data_later : GiveData later

second_fill :
    (f : MuxFrame) (more buf : List ℕ) (reads : List Read)
    → length f.payload ≤ 65535
    → GiveData reads
    → buf ++ contents reads ≡ write_frame f ++ more
    → Fills (6 + length f.payload) buf reads
second_fill f more buf reads small g e = fill-Fills _ buf reads g (
    omega
      (arith, ap length e, length-append (write_frame f) more, ap length (write_frame_lem f small)))

frame-Reads :
    (f : MuxFrame) (more buf : List ℕ) (reads : List Read)
    → IsWire f
    → GiveData reads
    → buf ++ contents reads ≡ write_frame f ++ more
    → Reads f more buf reads
unfolding run_connection_reader
frame-Reads f more buf reads w g e =
    let whole = e ∙ ap (λ l. l ++ more) (write_frame_lem f w.2) in
    let a = second_fill f more buf reads w.2 g e in
    let first =
      fill-Fills 6 buf reads g
        (omega (arith, ap length a.kept, length-append a.main_buf (contents a.later), a.enough)) in
    let second =
      second_fill f more first.main_buf first.later w.2 first.data_later (first.kept ∙ e) in
    let (tail1, is1, _) =
      split_prefix first.main_buf (contents first.later) (header_bytes f) (f.payload ++ more)
        (first.kept ∙ whole) first.enough in
    let (tail2, is2, left2) =
      split_prefix second.main_buf (contents second.later) (header_bytes f ++ f.payload) more
        (second.kept ∙ first.kept ∙ whole) (omega (arith, second.enough)) in
    let parsed : parse_header first.main_buf ≡ some (f.cmd, f.stream_id, length f.payload) =
      rw is1 (parse_header_lem f tail1 w) in
    let (payload_is, tail_is) = payload_lem f tail2 in
    record {
      main_buf = tail2;
      later = second.later;
      run = λ fuel streams.
          rw (first.run, run_connection_reader)
            (rw parsed (rw second.run (rw is2 (rw (payload_is, tail_is)))));
      left = left2;
      data_later = second.data_later;
    }

-- The reader delivers exactly the frames that were written, in order, and then finishes, in whatever
-- pieces of at least one byte their bytes arrive: for frames whose stream id is below 2 ^ 30, whose
-- command is below 4 and whose payload has at most 65535 bytes.
pub run_connection_reader-wire :
    (fs : List MuxFrame) (fuel : ℕ) (buf : List ℕ) (reads : List Read) (streams : Streams)
    → All IsWire fs
    → GiveData reads
    → buf ++ contents reads ≡ wire fs
    → length fs < fuel
    → run_connection_reader fuel buf reads streams ≡ (finished, deliver_all streams fs)
run_connection_reader-wire fs zero buf reads streams w g e h = absurd (omega arith)
run_connection_reader-wire [] (suc fuel) buf reads streams w g e h = ends
  where
    short : fill 6 buf reads ≡ end_of_input
    short = fill_short 6 buf reads g (omega (arith, ap length e))

    ends : run_connection_reader (suc fuel) buf reads streams ≡ (finished, streams)
    ends = unfold run_connection_reader in rw (short, run_connection_reader)
run_connection_reader-wire (f ∷ fs) (suc fuel) buf reads streams w g e h =
    let r = frame-Reads f (wire fs) buf reads w.0 g e in
    r.run fuel streams
    ∙ run_connection_reader-wire fs fuel r.main_buf r.later _ w.1 r.data_later r.left (omega arith)

-- A frame of which only a part arrives, at least its header, is reported as truncated, and nothing
-- is delivered.
pub run_connection_reader_truncated :
    (f : MuxFrame) (front back : List ℕ) (x fuel : ℕ) (reads : List Read) (streams : Streams)
    → IsWire f
    → GiveData reads
    → write_frame f ≡ front ++ (x ∷ back)
    → 6 ≤ length front
    → contents reads ≡ front
    → run_connection_reader (suc fuel) [] reads streams ≡ (truncated, streams)
unfolding run_connection_reader
run_connection_reader_truncated f front back x fuel reads streams w g e six is =
    let first = fill-Fills 6 [] reads g (omega (arith, ap length is)) in
    let (tail, is1, _) =
      split_prefix first.main_buf (contents first.later ++ (x ∷ back)) (header_bytes f) f.payload
        (sym (append_assoc first.main_buf (contents first.later) (x ∷ back))
          ∙ ap (λ l. l ++ (x ∷ back)) (first.kept ∙ is)
          ∙ sym e
          ∙ write_frame_lem f w.2)
        first.enough in
    let parsed : parse_header first.main_buf ≡ some (f.cmd, f.stream_id, length f.payload) =
      rw is1 (parse_header_lem f tail w) in
    let short : fill (6 + length f.payload) first.main_buf first.later ≡ end_of_input =
      fill_short _ first.main_buf first.later first.data_later (
        omega (
          arith,
          ap length (first.kept ∙ is),
          ap length e,
          ap length (write_frame_lem f w.2),
          length-append front (x ∷ back),
        )) in
    rw (first.run, run_connection_reader) (rw parsed (rw short))
