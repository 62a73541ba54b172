-- ===== src/Mux/Frame.antt =====
-- `MuxFrame`, `write_frame` and `run_connection_reader` of target_core/src/transport/mux.rs.
-- A frame is a big-endian u32 (two bits of command, thirty of stream id), a big-endian u16 length
-- and the payload. The masks and shifts of the source are written as `%`, `/` and `+`.
pub mod Fill
pub mod Wire
use rxcore.Prelude.{
  ℕ, zero, suc, ◌+◌, ◌-◌, ◌*◌, ◌/◌, ◌%◌, ◌^◌, List, [], ◌∷◌, ◌++◌, Option, none, some, Bool, true,
  false, ◌&&◌, not, ltb, leb, ◌==◌, length, take, drop, if◌then◌else◌,
}
use rxcore.Prelude.Words.{u16_from_be_bytes, u16_to_be_bytes, u32_from_be_bytes, u32_to_be_bytes}
use rxcore.Prelude.Assoc.{Map, lookup, insert, nat_eq}

pub record MuxFrame : Type 0 where
  pub stream_id : ℕ
  pub cmd : ℕ
  pub payload : List ℕ
  pub is_udp : Bool

-- `(stream_id & 0x3FFFFFFF) | ((cmd as u32) << 30)`: the shift keeps two bits of the command.
abbrev pub header : MuxFrame → ℕ
header f = f.stream_id % 2 ^ 30 + f.cmd % 4 * 2 ^ 30

-- The bytes that `write_frame` sends: none for a payload over 65535 bytes.
unfoldable pub write_frame : MuxFrame → List ℕ
write_frame f =
    if ltb 65535 (length f.payload)
    then []
    else u32_to_be_bytes (header f) ++ u16_to_be_bytes (length f.payload) ++ f.payload

-- The receiving end of a virtual stream: a bounded queue, closed when its receiver is dropped.
pub record Channel : Type 0 where
  pub queue : List (List ℕ)
  pub capacity : ℕ
  pub closed : Bool

-- `try_send`, whose error (full or closed) the reader ignores.
unfoldable pub try_send : List ℕ → Channel → Channel
try_send payload ch =
    if not ch.closed && ltb (length ch.queue) ch.capacity
    then record ch { queue = ch.queue ++ payload ∷ [] }
    else ch

abbrev pub Streams : Type 0
Streams = Map ℕ Channel

-- What the reader does with a frame: data, an empty chunk for a close, nothing for another command.
unfoldable pub deliver : ℕ → ℕ → List ℕ → Streams → Streams
unfolding try_send
deliver cmd stream_id payload streams = elim (lookup stream_id streams) [
  | none ↦ streams
  | some ch ↦
      if cmd == 0
      then insert stream_id (try_send payload ch) streams
      else if cmd == 2
      then insert stream_id (try_send [] ch) streams
      else streams
]

-- What one `read_buf` gives; no bytes at all, or no further read, is the end of the input.
pub data Read : Type 0 where
  bytes : List ℕ → Read
  fails : Read

pub data Filled : Type 0 where
  filled : (main_buf : List ℕ) (reads : List Read) → Filled
  end_of_input : Filled
  broken : Filled

-- `while main_buf.len() < n { read_buf }`.
unfoldable pub fill : ℕ → List ℕ → List Read → Filled
fill n main_buf [] = if leb n (length main_buf) then filled main_buf [] else end_of_input
fill n main_buf (bytes [] ∷ reads) =
    if leb n (length main_buf) then filled main_buf (bytes [] ∷ reads) else end_of_input
fill n main_buf (bytes (b ∷ bs) ∷ reads) =
    let rest = fill n (main_buf ++ (b ∷ bs)) reads in
    if leb n (length main_buf) then filled main_buf (bytes (b ∷ bs) ∷ reads) else rest
fill n main_buf (fails ∷ reads) =
    if leb n (length main_buf) then filled main_buf (fails ∷ reads) else broken

pub data ReaderEnd : Type 0 where
  finished : ReaderEnd
  truncated : ReaderEnd
  io_error : ReaderEnd
  out_of_fuel : ReaderEnd

-- The header fields of a buffer of at least six bytes: command, stream id and payload length.
unfoldable pub parse_header : List ℕ → Option (ℕ × ℕ × ℕ)
parse_header (a ∷ b ∷ c ∷ d ∷ e ∷ f ∷ _) =
    let h = u32_from_be_bytes a b c d in some (h / 2 ^ 30, h % 2 ^ 30, u16_from_be_bytes e f)
parse_header _ = none

-- `run_connection_reader`. Each round of fuel is one frame. The shrinking of a large buffer keeps
-- its bytes, and is not part of the model.
unfoldable pub run_connection_reader : ℕ → List ℕ → List Read → Streams → ReaderEnd × Streams
unfolding parse_header
run_connection_reader zero main_buf reads streams = (out_of_fuel, streams)
run_connection_reader (suc fuel) main_buf reads streams = elim (fill 6 main_buf reads) [
  | end_of_input ↦ (finished, streams)
  | broken ↦ (io_error, streams)
  | filled buf rest ↦ elim (parse_header buf) [
    | none ↦ (finished, streams)
    | some (cmd, stream_id, payload_len) ↦ elim (fill (6 + payload_len) buf rest) [
      | end_of_input ↦ (truncated, streams)
      | broken ↦ (io_error, streams)
      | filled whole later ↦
          run_connection_reader fuel (drop payload_len (drop 6 whole)) later
            (deliver cmd stream_id (take payload_len (drop 6 whole)) streams)
    ]
  ]
]
