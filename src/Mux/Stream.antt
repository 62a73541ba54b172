-- ===== src/Mux/Stream.antt =====
-- A virtual stream of target_core/src/transport/mux.rs: `poll_read`, `poll_write` and
-- `poll_shutdown` of `MuxVirtualStream`.
pub mod Content
use rxcore.Prelude.{
  ℕ, zero, suc, ◌+◌, min, List, [], ◌∷◌, ◌++◌, Option, none, some, Bool, true, false, length, take,
  drop, ltb, if◌then◌else◌,
}
use rxcore.Mux.Frame.{MuxFrame, Channel}

pub record VirtualStream : Type 0 where
  pub stream_id : ℕ
  pub is_udp : Bool
  pub current_read_chunk : Option (List ℕ)
  pub rx_data : Channel

-- `Poll`: the bytes put into the caller's buffer, or nothing yet.
pub data ReadPoll : Type 0 where
  ready : List ℕ → ReadPoll
  pending : ReadPoll

abbrev pub non_empty : List ℕ → Option (List ℕ)
non_empty [] = none
non_empty (b ∷ bs) = some (b ∷ bs)

-- The first branch of the loop: serve from the current chunk.
unfoldable pub serve : List ℕ → ℕ → VirtualStream → ReadPoll × VirtualStream
serve chunk remaining s =
    let to_read = min (length chunk) remaining in
    (ready (take to_read chunk), record s { current_read_chunk = non_empty (drop to_read chunk) })

-- `rx_data.poll_recv`. The loop of the source turns twice at most, since a chunk that has been
-- received is served in the second turn.
receive : List (List ℕ) → ℕ → VirtualStream → ReadPoll × VirtualStream
receive [] remaining s = (if s.rx_data.closed then ready [] else pending, s)
receive ([] ∷ queue) remaining s =
    (ready [], record s { rx_data = record (s.rx_data) { queue = queue } })
receive ((b ∷ bs) ∷ queue) remaining s =
    serve (b ∷ bs) remaining (record s { rx_data = record (s.rx_data) { queue = queue } })

unfoldable pub poll_read : ℕ → VirtualStream → ReadPoll × VirtualStream
unfolding serve receive
poll_read remaining s = elim s.current_read_chunk [
  | some chunk ↦ serve chunk remaining s
  | none ↦ receive s.rx_data.queue remaining s
]

-- The state of the queue of frames to the writer when `poll_reserve` is called.
pub data Reserve : Type 0 where
  has_room : Reserve
  full : Reserve
  disconnected : Reserve

pub data WritePoll : Type 0 where
  accepted : (count : ℕ) (frame : MuxFrame) → WritePoll
  aborted : WritePoll
  pending : WritePoll

unfoldable pub poll_write : Reserve → List ℕ → VirtualStream → WritePoll
poll_write has_room buf s =
    accepted (length buf)
      (record { stream_id = s.stream_id; cmd = 0; payload = buf; is_udp = s.is_udp })
poll_write full buf s = WritePoll.pending
poll_write disconnected buf s = aborted

-- The frame that `poll_shutdown` and `drop` try to send.
unfoldable pub close_frame : VirtualStream → MuxFrame
close_frame s = record { stream_id = s.stream_id; cmd = 2; payload = []; is_udp = s.is_udp }
