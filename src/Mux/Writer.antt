-- ===== src/Mux/Writer.antt =====
-- `run_connection_writer` of target_core/src/transport/mux.rs: the choice between the queue of UDP
-- frames (high) and that of TCP frames (low). What happens between two turns of the loop is a list
-- of events: frames come in, the senders of a queue go away, or the loop takes a turn.
pub mod Fair
pub mod Order
use rxcore.Prelude.{
  ℕ, zero, suc, ◌+◌, ◌%◌, ◌^◌, List, [], ◌∷◌, ◌++◌, Bool, true, false, leb, if◌then◌else◌,
}
use rxcore.Mux.Frame.{MuxFrame}

pub record Writer : Type 0 where
  pub high : List MuxFrame
  pub low : List MuxFrame
  pub high_closed : Bool
  pub low_closed : Bool
  pub consecutive_high : ℕ

-- Polling `recv`: a frame with the rest of the queue, the end when all senders are gone, or
-- nothing yet.
pub data Recv : Type 0 where
  got : MuxFrame → List MuxFrame → Recv
  ended : Recv
  pending : Recv

unfoldable pub recv : List MuxFrame → Bool → Recv
recv (f ∷ rest) closed = got f rest
recv [] true = ended
recv [] false = pending

-- A turn takes the head of a queue, waits, or leaves the loop.
pub data Turn : Type 0 where
  takes_high : MuxFrame → Writer → Turn
  takes_low : MuxFrame → Writer → Turn
  waits : Turn
  breaks : Turn

-- A branch of `select!` that is not ready passes on to the other.
try_high : Writer → Turn → Turn
try_high w otherwise = elim (recv w.high w.high_closed) [
  | got f rest ↦
      takes_high f (record w { high = rest; consecutive_high = (w.consecutive_high + 1) % 2 ^ 32 })
  | ended ↦ breaks
  | pending ↦ otherwise
]

try_low : Writer → Turn → Turn
try_low w otherwise = elim (recv w.low w.low_closed) [
  | got f rest ↦ takes_low f (record w { low = rest; consecutive_high = 0 })
  | ended ↦ breaks
  | pending ↦ otherwise
]

-- The biased `select!` of one turn: low first after 32 high frames in a row.
unfoldable pub turn : Writer → Turn
unfolding recv try_high try_low
turn w =
    if leb 32 w.consecutive_high then try_low w (try_high w waits) else try_high w (try_low w waits)

pub data Event : Type 0 where
  arrives_high : MuxFrame → Event
  arrives_low : MuxFrame → Event
  high_dropped : Event
  low_dropped : Event
  takes_turn : (write_ok : Bool) → Event

-- A frame handed to `write_frame`, with the queue that it came from.
pub data Sent : Type 0 where
  from_high : MuxFrame → Sent
  from_low : MuxFrame → Sent

-- The frames written, in order. The loop ends when a queue has ended or a write fails.
unfoldable pub run_connection_writer : List Event → Writer → List Sent × Writer
unfolding turn
run_connection_writer [] w = ([], w)
run_connection_writer (arrives_high f ∷ es) w =
    run_connection_writer es (record w { high = w.high ++ f ∷ [] })
run_connection_writer (arrives_low f ∷ es) w =
    run_connection_writer es (record w { low = w.low ++ f ∷ [] })
run_connection_writer (high_dropped ∷ es) w =
    run_connection_writer es (record w { high_closed = true })
run_connection_writer (low_dropped ∷ es) w =
    run_connection_writer es (record w { low_closed = true })
run_connection_writer (takes_turn false ∷ es) w = ([], w)
run_connection_writer (takes_turn true ∷ es) w = elim (turn w) [
  | takes_high f w' ↦ let (sent, last) = run_connection_writer es w' in (from_high f ∷ sent, last)
  | takes_low f w' ↦ let (sent, last) = run_connection_writer es w' in (from_low f ∷ sent, last)
  | waits ↦ run_connection_writer es w
  | breaks ↦ ([], w)
]
