-- ===== src/Tests/Mux.antt =====
-- The multiplexer at concrete inputs.
use rxcore.Prelude.{◌≡◌, refl, [], ◌∷◌, List, some, true, false, arith}
use rxcore.Prelude.Loops.{any}
use rxcore.Prelude.Assoc.{lookup, nat_eq}
use rxcore.Mux.Frame.{
  MuxFrame, write_frame, Channel, Streams, bytes, finished, run_connection_reader,
}
use rxcore.Mux.Frame.Wire.{deliver_all, run_connection_reader-wire}
use rxcore.Mux.Writer.{Writer, Event, arrives_high, arrives_low, takes_turn, run_connection_writer}
use rxcore.Mux.Writer.Fair.{is_low, low_not_starved}
use rxcore.Mux.Writer.Order.{InOrder, run_connection_writer-InOrder}
use rxcore.Mux.Stream.{VirtualStream}
use rxcore.Mux.Stream.Content.{IsStream}
use rxcore.Mux.Pool.{MuxConnection, MuxPool, lease_stream}
use rxcore.Mux.Pool.Leases.{IsConnection}
use rxcore.Mux.Pool.Limits.{IsPool, pool_of, lease_stream-IsPool}

abbrev data_frame : MuxFrame
data_frame = record { stream_id = 7; cmd = 0; payload = 10 ∷ 11 ∷ []; is_udp = false }

abbrev close : MuxFrame
close = record { stream_id = 7; cmd = 2; payload = []; is_udp = false }

abbrev channel : Channel
channel = record { queue = []; capacity = 4; closed = false }

abbrev streams : Streams
streams = (7, channel) ∷ []

data_bytes : write_frame data_frame ≡ 0 ∷ 0 ∷ 0 ∷ 7 ∷ 0 ∷ 2 ∷ 10 ∷ 11 ∷ []
unfolding write_frame
data_bytes = refl

close_bytes : write_frame close ≡ 128 ∷ 0 ∷ 0 ∷ 7 ∷ 0 ∷ 0 ∷ []
unfolding write_frame
close_bytes = refl

-- The two frames arrive cut in the middle of a header and of a payload.
run_connection_reader-wire_example :
    run_connection_reader 3 []
      (bytes (0 ∷ 0 ∷ [])
        ∷ bytes (0 ∷ 7 ∷ 0 ∷ 2 ∷ 10 ∷ [])
        ∷ bytes (11 ∷ 128 ∷ 0 ∷ 0 ∷ 7 ∷ 0 ∷ 0 ∷ [])
        ∷ [])
      streams
    ≡ (finished, deliver_all streams (data_frame ∷ close ∷ []))
unfolding write_frame
run_connection_reader-wire_example =
    run_connection_reader-wire (data_frame ∷ close ∷ []) 3 []
      (bytes (0 ∷ 0 ∷ [])
        ∷ bytes (0 ∷ 7 ∷ 0 ∷ 2 ∷ 10 ∷ [])
        ∷ bytes (11 ∷ 128 ∷ 0 ∷ 0 ∷ 7 ∷ 0 ∷ 0 ∷ [])
        ∷ [])
      streams
      ((omega arith, omega arith, omega arith), ((omega arith, omega arith, omega arith), tt)) tt
      refl (omega arith)

-- A writer that has sent 31 high frames in a row.
abbrev writer : Writer
writer = record {
  high = data_frame ∷ data_frame ∷ [];
  low = close ∷ [];
  high_closed = false;
  low_closed = false;
  consecutive_high = 31;
}

abbrev busy : List Event
busy = arrives_high data_frame ∷ takes_turn true ∷ arrives_low close ∷ takes_turn true ∷ []

low_not_starved_example : any is_low (run_connection_writer busy writer).0 ≡ true
low_not_starved_example =
    low_not_starved busy writer close [] refl refl tt (omega arith) (omega arith)

run_connection_writer-InOrder_example : InOrder busy writer (run_connection_writer busy writer)
run_connection_writer-InOrder_example = run_connection_writer-InOrder busy writer (refl, refl) tt

-- A stream in the middle of a chunk, with another chunk and a close mark behind it.
abbrev stream : VirtualStream
stream = record {
  stream_id = 7;
  is_udp = false;
  current_read_chunk = some (1 ∷ 2 ∷ 3 ∷ []);
  rx_data = record { queue = (4 ∷ []) ∷ [] ∷ []; capacity = 4; closed = false };
}

stream-IsStream : IsStream stream
stream-IsStream chunk e = ground arith

abbrev connection : MuxConnection
connection = record {
  active_streams = streams;
  next_stream_id = 8;
  stream_count = 1;
  is_finished = false;
}

connection-IsConnection : IsConnection connection
unfolding lookup
connection-IsConnection = record {
  counted = refl;
  distinct = (refl, tt);
  handed_out = (omega arith, tt);
}

live : lookup 7 streams ≡ some channel
unfolding lookup
live = refl

abbrev pool : MuxPool
pool = record {
  min_connections = 1;
  max_connections = 2;
  max_streams_per_connection = 1;
  connections = connection ∷ [];
}

pool-IsPool : IsPool pool
pool-IsPool = record {
  sized = omega arith;
  within = (record { connection = connection-IsConnection; limited = omega arith }, tt);
}

-- The only connection is full, so a new one is dialled and takes the stream.
lease_stream-IsPool_example : IsPool (pool_of (lease_stream true (some false ∷ []) pool))
lease_stream-IsPool_example =
    lease_stream-IsPool true (some false ∷ []) pool pool-IsPool (omega arith, tt) (omega arith)
