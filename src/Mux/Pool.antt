-- ===== src/Mux/Pool.antt =====
-- `MuxPool` of target_core/src/transport/mux.rs: the choice of a connection, the lease of a stream,
-- and the return of a stream by `Drop for MuxVirtualStream`. A connection is a record of its shared
-- counters; the 128 frames of a stream's channel are its capacity.
pub mod Leases
pub mod Limits
use rxcore.Prelude.{
  ℕ, zero, suc, ◌+◌, ◌-◌, ◌%◌, ◌^◌, List, [], ◌∷◌, ◌++◌, Option, none, some, Bool, true, false, not,
  length, ltb, leb, if◌then◌else◌,
}
use rxcore.Prelude.Loops.{retain}
use rxcore.Prelude.Assoc.{insert, remove, nat_eq}
use rxcore.Mux.Frame.{Channel, Streams}

pub record MuxConnection : Type 0 where
  pub active_streams : Streams
  pub next_stream_id : ℕ
  pub stream_count : ℕ
  pub is_finished : Bool

pub record MuxPool : Type 0 where
  pub min_connections : ℕ
  pub max_connections : ℕ
  pub max_streams_per_connection : ℕ
  pub connections : List MuxConnection

-- The end of `connect_one`, once the connection is made.
unfoldable pub new_connection : MuxConnection
new_connection = record {
  active_streams = [];
  next_stream_id = 1;
  stream_count = 0;
  is_finished = false;
}

abbrev new_channel : Channel
new_channel = record { queue = []; capacity = 128; closed = false }

-- The part of `lease_stream` that works on the connection chosen.
unfoldable pub lease_on : MuxConnection → ℕ × MuxConnection
lease_on c = (
  c.next_stream_id,
  record c {
    active_streams = insert c.next_stream_id new_channel c.active_streams;
    next_stream_id = (c.next_stream_id + 1) % 2 ^ 32;
    stream_count = (c.stream_count + 1) % 2 ^ 32;
  },
)

-- `Drop for MuxVirtualStream`, besides the close frame that it tries to send.
unfoldable pub drop_stream : ℕ → MuxConnection → MuxConnection
drop_stream id c = record c {
  active_streams = remove id c.active_streams;
  stream_count = (c.stream_count + 2 ^ 32 - 1) % 2 ^ 32;
}

abbrev behind :
    MuxConnection → Option (ℕ × ℕ × List MuxConnection) → Option (ℕ × ℕ × List MuxConnection)
behind c none = none
behind c (some (index, id, cs)) = some (suc index, id, c ∷ cs)

-- The first connection with room takes the stream: its index, the stream id, the connections after.
unfoldable pub lease_first : ℕ → List MuxConnection → Option (ℕ × ℕ × List MuxConnection)
unfolding lease_on
lease_first max_streams [] = none
lease_first max_streams (c ∷ cs) =
    if ltb c.stream_count max_streams
    then some (0, (lease_on c).0, (lease_on c).1 ∷ cs)
    else behind c (lease_first max_streams cs)

pub data LeaseAction : Type 0 where
  lease : (index stream_id : ℕ) → MuxPool → LeaseAction
  connect_new : MuxPool → LeaseAction
  error : MuxPool → LeaseAction

abbrev lease_or : MuxPool → Option (ℕ × ℕ × List MuxConnection) → LeaseAction
lease_or p (some (index, id, cs)) = lease index id (record p { connections = cs })
lease_or p none = if ltb (length p.connections) p.max_connections then connect_new p else error p

-- What `lease_stream` does while it holds the lock: drop finished connections, then choose.
unfoldable pub lease_action : MuxPool → LeaseAction
unfolding lease_first
lease_action p =
    let live = retain (λ c. not c.is_finished) p.connections in
    lease_or (record p { connections = live }) (lease_first p.max_streams_per_connection live)

pub data Leased : Type 0 where
  leased : (index stream_id : ℕ) → MuxPool → Leased
  open_failed : MuxPool → Leased
  capacity_exceeded : MuxPool → Leased
  dial_failed : MuxPool → Leased
  dialling : MuxPool → Leased

abbrev opened : Bool → ℕ → ℕ → MuxPool → Leased
opened true index id p = leased index id p
opened false index id p = open_failed p

-- A new connection joins the pool; it may have finished in the meantime.
unfoldable pub push_connection : Bool → MuxPool → MuxPool
unfolding new_connection
push_connection is_finished p = record p {
  connections = p.connections ++ record new_connection { is_finished = is_finished } ∷ [];
}

-- What `lease_stream` does once the lock is released, `connect` for a new connection.
unfoldable pub after_action : Bool → (MuxPool → Leased) → LeaseAction → Leased
after_action send_ok connect (lease index id p) = opened send_ok index id p
after_action send_ok connect (connect_new p) = connect p
after_action send_ok connect (error p) = capacity_exceeded p

-- `lease_stream`: `dials` are the results of `connect_one`, `none` for an error, and `send_ok` says
-- whether the open frame could be handed to the writer.
unfoldable pub lease_stream : Bool → List (Option Bool) → MuxPool → Leased
unfolding lease_action push_connection after_action
lease_stream send_ok [] p = after_action send_ok dialling (lease_action p)
lease_stream send_ok (none ∷ dials) p = after_action send_ok dial_failed (lease_action p)
lease_stream send_ok (some is_finished ∷ dials) p =
    after_action send_ok (λ p'. lease_stream send_ok dials (push_connection is_finished p'))
      (lease_action p)

-- `pre_warm`: `false` beside the pool for a dial that failed or has not come back.
unfoldable pub pre_warm : List (Option Bool) → MuxPool → Bool × MuxPool
unfolding push_connection
pre_warm [] p = (leb p.min_connections (length p.connections), p)
pre_warm (none ∷ dials) p = (leb p.min_connections (length p.connections), p)
pre_warm (some is_finished ∷ dials) p =
    let rest = pre_warm dials (push_connection is_finished p) in
    if leb p.min_connections (length p.connections) then (true, p) else rest
