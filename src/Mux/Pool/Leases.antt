-- ===== src/Mux/Pool/Leases.antt =====
-- Streams are leased once, within the limits of the pool.
use rxcore.Prelude.{ℕ, ◌+◌, ◌%◌, ◌^◌, ◌≤◌, ◌<◌, ◌≡◌, refl, [], ◌∷◌, none, some, Bool, length, arith}
use rxcore.Prelude.Assoc.{
  nat_eq, lookup, insert, remove, IsMap, IsMap-insert, IsMap-remove, length-insert-none,
  length-remove-IsMap,
}
use rxcore.Mux.Frame.{Channel, Streams}
use rxcore.Mux.Pool.{MuxConnection, new_connection, new_channel, lease_on, drop_stream}

-- All ids of a table lie below `n`.
abbrev pub Below : ℕ → Streams → Type 0
Below n [] = Unit
Below n ((id, ch) ∷ m) = (id < n) × Below n m

Below-mono : (n k : ℕ) (m : Streams) → n ≤ k → Below n m → Below k m
Below-mono n k [] h b = tt
Below-mono n k ((id, ch) ∷ m) h b = (omega arith, Below-mono n k m h b.1)

Below-fresh : (n : ℕ) (m : Streams) → Below n m → lookup n m ≡ none
unfolding lookup
Below-fresh n [] b = refl
Below-fresh n ((id, ch) ∷ m) b = ground (arith, Below-fresh n m b.1)

Below-insert :
    (n id : ℕ) (ch : Channel) (m : Streams) → id < n → Below n m → Below n (insert id ch m)
unfolding insert
Below-insert n id ch [] h b = (h, tt)
Below-insert n id ch ((j, w) ∷ m) h b = ground (arith, Below-insert n id ch m h b.1)

Below-remove : (n id : ℕ) (m : Streams) → Below n m → Below n (remove id m)
unfolding remove
Below-remove n id [] b = tt
Below-remove n id ((j, w) ∷ m) b = ground (arith, Below-remove n id m b.1)

-- The count of a connection is the number of its live streams, which have ids of their own that
-- have been handed out.
pub record IsConnection (c : MuxConnection) : Type 0 where
  pub counted : c.stream_count ≡ length c.active_streams
  pub distinct : IsMap c.active_streams
  pub handed_out : Below c.next_stream_id c.active_streams

pub new_connection-IsConnection :
    (b : Bool) → IsConnection (record new_connection { is_finished = b })
unfolding new_connection
new_connection-IsConnection b = record { counted = refl; distinct = tt; handed_out = tt }

-- A lease hands out an id that no live stream of the connection has, and keeps the connection well
-- formed with one stream more, as long as the 32-bit ids and counts have not run out.
pub lease_on-IsConnection :
    (c : MuxConnection)
    → IsConnection c
    → c.next_stream_id + 1 < 2 ^ 32
    → c.stream_count + 1 < 2 ^ 32
    → IsConnection (lease_on c).1
      × ((lease_on c).1.stream_count ≡ c.stream_count + 1)
      × (lookup (lease_on c).0 c.active_streams ≡ none)
unfolding lease_on
lease_on-IsConnection c v h k =
    let fresh = Below-fresh c.next_stream_id c.active_streams v.handed_out in
    let next : (c.next_stream_id + 1) % 2 ^ 32 ≡ c.next_stream_id + 1 = omega arith in
    let count : (c.stream_count + 1) % 2 ^ 32 ≡ c.stream_count + 1 = omega arith in
    (
      record {
        counted = omega (
          arith,
          count,
          v.counted,
          length-insert-none c.next_stream_id new_channel c.active_streams fresh,
        );
        distinct = IsMap-insert c.next_stream_id new_channel c.active_streams v.distinct;
        handed_out = rw next (
            Below-insert _ _ _ c.active_streams (omega arith)
              (Below-mono _ _ c.active_streams (omega arith) v.handed_out));
      },
      count,
      fresh,
    )

-- Dropping a live stream keeps the connection well formed, with one stream fewer.
pub drop_stream-IsConnection :
    (id : ℕ) (ch : Channel) (c : MuxConnection)
    → IsConnection c
    → c.stream_count < 2 ^ 32
    → lookup id c.active_streams ≡ some ch
    → IsConnection (drop_stream id c) × ((drop_stream id c).stream_count + 1 ≡ c.stream_count)
unfolding drop_stream
drop_stream-IsConnection id ch c v h live =
    let size = length-remove-IsMap id c.active_streams ch v.distinct live in
    (
      record {
        counted = omega (arith, v.counted, size);
        distinct = IsMap-remove id c.active_streams v.distinct;
        handed_out = Below-remove _ id c.active_streams v.handed_out;
      },
      omega (arith, v.counted, size),
    )
