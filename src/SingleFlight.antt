-- ===== src/SingleFlight.antt =====
-- `SingleFlight` of target_core/src/transport/dns_cache.rs: callers for one name share one lookup. A
-- call that finds no channel for its name leads: it looks the name up, takes the name out, and sends
-- the result. A call that finds one follows its channel. A leader that is dropped while it looks up
-- drops the sender. The channels are numbered as they are made; calls run at the same time, so what
-- they do is a list of events in any order.
pub mod Lookups
pub mod Cancelled
use rxcore.Prelude.{ℕ, suc, List, [], ◌∷◌, Option, none, some}
use rxcore.Prelude.Assoc.{Map, lookup, insert, remove, nat_eq, bytes_eq}
use rxcore.Text.{Str}

pub data Resolved : Type 0 where
  ok : (ips : List ℕ) (ttl : ℕ) → Resolved
  err : (message : Str) → Resolved

-- A `watch` channel: nothing sent yet, a value, or the sender dropped without one.
pub data Channel : Type 0 where
  waiting : Channel
  sent : Resolved → Channel
  closed : Channel

pub record Flights : Type 0 where
  pub inflight : Map Str ℕ
  pub channels : Map ℕ Channel
  pub looking : Map ℕ Str
  pub sending : Map ℕ Resolved
  pub next : ℕ

pub data Role : Type 0 where
  leads : (channel : ℕ) → Role
  follows : (channel : ℕ) → Role

unfoldable pub lead : Str → Flights → Flights
unfolding insert
lead key s = record s {
  inflight = insert key s.next s.inflight;
  channels = insert s.next waiting s.channels;
  looking = insert s.next key s.looking;
  next = suc s.next;
}

unfoldable pub enter_with : Str → Option ℕ → Flights → Role × Flights
unfolding lead
enter_with key (some channel) s = (follows channel, s)
enter_with key none s = (leads s.next, lead key s)

unfoldable pub enter : Str → Flights → Role × Flights
unfolding lookup enter_with
enter key s = enter_with key (lookup key s.inflight) s

-- The lookup of a leader has ended: the name is taken out.
unfoldable pub looked_up : ℕ → Resolved → Option Str → Flights → Flights
unfolding insert remove
looked_up channel res none s = s
looked_up channel res (some key) s = record s {
  inflight = remove key s.inflight;
  looking = remove channel s.looking;
  sending = insert channel res s.sending;
}

-- Then the result is sent.
unfoldable pub send : ℕ → Option Resolved → Flights → Flights
unfolding insert remove
send channel none s = s
send channel (some res) s = record s {
  channels = insert channel (sent res) s.channels;
  sending = remove channel s.sending;
}

-- The leader is dropped in its lookup.
unfoldable pub cancel : ℕ → Option Str → Flights → Flights
unfolding insert remove
cancel channel none s = s
cancel channel (some key) s = record s {
  channels = insert channel closed s.channels;
  looking = remove channel s.looking;
}

-- What a follower sees of its channel.
pub data Seen : Type 0 where
  pending : Seen
  ready : Resolved → Seen
  failed : Seen

unfoldable pub see : Option Channel → Seen
see (some waiting) = pending
see (some (sent res)) = ready res
see (some closed) = failed
see none = failed

unfoldable pub follow : ℕ → Flights → Seen
unfolding lookup see
follow channel s = see (lookup channel s.channels)

pub data Event : Type 0 where
  called : (key : Str) → Event
  resolved : (channel : ℕ) → Resolved → Event
  sends : (channel : ℕ) → Event
  dropped : (channel : ℕ) → Event

unfoldable pub step : Event → Flights → Flights
unfolding enter looked_up send cancel lookup
step (called key) s = (enter key s).1
step (resolved channel res) s = looked_up channel res (lookup channel s.looking) s
step (sends channel) s = send channel (lookup channel s.sending) s
step (dropped channel) s = cancel channel (lookup channel s.looking) s

unfoldable pub run : List Event → Flights → Flights
unfolding step
run [] s = s
run (e ∷ es) s = run es (step e s)

abbrev pub new : Flights
new = record { inflight = []; channels = []; looking = []; sending = []; next = 0 }
