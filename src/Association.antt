-- ===== src/Association.antt =====
-- The associations of SOCKS5 UDP clients: `get_or_create_association`, the lookup of a reply and
-- `spawn_association_cleanup_task` of target_core/src/inbound/socks5.rs. An address is its bytes, a
-- socket a handle, time is counted in seconds. The time of an association is shared by all its
-- clones, so a store to it is a write to the table.
pub mod Registry
pub mod Cleanup
pub mod Locks
pub mod Taken
use rxcore.Prelude.{ℕ, ◌+◌, ◌-◌, ◌%◌, ◌^◌, List, [], ◌∷◌, Option, none, some, ltb, if◌then◌else◌}
use rxcore.Prelude.Assoc.{Map, lookup, insert, remove, nat_eq, bytes_eq}
use rxcore.Text.{Str}

pub record ClientAssociation : Type 0 where
  pub client_addr : Str
  pub socket : ℕ
  pub last_active : ℕ

-- CLIENT_SESSIONS, ASSOC_MAP and NEXT_ASSOC_ID.
pub record Tables : Type 0 where
  pub sessions : Map Str ℕ
  pub assocs : Map ℕ ClientAssociation
  pub next_assoc_id : ℕ

unfoldable pub store_active : ℕ → ℕ → Option ClientAssociation → Tables → Tables
unfolding insert
store_active now id none s = s
store_active now id (some a) s = record s {
  assocs = insert id (record a { last_active = now }) s.assocs;
}

unfoldable pub touch : (now id : ℕ) → Tables → Tables
unfolding lookup store_active
touch now id s = store_active now id (lookup id s.assocs) s

-- The counter wraps at 16 bits.
unfoldable pub create : (now : ℕ) → Str → (socket : ℕ) → Tables → Tables
unfolding insert
create now client_addr socket s = record {
  sessions = insert client_addr s.next_assoc_id s.sessions;
  assocs =
      insert s.next_assoc_id
        (record { client_addr = client_addr; socket = socket; last_active = now }) s.assocs;
  next_assoc_id = (s.next_assoc_id + 1) % 2 ^ 16;
}

unfoldable pub get_or_create_by : ℕ → Str → ℕ → Option ℕ → Tables → ℕ × Tables
unfolding touch create
get_or_create_by now client_addr socket (some id) s = (id, touch now id s)
get_or_create_by now client_addr socket none s = (s.next_assoc_id, create now client_addr socket s)

unfoldable pub get_or_create_association : (now : ℕ) → Str → (socket : ℕ) → Tables → ℕ × Tables
unfolding lookup get_or_create_by
get_or_create_association now client_addr socket s =
    get_or_create_by now client_addr socket (lookup client_addr s.sessions) s

-- A reply: the association that it goes to, which becomes active.
unfoldable pub find_association : (now id : ℕ) → Tables → Option ClientAssociation × Tables
unfolding lookup touch
find_association now id s = (lookup id s.assocs, touch now id s)

-- The first half of a cleanup: what has been idle for more than a minute.
unfoldable pub idle : ℕ → Map ℕ ClientAssociation → List (ℕ × Str)
idle now [] = []
idle now ((id, a) ∷ m) =
    let rest = idle now m in
    if ltb 60 (now - a.last_active) then (id, a.client_addr) ∷ rest else rest

-- The second half, under locks taken anew.
unfoldable pub remove_idle : List (ℕ × Str) → Tables → Tables
unfolding remove
remove_idle [] s = s
remove_idle ((id, client_addr) ∷ to_remove) s =
    remove_idle to_remove
      (record s { assocs = remove id s.assocs; sessions = remove client_addr s.sessions })

-- The tables with what a cleanup has found, and what can happen to them: a datagram of a client, a
-- reply on an association, and the halves of a cleanup.
pub record System : Type 0 where
  pub tables : Tables
  pub to_remove : List (ℕ × Str)

pub data Event : Type 0 where
  datagram : (now : ℕ) (client_addr : Str) (socket : ℕ) → Event
  reply : (now assoc_id : ℕ) → Event
  look : (now : ℕ) → Event
  purge : Event

unfoldable pub step : Event → System → System
unfolding get_or_create_association find_association idle remove_idle
step (datagram now client socket) s = record s {
  tables = (get_or_create_association now client socket s.tables).1;
}
step (reply now id) s = record s { tables = (find_association now id s.tables).1 }
step (look now) s = record s { to_remove = idle now s.tables.assocs }
step purge s = record { tables = remove_idle s.to_remove s.tables; to_remove = [] }

unfoldable pub run : List Event → System → System
unfolding step
run [] s = s
run (e ∷ es) s = run es (step e s)

abbrev pub starting : System
starting = record {
  tables = record { sessions = []; assocs = []; next_assoc_id = 1 };
  to_remove = [];
}
