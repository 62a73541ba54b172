-- ===== src/Tests/Association.antt =====
-- The associations at concrete inputs.
use rxcore.Prelude.{◌≡◌, ◌≢◌, refl, List, [], ◌∷◌, some, none, inr}
use rxcore.Prelude.Loops.{eq_bytes}
use rxcore.Prelude.Assoc.{lookup, nat_eq, bytes_eq}
use rxcore.Association.{
  ClientAssociation, Tables, Event, datagram, reply, look, purge, step, run, starting,
  get_or_create_association, find_association,
}
use rxcore.Association.Registry.{IsRegistry}
use rxcore.Association.Cleanup.{AreFree, run-IsRegistry}
use rxcore.Association.Taken.{get_or_create_association_takes_over}
use rxcore.Association.Locks.{Locks, look as looks, datagram as receives}

-- Two clients; the first one is idle for two minutes, and cleaned up.
abbrev events : List Event
events =
    datagram 0 (1 ∷ []) 7
    ∷ datagram 100 (2 ∷ []) 8
    ∷ look 120
    ∷ reply 121 2
    ∷ purge
    ∷ datagram 122 (1 ∷ []) 9
    ∷ []

events-AreFree : AreFree events starting
unfolding step eq_bytes
events-AreFree = (inr refl, (inr refl, (tt, (tt, (tt, (inr refl, tt))))))

run-IsRegistry_example : IsRegistry (run events starting).tables
run-IsRegistry_example = run-IsRegistry events events-AreFree

events_run : (run events starting).tables.sessions ≡ ((2 ∷ [], 2) ∷ (1 ∷ [], 3) ∷ [])
unfolding run eq_bytes
events_run = refl

-- A cleanup removes an association that became active after its look.
purges_active :
    (run
      (datagram 0 (1 ∷ []) 7 ∷ look 100 ∷ datagram 101 (1 ∷ []) 7 ∷ purge ∷ [])
      starting).tables.assocs
    ≡ []
unfolding run eq_bytes
purges_active = refl

-- The counter has come round to the association of a client.
abbrev first : ClientAssociation
first = record { client_addr = 1 ∷ []; socket = 7; last_active = 5 }

abbrev round : Tables
round = record { sessions = (1 ∷ [], 1) ∷ []; assocs = (1, first) ∷ []; next_assoc_id = 1 }

first_created : IsRegistry (run (datagram 5 (1 ∷ []) 7 ∷ []) starting).tables
unfolding step
first_created = run-IsRegistry (datagram 5 (1 ∷ []) 7 ∷ []) (inr refl, tt)

round-IsRegistry : IsRegistry round
unfolding run
round-IsRegistry = record {
  once = first_created.once;
  forth = first_created.forth;
  back = first_created.back;
}

unknown : lookup (2 ∷ []) round.sessions ≡ none
unfolding lookup eq_bytes
unknown = refl

live : lookup 1 round.assocs ≡ some first
unfolding lookup
live = refl

get_or_create_association_takes_over_example :
    let after = (get_or_create_association 6 (2 ∷ []) 8 round).1 in
    (first.client_addr ≢ 2 ∷ [])
    × (lookup (1 ∷ []) after.sessions ≡ some 1)
    × ((find_association 9 1 after).0
        ≡ some (record { client_addr = 2 ∷ []; socket = 8; last_active = 6 }))
get_or_create_association_takes_over_example =
    get_or_create_association_takes_over 6 9 (2 ∷ []) 8 round first round-IsRegistry unknown live
