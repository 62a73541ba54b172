-- ===== src/Tests/Quota.antt =====
-- The quota at concrete inputs.
use rxcore.Prelude.{ℕ, ◌+◌, ◌≡◌, ◌↔◌, refl, [], ◌∷◌, none, some, true, false, arith}
use rxcore.Prelude.Int.{pos, negsuc, ◌-ℤ◌}
use rxcore.Quota.{reserve_quota, reserve_attempt}
use rxcore.Quota.Threads.{
  System, ready, returned, loads, cas_succeeds, Reach, here, next, starting, total_granted,
  reserve_quota_conserves,
}
use rxcore.Quota.Account.{UserStats, Ledger, authenticate_client}
use rxcore.Quota.Account.Limits.{MayConnect, authenticate_client_iff}
use rxcore.Quota.Copy.{Round, Meter, Copy, start, copy_direction, copy_one_way_unlimited}
use rxcore.Quota.Copy as CopyLoops
use rxcore.Quota.Copy.Counting.{Settles, copy_direction-Settles}
use rxcore.Quota.Copy.Ends.{speed_limited_stops}

-- Two failing exchanges, the second of which finds the counter lower.
retried :
    reserve_quota (pos 9 ∷ pos 4 ∷ []) (pos 10) 6
    ≡ record { granted = 4; exchanged = some (pos 4, pos 0) }
unfolding reserve_quota reserve_attempt ◌-ℤ◌
retried = refl

-- Two calls for 6 and 7 bytes on a counter of 10; the first has been served.
abbrev served : System
served = record { remaining = pos 4; threads = returned 6 ∷ ready 7 ∷ [] }

served_reached : Reach (record { remaining = pos 10; threads = starting (6 ∷ 7 ∷ []) }) served
unfolding reserve_attempt ◌-ℤ◌
served_reached = next (next here (loads 0 6 refl refl)) (cas_succeeds 0 6 6 (pos 4) refl refl refl)

reserve_quota_conserves_example :
    (left : ℕ) × (served.remaining ≡ pos left) × (left + total_granted served.threads ≡ 10)
reserve_quota_conserves_example = reserve_quota_conserves 10 (6 ∷ 7 ∷ []) served served_reached

abbrev limited : UserStats
limited = record { expiry_time = pos 0; speed_limit = 0; remaining_bytes = pos 5; rx = 0; tx = 0 }

authenticate_client_iff_example :
    (authenticate_client (some limited) (pos 1000) ≡ some limited)
    ↔ MayConnect (pos 0) (pos 5) (pos 1000)
authenticate_client_iff_example = authenticate_client_iff limited (pos 1000)

abbrev ledger : Ledger
ledger = record {
  user = some limited;
  connection_rx = some 0;
  connection_tx = some 0;
  dirty = false;
}

abbrev meter : Meter
meter = record { connection = 100; user = some 100; dirty = false }

abbrev data_round : Round
data_round = record {
  read = some (1 ∷ 2 ∷ 3 ∷ []);
  checked = negsuc 0;
  loaded = negsuc 0;
  failures = [];
  write_ok = true;
  due = false;
}

abbrev end_round : Round
end_round = record data_round { read = some [] }

copy_direction-Settles_example :
    Settles 100
      (copy_direction none (some (pos 8)) true (data_round ∷ end_round ∷ []) (start meter))
copy_direction-Settles_example =
    copy_direction-Settles none (some (pos 8)) true (data_round ∷ end_round ∷ []) meter
      (omega arith)

speed_limited_stops_example :
    copy_direction (some 1000) (some (negsuc 0)) true (data_round ∷ end_round ∷ []) (start meter)
    ≡ (CopyLoops.returned 0, start meter)
speed_limited_stops_example =
    speed_limited_stops 1000 100 data_round (end_round ∷ []) meter (omega arith) refl refl
