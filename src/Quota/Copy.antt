-- ===== src/Quota/Copy.antt =====
-- The one-way copy loops of target_core/src/transport/mod.rs: `copy_one_way_unlimited`,
-- `copy_one_way_fast` and `copy_one_way_rate_limited`.
-- A loop is a recursion on its rounds. What the outside decides in a round is a record: what the
-- reader gives, which values the loads of the user's limit return (other connections of the user
-- change it at any time), whether the write succeeds and whether 500 ms have passed since the last
-- commit. The virtual clock of the rate limit only delays a write, and is not part of the model.
pub mod Counting
pub mod Ends
use rxcore.Prelude.{
  ℕ, zero, suc, ◌+◌, ◌*◌, ◌/◌, ◌<◌, min, max, List, [], ◌∷◌, ◌++◌, Option, none, some, Bool, true,
  false, ◌||◌, ◌&&◌, not, ◌==◌, ltb, leb, length, take, if◌then◌else◌,
}
use rxcore.Prelude.Int.{ℤ, pos, negsuc, ltb_ℤ}
use rxcore.Prelude.Words.{add_u64}
use rxcore.Quota.{reserve_quota}

pub record Round : Type 0 where
  pub read : Option (List ℕ)
  pub checked : ℤ
  pub loaded : ℤ
  pub failures : List ℤ
  pub write_ok : Bool
  pub due : Bool

-- The counters that a loop adds to: the connection's, and the user's, if there is a user.
pub record Meter : Type 0 where
  pub connection : ℕ
  pub user : Option ℕ
  pub dirty : Bool

-- The state of a loop: what has been written, its count, and what is not yet on the meter.
pub record Copy : Type 0 where
  pub meter : Meter
  pub written : List ℕ
  pub total_bytes : ℕ
  pub accumulated_bytes : ℕ

pub data Outcome : Type 0 where
  returned : ℕ → Outcome
  failed : Outcome
  waiting : Outcome

unfoldable pub start : Meter → Copy
start m = record { meter = m; written = []; total_bytes = 0; accumulated_bytes = 0 }

abbrev pub plus : ℕ → Option ℕ → Option ℕ
plus n none = none
plus n (some c) = some (add_u64 c n)

-- The accumulated bytes go to the counters.
unfoldable pub commit : Copy → Copy
commit c = record c {
  meter = record {
    connection = add_u64 c.meter.connection c.accumulated_bytes;
    user = plus c.accumulated_bytes c.meter.user;
    dirty = true;
  };
  accumulated_bytes = 0;
}

-- After a write: count it, and commit when 1 MiB is reached or the time has come.
unfoldable pub wrote : Copy → List ℕ → Bool → Copy
unfolding commit
wrote c data' due =
    let total = add_u64 c.total_bytes (length data') in
    let acc = add_u64 c.accumulated_bytes (length data') in
    let c' = record c {
      written = c.written ++ data';
      total_bytes = total;
      accumulated_bytes = acc;
    } in
    if leb 1048576 acc || due then commit c' else c'

-- The end of each loop: commit what is left, and shut the writer down.
unfoldable pub finish : Bool → Copy → Outcome × Copy
unfolding commit
finish shutdown_ok c =
    let c' = if ltb 0 c.accumulated_bytes then commit c else c in
    if shutdown_ok then (returned c'.total_bytes, c') else (failed, c')

unfoldable pub copy_one_way_unlimited : Bool → List Round → Copy → Outcome × Copy
unfolding finish wrote
copy_one_way_unlimited shutdown_ok [] c = (waiting, c)
copy_one_way_unlimited shutdown_ok (r ∷ rs) c = elim r.read [
  | none ↦ (failed, c)
  | some [] ↦ finish shutdown_ok c
  | some (b ∷ bs) ↦
      let rest = copy_one_way_unlimited shutdown_ok rs (wrote c (b ∷ bs) r.due) in
      if r.write_ok then rest else (failed, c)
]

-- The loop of the other two, with the user's limit if there is a user. The reader gives at most
-- `max_chunk` bytes a round.
unfoldable pub metered : ℕ → Bool → Bool → List Round → Copy → Outcome × Copy
unfolding finish wrote
metered max_chunk has_user shutdown_ok [] c = (waiting, c)
metered max_chunk has_user shutdown_ok (r ∷ rs) c =
    if has_user && not (ltb_ℤ (pos 0) r.checked) then finish shutdown_ok c else elim r.read [
      | none ↦ (failed, c)
      | some [] ↦ finish shutdown_ok c
      | some (b ∷ bs) ↦
          let n = take max_chunk (b ∷ bs) in
          let allowed =
            if has_user then (reserve_quota r.failures r.loaded (length n)).granted else length n in
          let c' = wrote c (take allowed n) r.due in
          let rest = metered max_chunk has_user shutdown_ok rs c' in
          if allowed == 0
          then finish shutdown_ok c
          else if not r.write_ok
          then (failed, c)
          else if ltb allowed (length n)
          then finish shutdown_ok c'
          else rest
    ]

abbrev pub has_user_counter : Copy → Bool
has_user_counter c = elim c.meter.user [ none ↦ false | some n ↦ true ]

unfoldable pub copy_one_way_fast : Bool → List Round → Copy → Outcome × Copy
unfolding metered
copy_one_way_fast shutdown_ok rs c = metered 32768 (has_user_counter c) shutdown_ok rs c

-- `clamp(256, max_chunk_bound)` of the bytes that the limit allows in 5 ms.
unfoldable pub max_chunk_of : ℕ → ℕ
max_chunk_of limit =
    let bound = if ltb limit 1250000 then 4096 else if ltb limit 12500000 then 16384 else 65536 in
    min bound (max 256 (limit * 5000000 / 1000000000))

unfoldable pub copy_one_way_rate_limited : ℕ → Bool → List Round → Copy → Outcome × Copy
unfolding metered max_chunk_of
copy_one_way_rate_limited limit shutdown_ok rs c =
    metered (max_chunk_of limit) (has_user_counter c) shutdown_ok rs c

-- Which loops `copy_bidirectional_with_rate_limit` runs, from the speed limit and the limit that it
-- loads for the user, if there is one.
pub data CopyPath : Type 0 where
  speed_limited : ℕ → CopyPath
  quota_limited : CopyPath
  unlimited : CopyPath

abbrev quota_path : Option ℤ → CopyPath
quota_path none = unlimited
quota_path (some (negsuc zero)) = unlimited
quota_path (some _) = quota_limited

unfoldable pub select_path : Option ℕ → Option ℤ → CopyPath
select_path none remaining = quota_path remaining
select_path (some limit) remaining =
    if ltb 0 limit then speed_limited limit else quota_path remaining

run_path : CopyPath → Bool → List Round → Copy → Outcome × Copy
run_path (speed_limited limit) shutdown_ok rs c = copy_one_way_rate_limited limit shutdown_ok rs c
run_path quota_limited shutdown_ok rs c = copy_one_way_fast shutdown_ok rs c
run_path unlimited shutdown_ok rs c = copy_one_way_unlimited shutdown_ok rs c

-- One direction of `copy_bidirectional_with_rate_limit`.
unfoldable pub copy_direction : Option ℕ → Option ℤ → Bool → List Round → Copy → Outcome × Copy
unfolding select_path run_path
copy_direction speed_limit remaining shutdown_ok rs c =
    run_path (select_path speed_limit remaining) shutdown_ok rs c
