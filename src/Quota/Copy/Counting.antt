-- ===== src/Quota/Copy/Counting.antt =====
-- What the loops have written is what they have counted.
use rxcore.Prelude.{
  ℕ, ◌+◌, ◌%◌, ◌^◌, ◌<◌, ◌≡◌, refl, inl, inr, List, [], ◌∷◌, ◌++◌, Option, none, some, Bool, true,
  false, ◌||◌, leb, ltb, length, length-append, take, arith, if◌then◌else◌, Bool-cases, ◌⊎◌, ◌&&◌,
  not, ◌==◌,
}
use rxcore.Prelude.Int.{ℤ, pos, ltb_ℤ}
use rxcore.Prelude.Words.{add_u64}
use rxcore.Quota.{reserve_quota}
use rxcore.Quota.Copy.{
  Round, Meter, Copy, Outcome, returned, failed, waiting, start, commit, wrote, finish,
  copy_one_way_unlimited, metered, copy_one_way_fast, copy_one_way_rate_limited, copy_direction,
  select_path, run_path, has_user_counter, max_chunk_of, CopyPath, speed_limited, quota_limited,
  unlimited,
}

-- The state of a loop that started on the counter value `before`.
pub record Counted (before : ℕ) (c : Copy) : Type 0 where
  pub total : c.total_bytes ≡ length c.written % 2 ^ 64
  pub pending :
      (c.meter.connection + c.accumulated_bytes) % 2 ^ 64 ≡ (before + length c.written) % 2 ^ 64
  pub word : c.meter.connection < 2 ^ 64

-- What a loop that ends regularly has returned and counted. A loop that fails or still waits may
-- have bytes that are not on the meter yet.
abbrev pub Settles : ℕ → Outcome × Copy → Type 0
Settles before (returned n, c) =
    (n ≡ length c.written % 2 ^ 64)
    × (c.meter.connection ≡ (before + length c.written) % 2 ^ 64)
    × (c.accumulated_bytes ≡ 0)
Settles before (failed, c) = Unit
Settles before (waiting, c) = Unit

commit-Counted : (before : ℕ) (c : Copy) → Counted before c → Counted before (commit c)
unfolding commit add_u64
commit-Counted before c v = record {
  total = v.total;
  pending = omega (arith, v.pending);
  word = omega arith;
}

written_more :
    (before : ℕ) (c : Copy) (bs : List ℕ)
    → Counted before c
    → Counted before (record c {
      written = c.written ++ bs;
      total_bytes = add_u64 c.total_bytes (length bs);
      accumulated_bytes = add_u64 c.accumulated_bytes (length bs);
    })
unfolding add_u64
written_more before c bs v = record {
  total = omega (arith, v.total, length-append c.written bs);
  pending = omega (arith, v.pending, length-append c.written bs);
  word = v.word;
}

wrote-Counted :
    (before : ℕ) (c : Copy) (bs : List ℕ) (due : Bool)
    → Counted before c
    → Counted before (wrote c bs due)
unfolding wrote
wrote-Counted before c bs due v =
    elim (Bool-cases (leb 1048576 (add_u64 c.accumulated_bytes (length bs)) || due)) [
      | inl e ↦ rw e (commit-Counted before _ (written_more before c bs v))
      | inr e ↦ rw e (written_more before c bs v)
    ]

finish-Settles :
    (before : ℕ) (ok : Bool) (c : Copy) → Counted before c → Settles before (finish ok c)
unfolding finish commit add_u64
finish-Settles before false c v = tt
finish-Settles before true c v = elim (Bool-cases (ltb 0 c.accumulated_bytes)) [
  | inl e ↦ rw e (v.total, v.pending, refl)
  | inr e ↦ rw e (v.total, omega (arith, v.pending, v.word, ltb-false e), ltb-false e)
]
  where
    ltb-false : ltb 0 c.accumulated_bytes ≡ false → c.accumulated_bytes ≡ 0
    ltb-false h = ground arith

Read-cases :
    (o : Option (List ℕ))
    → (o ≡ none) ⊎ ((o ≡ some []) ⊎ ((b : ℕ) × (bs : List ℕ) × (o ≡ some (b ∷ bs))))
Read-cases none = inl refl
Read-cases (some []) = inr (inl refl)
Read-cases (some (b ∷ bs)) = inr (inr (b, bs, refl))

Settles-if :
    (before : ℕ) (b : Bool) (x y : Outcome × Copy)
    → Settles before x
    → Settles before y
    → Settles before (if b then x else y)
Settles-if before true x y hx hy = hx
Settles-if before false x y hx hy = hy

copy_one_way_unlimited-Settles :
    (before : ℕ) (ok : Bool) (rs : List Round) (c : Copy)
    → Counted before c
    → Settles before (copy_one_way_unlimited ok rs c)
unfolding copy_one_way_unlimited
copy_one_way_unlimited-Settles before ok [] c v = tt
copy_one_way_unlimited-Settles before ok (r ∷ rs) c v = elim (Read-cases r.read) [
  | inl e ↦ rw (e, copy_one_way_unlimited) tt
  | inr (inl e) ↦ rw (e, copy_one_way_unlimited) (finish-Settles before ok c v)
  | inr (inr (b, bs, e)) ↦
      rw (e, copy_one_way_unlimited)
        (Settles-if before r.write_ok _ _
          (copy_one_way_unlimited-Settles before ok rs _ (wrote-Counted before c (b ∷ bs) r.due v))
          tt)
]

metered-Settles :
    (before max_chunk : ℕ) (has_user ok : Bool) (rs : List Round) (c : Copy)
    → Counted before c
    → Settles before (metered max_chunk has_user ok rs c)
unfolding metered
metered-Settles before m u ok [] c v = tt
metered-Settles before m u ok (r ∷ rs) c v =
    Settles-if before (u && not (ltb_ℤ (pos 0) r.checked)) _ _ ends (elim (Read-cases r.read) [
      | inl e ↦ rw (e, metered) tt
      | inr (inl e) ↦ rw (e, metered) ends
      | inr (inr (b, bs, e)) ↦
          let n = take m (b ∷ bs) in
          let allowed =
            if u then (reserve_quota r.failures r.loaded (length n)).granted else length n in
          let more = wrote-Counted before c (take allowed n) r.due v in
          rw (e, metered)
            (Settles-if before (allowed == 0) _ _ ends (
              Settles-if before (not r.write_ok) _ _ tt (
                Settles-if before (ltb allowed (length n)) _ _ (finish-Settles before ok _ more)
                  (metered-Settles before m u ok rs _ more))))
    ])
  where
    ends : Settles before (finish ok c)
    ends = finish-Settles before ok c v

start-Counted : (m : Meter) → m.connection < 2 ^ 64 → Counted m.connection (start m)
unfolding start
start-Counted m h = record { total = refl; pending = omega arith; word = h }

run_path-Settles :
    (p : CopyPath) (ok : Bool) (rs : List Round) (m : Meter)
    → m.connection < 2 ^ 64
    → Settles m.connection (run_path p ok rs (start m))
unfolding run_path copy_one_way_fast copy_one_way_rate_limited
run_path-Settles (speed_limited limit) ok rs m h =
    metered-Settles m.connection (max_chunk_of limit) (has_user_counter (start m)) ok rs (start m)
      (start-Counted m h)
run_path-Settles quota_limited ok rs m h =
    metered-Settles m.connection 32768 (has_user_counter (start m)) ok rs (start m)
      (start-Counted m h)
run_path-Settles unlimited ok rs m h =
    copy_one_way_unlimited-Settles m.connection ok rs (start m) (start-Counted m h)

-- Whichever of the three loops a connection runs, a direction that ends regularly returns the count
-- of the bytes that it has written, the connection's counter has grown by that count, and nothing
-- is left to commit (all modulo 2 ^ 64).
pub copy_direction-Settles :
    (speed_limit : Option ℕ) (remaining : Option ℤ) (ok : Bool) (rs : List Round) (m : Meter)
    → m.connection < 2 ^ 64
    → Settles m.connection (copy_direction speed_limit remaining ok rs (start m))
unfolding copy_direction
copy_direction-Settles s q ok rs m h = run_path-Settles (select_path s q) ok rs m h
