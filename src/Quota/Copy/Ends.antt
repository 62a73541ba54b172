-- ===== src/Quota/Copy/Ends.antt =====
-- When the metered loops stop.
use rxcore.Prelude.{
  ℕ, ◌<◌, ◌≡◌, refl, List, [], ◌∷◌, ◌++◌, some, Bool, true, arith, ◌∙◌, ap, append_assoc,
  append-nil,
}
use rxcore.Prelude.Int.{negsuc}
use rxcore.Prelude.Loops.{concat}
use rxcore.Quota.Copy.{
  Round, Meter, Copy, returned, start, commit, wrote, finish, copy_direction,
  copy_one_way_rate_limited, copy_one_way_unlimited, metered,
}

-- A user with a speed limit and no byte limit (-1) moves no byte: the loop reads the -1 as an
-- exhausted limit and ends in its first round, whatever there is to copy.
pub speed_limited_stops :
    (limit n : ℕ) (r : Round) (rs : List Round) (m : Meter)
    → 0 < limit
    → m.user ≡ some n
    → r.checked ≡ negsuc 0
    → copy_direction (some limit) (some (negsuc 0)) true (r ∷ rs) (start m) ≡ (returned 0, start m)
unfolding copy_direction copy_one_way_rate_limited metered start finish
speed_limited_stops limit n r rs m pos_limit user checked = ground arith

-- A run of rounds in which every read gives data and every write succeeds, up to the end of the
-- input.
abbrev pub Flows : List Round → List (List ℕ) → Type 0
Flows [] chunks = ⊥
Flows (r ∷ rs) [] = r.read ≡ some []
Flows (r ∷ rs) ([] ∷ chunks) = ⊥
Flows (r ∷ rs) ((b ∷ bs) ∷ chunks) =
    (r.read ≡ some (b ∷ bs)) × (r.write_ok ≡ true) × Flows rs chunks

finish_returns :
    (c : Copy) → finish true c ≡ (returned (finish true c).1.total_bytes, (finish true c).1)
unfolding finish
finish_returns c = refl

finish_written : (c : Copy) → (finish true c).1.written ≡ c.written ++ []
unfolding finish commit
finish_written c = rw append-nil (ground arith)

wrote_written : (c : Copy) (bs : List ℕ) (due : Bool) → (wrote c bs due).written ≡ c.written ++ bs
unfolding wrote commit
wrote_written c bs due = ground arith

-- Without limits the loop writes all that it reads, in order, and returns.
pub copy_one_way_unlimited-concat :
    (rs : List Round) (chunks : List (List ℕ)) (c : Copy)
    → Flows rs chunks
    → (n : ℕ) × (final : Copy) × (copy_one_way_unlimited true rs c ≡ (returned n, final))
      × (final.written ≡ c.written ++ concat chunks)
unfolding copy_one_way_unlimited
copy_one_way_unlimited-concat [] chunks c f = absurd f
copy_one_way_unlimited-concat (r ∷ rs) [] c f = (
  (finish true c).1.total_bytes,
  (finish true c).1,
  rw (f, copy_one_way_unlimited) (finish_returns c),
  finish_written c,
)
copy_one_way_unlimited-concat (r ∷ rs) ([] ∷ chunks) c f = absurd f
copy_one_way_unlimited-concat (r ∷ rs) ((b ∷ bs) ∷ chunks) c (e, ok, f) =
    let (n, final, runs, writes) =
      copy_one_way_unlimited-concat rs chunks (wrote c (b ∷ bs) r.due) f in
    (
      n,
      final,
      rw (e, ok, copy_one_way_unlimited) runs,
      writes
          ∙ ap (λ l. l ++ concat chunks) (wrote_written c (b ∷ bs) r.due)
          ∙ append_assoc c.written (b ∷ bs) (concat chunks),
    )
