-- ===== src/Mux/Frame/Fill.antt =====
-- Filling the buffer: the bytes stay in order, whatever the sizes of the reads.
use rxcore.Prelude.{
  ℕ, ◌≤◌, ◌<◌, ◌≡◌, refl, ◌∙◌, ap, inl, inr, List, [], ◌∷◌, ◌++◌, append_assoc, append-nil, leb,
  length, length-append, arith, Bool-cases,
}
use rxcore.Mux.Frame.{Read, bytes, fails, filled, end_of_input, fill}

-- Reads that give data, each at least one byte.
abbrev pub GiveData : List Read → Type 0
GiveData [] = Unit
GiveData (bytes [] ∷ reads) = ⊥
GiveData (bytes (b ∷ bs) ∷ reads) = GiveData reads
GiveData (fails ∷ reads) = ⊥

-- The bytes of a sequence of reads.
abbrev pub contents : List Read → List ℕ
contents [] = []
contents (bytes bs ∷ reads) = bs ++ contents reads
contents (fails ∷ reads) = contents reads

pub record Fills (n : ℕ) (buf : List ℕ) (reads : List Read) : Type 0 where
  pub main_buf : List ℕ
  pub later : List Read
  pub run : fill n buf reads ≡ filled main_buf later
  pub kept : main_buf ++ contents later ≡ buf ++ contents reads
  pub enough : n ≤ length main_buf
  pub data_later : GiveData later

-- If the input has n bytes, `fill` gives a buffer of at least n, and loses and reorders nothing.
pub fill-Fills :
    (n : ℕ) (buf : List ℕ) (reads : List Read)
    → GiveData reads
    → n ≤ length (buf ++ contents reads)
    → Fills n buf reads
unfolding fill
fill-Fills n buf [] g h = record {
  main_buf = buf;
  later = [];
  run = ground (arith, ap length (append-nil buf));
  kept = refl;
  enough = omega (arith, ap length (append-nil buf));
  data_later = tt;
}
fill-Fills n buf (bytes [] ∷ reads) g h = absurd g
fill-Fills n buf (fails ∷ reads) g h = absurd g
fill-Fills n buf (bytes (b ∷ bs) ∷ reads) g h = elim (Bool-cases (leb n (length buf))) [
  | inl e ↦ record {
    main_buf = buf;
    later = bytes (b ∷ bs) ∷ reads;
    run = rw e;
    kept = refl;
    enough = ground arith;
    data_later = g;
  }
  | inr e ↦
      let regroup = append_assoc buf (b ∷ bs) (contents reads) in
      let r = fill-Fills n (buf ++ (b ∷ bs)) reads g (omega (arith, ap length regroup)) in
      record {
        main_buf = r.main_buf;
        later = r.later;
        run = rw e r.run;
        kept = r.kept ∙ regroup;
        enough = r.enough;
        data_later = r.data_later;
      }
]

-- If the input ends before n bytes, `fill` says so.
pub fill_short :
    (n : ℕ) (buf : List ℕ) (reads : List Read)
    → GiveData reads
    → length (buf ++ contents reads) < n
    → fill n buf reads ≡ end_of_input
unfolding fill
fill_short n buf [] g h = ground (arith, ap length (append-nil buf))
fill_short n buf (bytes [] ∷ reads) g h = absurd g
fill_short n buf (fails ∷ reads) g h = absurd g
fill_short n buf (bytes (b ∷ bs) ∷ reads) g h = ground (
  arith,
  length-append buf ((b ∷ bs) ++ contents reads),
  ap length (append_assoc buf (b ∷ bs) (contents reads)),
  fill_short n (buf ++ (b ∷ bs)) reads g,
)
