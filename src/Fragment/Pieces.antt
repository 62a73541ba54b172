-- ===== src/Fragment/Pieces.antt =====
-- What the pieces of an upload are.
use rxcore.Prelude.{
  ℕ, zero, suc, ◌<◌, ◌≤◌, ◌≡◌, refl, ap, ◌∙◌, List, [], ◌∷◌, ◌++◌, some, false, ltb, ◌==◌, length,
  take, drop, min, arith, take-append-drop, length-take, length-drop,
}
use rxcore.Prelude.Loops.{All, concat}
use rxcore.Text.{Str}
use rxcore.Fragment.{Ranges, Upload, finished, wrote, fragment, then_whole, upload}

-- A piece is not empty and no longer than the range says.
abbrev pub IsPiece : Ranges → Str → Type 0
IsPiece r piece = (0 < length piece) × (length piece ≤ r.max_len)

-- The upload ends with pieces that make up a text.
abbrev pub MakesUp : Ranges → Str → Upload → Type 0
MakesUp r text u =
    (written : List Str) × (u ≡ finished written)
    × (concat written ≡ text)
    × All (IsPiece r) written

fragment_step :
    (r : Ranges) (draws : ℕ → ℕ) (fuel i b : ℕ) (bs : Str)
    → r.min_packets ≤ r.max_packets
    → 0 < draws i
    → draws i ≤ r.max_len
    → r.min_len ≤ r.max_len
    → let n = min (draws i) (length (b ∷ bs)) in
      fragment r draws (suc fuel) i (b ∷ bs)
      ≡ wrote (take n (b ∷ bs)) (fragment r draws fuel (suc i) (drop n (b ∷ bs)))
unfolding fragment
fragment_step r draws fuel i b bs packets positive small lens =
    rw (lens_lem lens, some_lem positive, packets_lem packets) refl
  where
    lens_lem : r.min_len ≤ r.max_len → ltb r.max_len r.min_len ≡ false
    lens_lem h = ground arith

    packets_lem : r.min_packets ≤ r.max_packets → ltb r.max_packets r.min_packets ≡ false
    packets_lem h = ground arith

    some_lem : 0 < draws i → (min (draws i) (length (b ∷ bs)) == 0) ≡ false
    some_lem h = ground arith

fragment_lem :
    (r : Ranges) (draws : ℕ → ℕ) (fuel i : ℕ) (rest : Str)
    → r.min_packets ≤ r.max_packets
    → r.min_len ≤ r.max_len
    → ((j : ℕ) → (0 < draws j) × (draws j ≤ r.max_len))
    → length rest ≤ fuel
    → MakesUp r rest (fragment r draws fuel i rest)
unfolding fragment wrote
fragment_lem r draws zero i [] packets lens drawn enough = ([], refl, refl, tt)
fragment_lem r draws zero i (b ∷ bs) packets lens drawn enough = absurd (omega arith)
fragment_lem r draws (suc fuel) i [] packets lens drawn enough = ([], refl, refl, tt)
fragment_lem r draws (suc fuel) i (b ∷ bs) packets lens drawn enough =
    let n = min (draws i) (length (b ∷ bs)) in
    let (positive, small) = drawn i in
    let (written, e, whole, pieces) =
      fragment_lem r draws fuel (suc i) (drop n (b ∷ bs)) packets lens drawn
        (omega (arith, length-drop n (b ∷ bs), positive)) in
    (
      take n (b ∷ bs) ∷ written,
      fragment_step r draws fuel i b bs packets positive small lens
          ∙ ap (wrote (take n (b ∷ bs))) e,
      ap (λ t. take n (b ∷ bs) ++ t) whole ∙ take-append-drop n (b ∷ bs),
      (
        (
          omega (arith, length-take n (b ∷ bs), positive),
          omega (arith, length-take n (b ∷ bs), small),
        ),
        pieces,
      ),
    )

-- With ranges that are not empty and drawn lengths from 1 to the greatest, the upload writes exactly
-- what it reads, in order: the first read in pieces of such lengths, the others whole.
pub upload-pieces :
    (r : Ranges) (draws : ℕ → ℕ) (payload : Str) (reads : List Str)
    → r.min_packets ≤ r.max_packets
    → r.min_len ≤ r.max_len
    → ((j : ℕ) → (0 < draws j) × (draws j ≤ r.max_len))
    → (pieces : List Str) × (upload (some r) draws (payload ∷ reads) ≡ finished (pieces ++ reads))
      × (concat pieces ≡ payload)
      × All (IsPiece r) pieces
unfolding upload then_whole
upload-pieces r draws payload reads packets lens drawn =
    let (pieces, e, whole, are) =
      fragment_lem r draws (length payload) 0 payload packets lens drawn (omega arith) in
    (pieces, ap (λ u. then_whole u reads) e, whole, are)
