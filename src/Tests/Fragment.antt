-- ===== src/Tests/Fragment.antt =====
-- The fragments of an upload at concrete inputs.
use rxcore.Prelude.{◌≡◌, refl, List, [], ◌∷◌, ◌++◌, some, arith}
use rxcore.Prelude.Loops.{All, concat}
use rxcore.Text.{Str}
use rxcore.Fragment.{Ranges, finished, panicked, upload}
use rxcore.Fragment.Pieces.{IsPiece, upload-pieces}

abbrev ranges : Ranges
ranges = record { min_packets = 1; max_packets = 5; min_len = 1; max_len = 2 }

upload-pieces_example :
    (pieces : List Str) × (upload (some ranges) (λ i. 2) ((1 ∷ 2 ∷ 3 ∷ []) ∷ (4 ∷ []) ∷ [])
      ≡ finished (pieces ++ (4 ∷ []) ∷ []))
    × (concat pieces ≡ 1 ∷ 2 ∷ 3 ∷ [])
    × All (IsPiece ranges) pieces
upload-pieces_example =
    upload-pieces ranges (λ i. 2) (1 ∷ 2 ∷ 3 ∷ []) ((4 ∷ []) ∷ []) (omega arith) (omega arith)
      (λ j. (omega arith, omega arith))

-- A drawn length of 0 loses the rest of the first payload.
loses_rest :
    upload (some (record ranges { min_len = 0 })) (λ i. 0) ((1 ∷ 2 ∷ 3 ∷ []) ∷ (4 ∷ []) ∷ [])
    ≡ finished ((4 ∷ []) ∷ [])
unfolding upload
loses_rest = refl

-- An empty range ends the task.
panics : upload (some (record ranges { min_len = 3 })) (λ i. 2) ((1 ∷ []) ∷ []) ≡ panicked []
unfolding upload
panics = refl
