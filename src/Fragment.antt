-- ===== src/Fragment.antt =====
-- The upload of `FragmentOutbound::handle` of target_core/src/outbound/fragment.rs, which cuts the first
-- payload into small pieces. The ranges of the settings are numbers; the random length of each piece
-- is input. The reads of the client are given whole, and writes succeed.
pub mod Pieces
use rxcore.Prelude.{
  ℕ, zero, suc, ◌+◌, ◌-◌, List, [], ◌∷◌, ◌++◌, Option, none, some, Bool, true, false, ltb, ◌==◌,
  length, take, drop, min, if◌then◌else◌,
}
use rxcore.Text.{Str}

pub record Ranges : Type 0 where
  pub min_packets : ℕ
  pub max_packets : ℕ
  pub min_len : ℕ
  pub max_len : ℕ

-- What was written, and how the task ended: `gen_range` panics on an empty range.
pub data Upload : Type 0 where
  finished : (written : List Str) → Upload
  panicked : (written : List Str) → Upload

unfoldable pub wrote : Str → Upload → Upload
wrote piece (finished written) = finished (piece ∷ written)
wrote piece (panicked written) = panicked (piece ∷ written)

-- The pieces of what is left of the first payload; `draws i` is the length drawn for the i-th piece. A
-- length of 0 leaves the loop. Each piece takes a byte at least, so as much fuel as there are bytes is
-- enough.
unfoldable pub fragment : Ranges → (ℕ → ℕ) → (fuel i : ℕ) → Str → Upload
unfolding wrote
fragment r draws zero i rest = finished []
fragment r draws (suc fuel) i [] = finished []
fragment r draws (suc fuel) i (b ∷ bs) =
    let chunk_size = min (draws i) (length (b ∷ bs)) in
    let piece = take chunk_size (b ∷ bs) in
    let later = fragment r draws fuel (suc i) (drop chunk_size (b ∷ bs)) in
    if ltb r.max_len r.min_len
    then panicked []
    else if chunk_size == 0
    then finished []
    else if ltb r.max_packets r.min_packets
    then panicked (piece ∷ [])
    else wrote piece later

-- The other reads are written as they are.
unfoldable pub then_whole : Upload → List Str → Upload
then_whole (finished written) reads = finished (written ++ reads)
then_whole (panicked written) reads = panicked written

unfoldable pub upload : Option Ranges → (ℕ → ℕ) → List Str → Upload
unfolding fragment then_whole
upload settings draws [] = finished []
upload none draws reads = finished reads
upload (some r) draws (payload ∷ reads) =
    then_whole (fragment r draws (length payload) 0 payload) reads
