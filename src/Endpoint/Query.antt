-- ===== src/Endpoint/Query.antt =====
-- The labels of a DNS query.
use rxcore.Prelude.{
  ℕ, zero, suc, ◌%◌, ◌^◌, ◌<◌, ◌≡◌, refl, ap, ◌∙◌, List, [], ◌∷◌, ◌++◌, Option, none, some, false,
  ltb, ◌==◌, length, take, drop, if◌then◌else◌, arith, append_assoc,
}
use rxcore.Prelude.Loops.{All, take_append, drop_append}
use rxcore.Prelude.Words.{u16_to_be_bytes}
use rxcore.Text.{Str, split}
use rxcore.Text.Search.{Absent, split-Absent, split_behind}
use rxcore.Endpoint.{query_labels, build_dns_query}

-- A label of RFC 1035, without a dot, and a name of several.
abbrev pub IsLabel : Str → Type 0
IsLabel label = (0 < length label) × (length label < 64) × Absent 46 label

abbrev pub dotted : Str → List Str → Str
dotted label [] = label
dotted label (l ∷ ls) = label ++ 46 ∷ dotted l ls

abbrev onto_name : Str → Option (List Str × Str) → Option (List Str × Str)
onto_name label none = none
onto_name label (some (labels, end)) = some (label ∷ labels, end)

-- A reader of names by RFC 1035: labels behind their lengths, up to the empty one. A length from 64 on
-- is no length of a label.
unfoldable pub read_name : ℕ → Str → Option (List Str × Str)
read_name zero s = none
read_name (suc fuel) [] = none
read_name (suc fuel) (zero ∷ rest) = some ([], rest)
read_name (suc fuel) (suc n ∷ rest) =
    let more = onto_name (take (suc n) rest) (read_name fuel (drop (suc n) rest)) in
    if ltb 63 (suc n) then none else more

split-dotted :
    (label : Str) (labels : List Str)
    → IsLabel label
    → All IsLabel labels
    → split 46 (dotted label labels) ≡ label ∷ labels
split-dotted label [] h k = split-Absent 46 label h.2
split-dotted label (l ∷ ls) h k =
    split_behind 46 label (dotted l ls) h.2 ∙ ap (◌∷◌ label) (split-dotted l ls k.0 k.1)

read_label :
    (fuel : ℕ) (label rest end : Str) (labels : List Str)
    → 0 < length label
    → length label < 64
    → read_name fuel rest ≡ some (labels, end)
    → read_name (suc fuel) (length label ∷ (label ++ rest)) ≡ some (label ∷ labels, end)
unfolding read_name
read_label fuel [] rest end labels h k e = absurd (omega arith)
read_label fuel (c ∷ cs) rest end labels h k e = rw (short_lem k) (
    rw
      (
        take_append (c ∷ cs) rest (suc (length cs)) refl,
        drop_append (c ∷ cs) rest (suc (length cs)) refl,
      )
      (ap (onto_name (c ∷ cs)) e))
  where
    short_lem : suc (length cs) < 64 → ltb 63 (suc (length cs)) ≡ false
    short_lem k = ground arith

query_label :
    (l : Str) (ls : List Str)
    → IsLabel l
    → query_labels (l ∷ ls) ≡ length l ∷ (l ++ query_labels ls)
unfolding query_labels
query_label l ls h =
    let small : length l % 2 ^ 8 ≡ length l = omega (arith, h.1) in rw (long_lem h.0, small) refl
  where
    long_lem : 0 < length l → (length l == 0) ≡ false
    long_lem h = ground arith

no_labels : (end : Str) → read_name 1 (query_labels [] ++ 0 ∷ end) ≡ some ([], end)
unfolding read_name query_labels
no_labels end = refl

read_labels :
    (labels : List Str) (end : Str)
    → All IsLabel labels
    → read_name (suc (length labels)) (query_labels labels ++ 0 ∷ end) ≡ some (labels, end)
read_labels [] end h = no_labels end
read_labels (l ∷ ls) end h =
    ap (λ q. read_name (suc (suc (length ls))) (q ++ 0 ∷ end)) (query_label l ls h.0)
    ∙ (ap (λ q. read_name (suc (suc (length ls))) (length l ∷ q))
          (append_assoc l (query_labels ls) (0 ∷ end))
        ∙ read_label (suc (length ls)) l (query_labels ls ++ 0 ∷ end) end ls h.0.0 h.0.1
            (read_labels ls end h.1))

-- The query for a name of one or more labels of 1 to 63 bytes is a header with the id, one question and
-- recursion asked for, and a question that a reader by RFC 1035 takes for these labels, of type A and
-- class IN.
pub build_dns_query-read_name :
    (txid : ℕ) (label : Str) (labels : List Str)
    → IsLabel label
    → All IsLabel labels
    → let query = build_dns_query txid (dotted label labels) in
      (take 12 query ≡ u16_to_be_bytes txid ++ (1 ∷ 0 ∷ 0 ∷ 1 ∷ 0 ∷ 0 ∷ 0 ∷ 0 ∷ 0 ∷ 0 ∷ []))
      × (read_name (suc (suc (length labels))) (drop 12 query)
          ≡ some (label ∷ labels, 0 ∷ 1 ∷ 0 ∷ 1 ∷ []))
unfolding build_dns_query
build_dns_query-read_name txid label labels h k = (
  refl,
  ap (λ ls. read_name (suc (suc (length labels))) (query_labels ls ++ (0 ∷ 0 ∷ 1 ∷ 0 ∷ 1 ∷ [])))
        (split-dotted label labels h k)
      ∙ read_labels (label ∷ labels) (0 ∷ 1 ∷ 0 ∷ 1 ∷ []) (h, k),
)
