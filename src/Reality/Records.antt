-- ===== src/Reality/Records.antt =====
-- The reading of the records of a ClientHello.
use rxcore.Prelude.{
  ℕ, zero, suc, ◌+◌, ◌≡◌, refl, ap, ◌∙◌, subst, [], ◌∷◌, ◌++◌, ◌||◌, not, leb, ltb, ◌==◌, length,
  take, drop, append_assoc, take-append-drop, inl, inr, Bool-cases,
}
use rxcore.Prelude.Words.{u16_from_be_bytes}
use rxcore.Text.{Str}
use rxcore.Reality.{
  ReadTask, finished, is_whole, read_payload, read_record, read_records, read_client_hello,
}

-- A reading that finishes has kept all that it read, behind what it began with.
abbrev pub Keeps : Str → ReadTask → Type 0
Keeps all (finished buffer payload rest) = buffer ++ rest ≡ all
Keeps all _ = Unit

read_payload-Keeps :
    (record_len : ℕ) (buffer payload input : Str) (next : Str → Str → Str → ReadTask)
    → ((b p r : Str) → Keeps (b ++ r) (next b p r))
    → Keeps (buffer ++ input) (read_payload record_len buffer payload input next)
unfolding read_payload
read_payload-Keeps record_len buffer payload input next h =
    elim (Bool-cases ((record_len == 0) || ltb 18432 record_len)) [
      | inl e ↦ rw e tt
      | inr e ↦ rw e (elim (Bool-cases (ltb 65536 (length payload + record_len))) [
        | inl f ↦ rw f tt
        | inr f ↦ rw f (elim (Bool-cases (ltb (length input) record_len)) [
          | inl g ↦ rw g tt
          | inr g ↦ rw g (
              subst
                (λ all. Keeps all (
                  next (buffer ++ take record_len input) (payload ++ take record_len input)
                    (drop record_len input)))
                (append_assoc buffer (take record_len input) (drop record_len input)
                  ∙ ap (λ l. buffer ++ l) (take-append-drop record_len input))
                (h (buffer ++ take record_len input) (payload ++ take record_len input)
                  (drop record_len input)))
        ])
      ])
    ]

read_record-Keeps :
    (buffer payload input : Str) (next : Str → Str → Str → ReadTask)
    → ((b p r : Str) → Keeps (b ++ r) (next b p r))
    → Keeps (buffer ++ input) (read_record buffer payload input next)
unfolding read_record
read_record-Keeps buffer payload [] next h = tt
read_record-Keeps buffer payload (a ∷ []) next h = tt
read_record-Keeps buffer payload (a ∷ b ∷ []) next h = tt
read_record-Keeps buffer payload (a ∷ b ∷ c ∷ []) next h = tt
read_record-Keeps buffer payload (a ∷ b ∷ c ∷ hi ∷ []) next h = tt
read_record-Keeps buffer payload (a ∷ b ∷ c ∷ hi ∷ lo ∷ input) next h =
    let header = a ∷ b ∷ c ∷ hi ∷ lo ∷ [] in
    let moved : (buffer ++ header) ++ input ≡ buffer ++ (header ++ input) =
      append_assoc buffer header input in
    elim (Bool-cases (not (a == 22))) [
      | inl e ↦ rw e moved
      | inr e ↦ rw e (
          subst
            (λ all.
              Keeps all
                (read_payload (u16_from_be_bytes hi lo) (buffer ++ header) payload input next))
            moved
            (read_payload-Keeps (u16_from_be_bytes hi lo) (buffer ++ header) payload input next h))
    ]

read_records-Keeps :
    (left : ℕ) (buffer payload input : Str)
    → Keeps (buffer ++ input) (read_records left buffer payload input)
unfolding read_records
read_records-Keeps zero buffer payload input = refl
read_records-Keeps (suc left) buffer payload input =
    elim (Bool-cases (leb 65536 (length payload))) [
      | inl e ↦ rw e refl
      | inr e ↦ rw e (
          read_record-Keeps buffer payload input _ λ b p r. elim (Bool-cases (is_whole p)) [
            | inl f ↦ rw f refl
            | inr f ↦ rw f (read_records-Keeps left b p r)
          ])
    ]

pub read_client_hello-Keeps : (input : Str) → Keeps input (read_client_hello input)
unfolding read_client_hello
read_client_hello-Keeps input = read_records-Keeps 8 [] [] input
