-- ===== src/Profile/Normal.antt =====
-- Lists of names and of short ids that have passed pass again, unchanged.
use rxcore.Prelude.{
  ◌≡◌, refl, sym, ap, ◌∙◌, List, [], ◌∷◌, Option, none, some, true, false, length, arith,
  Bool-cases, inl, inr,
}
use rxcore.Text.{Str, to_lowercase}
use rxcore.Endpoint.{trim}
use rxcore.Profile.{
  ConfigError, Crates, is_blank, empty_hostname, with_name, normalize_each_name, normalize_names,
  check_short_id, with_short_id, normalize_each_id, normalize_ids,
}
use rxcore.Profile.Names.{lowered_twice, trim_lowered}

length-to_lowercase : (s : Str) → length (to_lowercase s) ≡ length s
unfolding to_lowercase
length-to_lowercase [] = refl
length-to_lowercase (c ∷ s) = omega (arith, length-to_lowercase s)

blank_lowered : (s : Str) → is_blank (to_lowercase (trim s)) ≡ is_blank s
blank_lowered s = rw (trim_lowered s, length-to_lowercase (trim s)) refl

each_name_step :
    (name : Str) (names : List Str)
    → is_blank name ≡ false
    → normalize_each_name (name ∷ names)
      ≡ with_name (to_lowercase (trim name)) (normalize_each_name names)
unfolding normalize_each_name
each_name_step name names e = rw e refl

each_name_passes :
    (name : Str) (names : List Str)
    → (normalize_each_name (name ∷ names)).1 ≡ none
    → is_blank name ≡ false
unfolding normalize_each_name
each_name_passes name names h = elim (Bool-cases (is_blank name)) [
  | inl e ↦ cc (h, blank_fails e)
  | inr e ↦ e
]
  where
    blank_fails :
        is_blank name ≡ true → (normalize_each_name (name ∷ names)).1 ≡ some empty_hostname
    blank_fails e = rw e refl

-- The names of a list that passes are settled.
normalize_each_name_twice :
    (names : List Str)
    → (normalize_each_name names).1 ≡ none
    → normalize_each_name (normalize_each_name names).0 ≡ normalize_each_name names
unfolding normalize_each_name
normalize_each_name_twice [] h = refl
normalize_each_name_twice (name ∷ names) h =
    let step = each_name_step name names (each_name_passes name names h) in
    ap (λ r. normalize_each_name r.0) step
    ∙ (each_name_step (to_lowercase (trim name)) (normalize_each_name names).0
          (blank_lowered name ∙ each_name_passes name names h)
        ∙ (ap (with_name (to_lowercase (trim (to_lowercase (trim name)))))
              (normalize_each_name_twice names (sym (ap (λ r. r.1) step) ∙ h))
            ∙ (ap (λ n. with_name n (normalize_each_name names)) (lowered_twice name) ∙ sym step)))

module _ (crates : Crates) where
  each_id_step :
      (sid : Str) (sids : List Str)
      → check_short_id crates (to_lowercase (trim sid)) ≡ none
      → normalize_each_id crates (sid ∷ sids)
        ≡ with_name (to_lowercase (trim sid)) (normalize_each_id crates sids)
  unfolding normalize_each_id
  each_id_step sid sids e =
      ap
        (λ o. with_short_id crates (to_lowercase (trim sid)) sids o (normalize_each_id crates sids))
        e

  each_id_passes :
      (sid : Str) (sids : List Str)
      → (normalize_each_id crates (sid ∷ sids)).1 ≡ none
      → check_short_id crates (to_lowercase (trim sid)) ≡ none
  unfolding normalize_each_id
  each_id_passes sid sids h = passes (check_short_id crates (to_lowercase (trim sid))) h
    where
      passes :
          (o : Option ConfigError)
          → (with_short_id crates
              (to_lowercase (trim sid))
              sids
              o
              (normalize_each_id crates sids)).1
            ≡ none
          → o ≡ none
      passes none h = refl
      passes (some e) h = cc

  normalize_each_id_twice :
      (sids : List Str)
      → (normalize_each_id crates sids).1 ≡ none
      → normalize_each_id crates (normalize_each_id crates sids).0 ≡ normalize_each_id crates sids
  unfolding normalize_each_id
  normalize_each_id_twice [] h = refl
  normalize_each_id_twice (sid ∷ sids) h =
      let step = each_id_step sid sids (each_id_passes sid sids h) in
      ap (λ r. normalize_each_id crates r.0) step
      ∙ (each_id_step (to_lowercase (trim sid)) (normalize_each_id crates sids).0
            (ap (check_short_id crates) (lowered_twice sid) ∙ each_id_passes sid sids h)
          ∙ (ap (with_name (to_lowercase (trim (to_lowercase (trim sid)))))
                (normalize_each_id_twice sids (sym (ap (λ r. r.1) step) ∙ h))
              ∙ (ap (λ n. with_name n (normalize_each_id crates sids)) (lowered_twice sid)
                  ∙ sym step)))

  pub normalize_ids_twice :
      (sids : List Str)
      → (normalize_ids crates sids).1 ≡ none
      → normalize_ids crates (normalize_ids crates sids).0 ≡ normalize_ids crates sids
  unfolding normalize_ids
  normalize_ids_twice [] h = cc
  normalize_ids_twice (sid ∷ sids) h =
      let step = each_id_step sid sids (each_id_passes sid sids h) in
      ap (λ r. normalize_ids crates r.0) step
      ∙ (sym (ap (λ r. normalize_each_id crates r.0) step) ∙ normalize_each_id_twice (sid ∷ sids) h)

pub normalize_names_twice :
    (names : List Str)
    → (normalize_names names).1 ≡ none
    → normalize_names (normalize_names names).0 ≡ normalize_names names
unfolding normalize_names
normalize_names_twice [] h = cc
normalize_names_twice (name ∷ names) h =
    let step = each_name_step name names (each_name_passes name names h) in
    ap (λ r. normalize_names r.0) step
    ∙ (sym (ap (λ r. normalize_each_name r.0) step) ∙ normalize_each_name_twice (name ∷ names) h)
