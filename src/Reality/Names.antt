-- ===== src/Reality/Names.antt =====
-- What a name pattern stands for.
use rxcore.Prelude.{
  ◌-◌, ◌≡◌, refl, sym, ap, ◌∙◌, subst, ◌∷◌, ◌++◌, Bool, true, false, ◌&&◌, length, take, drop,
  arith, ◌↔◌, take-append-drop, length-append,
}
use rxcore.Prelude.Loops.{eq_bytes, eq_bytes→eq, eq_bytes_refl, take_append, drop_append}
use rxcore.Text.{Str, to_lowercase, ends_with}
use rxcore.Reality.{one_label, name_matches_pattern}

-- A name under a domain by one label.
abbrev pub IsLabelOf : Str → Str → Type 0
IsLabelOf name domain = (label : Str) × (name ≡ label ++ (46 ∷ domain)) × (one_label label ≡ true)

matched_lem : (a b : Bool) → (a && b) ≡ true → (a ≡ true) × (b ≡ true)
matched_lem true b h = (refl, h)
matched_lem false b h = cc

split_lem :
    (name suffix : Str)
    → (ends_with name suffix && one_label (take (length name - length suffix) name)) ≡ true
    → (label : Str) × (name ≡ label ++ suffix) × (one_label label ≡ true)
unfolding ends_with
split_lem name suffix h =
    let k = length name - length suffix in
    let (ends, one) = matched_lem (eq_bytes (drop k name) suffix) (one_label (take k name)) h in
    (
      take k name,
      sym (take-append-drop k name)
          ∙ ap (λ l. take k name ++ l) (eq_bytes→eq (drop k name) suffix ends),
      one,
    )

join_lem :
    (label suffix : Str)
    → one_label label ≡ true
    → let name = label ++ suffix in
      (ends_with name suffix && one_label (take (length name - length suffix) name)) ≡ true
unfolding ends_with
join_lem label suffix one =
    let k = length (label ++ suffix) - length suffix in
    let at : k ≡ length label = omega (arith, length-append label suffix) in
    rw (drop_append label suffix k at, take_append label suffix k at)
      (rw (eq_bytes_refl suffix) one)

-- A pattern `*.domain` matches exactly the names of one label, without a dot and not empty, and a dot
-- in front of the domain, letter case aside.
pub name_matches_pattern_wildcard :
    (name domain : Str)
    → (name_matches_pattern name (42 ∷ 46 ∷ domain) ≡ true)
      ↔ IsLabelOf (to_lowercase name) (to_lowercase domain)
unfolding name_matches_pattern to_lowercase
name_matches_pattern_wildcard name domain = (
  split_lem (to_lowercase name) (46 ∷ to_lowercase domain),
  λ p.
      let (label, is, one) = p in
      subst
        (λ n.
          (ends_with n (46 ∷ to_lowercase domain)
            && one_label (take (length n - length (46 ∷ to_lowercase domain)) n))
          ≡ true)
        (sym is) (join_lem label (46 ∷ to_lowercase domain) one),
)
