-- ===== src/Router/Panics.antt =====
-- `get_host` panics on some texts.
use rxcore.Prelude.{
  ℕ, ◌≡◌, ◌↔◌, ◌⊎◌, inl, inr, refl, sym, ap, ◌∙◌, [], ◌∷◌, ◌++◌, map, Option, none, some, ◌&&◌,
  arith, Bool-cases, Option-cases,
}
use rxcore.Text.{Str, lower, find, rfind, strip_prefix, ends_with, is_some}
use rxcore.Text.Search.{rfind_split, rfind_found, find_zero}
use rxcore.Router.{get_host, cut_host}
use rxcore.Router.Host.{lower-append, lower_colon, lower_bracket}

lower_split :
    (s p q : Str) → map lower s ≡ p ++ 58 ∷ q → (p' : Str) × (q' : Str) × (s ≡ p' ++ 58 ∷ q')
lower_split [] [] q e = cc
lower_split [] (x ∷ p) q e = cc
lower_split (c ∷ s) [] q e = ([], s, ap (λ x. x ∷ s) (lower_colon c (cc)))
lower_split (c ∷ s) (x ∷ p) q e =
    let (p', q', is) = lower_split s p q (cc) in (c ∷ p', q', ap (◌∷◌ c) is)

panics_at : (rest p q : Str) → rest ≡ p ++ 58 ∷ q → get_host (93 ∷ rest) ≡ none
unfolding get_host lower
panics_at rest p q e =
    let text : map lower rest ≡ map lower p ++ 58 ∷ map lower q =
      ap (map lower) e ∙ lower-append p (58 ∷ q) in
    let (idx, found) = rfind_found 58 (93 ∷ map lower p) (map lower q) in
    let found_here : rfind 58 (map lower (93 ∷ rest)) ≡ some idx = rw text found in
    rw (found_here, get_host) refl

cut_host-none : (o : Option ℕ) (idx : ℕ) (s : Str) → cut_host o idx s ≡ none → o ≡ some 0
cut_host-none none idx s h = cc
cut_host-none (some end) idx s h = ground arith

get_host_either :
    (dest : Str) (idx : ℕ)
    → rfind 58 (map lower dest) ≡ some idx
    → (get_host dest ≡ some (map lower dest))
      ⊎ (get_host dest ≡ cut_host (find 93 (map lower dest)) idx (map lower dest))
unfolding get_host
get_host_either dest idx e =
    elim (Bool-cases
      (is_some (strip_prefix (91 ∷ []) (map lower dest)) && ends_with (map lower dest) (93 ∷ []))) [
        | inl f ↦ inl (rw (e, get_host) (rw f refl))
        | inr f ↦ inr (rw (e, get_host) (rw f refl))
      ]

get_host_no_colon :
    (dest : Str) → rfind 58 (map lower dest) ≡ none → get_host dest ≡ some (map lower dest)
unfolding get_host
get_host_no_colon dest e = rw (e, get_host) refl

-- A panic starts from a bracket and a colon.
panic_parts :
    (dest : Str)
    → get_host dest ≡ none
    → (rest : Str) × (p : Str) × (q : Str) × (map lower dest ≡ 93 ∷ rest)
      × (map lower dest ≡ p ++ 58 ∷ q)
panic_parts dest h = elim (Option-cases (rfind 58 (map lower dest))) [
  | inl e ↦ absurd (cc (h, get_host_no_colon dest e))
  | inr (idx, e) ↦ elim (get_host_either dest idx e) [
    | inl f ↦ absurd (cc (h, f))
    | inr f ↦
        let (rest, is) =
          find_zero 93 (map lower dest) (cut_host-none _ idx (map lower dest) (sym f ∙ h)) in
        let (p, q, split) = rfind_split 58 (map lower dest) idx e in (rest, p, q, is, split)
  ]
]

panics_only :
    (dest : Str) → get_host dest ≡ none → (p : Str) × (q : Str) × (dest ≡ 93 ∷ p ++ 58 ∷ q)
panics_only [] h = let (rest, p, q, is, split) = panic_parts [] h in absurd (cc is)
panics_only (c ∷ s) h =
    let (rest, p, q, is, split) = panic_parts (c ∷ s) h in
    let bracket = lower_bracket c (cc is) in go p q split bracket
  where
    go :
        (p q : Str)
        → map lower (c ∷ s) ≡ p ++ 58 ∷ q
        → c ≡ 93
        → (p : Str) × (q : Str) × (c ∷ s ≡ 93 ∷ p ++ 58 ∷ q)
    go [] q split bracket =
        let colon = lower_colon c (cc split) in absurd (omega (arith, bracket, colon))
    go (x ∷ p) q split bracket = let (p', q', e) = lower_split s p q (cc) in (p', q', cc)

-- `get_host` panics exactly on a text that begins with a closing bracket and has a colon.
pub get_host_panics :
    (dest : Str) → (get_host dest ≡ none) ↔ ((p : Str) × (q : Str) × (dest ≡ 93 ∷ p ++ 58 ∷ q))
get_host_panics dest = (panics_only dest, λ (p, q, e). rw e (panics_at _ p q refl))
