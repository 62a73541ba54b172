-- ===== src/Router/Suffix.antt =====
-- A domain rule matches the domain and what lies under it, and nothing else.
use rxcore.Prelude.{
  ltb-false, ℕ, suc, ◌-◌, ◌<◌, ◌≡◌, ◌↔◌, ◌⊎◌, inl, inr, refl, sym, ap, ◌∙◌, subst, [], ◌∷◌, ◌++◌,
  append_assoc, Option, none, some, Bool, true, false, ◌&&◌, ◌||◌, ltb, length, length-append,
  get_elem?, arith, Bool-cases, if◌then◌else◌, map,
}
use rxcore.Prelude.Loops.{eq_bytes, eq_bytes→eq, eq_bytes_refl}
use rxcore.Text.{Str, to_lowercase, strip_prefix, ends_with, lower}
use rxcore.Text.Search.{ends_with_iff, get_elem?-append, last_before}
use rxcore.Router.Match.{
  Crates, is_dot, match_domain_suffix, is_or_under, matches_rule_domain, domain_colon,
  keyword_colon, regexp_colon,
}

-- A host is the domain itself or something, a dot, and the domain.
abbrev pub Under : Str → Str → Type 0
Under host domain = (host ≡ domain) ⊎ ((p : Str) × (host ≡ p ++ 46 ∷ domain))

is_dot→eq : (o : Option ℕ) → is_dot o ≡ true → o ≡ some 46
is_dot→eq none h = cc
is_dot→eq (some c) h = ground arith

ends_with_longer :
    (p s : Str)
    → (length (p ++ 46 ∷ s) - length s - 1 ≡ length p) × (0 < length (p ++ 46 ∷ s) - length s)
ends_with_longer p s =
    (omega (arith, length-append p (46 ∷ s)), omega (arith, length-append p (46 ∷ s)))

-- From the tests on a host of at least two parts to its parts.
dot_before :
    (host s p : Str)
    → host ≡ p ++ s
    → 0 < length p
    → is_dot (get_elem? host (length host - length s - 1)) ≡ true
    → (q : Str) × (host ≡ q ++ 46 ∷ s)
dot_before host s p e h dot =
    let at : suc (length host - length s - 1) ≡ length p =
      omega (arith, length-append p s, ap length e) in
    let (q, is) =
      last_before p s (length host - length s - 1) 46 at
        (subst (λ l. get_elem? l (length host - length s - 1) ≡ some 46) e (is_dot→eq _ dot)) in
    (q, e ∙ ap (λ l. l ++ s) is ∙ append_assoc q (46 ∷ []) s)

no_prefix : (host s p : Str) → host ≡ p ++ s → length p ≡ 0 → host ≡ s
no_prefix host s [] e h = e
no_prefix host s (x ∷ p) e h = absurd (omega arith)

is_or_under-Under : (host s : Str) → is_or_under host s ≡ true → Under host s
unfolding is_or_under
is_or_under-Under host s h = elim (Bool-cases (eq_bytes host s)) [
  | inl e ↦ inl (eq_bytes→eq host s e)
  | inr e ↦ split (ends_with host s) refl (rw e at h)
]
  where
    split :
        (b : Bool)
        → ends_with host s ≡ b
        → b && is_dot (get_elem? host (length host - length s - 1)) ≡ true
        → Under host s
    split true ends dot =
        let (p, e) = (ends_with_iff host s).0 ends in
        elim (Bool-cases (ltb 0 (length p))) [
          | inl long ↦ inr (dot_before host s p e (ground arith) dot)
          | inr short ↦ inl (no_prefix host s p e (ground arith))
        ]
    split false ends dot = cc

Under-is_or_under : (host s : Str) → Under host s → is_or_under host s ≡ true
unfolding is_or_under
Under-is_or_under host s (inl e) = rw (e, eq_bytes_refl s) refl
Under-is_or_under host s (inr (p, e)) =
    let ends : ends_with host s ≡ true =
      (ends_with_iff host s).1 (p ++ 46 ∷ [], e ∙ sym (append_assoc p (46 ∷ []) s)) in
    let dot : get_elem? host (length host - length s - 1) ≡ some 46 =
      rw (e, (ends_with_longer p s).0) (get_elem?-append p 46 s) in
    rw (ends, dot) (or_true (eq_bytes host s))
  where
    or_true : (b : Bool) → (b || true) ≡ true
    or_true true = refl
    or_true false = refl

bool_eta : (b : Bool) → (if b then true else false) ≡ b
bool_eta true = refl
bool_eta false = refl

eq_bytes_self : (d s : Str) → d ≡ s → eq_bytes d s ≡ true
eq_bytes_self d s e = rw (e, eq_bytes_refl s) refl

-- The two ways in which the code tests a suffix agree.
match_domain_suffix-is_or_under :
    (domain suffix : Str)
    → match_domain_suffix domain suffix ≡ is_or_under (to_lowercase domain) (to_lowercase suffix)
unfolding match_domain_suffix is_or_under to_lowercase
match_domain_suffix-is_or_under domain suffix = same (map lower domain) (map lower suffix)
  where
    same :
        (d s : Str)
        → (if eq_bytes d s
            then true
            else if ends_with d s
            then (if ltb 0 (length d - length s) && is_dot (get_elem? d (length d - length s - 1))
                then true
                else false)
            else false)
          ≡ (eq_bytes d s || (ends_with d s && is_dot (get_elem? d (length d - length s - 1))))
    same d s = elim (Bool-cases (eq_bytes d s)) [
      | inl e ↦ rw e refl
      | inr e ↦ elim (Bool-cases (ends_with d s)) [
        | inr f ↦ rw (e, f) refl
        | inl f ↦ elim (Bool-cases (ltb 0 (length d - length s))) [
          | inl g ↦ rw (e, f, g) (bool_eta (is_dot (get_elem? d (length d - length s - 1))))
          | inr g ↦
              let (p, is) = (ends_with_iff d s).0 f in
              let equal = no_prefix d s p is (
                omega
                  (arith, length-append p s, ap length is, ltb-false 0 (length d - length s) g)) in
              absurd (cc (eq_bytes_self d s equal, e))
        ]
      ]
    ]

-- A domain matches a suffix of the tables exactly when it is that domain or lies under it, letter
-- case aside.
pub match_domain_suffix_iff :
    (domain suffix : Str)
    → (match_domain_suffix domain suffix ≡ true) ↔ Under (to_lowercase domain) (to_lowercase suffix)
match_domain_suffix_iff domain suffix =
    rw (match_domain_suffix-is_or_under domain suffix)
      (is_or_under-Under _ _, Under-is_or_under _ _)

-- A rule that is a domain without one of the three prefixes matches what that domain matches as a
-- suffix of the tables, and so does the same rule with `domain:` before it.
pub matches_rule_domain_suffix :
    (crates : Crates) (suffix host : Str)
    → strip_prefix domain_colon (to_lowercase suffix) ≡ none
    → strip_prefix keyword_colon (to_lowercase suffix) ≡ none
    → strip_prefix regexp_colon (to_lowercase suffix) ≡ none
    → (matches_rule_domain crates suffix host ≡ match_domain_suffix host suffix)
      × (matches_rule_domain crates (domain_colon ++ suffix) host ≡ match_domain_suffix host suffix)
unfolding matches_rule_domain
matches_rule_domain_suffix crates suffix host d k r =
    let same = match_domain_suffix-is_or_under host suffix in
    (rw (d, matches_rule_domain) (rw (k, r) (sym same)), sym same)
