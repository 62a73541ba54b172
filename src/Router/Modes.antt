-- ===== src/Router/Modes.antt =====
-- From the domain sets of the configuration to the outbound.
use rxcore.Prelude.{
  ℕ, ◌≡◌, inl, inr, refl, ap, ◌∙◌, List, [], ◌∷◌, ◌++◌, map, Option, some, Bool, true, false, ◌||◌,
  arith, Bool-cases,
}
use rxcore.Prelude.Loops.{any}
use rxcore.Text.{Str, lower, to_lowercase}
use rxcore.Router.{
  ClientRouteMode, smart, browsing_warp, low_latency_direct, DomainSet, Config, compile_suffixes,
  compile, matches_domain, select_outbound, resolve_route, get_host, matched_mode_outbound, direct,
  warp, contains,
}
use rxcore.Router.Match.{Crates, match_domain_suffix}
use rxcore.Router.Suffix.{Under, match_domain_suffix_iff}
use rxcore.Router.Route.{IsLocal, request, resolve_lem, select_lem}

lower_idem : (c : ℕ) → lower (lower c) ≡ lower c
unfolding lower
lower_idem c = ground arith

lowercase_idem : (s : Str) → to_lowercase (to_lowercase s) ≡ to_lowercase s
unfolding to_lowercase
lowercase_idem [] = refl
lowercase_idem (c ∷ s) = rw (lower_idem c, lowercase_idem s) refl

or_true : (b : Bool) → (b || true) ≡ true
or_true true = refl
or_true false = refl

any_behind : (p : Str → Bool) (xs ys : List Str) → any p ys ≡ true → any p (xs ++ ys) ≡ true
any_behind p [] ys h = h
any_behind p (x ∷ xs) ys h = rw (any_behind p xs ys h) (or_true (p x))

any_before : (p : Str → Bool) (xs ys : List Str) → any p xs ≡ true → any p (xs ++ ys) ≡ true
any_before p [] ys h = cc
any_before p (x ∷ xs) ys h = elim (Bool-cases (p x)) [
  | inl e ↦ rw e refl
  | inr e ↦ rw e (any_before p xs ys (rw e at h))
]

any-map :
    (p : Str → Bool) (front back : List Str) (d : Str)
    → p (to_lowercase d) ≡ true
    → any p (map to_lowercase (front ++ d ∷ back)) ≡ true
unfolding to_lowercase
any-map p [] back d h = rw h refl
any-map p (x ∷ front) back d h = rw (any-map p front back d h) (or_true (p (to_lowercase x)))

-- A suffix of an enabled set is in the compiled list.
in_enabled :
    (p : Str → Bool) (before after : List DomainSet) (set : DomainSet) (front back : List Str)
    (d : Str)
    → set.enabled ≡ true
    → set.domain_suffixes ≡ front ++ d ∷ back
    → p (to_lowercase d) ≡ true
    → any p (compile_suffixes (before ++ set ∷ after)) ≡ true
unfolding compile_suffixes
in_enabled p [] after set front back d on e h =
    rw on (rw e (any_before p _ (compile_suffixes after) (any-map p front back d h)))
in_enabled p (b ∷ before) after set front back d on e h = elim (Bool-cases b.enabled) [
  | inl k ↦ rw k (
      any_behind p (map to_lowercase b.domain_suffixes) _
        (in_enabled p before after set front back d on e h))
  | inr k ↦ rw k (in_enabled p before after set front back d on e h)
]

matches_suffix :
    (host : Str) (sni : Option Str) (exact suffixes : List Str)
    → any (match_domain_suffix host) suffixes ≡ true
    → matches_domain host sni exact suffixes ≡ true
unfolding matches_domain
matches_suffix host sni exact suffixes h = elim (Bool-cases (contains exact host)) [
  | inl e ↦ rw e refl
  | inr e ↦ rw (e, h) refl
]

-- The domain sets that a mode goes by, and where it sends what they name.
abbrev pub sets_of : ClientRouteMode → Config → List DomainSet
sets_of smart config = config.warp_domain_sets
sets_of browsing_warp config = config.direct_exception_sets
sets_of low_latency_direct config = []

abbrev pub set_outbound : ClientRouteMode → Str
set_outbound smart = warp
set_outbound browsing_warp = direct
set_outbound low_latency_direct = direct

mode_outbound :
    (mode : ClientRouteMode) (config : Config) (host : Str) (port : ℕ) (tag : Str)
    (sni : Option Str)
    → any (match_domain_suffix host) (compile_suffixes (sets_of mode config)) ≡ true
    → matched_mode_outbound mode (request host port tag sni) (compile config)
      ≡ some (set_outbound mode)
unfolding matched_mode_outbound compile
mode_outbound smart config host port tag sni h = rw (matches_suffix host sni _ _ h) refl
mode_outbound browsing_warp config host port tag sni h = rw (matches_suffix host sni _ _ h) refl
mode_outbound low_latency_direct config host port tag sni h = cc h

-- A host that is not local, at or under a domain suffix of an enabled set of the configuration that
-- its mode goes by, is sent where the mode sends the set before any rule is looked at: to WARP from
-- a WARP set in smart mode, and out directly from an exception set in browsing mode.
pub resolve_route-compile :
    (crates : Crates) (mode : ClientRouteMode) (config : Config) (dest host : Str) (port : ℕ)
    (tag : Str) (sni : Option Str) (before after : List DomainSet) (set : DomainSet)
    (front back : List Str) (d : Str)
    → get_host dest ≡ some host
    → ¬ IsLocal (request host port tag sni)
    → sets_of mode config ≡ before ++ set ∷ after
    → set.enabled ≡ true
    → set.domain_suffixes ≡ front ++ d ∷ back
    → Under (to_lowercase host) (to_lowercase d)
    → resolve_route crates mode dest port tag sni (compile config) ≡ some (set_outbound mode)
unfolding select_outbound
resolve_route-compile crates mode config dest host port tag sni before after set front back d e
      public sets on is under =
    let found : match_domain_suffix host (to_lowercase d) ≡ true =
      (match_domain_suffix_iff host (to_lowercase d)).1 (rw (lowercase_idem d) under) in
    let listed = in_enabled (match_domain_suffix host) before after set front back d on is found in
    resolve_lem crates mode dest host port tag sni (compile config) e
    ∙ ap some (
        select_lem crates mode _ (compile config) public
        ∙ rw (mode_outbound mode config host port tag sni (rw sets listed)) refl)
