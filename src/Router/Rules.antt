-- ===== src/Router/Rules.antt =====
-- The first rule all of whose conditions hold decides, after the mode's own tables.
use rxcore.Prelude.{
  ◌≡◌, ◌↔◌, ◌⊎◌, inl, inr, refl, List, [], ◌∷◌, Option, none, some, Bool, true, false, ◌&&◌, ◌||◌,
  arith,
}
use rxcore.Prelude.Loops.{any, eq_bytes→eq, eq_bytes_refl}
use rxcore.Text.{Str}
use rxcore.Text.Ip.{IpAddr, parse_ip}
use rxcore.Router.{RoutingRule, Request, rule_matches, holds_if_present, matches_sni, matches_ip}
use rxcore.Router.Match.{Crates, matches_rule_domain, matches_cidr}

-- Some element of a list has a property.
abbrev pub Some {ℓ} : {A : Type ℓ} → (A → Type 0) → List A → Type 0
Some P [] = ⊥
Some P (x ∷ xs) = P x ⊎ Some P xs

abbrev pub IfPresent {ℓ} : {A : Type ℓ} → (A → Type 0) → Option (List A) → Type 0
IfPresent P none = Unit
IfPresent P (some xs) = Some P xs

pub or_iff : (a b : Bool) → (a || b ≡ true) ↔ ((a ≡ true) ⊎ (b ≡ true))
or_iff true b = (λ h. inl refl, λ h. refl)
or_iff false b = (λ h. inr h, elim [ inl h ↦ cc | inr h ↦ h ])

pub and_iff : (a b : Bool) → (a && b ≡ true) ↔ ((a ≡ true) × (b ≡ true))
and_iff true b = (λ h. (refl, h), λ h. h.1)
and_iff false b = (λ h. cc, λ h. cc)

pub ⊎-map {ℓ κ μ ν} :
    {A : Type ℓ} {B : Type κ} {C : Type μ} {D : Type ν} → (A → C) → (B → D) → A ⊎ B → C ⊎ D
⊎-map f g (inl a) = inl (f a)
⊎-map f g (inr b) = inr (g b)

any_iff {ℓ} :
    {A : Type ℓ} (p : A → Bool) (P : A → Type 0)
    → ((x : A) → (p x ≡ true) ↔ P x)
    → (xs : List A) → (any p xs ≡ true) ↔ Some P xs
any_iff p P h [] = (λ e. cc, λ n. absurd n)
any_iff p P h (x ∷ xs) = (
  λ e. ⊎-map (h x).0 (any_iff p P h xs).0 ((or_iff (p x) (any p xs)).0 e),
  λ s. (or_iff (p x) (any p xs)).1 (⊎-map (h x).1 (any_iff p P h xs).1 s),
)

holds_if_present_iff {ℓ} :
    {A : Type ℓ} (p : A → Bool) (P : A → Type 0)
    → ((x : A) → (p x ≡ true) ↔ P x)
    → (o : Option (List A)) → (holds_if_present p o ≡ true) ↔ IfPresent P o
holds_if_present_iff p P h none = (λ e. tt, λ t. refl)
holds_if_present_iff p P h (some xs) = any_iff p P h xs

-- A pattern matches the host, or the server name if there is one.
abbrev pub MatchesName : Crates → Request → Str → Type 0
MatchesName crates r d =
    (matches_rule_domain crates d r.host ≡ true)
    ⊎ ((sni : Str) × (r.sni ≡ some sni) × (matches_rule_domain crates d sni ≡ true))

abbrev pub MatchesIp : Crates → Request → Str → Type 0
MatchesIp crates r p =
    (ip : IpAddr) × (parse_ip r.host ≡ some ip) × (matches_cidr crates p ip ≡ true)

-- All the conditions that a rule has hold of a request.
abbrev pub Applies : Crates → Request → RoutingRule → Type 0
Applies crates r rule =
    IfPresent (MatchesName crates r) rule.domain
    × IfPresent (MatchesIp crates r) rule.ip
    × IfPresent (λ port. r.dest_port ≡ port) rule.port
    × IfPresent (λ tag. r.inbound_tag ≡ tag) rule.inbound_tag

matches_sni_iff :
    (crates : Crates) (d : Str) (o : Option Str)
    → (matches_sni crates d o ≡ true)
      ↔ ((sni : Str) × (o ≡ some sni) × (matches_rule_domain crates d sni ≡ true))
unfolding matches_rule_domain
matches_sni_iff crates d none = (λ h. cc, λ (sni, e, h). cc)
matches_sni_iff crates d (some sni) = (λ h. (sni, refl, h), λ (sni', e, h). cc)

matches_ip_iff :
    (crates : Crates) (p : Str) (o : Option IpAddr)
    → (matches_ip crates o p ≡ true)
      ↔ ((ip : IpAddr) × (o ≡ some ip) × (matches_cidr crates p ip ≡ true))
unfolding matches_cidr
matches_ip_iff crates p none = (λ h. cc, λ (ip, e, h). cc)
matches_ip_iff crates p (some ip) = (λ h. (ip, refl, h), λ (ip', e, h). cc)

MatchesName-iff :
    (crates : Crates) (r : Request) (d : Str)
    → (matches_rule_domain crates d r.host || matches_sni crates d r.sni ≡ true)
      ↔ MatchesName crates r d
MatchesName-iff crates r d = (
  λ h. ⊎-map (λ e. e) (matches_sni_iff crates d r.sni).0 ((or_iff _ _).0 h),
  λ h. (or_iff _ _).1 (⊎-map (λ e. e) (matches_sni_iff crates d r.sni).1 h),
)

-- A rule matches a request exactly when each of the conditions that it has holds: some pattern for
-- the host or the server name, some network for the address, some port, some inbound.
pub rule_matches-Applies :
    (crates : Crates) (r : Request) (rule : RoutingRule)
    → (rule_matches crates r rule ≡ true) ↔ Applies crates r rule
unfolding rule_matches
rule_matches-Applies crates r rule =
    let domain =
      holds_if_present_iff _ (MatchesName crates r) (MatchesName-iff crates r) rule.domain in
    let ip =
      holds_if_present_iff _ (MatchesIp crates r) (λ p. matches_ip_iff crates p (parse_ip r.host))
        rule.ip in
    let port = holds_if_present_iff _ (λ port. r.dest_port ≡ port) (λ p. ground arith) rule.port in
    let tag =
      holds_if_present_iff _ (λ tag. r.inbound_tag ≡ tag)
        (λ t. (eq_bytes→eq r.inbound_tag t, λ e. rw e (eq_bytes_refl t))) rule.inbound_tag in
    (
      λ h.
          let (a, h1) = (and_iff _ _).0 h in
          let (b, h2) = (and_iff _ _).0 h1 in
          let (c, d) = (and_iff _ _).0 h2 in (domain.0 a, ip.0 b, port.0 c, tag.0 d),
      λ (a, b, c, d).
          (and_iff _ _).1
            (domain.1 a, (and_iff _ _).1 (ip.1 b, (and_iff _ _).1 (port.1 c, tag.1 d))),
    )
