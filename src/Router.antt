-- ===== src/Router.antt =====
-- `RouteModeTables::compile`, `Router::get_host`, `matches_domain` and `resolve_route` of
-- target_core/src/router/mod.rs. A hash set is the list of what was put into it.
pub mod Match
pub mod Suffix
pub mod Host
pub mod Panics
pub mod Rules
pub mod Route
pub mod Modes
use rxcore.Prelude.{
  ℕ, zero, suc, ◌+◌, ◌-◌, List, [], ◌∷◌, ◌++◌, map, Option, none, some, Bool, true, false, ◌&&◌,
  ◌||◌, ltb, ◌==◌, length, drop, take, if◌then◌else◌,
}
use rxcore.Prelude.Loops.{eq_bytes, any}
use rxcore.Text.{
  Str, to_lowercase, eq_ignore_ascii_case, strip_prefix, ends_with, find, rfind, is_some,
}
use rxcore.Text.Ip.{IpAddr, parse_ip}
use rxcore.Router.Match.{
  Crates, match_domain_suffix, matches_rule_domain, matches_cidr, is_private_or_local, localhost,
}

pub data ClientRouteMode : Type 0 where
  smart : ClientRouteMode
  browsing_warp : ClientRouteMode
  low_latency_direct : ClientRouteMode

pub record DomainSet : Type 0 where
  pub exact_domains : List Str
  pub domain_suffixes : List Str
  pub enabled : Bool

pub record RoutingRule : Type 0 where
  pub domain : Option (List Str)
  pub ip : Option (List Str)
  pub port : Option (List ℕ)
  pub inbound_tag : Option (List Str)
  pub outbound_tag : Str

pub record RouteModeTables : Type 0 where
  pub warp_exact : List Str
  pub warp_suffixes : List Str
  pub direct_exact : List Str
  pub direct_suffixes : List Str
  pub custom_rules : List RoutingRule

pub record Config : Type 0 where
  pub warp_domain_sets : List DomainSet
  pub direct_exception_sets : List DomainSet
  pub rules : List RoutingRule

-- The domains of the enabled sets, in lower case.
unfoldable pub compile_exact : List DomainSet → List Str
unfolding to_lowercase
compile_exact [] = []
compile_exact (s ∷ sets) =
    let rest = compile_exact sets in
    if s.enabled then map to_lowercase s.exact_domains ++ rest else rest

unfoldable pub compile_suffixes : List DomainSet → List Str
unfolding to_lowercase
compile_suffixes [] = []
compile_suffixes (s ∷ sets) =
    let rest = compile_suffixes sets in
    if s.enabled then map to_lowercase s.domain_suffixes ++ rest else rest

unfoldable pub compile : Config → RouteModeTables
unfolding compile_exact compile_suffixes
compile config = record {
  warp_exact = compile_exact config.warp_domain_sets;
  warp_suffixes = compile_suffixes config.warp_domain_sets;
  direct_exact = compile_exact config.direct_exception_sets;
  direct_suffixes = compile_suffixes config.direct_exception_sets;
  custom_rules = config.rules;
}

-- `&s[1..end]`, which panics if `end` is 0.
abbrev slice_from_1 : ℕ → Str → Option Str
slice_from_1 end s = if ltb end 1 then none else some (drop 1 (take end s))

abbrev cut_host : Option ℕ → ℕ → Str → Option Str
cut_host (some end) idx s = slice_from_1 end s
cut_host none idx s = some (take idx s)

-- `none` is a panic.
unfoldable pub get_host : Str → Option Str
unfolding to_lowercase find rfind strip_prefix ends_with
get_host dest_addr =
    let dest_lower = to_lowercase dest_addr in
    elim (rfind 58 dest_lower) [
      | none ↦ some dest_lower
      | some idx ↦
          if is_some (strip_prefix (91 ∷ []) dest_lower) && ends_with dest_lower (93 ∷ [])
          then some dest_lower
          else cut_host (find 93 dest_lower) idx dest_lower
    ]

abbrev pub contains : List Str → Str → Bool
unfolding eq_bytes
contains set s = any (eq_bytes s) set

unfoldable pub in_tables : List Str → List Str → Str → Bool
unfolding match_domain_suffix eq_bytes
in_tables exact suffixes host =
    if contains exact host then true else any (match_domain_suffix host) suffixes

abbrev sni_in_tables : List Str → List Str → Option Str → Bool
unfolding in_tables to_lowercase
sni_in_tables exact suffixes none = false
sni_in_tables exact suffixes (some sni) = in_tables exact suffixes (to_lowercase sni)

-- `matches_domain`, with the host that it computes of the destination.
unfoldable pub matches_domain : Str → Option Str → List Str → List Str → Bool
unfolding in_tables to_lowercase
matches_domain host sni exact suffixes =
    in_tables exact suffixes host || sni_in_tables exact suffixes sni

-- What a rule is matched with.
pub record Request : Type 0 where
  pub host : Str
  pub dest_port : ℕ
  pub inbound_tag : Str
  pub sni : Option Str

abbrev pub matches_sni : Crates → Str → Option Str → Bool
unfolding matches_rule_domain
matches_sni crates pattern none = false
matches_sni crates pattern (some sni) = matches_rule_domain crates pattern sni

abbrev pub matches_ip : Crates → Option IpAddr → Str → Bool
unfolding matches_cidr
matches_ip crates none pattern = false
matches_ip crates (some ip) pattern = matches_cidr crates pattern ip

-- A condition that a rule does not have holds.
abbrev pub holds_if_present {ℓ} : {A : Type ℓ} → (A → Bool) → Option (List A) → Bool
holds_if_present p none = true
holds_if_present p (some xs) = any p xs

-- The body of the loop over the rules.
unfoldable pub rule_matches : Crates → Request → RoutingRule → Bool
unfolding matches_rule_domain parse_ip matches_cidr eq_bytes
rule_matches crates r rule =
    holds_if_present (λ d. matches_rule_domain crates d r.host || matches_sni crates d r.sni)
      rule.domain
    && (holds_if_present (matches_ip crates (parse_ip r.host)) rule.ip
        && (holds_if_present (◌==◌ r.dest_port) rule.port
            && holds_if_present (eq_bytes r.inbound_tag) rule.inbound_tag))

unfoldable pub first_rule : Crates → Request → List RoutingRule → Option Str
unfolding rule_matches
first_rule crates r [] = none
first_rule crates r (rule ∷ rules) =
    let rest = first_rule crates r rules in
    if rule_matches crates r rule then some rule.outbound_tag else rest

abbrev pub direct : Str
direct = 100 ∷ 105 ∷ 114 ∷ 101 ∷ 99 ∷ 116 ∷ []

abbrev pub warp : Str
warp = 119 ∷ 97 ∷ 114 ∷ 112 ∷ []

unfoldable pub matched_mode_outbound : ClientRouteMode → Request → RouteModeTables → Option Str
unfolding matches_domain
matched_mode_outbound low_latency_direct r t = none
matched_mode_outbound browsing_warp r t =
    if matches_domain r.host r.sni t.direct_exact t.direct_suffixes then some direct else none
matched_mode_outbound smart r t =
    if matches_domain r.host r.sni t.warp_exact t.warp_suffixes then some warp else none

abbrev pub default_outbound : ClientRouteMode → Str
default_outbound smart = direct
default_outbound browsing_warp = warp
default_outbound low_latency_direct = direct

abbrev pub ipv4_loopback : Str
ipv4_loopback = 49 ∷ 50 ∷ 55 ∷ 46 ∷ 48 ∷ 46 ∷ 48 ∷ 46 ∷ 49 ∷ []

abbrev pub ipv6_loopback : Str
ipv6_loopback = 58 ∷ 58 ∷ 49 ∷ []

abbrev pub or_default : Option Str → Str → Str
or_default (some o) d = o
or_default none d = d

-- Steps 3 to 5 of `resolve_route`.
unfoldable pub select_outbound : Crates → ClientRouteMode → Request → RouteModeTables → Str
unfolding matched_mode_outbound first_rule
select_outbound crates mode r t =
    or_default (matched_mode_outbound mode r t)
      (or_default (first_rule crates r t.custom_rules) (default_outbound mode))

unfoldable pub route : Crates → ClientRouteMode → Request → RouteModeTables → Str
unfolding eq_ignore_ascii_case eq_bytes is_private_or_local select_outbound
route crates mode r t =
    if eq_ignore_ascii_case r.host localhost
      || (eq_bytes r.host ipv4_loopback || eq_bytes r.host ipv6_loopback)
    then direct
    else if (r.dest_port == 9091) || ((r.dest_port == 9100) || (r.dest_port == 40000))
    then direct
    else if is_private_or_local r.host
    then direct
    else select_outbound crates mode r t

unfoldable pub resolve_route :
    Crates
    → ClientRouteMode
    → (dest_addr : Str) (dest_port : ℕ) (inbound_tag : Str) → Option Str
    → RouteModeTables
    → Option Str
unfolding get_host route
resolve_route crates mode dest_addr dest_port inbound_tag sni tables = elim (get_host dest_addr) [
  | none ↦ none
  | some host ↦ some (
      route crates mode
        (record { host = host; dest_port = dest_port; inbound_tag = inbound_tag; sni = sni })
        tables)
]
