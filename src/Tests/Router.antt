-- ===== src/Tests/Router.antt =====
-- The router at concrete inputs.
use rxcore.Prelude.{
  ℕ, ◌≡◌, ◌≢◌, ◌==◌, ◌↔◌, inl, inr, refl, [], ◌∷◌, ◌++◌, none, some, true, false, arith,
}
use rxcore.Prelude.Loops.{eq_bytes}
use rxcore.Text.{Str, to_lowercase, eq_ignore_ascii_case, strip_prefix}
use rxcore.Text.Ip.{v4, parse_ip}
use rxcore.Router.{
  smart, browsing_warp, DomainSet, RoutingRule, RouteModeTables, Config, Request, get_host,
  rule_matches, resolve_route, direct, matched_mode_outbound,
}
use rxcore.Router.Match.{
  Crates, match_domain_suffix, matches_rule_domain, domain_colon, is_private_or_local_ip, localhost,
}
use rxcore.Text.Search.{Absent}
use rxcore.Router.Host.{Writes, and_port}
use rxcore.Router.Rules.{Applies, rule_matches-Applies}
use rxcore.Router.Route.{IsLocal, request, resolve_route-local, resolve_route_first_rule}

-- No expression compiles and no network parses.
abbrev crates : Crates
crates = record { regex = λ r. none; ipv4_net = λ n. none }

-- "Ad.io", "x.ad.io", "xad.io".
abbrev ad_io : Str
ad_io = 65 ∷ 100 ∷ 46 ∷ 105 ∷ 111 ∷ []

abbrev under_ad_io : Str
under_ad_io = 120 ∷ 46 ∷ 97 ∷ 100 ∷ 46 ∷ 105 ∷ 111 ∷ []

beside_ad_io : match_domain_suffix (120 ∷ 97 ∷ 100 ∷ 46 ∷ 105 ∷ 111 ∷ []) ad_io ≡ false
unfolding match_domain_suffix
beside_ad_io = refl

no_domain : strip_prefix domain_colon (to_lowercase ad_io) ≡ none
unfolding strip_prefix to_lowercase
no_domain = refl

-- An IPv6 address with no brackets loses its last group.
bare_v6 : get_host (58 ∷ 58 ∷ 49 ∷ []) ≡ some (58 ∷ [])
unfolding get_host
bare_v6 = refl

abbrev block : Str
block = 98 ∷ []

-- A rule for a domain and a port.
abbrev rule : RoutingRule
rule = record {
  domain = some (ad_io ∷ []);
  ip = none;
  port = some (80 ∷ 443 ∷ []);
  inbound_tag = none;
  outbound_tag = block;
}

abbrev other : RoutingRule
other = record {
  domain = none;
  ip = none;
  port = some (25 ∷ []);
  inbound_tag = none;
  outbound_tag = direct;
}

abbrev to_under : Request
to_under = request under_ad_io 443 [] none

rule_matches-Applies_example :
    (rule_matches crates to_under rule ≡ true) ↔ Applies crates to_under rule
rule_matches-Applies_example = rule_matches-Applies crates to_under rule

abbrev tables : RouteModeTables
tables = record {
  warp_exact = [];
  warp_suffixes = [];
  direct_exact = [];
  direct_suffixes = [];
  custom_rules = other ∷ rule ∷ [];
}

host_of : get_host (under_ad_io ++ 58 ∷ 49 ∷ []) ≡ some under_ad_io
unfolding get_host
host_of = refl

-- "10.0.0.1:9".
abbrev private : Str
private = 49 ∷ 48 ∷ 46 ∷ 48 ∷ 46 ∷ 48 ∷ 46 ∷ 49 ∷ []

apart : (a b : ℕ) → (a == b) ≡ false → a ≢ b
apart a b h = ground arith

private-Absent : Absent 93 private
private-Absent = (
  apart 49 93 refl,
  (
    apart 48 93 refl,
    (
      apart 46 93 refl,
      (
        apart 48 93 refl,
        (apart 46 93 refl, (apart 48 93 refl, (apart 46 93 refl, (apart 49 93 refl, tt)))),
      ),
    ),
  ),
)

private-Writes : Writes private (private ++ 58 ∷ 57 ∷ [])
private-Writes = and_port (57 ∷ []) private-Absent (apart 57 93 refl, tt) (apart 57 58 refl, tt)

private-IsLocal : IsLocal (request (to_lowercase private) 9 [] none)
unfolding parse_ip is_private_or_local_ip to_lowercase
private-IsLocal = inr (inr (v4 10 0 0 1, refl, refl))

resolve_route-local_example :
    resolve_route crates browsing_warp (private ++ 58 ∷ 57 ∷ []) 9 [] none tables ≡ some direct
resolve_route-local_example =
    resolve_route-local crates browsing_warp (private ++ 58 ∷ 57 ∷ []) private 9 [] none tables
      private-Writes private-IsLocal

not_address : parse_ip under_ad_io ≡ none
unfolding parse_ip
not_address = refl

not_localhost : eq_ignore_ascii_case under_ad_io localhost ≡ false
unfolding eq_ignore_ascii_case eq_bytes
not_localhost = refl

public : ¬ IsLocal to_under
public (inl e) = cc (e, not_localhost)
public (inr (inl (inl e))) = absurd (omega (arith, e))
public (inr (inl (inr (inl e)))) = absurd (omega (arith, e))
public (inr (inl (inr (inr e)))) = absurd (omega (arith, e))
public (inr (inr (ip, e, h))) = cc (e, not_address)

no_set : matched_mode_outbound smart to_under tables ≡ none
unfolding matched_mode_outbound
no_set = refl

rule-Applies : Applies crates to_under rule
unfolding matches_rule_domain
rule-Applies = (inl (inl refl), tt, inr (inl refl), tt)

other_not : ¬ Applies crates to_under other
other_not (a, b, inl e, d) = absurd (omega (arith, e))
other_not (a, b, inr e, d) = absurd e

resolve_route_first_rule_example :
    resolve_route crates smart (under_ad_io ++ 58 ∷ 49 ∷ []) 443 [] none tables ≡ some block
resolve_route_first_rule_example =
    resolve_route_first_rule crates smart (under_ad_io ++ 58 ∷ 49 ∷ []) under_ad_io 443 [] none
      tables (other ∷ []) rule [] host_of public no_set refl (other_not, tt) rule-Applies

no_set_low :
    matched_mode_outbound browsing_warp to_under (record tables { custom_rules = other ∷ [] })
    ≡ none
unfolding matched_mode_outbound
no_set_low = refl

abbrev set : DomainSet
set = record { exact_domains = []; domain_suffixes = ad_io ∷ []; enabled = true }

abbrev config : Config
config = record { warp_domain_sets = set ∷ []; direct_exception_sets = []; rules = rule ∷ [] }
