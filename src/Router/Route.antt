-- ===== src/Router/Route.antt =====
-- Where a connection goes.
use rxcore.Prelude.{
  ℕ, ◌≡◌, ◌↔◌, ◌⊎◌, inl, inr, refl, ap, ◌∙◌, List, [], ◌∷◌, ◌++◌, Option, none, some, Bool, true,
  false, ◌||◌, ◌==◌, ==_iff, arith, Bool-cases, if◌then◌else◌,
}
use rxcore.Prelude.Loops.{All, eq_bytes, eq_bytes→eq}
use rxcore.Text.{Str, to_lowercase, eq_ignore_ascii_case}
use rxcore.Text.Ip.{IpAddr, parse_ip}
use rxcore.Router.{
  ClientRouteMode, RoutingRule, RouteModeTables, Request, rule_matches, first_rule,
  matched_mode_outbound, default_outbound, select_outbound, route, direct, resolve_route, get_host,
  ipv4_loopback, ipv6_loopback,
}
use rxcore.Router.Match.{
  Crates, is_private_or_local, is_private_or_local_ip, parsed_is_local, localhost,
}
use rxcore.Router.Host.{Writes, get_host-Writes}
use rxcore.Router.Rules.{Applies, or_iff, ⊎-map, rule_matches-Applies}

abbrev pub IsLocalAddress : Str → Type 0
IsLocalAddress h = (ip : IpAddr) × (parse_ip h ≡ some ip) × (is_private_or_local_ip ip ≡ true)

-- A destination that must not leave this machine or its network: by name, by port, or by address.
abbrev pub IsLocal : Request → Type 0
IsLocal r =
    (eq_ignore_ascii_case r.host localhost ≡ true)
    ⊎ (((r.dest_port ≡ 9091) ⊎ ((r.dest_port ≡ 9100) ⊎ (r.dest_port ≡ 40000)))
        ⊎ IsLocalAddress r.host)

parsed_is_local_iff :
    (o : Option IpAddr)
    → (parsed_is_local o ≡ true)
      ↔ ((ip : IpAddr) × (o ≡ some ip) × (is_private_or_local_ip ip ≡ true))
unfolding is_private_or_local_ip
parsed_is_local_iff none = (λ h. cc, λ (ip, e, h). cc)
parsed_is_local_iff (some ip) = (λ h. (ip, refl, h), λ (ip', e, h). cc)

loopback_is_local :
    (h : Str) → (h ≡ ipv4_loopback) ⊎ (h ≡ ipv6_loopback) → parsed_is_local (parse_ip h) ≡ true
unfolding parse_ip is_private_or_local_ip
loopback_is_local h (inl e) = rw e refl
loopback_is_local h (inr e) = rw e refl

-- The three tests of the code, which the loopback addresses add nothing to.
abbrev local_test : Request → Bool
unfolding eq_ignore_ascii_case parse_ip is_private_or_local_ip
local_test r =
    eq_ignore_ascii_case r.host localhost
    || (((r.dest_port == 9091) || ((r.dest_port == 9100) || (r.dest_port == 40000)))
        || parsed_is_local (parse_ip r.host))

port_iff :
    (p : ℕ)
    → ((p == 9091) || ((p == 9100) || (p == 40000)) ≡ true)
      ↔ ((p ≡ 9091) ⊎ ((p ≡ 9100) ⊎ (p ≡ 40000)))
port_iff p = (
  λ h.
      ⊎-map (==_iff p 9091).0 (λ k. ⊎-map (==_iff p 9100).0 (==_iff p 40000).0 ((or_iff _ _).0 k))
        ((or_iff _ _).0 h),
  λ h. (or_iff _ _).1 (
      ⊎-map (==_iff p 9091).1 (λ k. (or_iff _ _).1 (⊎-map (==_iff p 9100).1 (==_iff p 40000).1 k))
        h),
)

local_test_iff : (r : Request) → (local_test r ≡ true) ↔ IsLocal r
unfolding local_test
local_test_iff r = (
  λ h.
      ⊎-map (λ e. e)
        (λ k. ⊎-map (port_iff r.dest_port).0 (parsed_is_local_iff _).0 ((or_iff _ _).0 k))
        ((or_iff _ _).0 h),
  λ h. (or_iff _ _).1 (
      ⊎-map (λ e. e)
        (λ k. (or_iff _ _).1 (⊎-map (port_iff r.dest_port).1 (parsed_is_local_iff _).1 k)) h),
)

route_lem :
    (crates : Crates) (mode : ClientRouteMode) (r : Request) (t : RouteModeTables)
    → route crates mode r t ≡ (if local_test r then direct else select_outbound crates mode r t)
unfolding route is_private_or_local local_test
route_lem crates mode r t =
    same (eq_ignore_ascii_case r.host localhost) (eq_bytes r.host ipv4_loopback)
      (eq_bytes r.host ipv6_loopback)
      ((r.dest_port == 9091) || ((r.dest_port == 9100) || (r.dest_port == 40000)))
      (parsed_is_local (parse_ip r.host)) direct (select_outbound crates mode r t)
      (λ e. loopback_is_local r.host (inl (eq_bytes→eq _ _ e)))
      (λ e. loopback_is_local r.host (inr (eq_bytes→eq _ _ e)))
  where
    same :
        (name four six port address : Bool) (d s : Str)
        → (four ≡ true → address ≡ true)
        → (six ≡ true → address ≡ true)
        → (if name || (four || six)
            then d
            else if port
            then d
            else if (if name then true else address)
            then d
            else s)
          ≡ (if name || (port || address) then d else s)
    same name four six port address d s h k = ground arith

abbrev pub request : Str → ℕ → Str → Option Str → Request
request host port tag sni = record { host = host; dest_port = port; inbound_tag = tag; sni = sni }

pub resolve_lem :
    (crates : Crates) (mode : ClientRouteMode) (dest host : Str) (port : ℕ) (tag : Str)
    (sni : Option Str) (t : RouteModeTables)
    → get_host dest ≡ some host
    → resolve_route crates mode dest port tag sni t
      ≡ some (route crates mode (request host port tag sni) t)
unfolding resolve_route
resolve_lem crates mode dest host port tag sni t e = rw (e, resolve_route) refl

host-local :
    (crates : Crates) (mode : ClientRouteMode) (dest host : Str) (port : ℕ) (tag : Str)
    (sni : Option Str) (t : RouteModeTables)
    → get_host dest ≡ some host
    → IsLocal (request host port tag sni)
    → resolve_route crates mode dest port tag sni t ≡ some direct
host-local crates mode dest host port tag sni t e local =
    resolve_lem crates mode dest host port tag sni t e
    ∙ ap some (
        route_lem crates mode (request host port tag sni) t
        ∙ rw ((local_test_iff (request host port tag sni)).1 local) refl)

-- A destination goes out directly, whatever the mode, the tables and the rules say, if its text is
-- a host without a colon, a host with a port or a host in brackets with a port, and the host is
-- localhost or an address that is loopback, private, link-local, broadcast or for documentation, or
-- the port to connect to is one of the three reserved ones.
pub resolve_route-local :
    (crates : Crates) (mode : ClientRouteMode) (dest host : Str) (port : ℕ) (tag : Str)
    (sni : Option Str) (t : RouteModeTables)
    → Writes host dest
    → IsLocal (request (to_lowercase host) port tag sni)
    → resolve_route crates mode dest port tag sni t ≡ some direct
resolve_route-local crates mode dest host port tag sni t writes local =
    host-local crates mode dest (to_lowercase host) port tag sni t
      (get_host-Writes host dest writes) local

pub select_lem :
    (crates : Crates) (mode : ClientRouteMode) (r : Request) (t : RouteModeTables)
    → ¬ IsLocal r
    → route crates mode r t ≡ select_outbound crates mode r t
select_lem crates mode r t public = route_lem crates mode r t ∙ elim (Bool-cases (local_test r)) [
  | inl e ↦ absurd (public ((local_test_iff r).0 e))
  | inr e ↦ rw e refl
]

not_true : (b : Bool) → ¬ (b ≡ true) → b ≡ false
not_true true h = absurd (h refl)
not_true false h = refl

first_rule-none :
    (crates : Crates) (r : Request) (rules : List RoutingRule)
    → All (λ rule. ¬ Applies crates r rule) rules
    → first_rule crates r rules ≡ none
unfolding first_rule
first_rule-none crates r [] h = refl
first_rule-none crates r (rule ∷ rules) h =
    let fails =
      not_true (rule_matches crates r rule) (λ e. h.0 ((rule_matches-Applies crates r rule).0 e)) in
    rw (fails, first_rule-none crates r rules h.1) refl

first_rule-some :
    (crates : Crates) (r : Request) (before : List RoutingRule) (rule : RoutingRule)
    (after : List RoutingRule)
    → All (λ rule. ¬ Applies crates r rule) before
    → Applies crates r rule
    → first_rule crates r (before ++ rule ∷ after) ≡ some rule.outbound_tag
unfolding first_rule
first_rule-some crates r [] rule after h a = rw ((rule_matches-Applies crates r rule).1 a) refl
first_rule-some crates r (b ∷ before) rule after h a =
    let fails =
      not_true (rule_matches crates r b) (λ e. h.0 ((rule_matches-Applies crates r b).0 e)) in
    rw (fails, first_rule-some crates r before rule after h.1 a) refl

-- A destination that is not local, and that the tables of the mode do not name, goes to the outbound
-- of the first rule that applies to it.
pub resolve_route_first_rule :
    (crates : Crates) (mode : ClientRouteMode) (dest host : Str) (port : ℕ) (tag : Str)
    (sni : Option Str) (t : RouteModeTables) (before : List RoutingRule) (rule : RoutingRule)
    (after : List RoutingRule)
    → get_host dest ≡ some host
    → ¬ IsLocal (request host port tag sni)
    → matched_mode_outbound mode (request host port tag sni) t ≡ none
    → t.custom_rules ≡ before ++ rule ∷ after
    → All (λ rule. ¬ Applies crates (request host port tag sni) rule) before
    → Applies crates (request host port tag sni) rule
    → resolve_route crates mode dest port tag sni t ≡ some rule.outbound_tag
unfolding select_outbound
resolve_route_first_rule crates mode dest host port tag sni t before rule after e public free rules
      h a =
    resolve_lem crates mode dest host port tag sni t e
    ∙ ap some (
        select_lem crates mode _ t public
        ∙ rw free (rw rules (rw (first_rule-some crates _ before rule after h a) refl)))

-- A destination that is not local, that the tables of the mode do not name and that no rule applies to
-- goes to the default outbound of the mode.
pub resolve_route_default :
    (crates : Crates) (mode : ClientRouteMode) (dest host : Str) (port : ℕ) (tag : Str)
    (sni : Option Str) (t : RouteModeTables)
    → get_host dest ≡ some host
    → ¬ IsLocal (request host port tag sni)
    → matched_mode_outbound mode (request host port tag sni) t ≡ none
    → All (λ rule. ¬ Applies crates (request host port tag sni) rule) t.custom_rules
    → resolve_route crates mode dest port tag sni t ≡ some (default_outbound mode)
unfolding select_outbound
resolve_route_default crates mode dest host port tag sni t e public free h =
    resolve_lem crates mode dest host port tag sni t e
    ∙ ap some (
        select_lem crates mode _ t public
        ∙ rw free (rw (first_rule-none crates _ t.custom_rules h) refl))
