-- ===== src/Tests/Dispatch.antt =====
-- The choice of an outbound at concrete inputs.
use rxcore.Prelude.{ℕ, ◌≡◌, refl, [], ◌∷◌, none, some, true, false}
use rxcore.Text.{Str}
use rxcore.Router.{smart, RouteModeTables, warp, resolve_route}
use rxcore.Router.Match.{Crates}
use rxcore.Dispatch.{
  OutboundConfig, udp_outbound, blackhole_outbound, handled, blackhole_name, dispatch_connection,
  find_outbound, is_warp_allowed,
}
use rxcore.Dispatch.Udp.{dispatch_connection-udp}
use rxcore.Dispatch.Warp.{through_warp, dispatch_connection-warp}

abbrev crates : Crates
crates = record { regex = λ r. none; ipv4_net = λ n. none }

-- "a.io" goes to WARP.
abbrev host : Str
host = 97 ∷ 46 ∷ 105 ∷ 111 ∷ []

abbrev tables : RouteModeTables
tables = record {
  warp_exact = host ∷ [];
  warp_suffixes = [];
  direct_exact = [];
  direct_suffixes = [];
  custom_rules = [];
}

abbrev blackhole : OutboundConfig ℕ ℕ
blackhole = record {
  tag = warp;
  protocol = blackhole_name;
  fragment = none;
  vless = none;
  outbound_proxy = none;
  bind_address = none;
}

tcp_blocked :
    dispatch_connection crates true smart host 443 [] none tables 0 (blackhole ∷ []) 1
    ≡ handled blackhole_outbound
unfolding dispatch_connection
tcp_blocked = refl

udp_relayed :
    dispatch_connection crates true smart host 443 [] none tables 0 (blackhole ∷ []) 2
    ≡ handled (udp_outbound none none)
unfolding dispatch_connection
udp_relayed = refl

dispatch_connection-udp_example : ¬ (
    dispatch_connection crates true smart host 443 [] none tables 0 (blackhole ∷ []) 2
    ≡ handled blackhole_outbound)
dispatch_connection-udp_example =
    dispatch_connection-udp crates true smart host 443 [] none tables 0 (blackhole ∷ [])

goes_to_warp : resolve_route crates smart host 443 [] none tables ≡ some warp
unfolding resolve_route
goes_to_warp = refl

dispatch_connection-warp_example :
    dispatch_connection {F = ℕ} {V = ℕ} crates false smart host 443 [] none tables 0 [] 1
    ≡ through_warp false
unfolding find_outbound is_warp_allowed
dispatch_connection-warp_example =
    dispatch_connection-warp crates false smart host 443 [] none tables 0 [] 1 refl goes_to_warp
      refl
