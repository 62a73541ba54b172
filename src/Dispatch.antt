-- ===== src/Dispatch.antt =====
-- The choice of an outbound: `dispatch_connection` of target_core/src/dispatcher/mod.rs up to the handler, and
-- `get_outbound_handler` of target_core/src/outbound/mod.rs. The settings of an outbound are data of
-- any type, which are passed on.
pub mod Udp
pub mod Warp
use rxcore.Prelude.{
  ℕ, List, [], ◌∷◌, Option, none, some, Bool, true, false, ◌&&◌, not, ◌==◌, if◌then◌else◌,
}
use rxcore.Prelude.Loops.{eq_bytes}
use rxcore.Text.{Str}
use rxcore.Text.Ip.{IpAddr, v4, v6, parse_ip}
use rxcore.Router.{ClientRouteMode, RouteModeTables, warp, resolve_route}
use rxcore.Router.Match.{Crates}

-- "freedom", "fragment", "vless", "blackhole" and "127.0.0.1:40000".
abbrev pub freedom_name : Str
freedom_name = 102 ∷ 114 ∷ 101 ∷ 101 ∷ 100 ∷ 111 ∷ 109 ∷ []

abbrev pub fragment_name : Str
fragment_name = 102 ∷ 114 ∷ 97 ∷ 103 ∷ 109 ∷ 101 ∷ 110 ∷ 116 ∷ []

abbrev pub vless_name : Str
vless_name = 118 ∷ 108 ∷ 101 ∷ 115 ∷ 115 ∷ []

abbrev pub blackhole_name : Str
blackhole_name = 98 ∷ 108 ∷ 97 ∷ 99 ∷ 107 ∷ 104 ∷ 111 ∷ 108 ∷ 101 ∷ []

abbrev pub warp_proxy : Str
warp_proxy = 49 ∷ 50 ∷ 55 ∷ 46 ∷ 48 ∷ 46 ∷ 48 ∷ 46 ∷ 49 ∷ 58 ∷ 52 ∷ 48 ∷ 48 ∷ 48 ∷ 48 ∷ []

pub record OutboundConfig (F V : Type 0) : Type 0 where
  pub tag : Str
  pub protocol : Str
  pub fragment : Option F
  pub vless : Option V
  pub outbound_proxy : Option Str
  pub bind_address : Option Str

pub data Handler (F V : Type 0) : Type 0 where
  freedom_outbound udp_outbound : (outbound_proxy bind_address : Option Str) → Handler F V
  fragment_outbound : Option F → Handler F V
  vless_outbound : V → Bool → (outbound_proxy bind_address : Option Str) → Handler F V
  blackhole_outbound : Handler F V

-- An error, the silent end of a connection whose outbound is down, a panic of the router, a handler.
pub data Outcome (F V : Type 0) : Type 0 where
  ipv6_rejected vless_missing closed panicked : Outcome F V
  handled : Handler F V → Outcome F V

abbrev pub is_ipv6 : Option IpAddr → Bool
is_ipv6 (some (v6 octets)) = true
is_ipv6 (some (v4 a b c d)) = false
is_ipv6 none = false

unfoldable pub is_warp_allowed : ℕ → Bool
is_warp_allowed val = not (val == 3) && not (val == 4)

module _ {F V : Type 0} where
  abbrev pub plain_handler : Bool → (outbound_proxy bind_address : Option Str) → Handler F V
  plain_handler is_udp proxy bind_ip =
      if is_udp then udp_outbound proxy bind_ip else freedom_outbound proxy bind_ip

  abbrev pub vless_handler :
      Option V → Bool → (outbound_proxy bind_address : Option Str) → Outcome F V
  vless_handler none is_udp proxy bind_ip = vless_missing
  vless_handler (some settings) is_udp proxy bind_ip =
      handled (vless_outbound settings is_udp proxy bind_ip)

  unfoldable pub get_outbound_handler : Option (OutboundConfig F V) → Bool → Outcome F V
  unfolding eq_bytes
  get_outbound_handler none is_udp = handled (plain_handler is_udp none none)
  get_outbound_handler (some c) is_udp =
      if eq_bytes c.protocol freedom_name
      then handled (plain_handler is_udp c.outbound_proxy c.bind_address)
      else if eq_bytes c.protocol fragment_name
      then handled (fragment_outbound c.fragment)
      else if eq_bytes c.protocol vless_name
      then vless_handler c.vless is_udp c.outbound_proxy c.bind_address
      else if eq_bytes c.protocol blackhole_name
      then handled blackhole_outbound
      else handled (plain_handler is_udp none none)

  unfoldable pub find_outbound : Str → List (OutboundConfig F V) → Option (OutboundConfig F V)
  unfolding eq_bytes
  find_outbound tag [] = none
  find_outbound tag (o ∷ outbounds) =
      let rest = find_outbound tag outbounds in if eq_bytes o.tag tag then some o else rest

  abbrev pub builtin_warp : OutboundConfig F V
  builtin_warp = record {
    tag = warp;
    protocol = freedom_name;
    fragment = none;
    vless = none;
    outbound_proxy = some warp_proxy;
    bind_address = none;
  }

  abbrev pub or_builtin : Option (OutboundConfig F V) → Option (OutboundConfig F V)
  or_builtin none = some builtin_warp
  or_builtin (some c) = some c

  -- The handler of UDP for all protocols but vless.
  abbrev pub udp_handler : Option (OutboundConfig F V) → Outcome F V
  udp_handler none = handled (udp_outbound none none)
  udp_handler (some c) = handled (
      udp_outbound (if eq_bytes c.protocol freedom_name then none else c.outbound_proxy)
        c.bind_address)

  abbrev pub is_vless : Option (OutboundConfig F V) → Bool
  is_vless none = false
  is_vless (some c) = eq_bytes c.protocol vless_name

  unfoldable pub choose_handler : Option (OutboundConfig F V) → Bool → Outcome F V
  unfolding get_outbound_handler eq_bytes
  choose_handler config is_udp =
      if is_vless config
      then get_outbound_handler config is_udp
      else if is_udp
      then udp_handler config
      else get_outbound_handler config false

  unfoldable pub with_tag :
      (warp_health : ℕ) → List (OutboundConfig F V) → Bool → Option Str → Outcome F V
  unfolding choose_handler find_outbound is_warp_allowed eq_bytes
  with_tag health outbounds is_udp none = panicked
  with_tag health outbounds is_udp (some tag) =
      if eq_bytes tag warp
      then (if is_warp_allowed health
          then choose_handler (or_builtin (find_outbound tag outbounds)) is_udp
          else closed)
      else choose_handler (find_outbound tag outbounds) is_udp

  unfoldable pub dispatch_connection :
      Crates
      → (ipv4_only : Bool) → ClientRouteMode
      → (dest_addr : Str) (dest_port : ℕ) (inbound_tag : Str) → Option Str
      → RouteModeTables
      → (warp_health : ℕ) → List (OutboundConfig F V)
      → (cmd : ℕ) → Outcome F V
  unfolding with_tag resolve_route parse_ip
  dispatch_connection crates ipv4_only mode dest_addr dest_port inbound_tag sni tables health
        outbounds cmd =
      if ipv4_only && is_ipv6 (parse_ip dest_addr)
      then ipv6_rejected
      else with_tag health outbounds (cmd == 2)
          (resolve_route crates mode dest_addr dest_port inbound_tag sni tables)
