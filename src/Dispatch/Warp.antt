-- ===== src/Dispatch/Warp.antt =====
-- What is routed to WARP without an outbound of that name.
use rxcore.Prelude.{
  ℕ, ◌≡◌, refl, List, Option, none, some, Bool, true, false, ◌&&◌, ◌==◌, if◌then◌else◌,
}
use rxcore.Text.{Str}
use rxcore.Text.Ip.{parse_ip}
use rxcore.Router.{ClientRouteMode, RouteModeTables, warp, resolve_route}
use rxcore.Router.Match.{Crates}
use rxcore.Dispatch.{
  OutboundConfig, Outcome, freedom_outbound, udp_outbound, handled, closed, warp_proxy, is_ipv6,
  is_warp_allowed, find_outbound, with_tag, dispatch_connection,
}

module _ {F V : Type 0} where
  abbrev pub through_warp : Bool → Outcome F V
  through_warp is_udp =
      if is_udp
      then handled (udp_outbound none none)
      else handled (freedom_outbound (some warp_proxy) none)

  with_tag-warp :
      (health : ℕ) (outbounds : List (OutboundConfig F V)) (is_udp : Bool)
      → find_outbound warp outbounds ≡ none
      → with_tag health outbounds is_udp (some warp)
        ≡ (if is_warp_allowed health then through_warp is_udp else closed)
  unfolding with_tag
  with_tag-warp health outbounds true e = rw e refl
  with_tag-warp health outbounds false e = rw e refl

-- What the router sends to WARP, where no outbound has that name, ends in silence while WARP is down
-- or its circuit is open; else TCP goes through the proxy on port 40000, but UDP through no proxy.
pub dispatch_connection-warp :
    {F V : Type 0} (crates : Crates) (ipv4_only : Bool) (mode : ClientRouteMode) (dest_addr : Str)
    (dest_port : ℕ) (inbound_tag : Str) (sni : Option Str) (tables : RouteModeTables) (health : ℕ)
    (outbounds : List (OutboundConfig F V)) (cmd : ℕ)
    → ipv4_only && is_ipv6 (parse_ip dest_addr) ≡ false
    → resolve_route crates mode dest_addr dest_port inbound_tag sni tables ≡ some warp
    → find_outbound warp outbounds ≡ none
    → dispatch_connection crates ipv4_only mode dest_addr dest_port inbound_tag sni tables health
        outbounds cmd
      ≡ (if is_warp_allowed health then through_warp (cmd == 2) else closed)
unfolding dispatch_connection
dispatch_connection-warp crates ipv4_only mode dest_addr dest_port inbound_tag sni tables health
      outbounds cmd v r f =
    rw (v, r) (with_tag-warp health outbounds (cmd == 2) f)
