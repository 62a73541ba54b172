-- ===== src/Dispatch/Udp.antt =====
-- A blackhole and UDP.
use rxcore.Prelude.{
  ℕ, ◌≡◌, List, Option, none, some, Bool, true, false, ◌&&◌, Bool-cases, inl, inr, refl, ap,
}
use rxcore.Prelude.Loops.{eq_bytes, eq_bytes→eq}
use rxcore.Text.{Str}
use rxcore.Text.Ip.{parse_ip}
use rxcore.Router.{ClientRouteMode, RouteModeTables, warp, resolve_route}
use rxcore.Router.Match.{Crates}
use rxcore.Dispatch.{
  OutboundConfig, Outcome, blackhole_outbound, handled, vless_name, is_ipv6, is_warp_allowed,
  vless_handler, find_outbound, or_builtin, choose_handler, with_tag, dispatch_connection,
}

module _ {F V : Type 0} where
  abbrev is_blackhole : Outcome F V → Bool
  is_blackhole (handled blackhole_outbound) = true
  is_blackhole _ = false

  vless_lem :
      (c : OutboundConfig F V) (settings : Option V)
      → is_blackhole (vless_handler settings true c.outbound_proxy c.bind_address) ≡ false
  vless_lem c none = refl
  vless_lem c (some settings) = refl

  choose_handler_lem :
      (config : Option (OutboundConfig F V)) → is_blackhole (choose_handler config true) ≡ false
  unfolding choose_handler
  choose_handler_lem none = refl
  choose_handler_lem (some c) = elim (Bool-cases (eq_bytes c.protocol vless_name)) [
    | inl e ↦ rw (eq_bytes→eq c.protocol vless_name e) (vless_lem c c.vless)
    | inr e ↦ rw e refl
  ]

  with_tag_lem :
      (health : ℕ) (outbounds : List (OutboundConfig F V)) (tag : Option Str)
      → is_blackhole (with_tag health outbounds true tag) ≡ false
  unfolding with_tag
  with_tag_lem health outbounds none = refl
  with_tag_lem health outbounds (some tag) = elim (Bool-cases (eq_bytes tag warp)) [
    | inl e ↦ rw e (elim (Bool-cases (is_warp_allowed health)) [
      | inl f ↦ rw f (choose_handler_lem (or_builtin (find_outbound tag outbounds)))
      | inr f ↦ rw f refl
    ])
    | inr e ↦ rw e (choose_handler_lem (find_outbound tag outbounds))
  ]

  dispatch_connection_lem :
      (crates : Crates) (ipv4_only : Bool) (mode : ClientRouteMode) (dest_addr : Str)
      (dest_port : ℕ) (inbound_tag : Str) (sni : Option Str) (tables : RouteModeTables) (health : ℕ)
      (outbounds : List (OutboundConfig F V))
      → is_blackhole (
          dispatch_connection crates ipv4_only mode dest_addr dest_port inbound_tag sni tables
            health outbounds 2)
        ≡ false
  unfolding dispatch_connection
  dispatch_connection_lem crates ipv4_only mode dest_addr dest_port inbound_tag sni tables health
        outbounds =
      elim (Bool-cases (ipv4_only && is_ipv6 (parse_ip dest_addr))) [
        | inl e ↦ rw e refl
        | inr e ↦ rw e (
            with_tag_lem health outbounds
              (resolve_route crates mode dest_addr dest_port inbound_tag sni tables))
      ]

-- However it is routed, UDP (the command 2) is never given to a blackhole, not even where the outbound
-- of its route is one.
pub dispatch_connection-udp :
    {F V : Type 0} (crates : Crates) (ipv4_only : Bool) (mode : ClientRouteMode) (dest_addr : Str)
    (dest_port : ℕ) (inbound_tag : Str) (sni : Option Str) (tables : RouteModeTables) (health : ℕ)
    (outbounds : List (OutboundConfig F V))
    → ¬ (
        dispatch_connection crates ipv4_only mode dest_addr dest_port inbound_tag sni tables health
          outbounds 2
        ≡ handled blackhole_outbound)
dispatch_connection-udp crates ipv4_only mode dest_addr dest_port inbound_tag sni tables health
      outbounds h =
    cc (
      ap is_blackhole h,
      dispatch_connection_lem crates ipv4_only mode dest_addr dest_port inbound_tag sni tables
          health outbounds,
    )
