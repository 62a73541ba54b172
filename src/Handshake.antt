-- ===== src/Handshake.antt =====
-- `accept_reality_bounded` of target_core/src/inbound/mod.rs and its `HandshakeGuard`: how many
-- handshakes run at once, over all and for one address. An address is its octets, 4 or 16 of them.
pub mod Steps
pub mod Counts
pub mod Balance
use rxcore.Prelude.{
  ℕ, zero, suc, ◌+◌, ◌-◌, List, [], ◌∷◌, ◌++◌, Option, none, some, Bool, true, false, ◌&&◌, ◌||◌,
  leb, ltb, ◌==◌, length, take, drop, replicate, if◌then◌else◌,
}
use rxcore.Prelude.Loops.{eq_bytes}
use rxcore.Prelude.Assoc.{Map, lookup, insert, remove, bytes_eq}

abbrev pub Ip : Type 0
Ip = List ℕ

-- `Ipv6Addr::to_ipv4`: the last four octets of an IPv4-compatible or IPv4-mapped address.
unfoldable pub canonical_ip : Ip → Ip
unfolding eq_bytes
canonical_ip octets =
    if (length octets == 16)
      && (eq_bytes (take 12 octets) (replicate 12 0)
          || eq_bytes (take 12 octets) (replicate 10 0 ++ replicate 2 255))
    then drop 12 octets
    else octets

abbrev pub Active : Type 0
Active = Map Ip ℕ

pub data Entry : Type 0 where
  entered : Active → Entry
  ip_limit_exceeded : Entry
  map_full : Entry

-- `map.get(&ip).cloned().unwrap_or(0)`.
abbrev pub count_or_zero : Option ℕ → ℕ
count_or_zero none = 0
count_or_zero (some n) = n

-- The block that holds the lock of the map.
unfoldable pub enter : Ip → Active → Entry
unfolding lookup insert
enter ip active =
    let current_cnt = count_or_zero (lookup ip active) in
    if leb 2 current_cnt
    then ip_limit_exceeded
    else if leb 1000 (length active) && (current_cnt == 0)
    then map_full
    else entered (insert ip (current_cnt + 1) active)

-- `HandshakeGuard::drop`.
unfoldable pub leave : Ip → Active → Active
unfolding lookup insert remove
leave ip active = elim (lookup ip active) [
  | none ↦ active
  | some cnt ↦ if ltb 1 cnt then insert ip (cnt - 1) active else remove ip active
]
