-- ===== src/Quota/Account.antt =====
-- What a user may still do: `UserStats`, `authenticate_client`, `record_rx`, `record_tx` and
-- `record_rx_stats_only` of target_core/src/state.rs, for one user and one connection. The clock is
-- an argument.
use rxcore.Prelude.{
  ℕ, zero, suc, ◌+◌, ◌-◌, ◌%◌, ◌^◌, ◌≤◌, ◌<◌, Option, none, some, Bool, true, false, arith,
  if◌then◌else◌, ◌&&◌, not, ltb, ◌*◌, ◌/◌, ◌↔◌, ◌⊎◌, inl, inr,
}
pub mod Limits
use mathlib.Core.Option
use rxcore.Prelude.Int.{ℤ, pos, negsuc, ◌-ℤ◌, ltb_ℤ, ◌≤ℤ◌}
use rxcore.Prelude.Words.{to_i64, wrap_i64, sub_i64, add_u64}

-- The fields of `UserStats` that the accounting reads and writes.
pub record UserStats : Type 0 where
  pub expiry_time : ℤ
  pub speed_limit : ℕ
  pub remaining_bytes : ℤ
  pub rx : ℕ
  pub tx : ℕ

-- The user, if known; the byte counter of the connection, if it is registered; the dirty flag.
pub record Ledger : Type 0 where
  pub user : Option UserStats
  pub connection_rx : Option ℕ
  pub connection_tx : Option ℕ
  pub dirty : Bool

abbrev is_unlimited : ℤ → Bool
is_unlimited (negsuc zero) = true
is_unlimited _ = false

-- The two checks of `authenticate_client`: not expired, and unlimited or something left.
unfoldable pub may_connect : ℤ → ℤ → ℤ → Bool
may_connect expiry remaining now =
    if ltb_ℤ (pos 0) expiry && ltb_ℤ expiry now
    then false
    else if not (is_unlimited remaining) && not (ltb_ℤ (pos 0) remaining)
    then false
    else true

-- `authenticate_client` for the entry that the table holds for an id.
unfoldable pub authenticate_client : Option UserStats → ℤ → Option UserStats
unfolding may_connect
authenticate_client none now = none
authenticate_client (some user) now =
    if may_connect user.expiry_time user.remaining_bytes now then some user else none

-- `get_user_speed_limit`, with the wrap-around of the u64 product.
unfoldable pub get_user_speed_limit : Option UserStats → Option ℕ
get_user_speed_limit none = none
get_user_speed_limit (some user) =
    let limit = user.speed_limit in
    if ltb 0 limit then some (limit * 1000000 % 2 ^ 64 / 8) else none

charge : ℤ → ℕ → ℤ
charge remaining bytes =
    if is_unlimited remaining then remaining else sub_i64 remaining (to_i64 bytes)

charge_rx : ℕ → UserStats → UserStats
charge_rx bytes u = record u {
  rx = add_u64 u.rx bytes;
  remaining_bytes = charge u.remaining_bytes bytes;
}

charge_tx : ℕ → UserStats → UserStats
charge_tx bytes u = record u {
  tx = add_u64 u.tx bytes;
  remaining_bytes = charge u.remaining_bytes bytes;
}

count_rx : ℕ → UserStats → UserStats
count_rx bytes u = record u { rx = add_u64 u.rx bytes }

count_tx : ℕ → UserStats → UserStats
count_tx bytes u = record u { tx = add_u64 u.tx bytes }

abbrev count : ℕ → ℕ → ℕ
count bytes n = add_u64 n bytes

unfoldable pub record_rx : Ledger → ℕ → Ledger
unfolding charge_rx charge
record_rx l bytes = record l {
  user = Option.map (charge_rx bytes) l.user;
  connection_rx = Option.map (count bytes) l.connection_rx;
  dirty = true;
}

unfoldable pub record_tx : Ledger → ℕ → Ledger
unfolding charge_tx charge
record_tx l bytes = record l {
  user = Option.map (charge_tx bytes) l.user;
  connection_tx = Option.map (count bytes) l.connection_tx;
  dirty = true;
}

-- These two leave the quota alone.
unfoldable pub record_rx_stats_only : Ledger → ℕ → Ledger
unfolding count_rx
record_rx_stats_only l bytes = record l {
  user = Option.map (count_rx bytes) l.user;
  connection_rx = Option.map (count bytes) l.connection_rx;
  dirty = true;
}

unfoldable pub record_tx_stats_only : Ledger → ℕ → Ledger
unfolding count_tx
record_tx_stats_only l bytes = record l {
  user = Option.map (count_tx bytes) l.user;
  connection_tx = Option.map (count bytes) l.connection_tx;
  dirty = true;
}
