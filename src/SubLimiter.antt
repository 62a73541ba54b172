-- ===== src/SubLimiter.antt =====
-- `check_sub_rate_limit` of target_core/src/api/mod.rs. Time is counted in seconds, an address is its
-- octets.
pub mod Bound
pub mod Client
pub mod Granted
pub mod Sliding
use rxcore.Prelude.{
  ℕ, ◌+◌, ◌-◌, List, [], ◌∷◌, ◌++◌, Option, none, some, Bool, true, false, ◌||◌, leb, ltb, length,
  if◌then◌else◌,
}
use rxcore.Prelude.Loops.{retain, any}
use rxcore.Prelude.Window.{recent}
use rxcore.Prelude.Assoc.{Map, lookup, insert, bytes_eq}
use rxcore.Login.{Ip, or_empty}

-- `map.retain`: each entry without what is too old, and no entry that is then empty.
abbrev pub keep_entry : Ip → List ℕ → Map Ip (List ℕ) → Map Ip (List ℕ)
keep_entry ip [] rest = rest
keep_entry ip (t ∷ ts) rest = (ip, t ∷ ts) ∷ rest

unfoldable pub purge : ℕ → Map Ip (List ℕ) → Map Ip (List ℕ)
purge now [] = []
purge now ((ip, v) ∷ m) = keep_entry ip (retain (recent 60 now) v) (purge now m)

unfoldable pub check_entry : ℕ → Ip → List ℕ → Map Ip (List ℕ) → Bool × Map Ip (List ℕ)
unfolding insert
check_entry now ip entry m =
    if leb 10 (length entry)
    then (false, insert ip entry m)
    else (true, insert ip (entry ++ now ∷ []) m)

unfoldable pub purge_if_large : ℕ → Map Ip (List ℕ) → Map Ip (List ℕ)
unfolding purge
purge_if_large now m = if ltb 1000 (length m) then purge now m else m

unfoldable pub check_sub_rate_limit : ℕ → Ip → Map Ip (List ℕ) → Bool × Map Ip (List ℕ)
unfolding purge_if_large lookup check_entry
check_sub_rate_limit now ip m =
    let map = purge_if_large now m in
    check_entry now ip (retain (recent 60 now) (or_empty (lookup ip map))) map
