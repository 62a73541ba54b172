-- ===== src/Quota/Account/Limits.antt =====
-- Who is let in, and what the recorders do to a limit.
use rxcore.Prelude.{ℕ, zero, suc, ◌+◌, ◌^◌, ◌<◌, ◌≡◌, refl, some, true, arith, ◌↔◌, ◌⊎◌, inl}
use rxcore.Prelude.Int.{ℤ, pos, negsuc, ◌-ℤ◌, ◌≤ℤ◌}
use rxcore.Prelude.Words.{to_i64, wrap_i64, sub_i64}
use rxcore.Quota.Account.{
  UserStats, Ledger, may_connect, authenticate_client, charge, charge_rx, record_rx,
}

-- Not expired, and unlimited or with bytes left.
abbrev pub MayConnect : ℤ → ℤ → ℤ → Type 0
MayConnect expiry remaining now =
    ((expiry ≤ℤ pos 0) ⊎ (now ≤ℤ expiry)) × ((remaining ≡ negsuc 0) ⊎ (pos 1 ≤ℤ remaining))

may_connect_sound : (e r now : ℤ) → may_connect e r now ≡ true → MayConnect e r now
unfolding may_connect
may_connect_sound e (pos n) now h = ground arith
may_connect_sound e (negsuc zero) now h = ground arith
may_connect_sound e (negsuc (suc n)) now h = ground arith

may_connect_complete : (e r now : ℤ) → MayConnect e r now → may_connect e r now ≡ true
unfolding may_connect
may_connect_complete e (pos n) now h = ground arith
may_connect_complete e (negsuc zero) now h = ground arith
may_connect_complete e (negsuc (suc n)) now h = ground arith

-- `authenticate_client` finds a known user exactly when the user has no expiry date or has not
-- passed it, and has no limit or bytes left.
pub authenticate_client_iff :
    (user : UserStats) (now : ℤ)
    → (authenticate_client (some user) now ≡ some user)
      ↔ MayConnect user.expiry_time user.remaining_bytes now
unfolding authenticate_client
authenticate_client_iff user now =
    (λ h. may_connect_sound e r now (ground arith), λ h. rw (may_connect_complete e r now h) refl)
  where
    open user use {expiry_time as e, remaining_bytes as r}

charge_past : (n : ℕ) → n + 1 < 2 ^ 63 → charge (pos n) (n + 1) ≡ negsuc 0
unfolding charge sub_i64 wrap_i64 to_i64 ◌-ℤ◌
charge_past n h = ground arith

charge_unlimited : (bytes : ℕ) → charge (negsuc 0) bytes ≡ negsuc 0
unfolding charge
charge_unlimited bytes = refl

-- A user with n bytes left of whom n + 1 bytes are recorded becomes unlimited: the limit reads -1,
-- whatever is recorded afterwards leaves it so, and without an expiry date the user is always let in.
pub record_rx_unlimits :
    (l : Ledger) (user : UserStats) (n more : ℕ) (now : ℤ)
    → l.user ≡ some user
    → user.remaining_bytes ≡ pos n
    → n + 1 < 2 ^ 63
    → user.expiry_time ≤ℤ pos 0
    → (later : UserStats) × ((record_rx (record_rx l (n + 1)) more).user ≡ some later)
      × (later.remaining_bytes ≡ negsuc 0)
      × (authenticate_client (some later) now ≡ some later)
unfolding record_rx
record_rx_unlimits l user n more now e r h x =
    (later, rw e refl, unlimited, (authenticate_client_iff later now).1 (inl x, inl unlimited))
  where
    later : UserStats
    later = charge_rx more (charge_rx (n + 1) user)

    unlimited : later.remaining_bytes ≡ negsuc 0
    unlimited = rw (r, charge_past n h) (charge_unlimited more)
