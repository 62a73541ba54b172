-- ===== src/Quota/Reserve.antt =====
-- `reserve_quota` and `reserve_udp_datagram` under every sequence of failing exchanges.
use rxcore.Prelude.{
  ℕ, zero, suc, ◌+◌, ◌-◌, ◌≤◌, ◌<◌, ◌≡◌, refl, ◌⊎◌, inl, inr, min, List, [], ◌∷◌, Option, none,
  some, Bool, true, false, arith,
}
use rxcore.Prelude.Int.{ℤ, pos, negsuc, ◌-ℤ◌}
use rxcore.Quota.{
  Grant, DatagramAttempt, reserve_attempt, reserve_quota, datagram_attempt, reserve_udp_datagram,
}

-- What a grant of `requested` bytes means for the counter.
abbrev pub Settled : ℕ → Grant → Type 0
Settled requested g =
    (g.granted ≤ requested)
    × (((g.exchanged ≡ none) × ((g.granted ≡ 0) ⊎ (g.granted ≡ requested)))
        ⊎ ((before after : ℕ) × (g.exchanged ≡ some (pos before, pos after))
            × (before ≡ after + g.granted)))

-- However often the exchange fails, `reserve_quota` grants no more than was asked for, and either
-- leaves the counter alone (it granted nothing, or found it unlimited) or takes from a counter that
-- is not negative exactly what it granted, which leaves it not negative.
pub reserve_quota-Settled :
    (failures : List ℤ) (current : ℤ) (requested : ℕ)
    → Settled requested (reserve_quota failures current requested)
unfolding reserve_quota reserve_attempt ◌-ℤ◌
reserve_quota-Settled [] (negsuc zero) requested = (omega arith, inl (refl, inr refl))
reserve_quota-Settled [] (negsuc (suc n)) requested = (omega arith, inl (refl, inl refl))
reserve_quota-Settled [] (pos zero) requested = (omega arith, inl (refl, inl refl))
reserve_quota-Settled [] (pos (suc n)) requested =
    (omega arith, inr (suc n, suc n - min requested (suc n), ground arith, omega arith))
reserve_quota-Settled (a ∷ failures) (negsuc zero) requested = (omega arith, inl (refl, inr refl))
reserve_quota-Settled (a ∷ failures) (negsuc (suc n)) requested =
    (omega arith, inl (refl, inl refl))
reserve_quota-Settled (a ∷ failures) (pos zero) requested = (omega arith, inl (refl, inl refl))
reserve_quota-Settled (a ∷ failures) (pos (suc n)) requested =
    reserve_quota-Settled failures a requested

-- What the result of `reserve_udp_datagram` means for the counter.
abbrev pub DatagramSettled : ℕ → Bool × Option (ℤ × ℤ) → Type 0
DatagramSettled len (false, exchanged) = exchanged ≡ none
DatagramSettled len (true, exchanged) =
    (exchanged ≡ none)
    ⊎ ((before after : ℕ) × (exchanged ≡ some (pos before, pos after)) × (before ≡ after + len))

datagram_attempt_cases :
    (n len : ℕ)
    → ((n < len) × (datagram_attempt (pos n) len ≡ DatagramAttempt.return false))
      ⊎ ((len ≤ n) × (datagram_attempt (pos n) len ≡ DatagramAttempt.exchange (pos (n - len))))
unfolding datagram_attempt ◌-ℤ◌
datagram_attempt_cases n len = ground arith

-- A refused datagram leaves the counter alone; an accepted one either found it unlimited or took
-- its whole length from a counter that held as much.
pub reserve_udp_datagram-Settled :
    (failures : List ℤ) (current : ℤ) (len : ℕ)
    → DatagramSettled len (reserve_udp_datagram failures current len)
unfolding reserve_udp_datagram
reserve_udp_datagram-Settled [] (negsuc zero) len = unfold datagram_attempt in inl refl
reserve_udp_datagram-Settled [] (negsuc (suc n)) len = unfold datagram_attempt in refl
reserve_udp_datagram-Settled [] (pos n) len = elim (datagram_attempt_cases n len) [
  | inl (_, e) ↦ rw (e, reserve_udp_datagram) refl
  | inr (h, e) ↦ rw (e, reserve_udp_datagram) (inr (n, n - len, refl, omega arith))
]
reserve_udp_datagram-Settled (a ∷ failures) (negsuc zero) len = unfold datagram_attempt in inl refl
reserve_udp_datagram-Settled (a ∷ failures) (negsuc (suc n)) len = unfold datagram_attempt in refl
reserve_udp_datagram-Settled (a ∷ failures) (pos n) len = elim (datagram_attempt_cases n len) [
  | inl (_, e) ↦ rw (e, reserve_udp_datagram) refl
  | inr (h, e) ↦ rw (e, reserve_udp_datagram) (reserve_udp_datagram-Settled failures a len)
]
