-- ===== src/Tests/Packet.antt =====
-- The checksums at concrete inputs.
use rxcore.Prelude.{
  ℕ, ◌≡◌, refl, List, [], ◌∷◌, Bool, true, ◌&&◌, ltb, ltb→lt, take, Bool-cases, inl, inr,
}
use rxcore.Prelude.Words.{IsByte}
use rxcore.Prelude.Loops.{All}
use rxcore.Packet.{fix_ipv4_checksums}

are_bytes : List ℕ → Bool
are_bytes [] = true
are_bytes (b ∷ bs) = ltb b 256 && are_bytes bs

are_bytes-All : (l : List ℕ) → are_bytes l ≡ true → All IsByte l
unfolding are_bytes
are_bytes-All [] h = tt
are_bytes-All (b ∷ bs) h = elim (Bool-cases (ltb b 256)) [
  | inl e ↦ (ltb→lt b 256 e, are_bytes-All bs (rw e at h))
  | inr e ↦ absurd (cc (rw e at h))
]

-- A UDP packet from 10.0.0.1 to 10.0.0.2 with no data and a wrong checksum.
abbrev packet : List ℕ
packet =
    69 ∷ 0 ∷ 0 ∷ 28 ∷ 0 ∷ 1 ∷ 0 ∷ 0 ∷ 64 ∷ 17 ∷ 9 ∷ 9 ∷ 10 ∷ 0 ∷ 0 ∷ 1 ∷ 10 ∷ 0 ∷ 0 ∷ 2 ∷ 0 ∷ 53 ∷ 0
    ∷ 53 ∷ 0 ∷ 8 ∷ 0 ∷ 0 ∷ []

packet_bytes : are_bytes packet ≡ true
unfolding are_bytes
packet_bytes = refl

fixed_header :
    take 12 (fix_ipv4_checksums packet) ≡ 69 ∷ 0 ∷ 0 ∷ 28 ∷ 0 ∷ 1 ∷ 0 ∷ 0 ∷ 64 ∷ 17 ∷ 102 ∷ 206 ∷ []
unfolding fix_ipv4_checksums
fixed_header = refl
