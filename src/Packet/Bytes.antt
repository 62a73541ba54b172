-- ===== src/Packet/Bytes.antt =====
-- Bytes put into a packet.
use rxcore.Prelude.{
  ℕ, zero, suc, ◌+◌, ◌*◌, ◌/◌, ◌%◌, ◌≤◌, ◌≡◌, refl, ap, ◌∙◌, List, [], ◌∷◌, ◌++◌, length,
  length-take, take, set, arith,
}
use rxcore.Prelude.Words.{IsByte, u16_from_be_bytes}
use rxcore.Prelude.Loops.{All}
use rxcore.Packet.{put16}
use rxcore.Packet.Sums.{total}

-- Ten bytes, two more, and the rest.
pub put16_middle :
    (pre post : List ℕ) (x y i v : ℕ)
    → i ≡ length pre
    → put16 i v (pre ++ (x ∷ y ∷ post)) ≡ pre ++ ((v / 256 % 256) ∷ (v % 256) ∷ post)
unfolding put16
put16_middle [] post x y zero v h = refl
put16_middle [] post x y (suc i) v h = absurd (omega arith)
put16_middle (p ∷ pre) post x y zero v h = absurd (omega arith)
put16_middle (p ∷ pre) post x y (suc i) v h =
    ap (◌∷◌ p) (put16_middle pre post x y i v (omega arith))

-- A word in an even place adds what it is.
pub total_middle :
    (pre post : List ℕ) (x y k : ℕ)
    → length pre ≡ 2 * k
    → total (pre ++ (x ∷ y ∷ post)) ≡ total (pre ++ (0 ∷ 0 ∷ post)) + u16_from_be_bytes x y
total_middle [] post x y k h = omega arith
total_middle (a ∷ []) post x y k h = absurd (omega arith)
total_middle (a ∷ b ∷ pre) post x y zero h = absurd (omega arith)
total_middle (a ∷ b ∷ pre) post x y (suc k) h =
    omega (arith, total_middle pre post x y k (omega arith))

pub All-middle :
    (pre post : List ℕ) (x y x' y' : ℕ)
    → All IsByte (pre ++ (x ∷ y ∷ post))
    → IsByte x'
    → IsByte y'
    → All IsByte (pre ++ (x' ∷ y' ∷ post))
All-middle [] post x y x' y' a h k = (h, (k, a.1.1))
All-middle (p ∷ pre) post x y x' y' a h k = (a.0, All-middle pre post x y x' y' a.1 h k)

pub All-take : (n : ℕ) (l : List ℕ) → All IsByte l → All IsByte (take n l)
All-take zero l a = tt
All-take (suc n) [] a = tt
All-take (suc n) (x ∷ l) a = (a.0, All-take n l a.1)

take-set : (n : ℕ) (l : List ℕ) (i v : ℕ) → take n (set l i v) ≡ set (take n l) i v
take-set zero l i v = refl
take-set (suc n) [] i v = refl
take-set (suc n) (x ∷ l) zero v = refl
take-set (suc n) (x ∷ l) (suc i) v = ap (◌∷◌ x) (take-set n l i v)

set_beyond : (l : List ℕ) (i v : ℕ) → length l ≤ i → set l i v ≡ l
set_beyond [] i v h = refl
set_beyond (x ∷ l) zero v h = absurd (omega arith)
set_beyond (x ∷ l) (suc i) v h = ap (◌∷◌ x) (set_beyond l i v (omega arith))

pub take-put16 : (n i v : ℕ) (l : List ℕ) → take n (put16 i v l) ≡ put16 i v (take n l)
unfolding put16
take-put16 n i v l =
    take-set n (set l i (v / 256 % 256)) (suc i) (v % 256)
    ∙ ap (λ k. set k (suc i) (v % 256)) (take-set n l i (v / 256 % 256))

pub take_before : (n i v : ℕ) (l : List ℕ) → n ≤ i → take n (put16 i v l) ≡ take n l
unfolding put16
take_before n i v l h =
    let short = length-take n l in
    take-put16 n i v l
    ∙ (ap (λ k. set k (suc i) (v % 256))
          (set_beyond (take n l) i (v / 256 % 256) (omega (arith, short, h)))
        ∙ set_beyond (take n l) (suc i) (v % 256) (omega (arith, short, h)))

pub two_more :
    (l : List ℕ) → 2 ≤ length l → (x : ℕ) × (y : ℕ) × (post : List ℕ) × (l ≡ x ∷ y ∷ post)
two_more [] h = absurd (omega arith)
two_more (x ∷ []) h = absurd (omega arith)
two_more (x ∷ y ∷ post) h = (x, y, post, refl)
