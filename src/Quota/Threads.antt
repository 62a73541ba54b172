-- ===== src/Quota/Threads.antt =====
-- `reserve_quota` run by many connections of one user at a time: every interleaving of the loads
-- and exchanges on the shared counter.
use rxcore.Prelude.{
  ℕ, zero, suc, ◌+◌, ◌-◌, ◌≡◌, refl, min, List, [], ◌∷◌, some, arith, get_elem?, set, subst,
}
use rxcore.Prelude.Loops.{All}
use rxcore.Prelude.Int.{ℤ, pos, negsuc, ◌-ℤ◌}
use rxcore.Quota.{Attempt, reserve_attempt}

-- A call of `reserve_quota`: before its load, holding the value that it last saw, or returned.
pub data Thread : Type 0 where
  ready : (requested : ℕ) → Thread
  holding : (requested : ℕ) (current : ℤ) → Thread
  returned : (granted : ℕ) → Thread

pub record System : Type 0 where
  pub remaining : ℤ
  pub threads : List Thread

-- One atomic operation of thread `i`. A weak exchange may fail for no reason, so `cas_fails` has
-- no premise on the counter.
pub data Step (s t : System) : Type 0 where
  loads :
      (i requested : ℕ)
      → get_elem? s.threads i ≡ some (ready requested)
      → t ≡ record s { threads = set s.threads i (holding requested s.remaining) }
      → Step s t
  returns :
      (i requested granted : ℕ) (current : ℤ)
      → get_elem? s.threads i ≡ some (holding requested current)
      → reserve_attempt current requested ≡ Attempt.return granted
      → t ≡ record s { threads = set s.threads i (returned granted) }
      → Step s t
  cas_succeeds :
      (i requested granted : ℕ) (new : ℤ)
      → get_elem? s.threads i ≡ some (holding requested s.remaining)
      → reserve_attempt s.remaining requested ≡ Attempt.exchange granted new
      → t ≡ record { remaining = new; threads = set s.threads i (returned granted) }
      → Step s t
  cas_fails :
      (i requested granted : ℕ) (current new : ℤ)
      → get_elem? s.threads i ≡ some (holding requested current)
      → reserve_attempt current requested ≡ Attempt.exchange granted new
      → t ≡ record s { threads = set s.threads i (holding requested s.remaining) }
      → Step s t

pub data Reach (s : System) : System → Type 0 where
  here : Reach s s
  next : {t u : System} → Reach s t → Step t u → Reach s u

abbrev pub granted_by : Thread → ℕ
granted_by (ready requested) = 0
granted_by (holding requested current) = 0
granted_by (returned granted) = granted

-- The bytes that all calls together have been granted.
abbrev pub total_granted : List Thread → ℕ
total_granted [] = 0
total_granted (th ∷ ths) = granted_by th + total_granted ths

total_granted-set :
    (ths : List Thread) (i : ℕ) (old new : Thread)
    → get_elem? ths i ≡ some old
    → total_granted (set ths i new) + granted_by old ≡ total_granted ths + granted_by new
total_granted-set [] i old new h = cc
total_granted-set (th ∷ ths) zero old new h = ground arith
total_granted-set (th ∷ ths) (suc i) old new h = ground (arith, total_granted-set ths i old new h)

-- A value that a thread holds was once the value of the counter, and so not negative.
abbrev pub HoldsNat : Thread → Type 0
HoldsNat (holding requested (pos n)) = Unit
HoldsNat (holding requested (negsuc n)) = ⊥
HoldsNat _ = Unit

All-set :
    (ths : List Thread) (i : ℕ) (th : Thread)
    → All HoldsNat ths
    → HoldsNat th
    → All HoldsNat (set ths i th)
All-set [] i th a h = tt
All-set (x ∷ ths) zero th a h = (h, a.1)
All-set (x ∷ ths) (suc i) th a h = (a.0, All-set ths i th a.1 h)

get-HoldsNat :
    (ths : List Thread) (i : ℕ) (th : Thread)
    → All HoldsNat ths
    → get_elem? ths i ≡ some th
    → HoldsNat th
get-HoldsNat [] i th a e = cc
get-HoldsNat (x ∷ ths) zero th a e = let same : x ≡ th = cc in subst HoldsNat same a.0
get-HoldsNat (x ∷ ths) (suc i) th a e = get-HoldsNat ths i th a.1 e

-- The counter is not negative, and with what has been granted it makes up the quota.
pub record IsFair (quota : ℕ) (s : System) : Type 0 where
  pub left : ℕ
  pub counter : s.remaining ≡ pos left
  pub conserved : left + total_granted s.threads ≡ quota
  pub holdings : All HoldsNat s.threads

-- What an attempt on a counter of `n` bytes can do.
attempt_return :
    (current : ℤ) (requested granted : ℕ)
    → HoldsNat (holding requested current)
    → reserve_attempt current requested ≡ Attempt.return granted
    → granted ≡ 0
unfolding reserve_attempt
attempt_return (pos zero) requested granted h e = ground arith
attempt_return (pos (suc n)) requested granted h e = cc
attempt_return (negsuc n) requested granted h e = absurd h

attempt_exchange :
    (n requested granted : ℕ) (new : ℤ)
    → reserve_attempt (pos n) requested ≡ Attempt.exchange granted new
    → (m : ℕ) × (new ≡ pos m) × (m + granted ≡ n)
unfolding reserve_attempt ◌-ℤ◌
attempt_exchange zero requested granted new e = cc
attempt_exchange (suc n) requested granted new e =
    (suc n - min requested (suc n), ground arith, ground arith)

-- Every atomic operation keeps the counter not negative and the quota conserved.
pub Step-IsFair : (quota : ℕ) {s t : System} → Step s t → IsFair quota s → IsFair quota t
Step-IsFair quota {s = s} (loads i r at e) f = rw e (record {
  left = f.left;
  counter = f.counter;
  conserved =
      omega
        (arith, total_granted-set s.threads i (ready r) (holding r s.remaining) at, f.conserved);
  holdings = All-set s.threads i _ f.holdings (rw f.counter tt);
})
Step-IsFair quota {s = s} (returns i r g c at a e) f = rw e (record {
  left = f.left;
  counter = f.counter;
  conserved = omega (
    arith,
    total_granted-set s.threads i (holding r c) (returned g) at,
    f.conserved,
    attempt_return c r g (get-HoldsNat s.threads i _ f.holdings at) a,
  );
  holdings = All-set s.threads i _ f.holdings tt;
})
Step-IsFair quota {s = s} (cas_succeeds i r g new at a e) f =
    let (m, is, sum) = attempt_exchange f.left r g new (rw f.counter at a) in
    rw e (record {
      left = m;
      counter = is;
      conserved = omega (
        arith,
        total_granted-set s.threads i (holding r s.remaining) (returned g) at,
        f.conserved,
        sum,
      );
      holdings = All-set s.threads i _ f.holdings tt;
    })
Step-IsFair quota {s = s} (cas_fails i r g c new at a e) f = rw e (record {
  left = f.left;
  counter = f.counter;
  conserved =
      omega (
        arith,
        total_granted-set s.threads i (holding r c) (holding r s.remaining) at,
        f.conserved,
      );
  holdings = All-set s.threads i _ f.holdings (rw f.counter tt);
})

Reach-IsFair : (quota : ℕ) {s t : System} → IsFair quota s → Reach s t → IsFair quota t
Reach-IsFair quota f here = f
Reach-IsFair quota f (next r st) = Step-IsFair quota st (Reach-IsFair quota f r)

-- The calls that start together, one for each requested size.
abbrev pub starting : List ℕ → List Thread
starting [] = []
starting (requested ∷ rest) = ready requested ∷ starting rest

total_granted-starting : (rs : List ℕ) → total_granted (starting rs) ≡ 0
total_granted-starting [] = refl
total_granted-starting (r ∷ rs) = omega (arith, total_granted-starting rs)

All-starting : (rs : List ℕ) → All HoldsNat (starting rs)
All-starting [] = tt
All-starting (r ∷ rs) = (tt, All-starting rs)

-- When any number of calls of `reserve_quota` run together on a counter that starts at `quota`, then
-- after any interleaving of their loads and exchanges the counter is not negative, and it holds
-- exactly the quota less what the calls have been granted in total.
pub reserve_quota_conserves :
    (quota : ℕ) (requests : List ℕ) (t : System)
    → Reach (record { remaining = pos quota; threads = starting requests }) t
    → (left : ℕ) × (t.remaining ≡ pos left) × (left + total_granted t.threads ≡ quota)
reserve_quota_conserves quota requests t r = (f.left, f.counter, f.conserved)
  where
    f : IsFair quota t
    f =
        Reach-IsFair quota
          (record {
            left = quota;
            counter = refl;
            conserved = omega (arith, total_granted-starting requests);
            holdings = All-starting requests;
          })
          r
