-- ===== src/Handshake/Counts.antt =====
-- The map of counts through the entries and exits of handshakes.
use rxcore.Prelude.{
  ℕ, zero, suc, ◌+◌, ◌<◌, ◌≡◌, refl, sym, ap, ◌∙◌, List, [], ◌∷◌, ◌++◌, Option, none, some, Bool,
  true, false, ◌&&◌, ◌==◌, leb, length, arith, Bool-cases, inl, inr, if◌then◌else◌, leb-false,
}
use rxcore.Prelude.Loops.{eq_bytes, eq_bytes→eq, eq_bytes_refl}
use rxcore.Prelude.Assoc.{lookup, insert, remove, bytes_eq, lookup-insert, lookup-remove}
use rxcore.Handshake.{Ip, Active, entered, ip_limit_exceeded, map_full, enter, leave, count_or_zero}

-- How often an address stands in a list.
unfoldable pub count : Ip → List Ip → ℕ
unfolding eq_bytes
count ip [] = 0
count ip (g ∷ gs) = let rest = count ip gs in if eq_bytes g ip then suc rest else rest

abbrev pub as_count : ℕ → Option ℕ
as_count zero = none
as_count (suc n) = some (suc n)

-- The map holds the number of handshakes of each address, and no address without one.
abbrev pub Tracks : Active → List Ip → Type 0
Tracks active guards = (ip : Ip) → lookup ip active ≡ as_count (count ip guards)

pub count_middle :
    (j ip : Ip) (before after : List Ip)
    → count j (before ++ ip ∷ after)
      ≡ (if eq_bytes ip j then suc (count j (before ++ after)) else count j (before ++ after))
unfolding count
count_middle j ip [] after = refl
count_middle j ip (b ∷ before) after =
    step (eq_bytes b j) (eq_bytes ip j) _ (count j (before ++ after))
      (count_middle j ip before after)
  where
    step :
        (x y : Bool) (m n : ℕ)
        → m ≡ (if y then suc n else n)
        → (if x then suc m else m)
          ≡ (if y then suc (if x then suc n else n) else (if x then suc n else n))
    step x y m n h = ground arith

pub count_or_zero-as_count : (n : ℕ) → count_or_zero (as_count n) ≡ n
count_or_zero-as_count zero = refl
count_or_zero-as_count (suc n) = refl

if_entered :
    (b c : Bool) (new m : Active)
    → (if b then ip_limit_exceeded else if c then map_full else entered new) ≡ entered m
    → (b ≡ false) × (m ≡ new)
if_entered true c new m h = cc
if_entered false true new m h = cc
if_entered false false new m h = (refl, cc)

-- What it takes to enter.
pub enter-entered :
    (ip : Ip) (active m : Active)
    → enter ip active ≡ entered m
    → (count_or_zero (lookup ip active) < 2)
      × (m ≡ insert ip (count_or_zero (lookup ip active) + 1) active)
unfolding enter
enter-entered ip active m h =
    let c = count_or_zero (lookup ip active) in
    let (few, new) = if_entered (leb 2 c) (leb 1000 (length active) && (c == 0)) _ m h in
    (leb-false 2 c few, new)

pub Tracks-insert :
    (ip : Ip) (active : Active) (guards : List Ip)
    → Tracks active guards
    → Tracks (insert ip (count ip guards + 1) active) (ip ∷ guards)
unfolding count
Tracks-insert ip active guards t j =
    lookup-insert j ip (count ip guards + 1) active ∙ elim (Bool-cases (eq_bytes ip j)) [
      | inl e ↦ rw e (same (eq_bytes→eq ip j e))
      | inr e ↦ rw e (t j)
    ]
  where
    same : ip ≡ j → some (count ip guards + 1) ≡ some (suc (count j guards))
    same e = rw e (ap some (omega arith))

leave_last :
    (ip : Ip) (active : Active) → lookup ip active ≡ some 1 → leave ip active ≡ remove ip active
unfolding leave
leave_last ip active h = rw (h, leave) refl

leave_more :
    (ip : Ip) (active : Active) (n : ℕ)
    → lookup ip active ≡ some (suc (suc n))
    → leave ip active ≡ insert ip (suc n) active
unfolding leave
leave_more ip active n h = rw (h, leave) (ground arith)

pub Tracks-leave :
    (ip : Ip) (active : Active) (before after : List Ip)
    → Tracks active (before ++ ip ∷ after)
    → Tracks (leave ip active) (before ++ after)
Tracks-leave ip active before after t = by_count (count ip (before ++ after)) refl
  where
    here_count : count ip (before ++ ip ∷ after) ≡ suc (count ip (before ++ after))
    here_count = count_middle ip ip before after ∙ rw (eq_bytes_refl ip) refl

    found : lookup ip active ≡ some (suc (count ip (before ++ after)))
    found = t ip ∙ rw here_count refl

    other :
        (j : Ip) → eq_bytes ip j ≡ false → lookup j active ≡ as_count (count j (before ++ after))
    other j e = t j ∙ ap as_count (count_middle j ip before after ∙ rw e refl)

    by_count : (n : ℕ) → count ip (before ++ after) ≡ n → Tracks (leave ip active) (before ++ after)
    by_count zero h j = rw (leave_last ip active (found ∙ rw h refl)) (
        lookup-remove j ip active ∙ elim (Bool-cases (eq_bytes ip j)) [
          | inl e ↦
              rw e (ap as_count (sym h ∙ ap (λ k. count k (before ++ after)) (eq_bytes→eq ip j e)))
          | inr e ↦ rw e (other j e)
        ])
    by_count (suc n) h j = rw (leave_more ip active n (found ∙ rw h refl)) (
        lookup-insert j ip (suc n) active ∙ elim (Bool-cases (eq_bytes ip j)) [
          | inl e ↦
              rw e (ap as_count (sym h ∙ ap (λ k. count k (before ++ after)) (eq_bytes→eq ip j e)))
          | inr e ↦ rw e (other j e)
        ])
