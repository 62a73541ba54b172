-- ===== src/Handshake/Balance.antt =====
-- The permits and the map of counts stay in step with the handshakes that run.
use rxcore.Prelude.{
  ℕ, suc, ◌+◌, ◌≤◌, ◌<◌, ◌≡◌, refl, sym, ap, ◌∙◌, subst, List, [], ◌∷◌, ◌++◌, none, some, Bool,
  true, false, length, length-append, arith, Bool-cases, inl, inr, if◌then◌else◌,
}
use rxcore.Prelude.Loops.{eq_bytes, eq_bytes→eq, eq_bytes_refl}
use rxcore.Prelude.Assoc.{lookup, insert, bytes_eq}
use rxcore.Handshake.{Ip, Active, count_or_zero}
use rxcore.Handshake.Steps.{
  System, Step, takes, over_limit, full, enters, leaves, returns, Reach, here, next,
}
use rxcore.Handshake.Counts.{
  count, Tracks, count_middle, count_or_zero-as_count, enter-entered, Tracks-insert, Tracks-leave,
}

-- Every permit is with one connection, the map has the right counts, and no address has more than two
-- handshakes.
pub record IsBalanced (permits : ℕ) (s : System) : Type 0 where
  pub permits_kept : s.permits + length s.holding + length s.guards + s.releasing ≡ permits
  pub tracked : Tracks s.active s.guards
  pub few : (ip : Ip) → count ip s.guards ≤ 2

length_middle :
    (before after : List Ip) (ip : Ip) (l : List Ip)
    → l ≡ before ++ ip ∷ after
    → length l ≡ suc (length (before ++ after))
length_middle before after ip l e =
    ap length e ∙ omega (arith, length-append before (ip ∷ after), length-append before after)

-- One more handshake of an address that had fewer than two.
few-insert :
    (ip : Ip) (guards : List Ip)
    → count ip guards < 2
    → ((j : Ip) → count j guards ≤ 2)
    → (j : Ip) → count j (ip ∷ guards) ≤ 2
unfolding count
few-insert ip guards h few j = elim (Bool-cases (eq_bytes ip j)) [
  | inl e ↦ rw e (omega (arith, h, ap (λ k. count k guards) (eq_bytes→eq ip j e)))
  | inr e ↦ rw e (few j)
]

few-leave :
    (ip : Ip) (before after : List Ip)
    → ((j : Ip) → count j (before ++ ip ∷ after) ≤ 2)
    → (j : Ip) → count j (before ++ after) ≤ 2
few-leave ip before after few j =
    let bound : (if eq_bytes ip j
          then suc (count j (before ++ after))
          else count j (before ++ after))
        ≤ 2 =
      subst (λ n. n ≤ 2) (count_middle j ip before after) (few j) in
    below (eq_bytes ip j) (count j (before ++ after)) bound
  where
    below : (b : Bool) (n : ℕ) → (if b then suc n else n) ≤ 2 → n ≤ 2
    below true n h = omega (arith, h)
    below false n h = h

pub Step-IsBalanced :
    (permits : ℕ) {s t : System} → Step s t → IsBalanced permits s → IsBalanced permits t
Step-IsBalanced permits (takes address n e) b = record {
  permits_kept = omega (arith, e, b.permits_kept);
  tracked = b.tracked;
  few = b.few;
}
Step-IsBalanced permits {s = s} (over_limit before after ip e h) b = record {
  permits_kept = omega (arith, length_middle before after ip s.holding e, b.permits_kept);
  tracked = b.tracked;
  few = b.few;
}
Step-IsBalanced permits {s = s} (full before after ip e h) b = record {
  permits_kept = omega (arith, length_middle before after ip s.holding e, b.permits_kept);
  tracked = b.tracked;
  few = b.few;
}
Step-IsBalanced permits {s = s} (enters before after ip m e h) b =
    let (room, new) = enter-entered ip s.active m h in
    let same : count_or_zero (lookup ip s.active) ≡ count ip s.guards =
      ap count_or_zero (b.tracked ip) ∙ count_or_zero-as_count (count ip s.guards) in
    record {
      permits_kept = omega (arith, length_middle before after ip s.holding e, b.permits_kept);
      tracked =
          subst (λ l. Tracks l (ip ∷ s.guards))
            (sym (new ∙ ap (λ c. insert ip (c + 1) s.active) same))
            (Tracks-insert ip s.active s.guards b.tracked);
      few = few-insert ip s.guards (omega (arith, room, same)) b.few;
    }
Step-IsBalanced permits {s = s} (leaves before after ip e) b = record {
  permits_kept = omega (arith, length_middle before after ip s.guards e, b.permits_kept);
  tracked = Tracks-leave ip s.active before after (subst (Tracks s.active) e b.tracked);
  few = few-leave ip before after (λ j. subst (λ l. count j l ≤ 2) e (b.few j));
}
Step-IsBalanced permits (returns n e) b = record {
  permits_kept = omega (arith, e, b.permits_kept);
  tracked = b.tracked;
  few = b.few;
}

Reach-IsBalanced : (permits : ℕ) (s : System) → Reach permits s → IsBalanced permits s
unfolding lookup count
Reach-IsBalanced permits s here = record {
  permits_kept = omega arith;
  tracked = λ ip. refl;
  few = λ ip. omega arith;
}
Reach-IsBalanced permits s (next {s = s'} r step) =
    Step-IsBalanced permits step (Reach-IsBalanced permits s' r)

-- Whatever the order in which connections take permits, enter, are refused and leave, no more run a
-- handshake than there are permits, and no address runs more than two.
pub handshakes_bounded :
    (permits : ℕ) (s : System)
    → Reach permits s
    → (length s.guards ≤ permits) × ((ip : Ip) → count ip s.guards ≤ 2)
handshakes_bounded permits s r =
    let b = Reach-IsBalanced permits s r in (omega (arith, b.permits_kept), b.few)

-- A map that finds nothing is empty.
empty_map : (active : Active) → ((ip : Ip) → lookup ip active ≡ none) → active ≡ []
unfolding lookup
empty_map [] h = refl
empty_map ((ip, n) ∷ active) h = cc (sym found ∙ h ip)
  where
    found : lookup ip ((ip, n) ∷ active) ≡ some n
    found = rw (eq_bytes_refl ip) refl

-- When no connection is under way any more, all permits are back and the map is empty: nothing leaks,
-- however the handshakes ended.
pub handshakes_leak_nothing :
    (permits : ℕ) (s : System)
    → Reach permits s
    → s.holding ≡ []
    → s.guards ≡ []
    → s.releasing ≡ 0
    → (s.permits ≡ permits) × (s.active ≡ [])
unfolding count
handshakes_leak_nothing permits s r h g e =
    let b = Reach-IsBalanced permits s r in
    (
      omega (arith, b.permits_kept, ap length h, ap length g, e),
      empty_map s.active (λ ip. subst (Tracks s.active) g b.tracked ip),
    )
