-- ===== src/SingleFlight/Lookups.antt =====
-- Of one name there is one lookup at a time.
use rxcore.Prelude.{
  ℕ, ◌<◌, ◌≡◌, ◌≢◌, refl, sym, ◌∙◌, subst, List, [], ◌∷◌, Option, none, some, inl, inr, ◌⊎◌, arith,
  Option-cases,
}
use rxcore.Prelude.Assoc.{
  Map, Eq, lookup, insert, remove, nat_eq, bytes_eq, key_cases, lookup-insert_self,
  lookup-insert_ne, lookup-remove_self, lookup-remove_ne,
}
use rxcore.Text.{Str}
use rxcore.SingleFlight.{
  Resolved, Flights, lead, enter_with, enter, looked_up, send, cancel, Event, called, resolved,
  sends, dropped, step, run, new,
}

-- A running lookup is that of the channel that its name has, and has nothing to send yet; the channels
-- are those made so far.
pub record IsFlights (s : Flights) : Type 0 where
  pub looked_for :
      (channel : ℕ) (key : Str)
      → lookup channel s.looking ≡ some key
      → lookup key s.inflight ≡ some channel
  pub made : (channel : ℕ) (key : Str) → lookup channel s.looking ≡ some key → channel < s.next
  pub shared : (channel : ℕ) (key : Str) → lookup key s.inflight ≡ some channel → channel < s.next
  pub apart :
      (channel : ℕ) (key : Str)
      → lookup channel s.looking ≡ some key
      → lookup channel s.sending ≡ none
  pub sent_made :
      (channel : ℕ) (res : Resolved) → lookup channel s.sending ≡ some res → channel < s.next

pub some_lem {ℓ} : {A : Type ℓ} {a b : A} (o : Option A) → o ≡ some a → o ≡ some b → a ≡ b
some_lem o e f = cc

pub none_lem {ℓ} : {A : Type ℓ} {a : A} (o : Option A) → o ≡ none → ¬ (o ≡ some a)
none_lem o e f = cc

module _ {K V : Type 0} ⦃e : Eq K⦄ where
  -- What a write and a removal leave to be found.
  pub inserted :
      (j k : K) (v w : V) (m : Map K V)
      → lookup j (insert k v m) ≡ some w
      → ((j ≡ k) × (v ≡ w)) ⊎ (lookup j m ≡ some w)
  inserted j k v w m h = elim (key_cases j k) [
    | inl same ↦ inl (
      same,
      some_lem (lookup k (insert k v m)) (lookup-insert_self k v m)
          (subst (λ i. lookup i (insert k v m) ≡ some w) same h),
    )
    | inr apart ↦ inr (sym (lookup-insert_ne j k v m apart) ∙ h)
  ]

  pub removed :
      (j k : K) (w : V) (m : Map K V)
      → lookup j (remove k m) ≡ some w
      → (j ≢ k) × (lookup j m ≡ some w)
  removed j k w m h = elim (key_cases j k) [
    | inl same ↦ absurd (
        none_lem (lookup k (remove k m)) (lookup-remove_self k m)
          (subst (λ i. lookup i (remove k m) ≡ some w) same h))
    | inr apart ↦ (
      λ same.
          none_lem (lookup k (remove k m)) (lookup-remove_self k m)
            (subst (λ i. lookup i (remove k m) ≡ some w) same h),
      sym (lookup-remove_ne j k m apart) ∙ h,
    )
  ]

  pub kept : (j k : K) (m : Map K V) → j ≢ k → lookup j (remove k m) ≡ lookup j m
  kept j k m h = elim (key_cases j k) [
    | inl same ↦ absurd (h same)
    | inr apart ↦ lookup-remove_ne j k m apart
  ]

  pub unchanged : (j k : K) (v : V) (m : Map K V) → j ≢ k → lookup j (insert k v m) ≡ lookup j m
  unchanged j k v m h = elim (key_cases j k) [
    | inl same ↦ absurd (h same)
    | inr apart ↦ lookup-insert_ne j k v m apart
  ]

lead-IsFlights :
    (key : Str) (s : Flights) → lookup key s.inflight ≡ none → IsFlights s → IsFlights (lead key s)
unfolding lead
lead-IsFlights key s new h = record {
  looked_for = λ c k at. elim (inserted c s.next key k s.looking at) [
    | inl (same, is) ↦ rw (same, sym is) (lookup-insert_self key s.next s.inflight)
    | inr before ↦
        unchanged k key s.next s.inflight (λ same.
          none_lem (lookup key s.inflight) new
            (subst (λ i. lookup i s.inflight ≡ some c) same (h.looked_for c k before)))
        ∙ h.looked_for c k before
  ];
  made = λ c k at. elim (inserted c s.next key k s.looking at) [
    | inl (same, is) ↦ omega arith
    | inr before ↦ omega (arith, h.made c k before)
  ];
  shared = λ c k at. elim (inserted k key s.next c s.inflight at) [
    | inl (same, is) ↦ omega arith
    | inr before ↦ omega (arith, h.shared c k before)
  ];
  apart = λ c k at. elim (inserted c s.next key k s.looking at) [
    | inl (same, is) ↦ rw same (elim (Option-cases (lookup s.next s.sending)) [
      | inl e ↦ e
      | inr (res, e) ↦ absurd (omega (arith, h.sent_made s.next res e))
    ])
    | inr before ↦ h.apart c k before
  ];
  sent_made = λ c res at. omega (arith, h.sent_made c res at);
}

looked_up-IsFlights :
    (channel : ℕ) (res : Resolved) (key : Str) (s : Flights)
    → lookup channel s.looking ≡ some key
    → IsFlights s
    → IsFlights (looked_up channel res (some key) s)
unfolding looked_up
looked_up-IsFlights channel res key s e h = record {
  looked_for = λ c k at.
      let (other, before) = removed c channel k s.looking at in
      let there = h.looked_for c k before in
      kept k key s.inflight (λ same. other (
        some_lem (lookup key s.inflight) (subst (λ i. lookup i s.inflight ≡ some c) same there)
          (h.looked_for channel key e)))
      ∙ there;
  made = λ c k at. h.made c k (removed c channel k s.looking at).1;
  shared = λ c k at. h.shared c k (removed k key c s.inflight at).1;
  apart = λ c k at.
      let (other, before) = removed c channel k s.looking at in
      unchanged c channel res s.sending other ∙ h.apart c k before;
  sent_made = λ c r at. elim (inserted c channel res r s.sending at) [
    | inl (same, is) ↦ omega (arith, h.made channel key e)
    | inr before ↦ h.sent_made c r before
  ];
}

send-IsFlights :
    (channel : ℕ) (res : Resolved) (s : Flights)
    → IsFlights s
    → IsFlights (send channel (some res) s)
unfolding send
send-IsFlights channel res s h = record {
  looked_for = h.looked_for;
  made = h.made;
  shared = h.shared;
  apart = λ c k at. elim (Option-cases (lookup c (remove channel s.sending))) [
    | inl e ↦ e
    | inr (r, e) ↦
        absurd (none_lem (lookup c s.sending) (h.apart c k at) (removed c channel r s.sending e).1)
  ];
  sent_made = λ c r at. h.sent_made c r (removed c channel r s.sending at).1;
}

cancel-IsFlights :
    (channel : ℕ) (key : Str) (s : Flights) → IsFlights s → IsFlights (cancel channel (some key) s)
unfolding cancel
cancel-IsFlights channel key s h = record {
  looked_for = λ c k at. h.looked_for c k (removed c channel k s.looking at).1;
  made = λ c k at. h.made c k (removed c channel k s.looking at).1;
  shared = h.shared;
  apart = λ c k at. h.apart c k (removed c channel k s.looking at).1;
  sent_made = h.sent_made;
}

pub step-IsFlights : (e : Event) (s : Flights) → IsFlights s → IsFlights (step e s)
unfolding step enter enter_with looked_up send cancel
step-IsFlights (called key) s h = elim (Option-cases (lookup key s.inflight)) [
  | inl e ↦ subst (λ o. IsFlights (enter_with key o s).1) (sym e) (lead-IsFlights key s e h)
  | inr (c, e) ↦ subst (λ o. IsFlights (enter_with key o s).1) (sym e) h
]
step-IsFlights (resolved channel res) s h = elim (Option-cases (lookup channel s.looking)) [
  | inl e ↦ rw e h
  | inr (key, e) ↦ rw e (looked_up-IsFlights channel res key s e h)
]
step-IsFlights (sends channel) s h = elim (Option-cases (lookup channel s.sending)) [
  | inl e ↦ rw e h
  | inr (res, e) ↦ rw e (send-IsFlights channel res s h)
]
step-IsFlights (dropped channel) s h = elim (Option-cases (lookup channel s.looking)) [
  | inl e ↦ rw e h
  | inr (key, e) ↦ rw e (cancel-IsFlights channel key s h)
]

run_lem : (es : List Event) (s : Flights) → IsFlights s → IsFlights (run es s)
unfolding run
run_lem [] s h = h
run_lem (e ∷ es) s h = run_lem es (step e s) (step-IsFlights e s h)

nothing_lem {ℓ} : {A : Type ℓ} {a : A} → ¬ (◌≡◌ {A = Option A} none (some a))
nothing_lem h = cc

new-IsFlights : IsFlights new
unfolding lookup
new-IsFlights = record {
  looked_for = λ c k at. cc;
  made = λ c k at. absurd (nothing_lem at);
  shared = λ c k at. absurd (nothing_lem at);
  apart = λ c k at. refl;
  sent_made = λ c r at. absurd (nothing_lem at);
}

pub run-IsFlights : (es : List Event) → IsFlights (run es new)
run-IsFlights es = run_lem es new new-IsFlights

-- Whatever calls are made, answered, sent and dropped, in any order, no name has two lookups running
-- at the same time.
pub run_one_lookup :
    (es : List Event) (c d : ℕ) (key : Str)
    → lookup c (run es new).looking ≡ some key
    → lookup d (run es new).looking ≡ some key
    → c ≡ d
run_one_lookup es c d key e f =
    let h = run-IsFlights es in
    some_lem (lookup key (run es new).inflight) (h.looked_for c key e) (h.looked_for d key f)
