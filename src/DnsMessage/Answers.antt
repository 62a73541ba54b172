-- ===== src/DnsMessage/Answers.antt =====
-- The loop over the answers of a DNS message.
use rxcore.Prelude.{
  ℕ, ◌≡◌, refl, ap, ◌∙◌, min, List, [], ◌∷◌, ◌++◌, none, some, Bool, true, false, ◌||◌, ◌==◌,
  ==_iff, arith, Bool-cases, Option-cases, inl, inr,
}
use rxcore.DnsMessage.{ResourceRecord, address_of, contains, collect}

-- The addresses of the answers that count, in order.
abbrev pub addresses : List ResourceRecord → List ℕ
addresses [] = []
addresses (r ∷ rs) = elim (address_of r) [ none ↦ addresses rs | some ip ↦ ip ∷ addresses rs ]

abbrev pub NoDup : List ℕ → Type 0
NoDup [] = Unit
NoDup (ip ∷ ips) = (contains ips ip ≡ false) × NoDup ips

contains-append :
    (xs ys : List ℕ) (j : ℕ) → contains (xs ++ ys) j ≡ (contains xs j || contains ys j)
contains-append [] ys j = refl
contains-append (x ∷ xs) ys j =
    rw (contains-append xs ys j) (or_assoc (j == x) (contains xs j) (contains ys j))
  where
    or_assoc : (a b c : Bool) → (a || (b || c)) ≡ ((a || b) || c)
    or_assoc true b c = refl
    or_assoc false b c = refl

contains-swap : (j ip : ℕ) → (j == ip) ≡ (ip == j)
contains-swap j ip = ground arith

NoDup-append : (xs : List ℕ) (ip : ℕ) → NoDup xs → contains xs ip ≡ false → NoDup (xs ++ ip ∷ [])
NoDup-append [] ip d h = (refl, tt)
NoDup-append (x ∷ xs) ip d h = elim (Bool-cases (ip == x)) [
  | inl e ↦ absurd (cc (h, ap (λ b. b || contains xs ip) e))
  | inr e ↦ (
    contains-append xs (ip ∷ []) x ∙ rw (d.0, contains-swap x ip, e) refl,
    NoDup-append xs ip d.1 (rw e at h),
  )
]

pub collect-NoDup :
    (rs : List ResourceRecord) (resolved : List ℕ) (ttl : ℕ)
    → NoDup resolved
    → NoDup (collect rs resolved ttl).0
unfolding collect
collect-NoDup [] resolved ttl d = d
collect-NoDup (r ∷ rs) resolved ttl d = elim (Option-cases (address_of r)) [
  | inl e ↦ rw (e, collect) (collect-NoDup rs resolved ttl d)
  | inr (ip, e) ↦ elim (Bool-cases (contains resolved ip)) [
    | inl f ↦ rw (e, collect) (rw f (collect-NoDup rs resolved ttl d))
    | inr f ↦
        rw (e, collect)
          (rw f
            (collect-NoDup rs (resolved ++ ip ∷ []) (min r.ttl ttl) (NoDup-append resolved ip d f)))
  ]
]

or_assoc : (a b c : Bool) → ((a || b) || c) ≡ (a || (b || c))
or_assoc true b c = refl
or_assoc false b c = refl

-- A known address adds nothing.
absorbs :
    (resolved : List ℕ) (ip j : ℕ) (b : Bool)
    → contains resolved ip ≡ true
    → (contains resolved j || b) ≡ (contains resolved j || ((j == ip) || b))
absorbs resolved ip j b h = elim (Bool-cases (j == ip)) [
  | inr e ↦ rw e refl
  | inl e ↦ rw (ap (contains resolved) ((==_iff j ip).0 e) ∙ h) refl
]

pub collect-contains :
    (rs : List ResourceRecord) (resolved : List ℕ) (ttl j : ℕ)
    → contains (collect rs resolved ttl).0 j ≡ (contains resolved j || contains (addresses rs) j)
unfolding collect
collect-contains [] resolved ttl j = or_false (contains resolved j)
  where
    or_false : (b : Bool) → b ≡ (b || false)
    or_false true = refl
    or_false false = refl
collect-contains (r ∷ rs) resolved ttl j = elim (Option-cases (address_of r)) [
  | inl e ↦ rw (e, collect, addresses) (collect-contains rs resolved ttl j)
  | inr (ip, e) ↦ elim (Bool-cases (contains resolved ip)) [
    | inl f ↦
        rw (e, collect, addresses)
          (rw f (
            collect-contains rs resolved ttl j
            ∙ absorbs resolved ip j (contains (addresses rs) j) f))
    | inr f ↦
        rw (e, collect, addresses)
          (rw f (
            collect-contains rs (resolved ++ ip ∷ []) (min r.ttl ttl) j
            ∙ (ap (λ b. b || contains (addresses rs) j) (contains-append resolved (ip ∷ []) j)
                ∙ (or_assoc (contains resolved j) ((j == ip) || false) (contains (addresses rs) j)
                    ∙ ap (λ b. contains resolved j || (b || contains (addresses rs) j))
                        (or_none (j == ip))))))
  ]
]
  where
    or_none : (b : Bool) → (b || false) ≡ b
    or_none true = refl
    or_none false = refl
