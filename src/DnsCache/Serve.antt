-- ===== src/DnsCache/Serve.antt =====
-- What is served is what was put in, as long as it lives.
use rxcore.Prelude.{
  ℕ, ◌+◌, ◌<◌, ◌≡◌, ◌≢◌, refl, sym, ap, ◌∙◌, subst, inl, inr, min, max, List, [], ◌∷◌, map, Option,
  none, some, Bool, true, false, ltb, lt→ltb, leb, length, Bool-cases, Option-cases, if◌then◌else◌,
}
use rxcore.Prelude.Assoc.{
  Map, lookup, lookup-insert_self, lookup-insert_ne, lookup-remove_ne, key_cases, bytes_eq,
}
use rxcore.Text.{Str, to_lowercase}
use rxcore.DnsCache.{
  CacheEntry, DnsCache, Answer, addresses, negative, answer, get, Resolved, ok, err, entry_of, put,
}

get_lem :
    (now port : ℕ) (hostname : Str) (c : DnsCache) (e : CacheEntry)
    → lookup (to_lowercase hostname) c.entries ≡ some e
    → (get now hostname port c).0
      ≡ (if ltb now e.expires_at then some (answer port e.ips) else none)
unfolding get
get_lem now port hostname c e h = rw (h, get) (pushed (ltb now e.expires_at) _ _)
  where
    pushed :
        (b : Bool) (x y : Option Answer × DnsCache)
        → (if b then x else y).0 ≡ (if b then x.0 else y.0)
    pushed true x y = refl
    pushed false x y = refl

-- What happens between the two: lookups in the cache, and results that are put into it.
pub data Event : Type 0 where
  asks : (now : ℕ) (hostname : Str) (port : ℕ) → Event
  stores : (now : ℕ) (hostname : Str) → Resolved → Event

module _ (next_key : Map Str CacheEntry → Option Str) where
  unfoldable pub step : Event → DnsCache → DnsCache
  unfolding get put
  step (asks now hostname port) c = (get now hostname port c).1
  step (stores now hostname result) c = put next_key now hostname result c

  unfoldable pub run : List Event → DnsCache → DnsCache
  unfolding step
  run [] c = c
  run (e ∷ es) c = run es (step e c)

  -- The key is not asked for after its expiry and gets no other result, and there is room for what is
  -- put.
  abbrev pub Spares : (key : Str) (expires_at : ℕ) → Event → DnsCache → Type 0
  Spares key expires_at (asks now hostname port) c = to_lowercase hostname ≡ key → now < expires_at
  Spares key expires_at (stores now hostname result) c =
      (to_lowercase hostname ≢ key) × (leb c.max_entries (length c.entries) ≡ false)

  abbrev pub AllSpare : (key : Str) (expires_at : ℕ) → List Event → DnsCache → Type 0
  AllSpare key expires_at [] c = Unit
  AllSpare key expires_at (e ∷ es) c =
      Spares key expires_at e c × AllSpare key expires_at es (step e c)

  get-spares :
      (now port : ℕ) (hostname key : Str) (e : CacheEntry) (c : DnsCache)
      → (to_lowercase hostname ≡ key → now < e.expires_at)
      → lookup key c.entries ≡ some e
      → lookup key (get now hostname port c).1.entries ≡ some e
  unfolding get
  get-spares now port hostname key e c early h = elim (key_cases key (to_lowercase hostname)) [
    | inl same ↦
        let live = lt→ltb now e.expires_at (early (sym same)) in
        let found = ap (λ k. lookup k c.entries) (sym same) ∙ h in rw (found, get) (rw live h)
    | inr apart ↦
        let kept = lookup-remove_ne key (to_lowercase hostname) c.entries apart ∙ h in
        elim (Option-cases (lookup (to_lowercase hostname) c.entries)) [
          | inl f ↦ rw (f, get) kept
          | inr (other, f) ↦ elim (Bool-cases (ltb now other.expires_at)) [
            | inl live ↦ rw (f, get) (rw live h)
            | inr dead ↦ rw (f, get) (rw dead kept)
          ]
        ]
  ]

  put-spares :
      (now : ℕ) (hostname key : Str) (result : Resolved) (e : CacheEntry) (c : DnsCache)
      → to_lowercase hostname ≢ key
      → leb c.max_entries (length c.entries) ≡ false
      → lookup key c.entries ≡ some e
      → lookup key (put next_key now hostname result c).entries ≡ some e
  unfolding put
  put-spares now hostname key result e c other room h =
      elim (key_cases key (to_lowercase hostname)) [
        | inl same ↦ absurd (other (sym same))
        | inr apart ↦ rw room (
            lookup-insert_ne key (to_lowercase hostname) (entry_of now c.negative_ttl result)
              c.entries apart
            ∙ h)
      ]

  run-spares :
      (es : List Event) (key : Str) (e : CacheEntry) (c : DnsCache)
      → AllSpare key e.expires_at es c
      → lookup key c.entries ≡ some e
      → lookup key (run es c).entries ≡ some e
  unfolding run step
  run-spares [] key e c spare h = h
  run-spares (asks now hostname port ∷ es) key e c spare h =
      run-spares es key e (get now hostname port c).1 spare.1
        (get-spares now port hostname key e c spare.0 h)
  run-spares (stores now hostname result ∷ es) key e c spare h =
      run-spares es key e (put next_key now hostname result c) spare.1
        (put-spares now hostname key result e c spare.0.0 spare.0.1 h)

  put-lookup :
      (now : ℕ) (hostname : Str) (result : Resolved) (c : DnsCache)
      → lookup (to_lowercase hostname) (put next_key now hostname result c).entries
        ≡ some (entry_of now c.negative_ttl result)
  unfolding put
  put-lookup now hostname result c =
      lookup-insert_self (to_lowercase hostname) (entry_of now c.negative_ttl result) _

-- How long a result lives, and what it answers.
abbrev pub life : (negative_ttl : ℕ) → Resolved → ℕ
life negative_ttl (ok ips ttl) = min (max ttl 5) 600
life negative_ttl err = negative_ttl

abbrev pub answer_of : (port : ℕ) → Resolved → Answer
answer_of port (ok [] ttl) = negative
answer_of port (ok (ip ∷ ips) ttl) = addresses (map (λ a. (a, port)) (ip ∷ ips))
answer_of port err = negative

entry_lem :
    (now negative_ttl port : ℕ) (result : Resolved)
    → let e = entry_of now negative_ttl result in
      (e.expires_at ≡ now + life negative_ttl result) × (answer port e.ips ≡ answer_of port result)
unfolding entry_of answer
entry_lem now negative_ttl port (ok [] ttl) = (refl, refl)
entry_lem now negative_ttl port (ok (ip ∷ ips) ttl) = (refl, refl)
entry_lem now negative_ttl port err = (refl, refl)

-- A result that was put into the cache is what a lookup of the same name, letter case aside, gives
-- until it expires: after the time to live that came with the addresses, but no sooner than 5 seconds
-- and no later than 600, or after the negative time to live for an error. From its expiry on nothing
-- is given. In between other names may be asked for at any time and this one before its expiry, and
-- results for other names may be put into the cache while it is not full: a full cache may have to
-- give up the entry.
pub get-put :
    (next_key : Map Str CacheEntry → Option Str) (now later port : ℕ) (hostname asked : Str)
    (result : Resolved) (es : List Event) (c : DnsCache)
    → to_lowercase asked ≡ to_lowercase hostname
    → AllSpare next_key
        (to_lowercase hostname)
        (now + life c.negative_ttl result)
        es
        (put next_key now hostname result c)
    → (get later asked port (run next_key es (put next_key now hostname result c))).0 ≡ (
        if ltb later (now + life c.negative_ttl result) then some (answer_of port result) else none)
get-put next_key now later port hostname asked result es c same spare =
    let e = entry_of now c.negative_ttl result in
    let start = put next_key now hostname result c in
    let key = to_lowercase hostname in
    let (expiry, gives) = entry_lem now c.negative_ttl port result in
    let kept =
      run-spares next_key es key e start
        (subst (λ t. AllSpare next_key key t es start) (sym expiry) spare)
        (put-lookup next_key now hostname result c) in
    get_lem later port asked (run next_key es start) e
      (ap (λ k. lookup k (run next_key es start).entries) same ∙ kept)
    ∙ (ap (λ t. if ltb later t then some (answer port e.ips) else none) expiry
        ∙ ap (λ a. if ltb later (now + life c.negative_ttl result) then some a else none) gives)
