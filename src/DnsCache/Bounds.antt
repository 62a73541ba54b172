-- ===== src/DnsCache/Bounds.antt =====
-- The cache does not grow beyond its limit.
use rxcore.Prelude.{
  ℕ, ◌+◌, ◌≤◌, ◌<◌, ◌≡◌, refl, max, List, [], ◌∷◌, Option, none, some, leb, leb-false, leb→le,
  length, arith, Bool-cases, inl, inr,
}
use rxcore.Prelude.Loops.{eq_bytes, eq_bytes_refl}
use rxcore.Prelude.Assoc.{
  Map, lookup, remove, bytes_eq, length-remove-le, length-remove-some, length-insert-le,
}
use rxcore.Text.{Str, to_lowercase}
use rxcore.DnsCache.{
  CacheEntry, DnsCache, expired_keys, remove_all, remove_first, evict_keys, evict, Resolved,
  entry_of, put,
}

-- A hash map that is not empty gives a key that is in it.
abbrev pub GivesKey : (Map Str CacheEntry → Option Str) → Type 0
GivesKey next_key =
    (m : Map Str CacheEntry)
    → 0 < length m
    → (k : Str) × (e : CacheEntry) × (next_key m ≡ some k) × (lookup k m ≡ some e)

-- The keys that have expired are in the map.
abbrev FirstIn : List Str → Map Str CacheEntry → Type 0
FirstIn [] m = Unit
FirstIn (k ∷ ks) m = (e : CacheEntry) × (lookup k m ≡ some e)

FirstIn-cons :
    (ks : List Str) (j : Str) (e : CacheEntry) (m : Map Str CacheEntry)
    → FirstIn ks m
    → FirstIn ks ((j, e) ∷ m)
unfolding lookup
FirstIn-cons [] j e m f = tt
FirstIn-cons (k ∷ ks) j e m (e', f) = elim (Bool-cases (eq_bytes j k)) [
  | inl h ↦ (e, rw h refl)
  | inr h ↦ (e', rw h f)
]

expired_keys-FirstIn : (now : ℕ) (m : Map Str CacheEntry) → FirstIn (expired_keys now m) m
unfolding expired_keys lookup
expired_keys-FirstIn now [] = tt
expired_keys-FirstIn now ((k, e) ∷ m) = elim (Bool-cases (leb e.expires_at now)) [
  | inl h ↦ rw h (e, rw (eq_bytes_refl k) refl)
  | inr h ↦ rw h (FirstIn-cons (expired_keys now m) k e m (expired_keys-FirstIn now m))
]

length-remove_all : (ks : List Str) (m : Map Str CacheEntry) → length (remove_all ks m) ≤ length m
unfolding remove_all
length-remove_all [] m = omega arith
length-remove_all (k ∷ ks) m =
    omega (arith, length-remove_all ks (remove k m), length-remove-le k m)

length-evict_keys :
    (next_key : Map Str CacheEntry → Option Str) (ks : List Str) (m : Map Str CacheEntry)
    → GivesKey next_key
    → FirstIn ks m
    → 0 < length m
    → length (evict_keys next_key ks m) + 1 ≤ length m
unfolding evict_keys
length-evict_keys next_key [] m g f h =
    let (k, e, is, found) = g m h in rw is (length-remove-some k m e found)
length-evict_keys next_key (k ∷ ks) m g (e, found) h =
    omega (arith, length-remove_all ks (remove k m), length-remove-some k m e found)

length-evict :
    (next_key : Map Str CacheEntry → Option Str) (now : ℕ) (m : Map Str CacheEntry)
    → GivesKey next_key
    → 0 < length m
    → length (evict next_key now m) + 1 ≤ length m
unfolding evict
length-evict next_key now m g h =
    length-evict_keys next_key (expired_keys now m) m g (expired_keys-FirstIn now m) h

evict_empty :
    (next_key : Map Str CacheEntry → Option Str) (now : ℕ) (m : Map Str CacheEntry)
    → length m ≡ 0
    → length (evict next_key now m) ≡ 0
unfolding evict expired_keys remove
evict_empty next_key now [] h = none_left (next_key [])
  where
    none_left : (o : Option Str) → length (remove_first o []) ≡ 0
    none_left none = refl
    none_left (some k) = refl
evict_empty next_key now (e ∷ m) h = absurd (omega arith)

-- A cache of at most its limit of entries, or of one if the limit is 0, stays so when a result is put
-- into it.
pub put_bounded :
    (next_key : Map Str CacheEntry → Option Str) (now : ℕ) (hostname : Str) (result : Resolved)
    (c : DnsCache)
    → GivesKey next_key
    → length c.entries ≤ max 1 c.max_entries
    → length (put next_key now hostname result c).entries ≤ max 1 c.max_entries
unfolding put
put_bounded next_key now hostname result c g h =
    elim (Bool-cases (leb c.max_entries (length c.entries))) [
      | inl full ↦
          let entry = entry_of now c.negative_ttl result in
          let room = evict next_key now c.entries in
          rw full (elim (Bool-cases (leb 1 (length c.entries))) [
            | inl some_there ↦ omega (
              arith,
              h,
              length-insert-le (to_lowercase hostname) entry room,
              length-evict next_key now c.entries g (leb→le 1 (length c.entries) some_there),
            )
            | inr none_there ↦ omega (
              arith,
              length-insert-le (to_lowercase hostname) entry room,
              evict_empty next_key now c.entries
                  (omega (arith, leb-false 1 (length c.entries) none_there)),
            )
          ])
      | inr room ↦ rw room (
          omega (
            arith,
            h,
            leb-false c.max_entries (length c.entries) room,
            length-insert-le (to_lowercase hostname) (entry_of now c.negative_ttl result) c.entries,
          ))
    ]
