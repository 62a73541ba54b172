-- ===== src/DnsCache.antt =====
-- `DnsCache` of target_core/src/transport/dns_cache.rs. Time is counted in seconds. Which key a hash
-- map gives first is not specified, so it is a parameter.
pub mod Bounds
pub mod Serve
use rxcore.Prelude.{
  ℕ, zero, suc, ◌+◌, min, max, List, [], ◌∷◌, map, Option, none, some, Bool, true, false, leb, ltb,
  length, if◌then◌else◌,
}
use rxcore.Prelude.Assoc.{Map, lookup, insert, remove, bytes_eq}
use rxcore.Text.{Str, to_lowercase}

-- An IPv4 address is a number of 32 bits.
pub record CacheEntry : Type 0 where
  pub ips : List ℕ
  pub expires_at : ℕ

pub record DnsCache : Type 0 where
  pub entries : Map Str CacheEntry
  pub max_entries : ℕ
  pub negative_ttl : ℕ

-- A cached answer: addresses with the port, or a failure that is remembered.
pub data Answer : Type 0 where
  addresses : List (ℕ × ℕ) → Answer
  negative : Answer

-- The answer from an entry that has not expired.
unfoldable pub answer : ℕ → List ℕ → Answer
answer port [] = negative
answer port (ip ∷ ips) = addresses (map (λ a. (a, port)) (ip ∷ ips))

-- The entry, if there is one that has not expired; else the key is removed.
unfoldable pub get : ℕ → Str → ℕ → DnsCache → Option Answer × DnsCache
unfolding to_lowercase lookup remove answer
get now hostname port c =
    let key = to_lowercase hostname in
    let removed = record c { entries = remove key c.entries } in
    elim (lookup key c.entries) [
      | none ↦ (none, removed)
      | some e ↦ if ltb now e.expires_at then (some (answer port e.ips), c) else (none, removed)
    ]

unfoldable pub expired_keys : ℕ → Map Str CacheEntry → List Str
expired_keys now [] = []
expired_keys now ((k, e) ∷ m) =
    let rest = expired_keys now m in if leb e.expires_at now then k ∷ rest else rest

unfoldable pub remove_all : List Str → Map Str CacheEntry → Map Str CacheEntry
unfolding remove
remove_all [] m = m
remove_all (k ∷ ks) m = remove_all ks (remove k m)

abbrev remove_first : Option Str → Map Str CacheEntry → Map Str CacheEntry
unfolding remove
remove_first none m = m
remove_first (some k) m = remove k m

abbrev evict_keys :
    (Map Str CacheEntry → Option Str) → List Str → Map Str CacheEntry → Map Str CacheEntry
unfolding remove remove_all
evict_keys next_key [] m = remove_first (next_key m) m
evict_keys next_key (k ∷ ks) m = remove_all (k ∷ ks) m

-- Make room: all that has expired, or else some key.
unfoldable pub evict :
    (Map Str CacheEntry → Option Str) → ℕ → Map Str CacheEntry → Map Str CacheEntry
unfolding expired_keys evict_keys
evict next_key now m = evict_keys next_key (expired_keys now m) m

-- The result of a lookup: addresses with their time to live, or an error.
pub data Resolved : Type 0 where
  ok : List ℕ → ℕ → Resolved
  err : Resolved

unfoldable pub entry_of : ℕ → ℕ → Resolved → CacheEntry
entry_of now negative_ttl (ok ips raw_ttl) = record {
  ips = ips;
  expires_at = now + min (max raw_ttl 5) 600;
}
entry_of now negative_ttl err = record { ips = []; expires_at = now + negative_ttl }

unfoldable pub put : (Map Str CacheEntry → Option Str) → ℕ → Str → Resolved → DnsCache → DnsCache
unfolding to_lowercase evict insert entry_of
put next_key now hostname result c =
    let room =
      (if leb c.max_entries (length c.entries) then evict next_key now c.entries else c.entries) in
    record c { entries = insert (to_lowercase hostname) (entry_of now c.negative_ttl result) room }

unfoldable pub clear : DnsCache → DnsCache
clear c = record c { entries = [] }
