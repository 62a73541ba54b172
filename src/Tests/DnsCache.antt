-- ===== src/Tests/DnsCache.antt =====
-- The DNS cache at concrete inputs.
use rxcore.Prelude.{◌≡◌, refl, List, [], ◌∷◌, arith, Option, none, some}
use rxcore.Prelude.Loops.{eq_bytes, eq_bytes_refl}
use rxcore.Prelude.Assoc.{Map, lookup, bytes_eq}
use rxcore.Text.{Str, to_lowercase}
use rxcore.DnsCache.{CacheEntry, DnsCache, addresses, get, ok, err, put}
use rxcore.DnsCache.Bounds.{GivesKey}
use rxcore.DnsCache.Serve.{Event, asks, stores, step, run, get-put}

-- The first key of the list.
abbrev first_key : Map Str CacheEntry → Option Str
first_key [] = none
first_key ((k, e) ∷ m) = some k

first_key-GivesKey : GivesKey first_key
unfolding lookup
first_key-GivesKey [] h = elim h [ ]
first_key-GivesKey ((k, e) ∷ m) h = (k, e, refl, rw (eq_bytes_refl k) refl)

abbrev full : DnsCache
full = record {
  entries = (97 ∷ [], record { ips = 5 ∷ []; expires_at = 90 }) ∷ [];
  max_entries = 1;
  negative_ttl = 10;
}

-- "B" is put and "b" is asked.
same_name : to_lowercase (98 ∷ []) ≡ to_lowercase (66 ∷ [])
unfolding to_lowercase
same_name = refl

abbrev roomy : DnsCache
roomy = record full { max_entries = 3 }

-- "b" is asked for, "c" is put, and the expired "a" is asked for.
abbrev between : List Event
between = asks 51 (98 ∷ []) 53 ∷ stores 52 (99 ∷ []) err ∷ asks 99 (97 ∷ []) 53 ∷ []

get-put_example :
    (get 54
      (98 ∷ [])
      53
      (run first_key between (put first_key 50 (66 ∷ []) (ok (7 ∷ []) 1) roomy))).0
    ≡ some (addresses ((7, 53) ∷ []))
unfolding to_lowercase put lookup step eq_bytes
get-put_example =
    get-put first_key 50 54 53 (66 ∷ []) (98 ∷ []) (ok (7 ∷ []) 1) between roomy same_name
      (λ e. omega arith, ((λ e. cc, refl), (λ e. cc, tt)))
