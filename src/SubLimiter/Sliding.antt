-- ===== src/SubLimiter/Sliding.antt =====
-- The limit on subscriptions against a window that slides and forgets nothing.
use rxcore.Prelude.{
  ℕ, ◌≤◌, ◌≡◌, refl, sym, ap, ◌∙◌, subst, List, [], ◌∷◌, ◌++◌, none, some, Bool, false, leb, ltb,
  not, length, arith, Bool-cases, inl, inr, if◌then◌else◌,
}
use rxcore.Prelude.Loops.{retain, eq_bytes}
use rxcore.Prelude.Window.{recent, retain_later}
use rxcore.Prelude.Assoc.{Map, lookup, bytes_eq, key_cases, IsMap, beq_refl, ◌==◌}
use rxcore.Login.{Ip, or_empty}
use rxcore.SubLimiter.{purge, keep_entry, purge_if_large}

-- The requests that were granted to each address, all of them.
abbrev pub History : Type 0
History = Ip → List ℕ

-- Fewer than ten grants in the last minute.
abbrev pub permits : ℕ → Ip → History → Bool
permits now ip h = not (leb 10 (length (retain (recent 60 now) (h ip))))

unfoldable pub note : ℕ → Ip → History → History
unfolding eq_bytes
note now ip h =
    if permits now ip h then (λ j. if eq_bytes ip j then h ip ++ now ∷ [] else h j) else h

-- From `now` on the map counts what the history counts; each address stands in it once.
pub record Refines (now : ℕ) (m : Map Ip (List ℕ)) (h : History) : Type 0 where
  pub once : IsMap m
  pub own :
      (later : ℕ) (ip : Ip)
      → now ≤ later
      → retain (recent 60 later) (or_empty (lookup ip m)) ≡ retain (recent 60 later) (h ip)

keep-lookup_ne :
    (ip j : Ip) (v : List ℕ) (rest : Map Ip (List ℕ))
    → (j == ip) ≡ false
    → lookup ip (keep_entry j v rest) ≡ lookup ip rest
unfolding lookup
keep-lookup_ne ip j [] rest apart = refl
keep-lookup_ne ip j (t ∷ ts) rest apart = rw apart refl

keep-lookup_self :
    (ip : Ip) (v : List ℕ) (rest : Map Ip (List ℕ))
    → lookup ip rest ≡ none
    → or_empty (lookup ip (keep_entry ip v rest)) ≡ v
unfolding lookup
keep-lookup_self ip [] rest e = rw e refl
keep-lookup_self ip (t ∷ ts) rest e = rw (beq_refl ip) refl

purge-none :
    (now : ℕ) (ip : Ip) (m : Map Ip (List ℕ)) → lookup ip m ≡ none → lookup ip (purge now m) ≡ none
unfolding purge lookup
purge-none now ip [] e = refl
purge-none now ip ((j, v) ∷ m) e = elim (Bool-cases (j == ip)) [
  | inl same ↦ ground arith
  | inr apart ↦
      keep-lookup_ne ip j (retain (recent 60 now) v) (purge now m) apart
      ∙ purge-none now ip m (sym (rw apart refl) ∙ e)
]

purge-lookup :
    (now later : ℕ) (ip : Ip) (m : Map Ip (List ℕ))
    → now ≤ later
    → IsMap m
    → retain (recent 60 later) (or_empty (lookup ip (purge now m)))
      ≡ retain (recent 60 later) (or_empty (lookup ip m))
unfolding purge lookup
purge-lookup now later ip [] h once = refl
purge-lookup now later ip ((j, v) ∷ m) h once = elim (key_cases ip j) [
  | inl same ↦
      subst
        (λ k.
          lookup k m ≡ none
          → retain (recent 60 later)
              (or_empty (lookup ip (keep_entry k (retain (recent 60 now) v) (purge now m))))
            ≡ retain (recent 60 later) (or_empty (if k == ip then some v else lookup ip m)))
        same own_entry once.0
  | inr apart ↦
      ap (λ o. retain (recent 60 later) (or_empty o))
        (keep-lookup_ne ip j (retain (recent 60 now) v) (purge now m) apart)
      ∙ rw apart (purge-lookup now later ip m h once.1)
]
  where
    own_entry :
        lookup ip m ≡ none
        → retain
            (recent 60 later)
            (or_empty (lookup ip (keep_entry ip (retain (recent 60 now) v) (purge now m))))
          ≡ retain (recent 60 later) (or_empty (if ip == ip then some v else lookup ip m))
    own_entry e =
        ap (retain (recent 60 later))
          (keep-lookup_self ip (retain (recent 60 now) v) (purge now m) (purge-none now ip m e))
        ∙ rw (beq_refl ip) (retain_later 60 now later v h)

IsMap-keep :
    (ip : Ip) (v : List ℕ) (rest : Map Ip (List ℕ))
    → lookup ip rest ≡ none
    → IsMap rest
    → IsMap (keep_entry ip v rest)
IsMap-keep ip [] rest e once = once
IsMap-keep ip (t ∷ ts) rest e once = (e, once)

IsMap-purge : (now : ℕ) (m : Map Ip (List ℕ)) → IsMap m → IsMap (purge now m)
unfolding purge
IsMap-purge now [] once = once
IsMap-purge now ((ip, v) ∷ m) once =
    IsMap-keep ip (retain (recent 60 now) v) (purge now m) (purge-none now ip m once.0)
      (IsMap-purge now m once.1)

pub purge_if_large-Refines :
    (now t : ℕ) (m : Map Ip (List ℕ)) (h : History)
    → now ≤ t
    → Refines now m h
    → Refines t (purge_if_large t m) h
unfolding purge_if_large
purge_if_large-Refines now t m h n r = elim (Bool-cases (ltb 1000 (length m))) [
  | inl large ↦ rw large (record {
    once = IsMap-purge t m r.once;
    own = λ later ip k. purge-lookup t later ip m k r.once ∙ r.own later ip (omega (arith, n, k));
  })
  | inr small ↦
      rw small (record { once = r.once; own = λ later ip k. r.own later ip (omega (arith, n, k)) })
]
