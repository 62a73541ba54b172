-- ===== src/SubLimiter/Granted.antt =====
-- The limit on subscriptions over requests that follow one another in time.
use rxcore.Prelude.{
  ℕ, ◌≤◌, ◌≡◌, refl, sym, ap, ◌∙◌, List, [], ◌∷◌, ◌++◌, leb, length, arith, Bool-cases, inl, inr,
  if◌then◌else◌,
}
use rxcore.Prelude.Loops.{retain, eq_bytes→eq}
use rxcore.Prelude.Window.{recent, retain-append, retain_later}
use rxcore.Prelude.Assoc.{Map, lookup, insert, bytes_eq, lookup-insert, IsMap-insert, ◌==◌}
use rxcore.Login.{Ip, or_empty}
use rxcore.SubLimiter.{check_entry, purge_if_large, check_sub_rate_limit}
use rxcore.SubLimiter.Sliding.{History, permits, note, Refines, purge_if_large-Refines}

-- The requests follow one another in time, from `start` on, up to `now`.
abbrev pub InTime : ℕ → List (ℕ × Ip) → ℕ → Type 0
InTime start [] now = start ≤ now
InTime start ((t, ip) ∷ es) now = (start ≤ t) × InTime t es now

unfoldable pub run : List (ℕ × Ip) → Map Ip (List ℕ) → Map Ip (List ℕ)
unfolding check_sub_rate_limit
run [] m = m
run ((t, ip) ∷ es) m = run es (check_sub_rate_limit t ip m).1

unfoldable pub granted : List (ℕ × Ip) → History → History
unfolding note
granted [] h = h
granted ((t, ip) ∷ es) h = granted es (note t ip h)

abbrev pub nothing : History
nothing ip = []

module _ (later : ℕ) where
  insert-own :
      (ip j : Ip) (x y z : List ℕ) (m : Map Ip (List ℕ))
      → retain (recent 60 later) x ≡ retain (recent 60 later) y
      → retain (recent 60 later) (or_empty (lookup j m)) ≡ retain (recent 60 later) z
      → retain (recent 60 later) (or_empty (lookup j (insert ip x m)))
        ≡ retain (recent 60 later) (if ip == j then y else z)
  insert-own ip j x y z m p q =
      rw (lookup-insert j ip x m) (elim (Bool-cases (ip == j)) [ inl e ↦ rw e p | inr e ↦ rw e q ])

  pushed :
      (t : ℕ) (x y : List ℕ)
      → retain (recent 60 later) x ≡ retain (recent 60 later) y
      → retain (recent 60 later) (x ++ t ∷ []) ≡ retain (recent 60 later) (y ++ t ∷ [])
  pushed t x y h =
      retain-append (recent 60 later) x (t ∷ [])
      ∙ (ap (λ l. l ++ retain (recent 60 later) (t ∷ [])) h
          ∙ sym (retain-append (recent 60 later) y (t ∷ [])))

itself : (ip j : Ip) (h : History) → (if ip == j then h ip else h j) ≡ h j
itself ip j h = elim (Bool-cases (ip == j)) [
  | inl e ↦ rw e (ap h (eq_bytes→eq ip j e))
  | inr e ↦ rw e refl
]

check_entry-Refines :
    (now : ℕ) (ip : Ip) (m : Map Ip (List ℕ)) (h : History)
    → Refines now m h
    → Refines now (check_entry now ip (retain (recent 60 now) (h ip)) m).1 (note now ip h)
unfolding check_entry note
check_entry-Refines now ip m h r =
    elim (Bool-cases (leb 10 (length (retain (recent 60 now) (h ip))))) [
      | inl full ↦ rw full (record {
        once = IsMap-insert ip _ m r.once;
        own = λ later j k.
            insert-own later ip j _ (h ip) (h j) m (retain_later 60 now later (h ip) k)
              (r.own later j k)
            ∙ ap (retain (recent 60 later)) (itself ip j h);
      })
      | inr free ↦ rw free (record {
        once = IsMap-insert ip _ m r.once;
        own = λ later j k.
            insert-own later ip j _ (h ip ++ now ∷ []) (h j) m
              (pushed later now _ (h ip) (retain_later 60 now later (h ip) k)) (r.own later j k);
      })
    ]

pub check_sub_rate_limit-Refines :
    (now t : ℕ) (ip : Ip) (m : Map Ip (List ℕ)) (h : History)
    → now ≤ t
    → Refines now m h
    → Refines t (check_sub_rate_limit t ip m).1 (note t ip h)
unfolding check_sub_rate_limit
check_sub_rate_limit-Refines now t ip m h n r =
    let s = purge_if_large-Refines now t m h n r in
    rw (s.own t ip (omega arith)) (check_entry-Refines t ip (purge_if_large t m) h s)

pub check_sub_rate_limit-answer :
    (now t : ℕ) (ip : Ip) (m : Map Ip (List ℕ)) (h : History)
    → now ≤ t
    → Refines now m h
    → (check_sub_rate_limit t ip m).0 ≡ permits t ip h
unfolding check_sub_rate_limit check_entry
check_sub_rate_limit-answer now t ip m h n r =
    let s = purge_if_large-Refines now t m h n r in
    rw (s.own t ip (omega arith))
      (elim (Bool-cases (leb 10 (length (retain (recent 60 t) (h ip))))) [
        | inl full ↦ rw full refl
        | inr free ↦ rw free refl
      ])

run-Refines :
    (es : List (ℕ × Ip)) (start now : ℕ) (m : Map Ip (List ℕ)) (h : History)
    → InTime start es now
    → Refines start m h
    → Refines now (run es m) (granted es h)
unfolding run granted
run-Refines [] start now m h t r = record {
  once = r.once;
  own = λ later j k. r.own later j (omega (arith, t, k));
}
run-Refines ((t, ip) ∷ es) start now m h u r =
    run-Refines es t now (check_sub_rate_limit t ip m).1 (note t ip h) u.1
      (check_sub_rate_limit-Refines start t ip m h u.0 r)

pub nothing-Refines : Refines 0 [] nothing
unfolding lookup
nothing-Refines = record { once = tt; own = λ later j k. refl }

-- After requests that follow one another in time, whatever has been purged on the way, the limiter
-- grants an address one more exactly when fewer than ten of the grants that the address was ever given
-- lie in the last minute.
pub check_sub_rate_limit-permits :
    (es : List (ℕ × Ip)) (now : ℕ) (ip : Ip)
    → InTime 0 es now
    → (check_sub_rate_limit now ip (run es [])).0 ≡ permits now ip (granted es nothing)
check_sub_rate_limit-permits es now ip t =
    check_sub_rate_limit-answer now now ip (run es []) (granted es nothing) (omega arith)
      (run-Refines es 0 now [] nothing t nothing-Refines)
