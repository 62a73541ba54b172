-- ===== src/Login/Window.antt =====
-- The limiter against the history of its use.
use rxcore.Prelude.{
  ℕ, ◌≤◌, ◌≡◌, refl, sym, ap, ◌∙◌, List, [], ◌∷◌, ◌++◌, Option, none, some, Bool, true, false, ◌&&◌,
  not, leb, length, arith, Bool-cases, Option-cases, inl, inr, if◌then◌else◌,
}
use rxcore.Prelude.Loops.{retain, eq_bytes, eq_bytes→eq}
use rxcore.Prelude.Assoc.{lookup, insert, bytes_eq, lookup-insert, lookup-remove}
use rxcore.Prelude.Window.{retain-append, retain_later}
use rxcore.Login.{
  Ip, LoginRateLimiter, new, in_window, is_allowed, or_empty, record_failure, record_success,
}
use rxcore.Login.History.{
  Event, asks, fails, succeeds, time_of, InTime, step, run, History, empty, note, history, permits,
}

-- From `now` on the limiter counts what the history counts.
pub record Refines (now : ℕ) (l : LoginRateLimiter) (h : History) : Type 0 where
  pub global :
      (later : ℕ)
      → now ≤ later
      → retain (in_window later) l.global_attempts ≡ retain (in_window later) h.all
  pub own :
      (later : ℕ) (ip : Ip)
      → now ≤ later
      → retain (in_window later) (or_empty (lookup ip l.attempts))
        ≡ retain (in_window later) (h.of ip)

own_cases :
    (now : ℕ) (ip : Ip) (l : LoginRateLimiter)
    → (is_allowed now ip l).0 ≡ (
        not (leb 20 (length (retain (in_window now) l.global_attempts)))
        && not (leb 5 (length (retain (in_window now) (or_empty (lookup ip l.attempts))))))
unfolding is_allowed
own_cases now ip l =
    elim (Bool-cases (leb 20 (length (retain (in_window now) l.global_attempts)))) [
      | inl e ↦ rw e refl
      | inr e ↦ elim (Option-cases (lookup ip l.attempts)) [
        | inl f ↦ rw (e, f) refl
        | inr (times, f) ↦ rw (e, f) refl
      ]
    ]

asks_global :
    (t : ℕ) (ip : Ip) (l : LoginRateLimiter)
    → (is_allowed t ip l).1.global_attempts ≡ retain (in_window t) l.global_attempts
unfolding is_allowed
asks_global t ip l = elim (Bool-cases (leb 20 (length (retain (in_window t) l.global_attempts)))) [
  | inl e ↦ rw e refl
  | inr e ↦ elim (Option-cases (lookup ip l.attempts)) [
    | inl f ↦ rw (e, f) refl
    | inr (times, f) ↦ rw (e, f) refl
  ]
]

-- Asking only purges what no later count sees.
asks_own :
    (t later : ℕ) (ip j : Ip) (l : LoginRateLimiter)
    → t ≤ later
    → retain (in_window later) (or_empty (lookup j (is_allowed t ip l).1.attempts))
      ≡ retain (in_window later) (or_empty (lookup j l.attempts))
unfolding is_allowed
asks_own t later ip j l h =
    elim (Bool-cases (leb 20 (length (retain (in_window t) l.global_attempts)))) [
      | inl e ↦ rw e refl
      | inr e ↦ elim (Option-cases (lookup ip l.attempts)) [
        | inl f ↦ rw (e, f) refl
        | inr (times, f) ↦ rw (e, f) (purged times f)
      ]
    ]
  where
    purged :
        (times : List ℕ)
        → lookup ip l.attempts ≡ some times
        → retain
            (in_window later)
            (or_empty (lookup j (insert ip (retain (in_window t) times) l.attempts)))
          ≡ retain (in_window later) (or_empty (lookup j l.attempts))
    purged times f =
        rw (lookup-insert j ip (retain (in_window t) times) l.attempts)
          (elim (Bool-cases (eq_bytes ip j)) [
            | inl e ↦ rw e (
                retain_later 300 t later times h
                ∙ ap (λ o. retain (in_window later) (or_empty o))
                    (sym f ∙ ap (λ k. lookup k l.attempts) (eq_bytes→eq ip j e)))
            | inr e ↦ rw e refl
          ])

own_after :
    (later : ℕ) (b : Bool) (x y z w : List ℕ)
    → retain (in_window later) x ≡ retain (in_window later) y
    → retain (in_window later) z ≡ retain (in_window later) w
    → retain (in_window later) (if b then x else z) ≡ retain (in_window later) (if b then y else w)
own_after later true x y z w h k = h
own_after later false x y z w h k = k

or_empty-if :
    (b : Bool) (x : List ℕ) (o : Option (List ℕ))
    → or_empty (if b then some x else o) ≡ (if b then x else or_empty o)
or_empty-if true x o = refl
or_empty-if false x o = refl

or_empty-if_none :
    (b : Bool) (o : Option (List ℕ))
    → or_empty (if b then none else o) ≡ (if b then [] else or_empty o)
or_empty-if_none true o = refl
or_empty-if_none false o = refl

pushed :
    (later t : ℕ) (x y : List ℕ)
    → retain (in_window later) x ≡ retain (in_window later) y
    → retain (in_window later) (x ++ t ∷ []) ≡ retain (in_window later) (y ++ t ∷ [])
pushed later t x y h =
    retain-append (in_window later) x (t ∷ [])
    ∙ (ap (λ l. l ++ retain (in_window later) (t ∷ [])) h
        ∙ sym (retain-append (in_window later) y (t ∷ [])))

step-Refines :
    (e : Event) (now : ℕ) (l : LoginRateLimiter) (h : History)
    → now ≤ time_of e
    → Refines now l h
    → Refines (time_of e) (step e l) (note e h)
unfolding step record_failure record_success note
step-Refines (asks t ip) now l h n r = record {
  global = λ later k.
      ap (retain (in_window later)) (asks_global t ip l)
      ∙ (retain_later 300 t later l.global_attempts k ∙ r.global later (omega (arith, n, k)));
  own = λ later j k. asks_own t later ip j l k ∙ r.own later j (omega (arith, n, k));
}
step-Refines (fails t ip) now l h n r = record {
  global = λ later k. pushed later t l.global_attempts h.all (r.global later (omega (arith, n, k)));
  own = λ later j k.
      let m : now ≤ later = omega (arith, n, k) in
      ap (λ o. retain (in_window later) (or_empty o)) (lookup-insert j ip _ l.attempts)
      ∙ (ap (retain (in_window later)) (or_empty-if (eq_bytes ip j) _ (lookup j l.attempts))
          ∙ own_after later (eq_bytes ip j) _ (h.of ip ++ t ∷ []) _ (h.of j)
              (pushed later t _ (h.of ip) (r.own later ip m)) (r.own later j m));
}
step-Refines (succeeds t ip) now l h n r = record {
  global = λ later k. r.global later (omega (arith, n, k));
  own = λ later j k.
      ap (λ o. retain (in_window later) (or_empty o)) (lookup-remove j ip l.attempts)
      ∙ (ap (retain (in_window later)) (or_empty-if_none (eq_bytes ip j) (lookup j l.attempts))
          ∙ own_after later (eq_bytes ip j) [] [] _ (h.of j) refl
              (r.own later j (omega (arith, n, k))));
}

run-Refines :
    (es : List Event) (start now : ℕ) (l : LoginRateLimiter) (h : History)
    → InTime start es now
    → Refines start l h
    → Refines now (run es l) (history es h)
unfolding run history
run-Refines [] start now l h t r = record {
  global = λ later k. r.global later (omega (arith, t, k));
  own = λ later j k. r.own later j (omega (arith, t, k));
}
run-Refines (e ∷ es) start now l h t r =
    run-Refines es (time_of e) now (step e l) (note e h) t.1 (step-Refines e start l h t.0 r)

new-Refines : (now : ℕ) → Refines now new empty
unfolding new lookup
new-Refines now = record { global = λ later k. refl; own = λ later ip k. refl }

-- After any events that follow one another in time, whatever has been purged on the way, the limiter
-- lets an address try exactly when fewer than 20 failures of anybody, and fewer than 5 of that address
-- since its last success, lie in the last 300 seconds.
pub is_allowed-permits :
    (es : List Event) (now : ℕ) (ip : Ip)
    → InTime 0 es now
    → (is_allowed now ip (run es new)).0 ≡ permits (history es empty) now ip
is_allowed-permits es now ip t =
    let r = run-Refines es 0 now new empty t (new-Refines 0) in
    own_cases now ip (run es new) ∙ rw (r.global now (omega arith), r.own now ip (omega arith)) refl
