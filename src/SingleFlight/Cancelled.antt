-- ===== src/SingleFlight/Cancelled.antt =====
-- A lookup that is dropped blocks its name.
use rxcore.Prelude.{
  ℕ, ◌≡◌, ◌≢◌, refl, sym, ap, ◌∙◌, subst, List, [], ◌∷◌, Option, none, some, inl, inr, arith,
  Option-cases,
}
use rxcore.Prelude.Assoc.{lookup, nat_eq, bytes_eq, lookup-insert_self, lookup-remove_self}
use rxcore.Text.{Str}
use rxcore.SingleFlight.{
  Flights, closed, follows, lead, enter_with, enter, looked_up, send, cancel, failed, see, follow,
  Event, called, resolved, sends, dropped, step, run, new,
}
use rxcore.SingleFlight.Lookups.{
  IsFlights, run-IsFlights, step-IsFlights, kept, unchanged, some_lem, none_lem,
}

-- The name has a closed channel that no leader holds.
record IsBlocked (channel : ℕ) (key : Str) (s : Flights) : Type 0 where
  held : lookup key s.inflight ≡ some channel
  dead : lookup channel s.channels ≡ some closed
  no_lookup : lookup channel s.looking ≡ none
  no_result : lookup channel s.sending ≡ none

differs :
    (c channel : ℕ) {A : Type 0} (o : ℕ → Option A) (a : A)
    → o channel ≡ none
    → o c ≡ some a
    → channel ≢ c
differs c channel o a e f same = none_lem (o channel) e (ap o same ∙ f)

none_kept : {A : Type 0} (o : Option A) → ((a : A) → ¬ (o ≡ some a)) → o ≡ none
none_kept none h = refl
none_kept (some a) h = absurd (h a refl)

lead_lem :
    (channel : ℕ) (key other : Str) (s : Flights)
    → lookup other s.inflight ≡ none
    → IsFlights s
    → IsBlocked channel key s
    → IsBlocked channel key (lead other s)
unfolding lead
lead_lem channel key other s new h b =
    let older : channel ≢ s.next =
      λ same. absurd (omega (arith, h.shared channel key b.held, same)) in
    record {
      held =
          unchanged key other s.next s.inflight (λ same.
            none_lem (lookup other s.inflight) new
              (subst (λ i. lookup i s.inflight ≡ some channel) same b.held))
          ∙ b.held;
      dead = unchanged channel s.next _ s.channels older ∙ b.dead;
      no_lookup = unchanged channel s.next other s.looking older ∙ b.no_lookup;
      no_result = b.no_result;
    }

step_lem :
    (channel : ℕ) (key : Str) (e : Event) (s : Flights)
    → IsFlights s
    → IsBlocked channel key s
    → IsBlocked channel key (step e s)
unfolding step enter enter_with looked_up send cancel
step_lem channel key (called other) s h b = elim (Option-cases (lookup other s.inflight)) [
  | inl e ↦
      subst (λ o. IsBlocked channel key (enter_with other o s).1) (sym e)
        (lead_lem channel key other s e h b)
  | inr (c, e) ↦ subst (λ o. IsBlocked channel key (enter_with other o s).1) (sym e) b
]
step_lem channel key (resolved c res) s h b = elim (Option-cases (lookup c s.looking)) [
  | inl e ↦ rw e b
  | inr (other, e) ↦
      let apart = differs c channel (λ i. lookup i s.looking) other b.no_lookup e in
      rw e (record {
        held =
            kept key other s.inflight (λ same. apart (
              some_lem (lookup key s.inflight) b.held
                (subst (λ i. lookup i s.inflight ≡ some c) (sym same) (h.looked_for c other e))))
            ∙ b.held;
        dead = b.dead;
        no_lookup = kept channel c s.looking apart ∙ b.no_lookup;
        no_result = unchanged channel c res s.sending apart ∙ b.no_result;
      })
]
step_lem channel key (sends c) s h b = elim (Option-cases (lookup c s.sending)) [
  | inl e ↦ rw e b
  | inr (res, e) ↦
      let apart = differs c channel (λ i. lookup i s.sending) res b.no_result e in
      rw e (record {
        held = b.held;
        dead = unchanged channel c _ s.channels apart ∙ b.dead;
        no_lookup = b.no_lookup;
        no_result = kept channel c s.sending apart ∙ b.no_result;
      })
]
step_lem channel key (dropped c) s h b = elim (Option-cases (lookup c s.looking)) [
  | inl e ↦ rw e b
  | inr (other, e) ↦
      let apart = differs c channel (λ i. lookup i s.looking) other b.no_lookup e in
      rw e (record {
        held = b.held;
        dead = unchanged channel c _ s.channels apart ∙ b.dead;
        no_lookup = kept channel c s.looking apart ∙ b.no_lookup;
        no_result = b.no_result;
      })
]

run_lem :
    (channel : ℕ) (key : Str) (es : List Event) (s : Flights)
    → IsFlights s
    → IsBlocked channel key s
    → IsBlocked channel key (run es s)
unfolding run
run_lem channel key [] s h b = b
run_lem channel key (e ∷ es) s h b =
    run_lem channel key es (step e s) (step-IsFlights e s h) (step_lem channel key e s h b)

drop_lem :
    (channel : ℕ) (key : Str) (s : Flights)
    → lookup channel s.looking ≡ some key
    → IsFlights s
    → IsBlocked channel key (step (dropped channel) s)
unfolding step cancel
drop_lem channel key s e h = rw e (record {
  held = h.looked_for channel key e;
  dead = lookup-insert_self channel closed s.channels;
  no_lookup = lookup-remove_self channel s.looking;
  no_result = h.apart channel key e;
})

-- Once a caller is dropped while it looks a name up, whatever happens afterwards, every later call for
-- this name follows the dropped channel and fails: the name is never looked up again.
pub dropped_blocks :
    (es later : List Event) (channel : ℕ) (key : Str)
    → lookup channel (run es new).looking ≡ some key
    → let s = run later (step (dropped channel) (run es new)) in
      (enter key s ≡ (follows channel, s)) × (follow channel s ≡ failed)
unfolding enter enter_with follow
dropped_blocks es later channel key e =
    let h = run-IsFlights es in
    let b =
      run_lem channel key later (step (dropped channel) (run es new))
        (step-IsFlights (dropped channel) (run es new) h) (drop_lem channel key (run es new) e h) in
    let s = run later (step (dropped channel) (run es new)) in
    (ap (λ o. enter_with key o s) b.held, ap see b.dead)
