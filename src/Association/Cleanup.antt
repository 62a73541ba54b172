-- ===== src/Association/Cleanup.antt =====
-- The two tables stay inverse to each other through any datagrams, replies and cleanups.
use rxcore.Prelude.{
  ℕ, ◌-◌, ◌≡◌, refl, sym, ap, subst, ◌∙◌, List, [], ◌∷◌, none, some, Bool, true, false, ltb, ◌⊎◌,
  inl, inr, Option-cases, Bool-cases,
}
use rxcore.Prelude.Assoc.{
  Map, Eq, lookup, remove, nat_eq, bytes_eq, IsMap, IsMap-remove, key_cases, lookup-insert_ne,
  lookup-remove_self, lookup-remove_ne, remove-none, beq_refl, ◌==◌,
}
use rxcore.Prelude.Loops.{All}
use rxcore.Text.{Str}
use rxcore.Association.{
  ClientAssociation, Tables, touch, create, get_or_create_by, get_or_create_association,
  find_association, idle, remove_idle, System, Event, datagram, reply, look, purge, step, run,
  starting,
}
use rxcore.Association.Registry.{
  IsRegistry, Found, touch-IsRegistry, create-IsRegistry, none_lem, some_lem,
}

-- Between the halves of a cleanup no session is taken away.
abbrev Listed : Tables → ℕ × Str → Type 0
Listed s (id, client) = lookup client s.sessions ≡ some id

-- An association that is found idle is in the tables.
idle_lem :
    (now : ℕ) (m : Map ℕ ClientAssociation) (s : Tables)
    → ((id : ℕ) (a : ClientAssociation)
        → lookup id m ≡ some a
        → lookup a.client_addr s.sessions ≡ some id)
    → IsMap m
    → All (Listed s) (idle now m)
unfolding idle lookup
idle_lem now [] s back once = tt
idle_lem now ((id, a) ∷ m) s back once =
    let rest =
      idle_lem now m s
        (λ j b at. elim (key_cases j id) [
          | inl same ↦
              absurd (none_lem (lookup id m) once.0 (subst (λ k. lookup k m ≡ some b) same at))
          | inr apart ↦ back j b (rw apart at)
        ])
        once.1 in
    let here : lookup a.client_addr s.sessions ≡ some id = back id a (rw (beq_refl id) refl) in
    elim (Bool-cases (ltb 60 (now - a.last_active))) [
      | inl old ↦ rw old (here, rest)
      | inr young ↦ rw young rest
    ]

apart_lem : {K : Type 0} ⦃e : Eq K⦄ {P : Type 0} (j k : K) → (j == k) ≡ false → j ≡ k → P
apart_lem j k apart same = absurd (true_lem (j == k) (rw same (beq_refl k)) apart)
  where
    true_lem : (b : Bool) → b ≡ true → ¬ (b ≡ false)
    true_lem b t f = cc

removed-IsRegistry :
    (id : ℕ) (client : Str) (s : Tables)
    → Found s (id, client)
    → IsRegistry s
    → IsRegistry (record s { assocs = remove id s.assocs; sessions = remove client s.sessions })
removed-IsRegistry id client s (inl there) h = record {
  once = IsMap-remove id s.assocs h.once;
  forth = λ other j at. elim (key_cases other client) [
    | inl same ↦ absurd (
        none_lem (lookup client (remove client s.sessions)) (lookup-remove_self client s.sessions)
          (subst (λ k. lookup k (remove client s.sessions) ≡ some j) same at))
    | inr apart ↦
        let at' = sym (lookup-remove_ne other client s.sessions apart) ∙ at in
        let (b, held, its) = h.forth other j at' in
        elim (key_cases j id) [
          | inl same ↦
              let (a, held_a, its_a) = h.forth client id there in
              let is : b ≡ a =
                some_lem (lookup id s.assocs) held_a
                  (subst (λ k. lookup k s.assocs ≡ some b) same held) in
              apart_lem client other apart (sym (sym its ∙ (ap (λ c. c.client_addr) is ∙ its_a)))
          | inr differs ↦ (b, lookup-remove_ne j id s.assocs differs ∙ held, its)
        ]
  ];
  back = λ j b at. elim (key_cases j id) [
    | inl same ↦ absurd (
        none_lem (lookup id (remove id s.assocs)) (lookup-remove_self id s.assocs)
          (subst (λ k. lookup k (remove id s.assocs) ≡ some b) same at))
    | inr differs ↦
        let at' = sym (lookup-remove_ne j id s.assocs differs) ∙ at in
        elim (key_cases b.client_addr client) [
          | inl same ↦ apart_lem id j differs (
              some_lem (lookup client s.sessions)
                (subst (λ k. lookup k s.sessions ≡ some j) same (h.back j b at')) there)
          | inr apart ↦ lookup-remove_ne b.client_addr client s.sessions apart ∙ h.back j b at'
        ]
  ];
}
removed-IsRegistry id client s (inr (gone, free)) h =
    rw (remove-none id s.assocs free, remove-none client s.sessions gone) h

lookup-remove-none :
    {K V : Type 0} ⦃e : Eq K⦄ (j k : K) (m : Map K V)
    → lookup j m ≡ none
    → lookup j (remove k m) ≡ none
lookup-remove-none j k m h = elim (key_cases j k) [
  | inl same ↦ rw same (lookup-remove_self k m)
  | inr apart ↦ lookup-remove_ne j k m apart ∙ h
]

-- Taking one of them out leaves the others found.
still_Found :
    (id : ℕ) (client : Str) (s : Tables)
    → Found s (id, client)
    → (x : ℕ × Str) → Found s x
    → Found (record s { assocs = remove id s.assocs; sessions = remove client s.sessions }) x
still_Found id client s f (j, other) (inr (gone, free)) =
    inr (lookup-remove-none other client s.sessions gone, lookup-remove-none j id s.assocs free)
still_Found id client s f (j, other) (inl g) = elim (key_cases other client) [
  | inr apart ↦ inl (lookup-remove_ne other client s.sessions apart ∙ g)
  | inl same ↦
      let at : lookup client s.sessions ≡ some j =
        subst (λ k. lookup k s.sessions ≡ some j) same g in
      elim f [
        | inl there ↦
            let is : j ≡ id = some_lem (lookup client s.sessions) there at in
            inr (
              rw same (lookup-remove_self client s.sessions),
              rw is (lookup-remove_self id s.assocs),
            )
        | inr (gone, _) ↦ absurd (none_lem (lookup client s.sessions) gone at)
      ]
]

All-map :
    {P Q : ℕ × Str → Type 0} (xs : List (ℕ × Str))
    → ((x : ℕ × Str) → P x → Q x)
    → All P xs
    → All Q xs
All-map [] f h = tt
All-map (x ∷ xs) f h = (f x h.0, All-map xs f h.1)

remove_idle-IsRegistry :
    (xs : List (ℕ × Str)) (s : Tables)
    → All (Found s) xs
    → IsRegistry s
    → IsRegistry (remove_idle xs s)
unfolding remove_idle
remove_idle-IsRegistry [] s f h = h
remove_idle-IsRegistry ((id, client) ∷ xs) s f h =
    remove_idle-IsRegistry xs
      (record s { assocs = remove id s.assocs; sessions = remove client s.sessions })
      (All-map xs (still_Found id client s f.0) f.1) (removed-IsRegistry id client s f.0 h)

Listed-Found : (s : Tables) (x : ℕ × Str) → Listed s x → Found s x
Listed-Found s (id, client) there = inl there

touch-Listed : (now id : ℕ) (s : Tables) (x : ℕ × Str) → Listed s x → Listed (touch now id s) x
unfolding touch
touch-Listed now id s (j, client) g = elim (Option-cases (lookup id s.assocs)) [
  | inl e ↦ rw e g
  | inr (a, e) ↦ rw e g
]

create-Listed :
    (now : ℕ) (client : Str) (socket : ℕ) (s : Tables)
    → lookup client s.sessions ≡ none
    → (x : ℕ × Str) → Listed s x
    → Listed (create now client socket s) x
unfolding create
create-Listed now client socket s new (j, other) g = elim (key_cases other client) [
  | inl same ↦
      absurd
        (none_lem (lookup client s.sessions) new (subst (λ k. lookup k s.sessions ≡ some j) same g))
  | inr apart ↦ lookup-insert_ne other client s.next_assoc_id s.sessions apart ∙ g
]

-- A datagram finds its client's session, or the id that is next is free.
abbrev pub IsFree : Event → System → Type 0
IsFree (datagram now client socket) s =
    ((id : ℕ) × (lookup client s.tables.sessions ≡ some id))
    ⊎ (lookup s.tables.next_assoc_id s.tables.assocs ≡ none)
IsFree _ s = Unit

abbrev pub AreFree : List Event → System → Type 0
AreFree [] s = Unit
AreFree (e ∷ es) s = IsFree e s × AreFree es (step e s)

abbrev Inv : System → Type 0
Inv s = IsRegistry s.tables × All (Listed s.tables) s.to_remove

kept_lem : (now id : ℕ) (s : System) → Inv s → Inv (record s { tables = touch now id s.tables })
kept_lem now id s (h, l) =
    (touch-IsRegistry now id s.tables h, All-map s.to_remove (touch-Listed now id s.tables) l)

datagram_lem :
    (now : ℕ) (client : Str) (socket : ℕ) (s : System)
    → IsFree (datagram now client socket) s
    → Inv s
    → Inv (step (datagram now client socket) s)
unfolding step get_or_create_association get_or_create_by
datagram_lem now client socket s free (h, l) =
    elim (Option-cases (lookup client s.tables.sessions)) [
      | inr (id, e) ↦ rw e (kept_lem now id s (h, l))
      | inl new ↦ rw new (elim free [
        | inl (id, e) ↦ absurd (none_lem (lookup client s.tables.sessions) new e)
        | inr unused ↦ (
          create-IsRegistry now client socket s.tables new unused h,
          All-map s.to_remove (create-Listed now client socket s.tables new) l,
        )
      ])
    ]

step_lem : (e : Event) (s : System) → IsFree e s → Inv s → Inv (step e s)
unfolding step find_association
step_lem (datagram now client socket) s free inv = datagram_lem now client socket s free inv
step_lem (reply now id) s free inv = kept_lem now id s inv
step_lem (look now) s free (h, l) = (h, idle_lem now s.tables.assocs s.tables h.back h.once)
step_lem purge s free (h, l) = (
  remove_idle-IsRegistry s.to_remove s.tables (All-map s.to_remove (Listed-Found s.tables) l) h,
  tt,
)

run_lem : (es : List Event) (s : System) → AreFree es s → Inv s → Inv (run es s)
unfolding run
run_lem [] s free inv = inv
run_lem (e ∷ es) s free inv = run_lem es (step e s) free.1 (step_lem e s free.0 inv)

-- After any datagrams, replies and halves of cleanups, in any order, the sessions and the associations
-- are inverse to each other: the id of a client's session is that of an association of this client,
-- and of no other, as long as the 16-bit counter never comes round to an association that is there.
pub run-IsRegistry : (es : List Event) → AreFree es starting → IsRegistry (run es starting).tables
unfolding lookup
run-IsRegistry es free =
    (run_lem es starting free
      (record { once = tt; forth = λ c j at. cc; back = λ j b at. cc }, tt)).0
