-- ===== src/Association/Registry.antt =====
-- The two tables stay inverse to each other, with the cleanup's halves anywhere between the datagrams.
use rxcore.Prelude.{ℕ, ◌≡◌, sym, ap, subst, ◌∙◌, Option, none, some, ◌⊎◌, inl, inr, Option-cases}
use rxcore.Prelude.Assoc.{
  lookup, insert, nat_eq, bytes_eq, IsMap, IsMap-insert, key_cases, lookup-insert_self,
  lookup-insert_ne,
}
use rxcore.Text.{Str}
use rxcore.Association.{ClientAssociation, Tables, touch, create}

-- A session's id is that of an association of its client, and the other way round.
pub record IsRegistry (s : Tables) : Type 0 where
  pub once : IsMap s.assocs
  pub forth :
      (client : Str) (id : ℕ)
      → lookup client s.sessions ≡ some id
      → (a : ClientAssociation) × (lookup id s.assocs ≡ some a) × (a.client_addr ≡ client)
  pub back :
      (id : ℕ) (a : ClientAssociation)
      → lookup id s.assocs ≡ some a
      → lookup a.client_addr s.sessions ≡ some id

-- What the cleanup has found and not yet removed: it is there still, or both halves are gone.
abbrev pub Found : Tables → ℕ × Str → Type 0
Found s (id, client) =
    (lookup client s.sessions ≡ some id)
    ⊎ ((lookup client s.sessions ≡ none) × (lookup id s.assocs ≡ none))

pub none_lem {ℓ} : {A : Type ℓ} {a : A} (o : Option A) → o ≡ none → ¬ (o ≡ some a)
none_lem o e f = cc

pub some_lem {ℓ} : {A : Type ℓ} {a b : A} (o : Option A) → o ≡ some a → o ≡ some b → b ≡ a
some_lem o e f = cc

touched :
    (now id : ℕ) (s : Tables) (a : ClientAssociation)
    → lookup id s.assocs ≡ some a
    → IsRegistry s
    → IsRegistry (record s { assocs = insert id (record a { last_active = now }) s.assocs })
touched now id s a e h = record {
  once = IsMap-insert id (record a { last_active = now }) s.assocs h.once;
  forth = λ client j at. elim (key_cases j id) [
    | inl same ↦
        let (b, there, its) = h.forth client j at in
        let is_a : b ≡ a =
          some_lem (lookup id s.assocs) e (subst (λ k. lookup k s.assocs ≡ some b) same there) in
        (
          record a { last_active = now },
          rw same (lookup-insert_self id (record a { last_active = now }) s.assocs),
          ap (λ c. c.client_addr) (sym is_a) ∙ its,
        )
    | inr apart ↦
        let (b, there, its) = h.forth client j at in
        (b, lookup-insert_ne j id (record a { last_active = now }) s.assocs apart ∙ there, its)
  ];
  back = λ j b at. elim (key_cases j id) [
    | inl same ↦
        let is_b : b ≡ record a { last_active = now } =
          some_lem (lookup id (insert id (record a { last_active = now }) s.assocs))
            (lookup-insert_self id (record a { last_active = now }) s.assocs)
            (subst (λ k. lookup k (insert id (record a { last_active = now }) s.assocs) ≡ some b)
              same at) in
        rw (same, is_b) (h.back id a e)
    | inr apart ↦
        h.back j b
          (sym (lookup-insert_ne j id (record a { last_active = now }) s.assocs apart) ∙ at)
  ];
}

pub touch-IsRegistry : (now id : ℕ) (s : Tables) → IsRegistry s → IsRegistry (touch now id s)
unfolding touch
touch-IsRegistry now id s h = elim (Option-cases (lookup id s.assocs)) [
  | inl e ↦ rw e h
  | inr (a, e) ↦ rw e (touched now id s a e h)
]

pub create-IsRegistry :
    (now : ℕ) (client : Str) (socket : ℕ) (s : Tables)
    → lookup client s.sessions ≡ none
    → lookup s.next_assoc_id s.assocs ≡ none
    → IsRegistry s
    → IsRegistry (create now client socket s)
unfolding create
create-IsRegistry now client socket s new free h =
    let id = s.next_assoc_id in
    let a : ClientAssociation = record {
      client_addr = client;
      socket = socket;
      last_active = now;
    } in
    record {
      once = IsMap-insert id a s.assocs h.once;
      forth = λ other j at. elim (key_cases other client) [
        | inl same ↦
            let is_id : j ≡ id =
              some_lem (lookup client (insert client id s.sessions))
                (lookup-insert_self client id s.sessions)
                (subst (λ k. lookup k (insert client id s.sessions) ≡ some j) same at) in
            (a, rw is_id (lookup-insert_self id a s.assocs), sym same)
        | inr apart ↦
            let (b, there, its) =
              h.forth other j (sym (lookup-insert_ne other client id s.sessions apart) ∙ at) in
            elim (key_cases j id) [
              | inl same ↦ absurd (
                  none_lem (lookup id s.assocs) free
                    (subst (λ k. lookup k s.assocs ≡ some b) same there))
              | inr differs ↦ (b, lookup-insert_ne j id a s.assocs differs ∙ there, its)
            ]
      ];
      back = λ j b at. elim (key_cases j id) [
        | inl same ↦
            let is_a : b ≡ a =
              some_lem (lookup id (insert id a s.assocs)) (lookup-insert_self id a s.assocs)
                (subst (λ k. lookup k (insert id a s.assocs) ≡ some b) same at) in
            rw (same, is_a) (lookup-insert_self client id s.sessions)
        | inr differs ↦
            let there = sym (lookup-insert_ne j id a s.assocs differs) ∙ at in
            elim (key_cases b.client_addr client) [
              | inl same ↦ absurd (
                  none_lem (lookup client s.sessions) new
                    (subst (λ k. lookup k s.sessions ≡ some j) same (h.back j b there)))
              | inr apart ↦
                  lookup-insert_ne b.client_addr client id s.sessions apart ∙ h.back j b there
            ]
      ];
    }
