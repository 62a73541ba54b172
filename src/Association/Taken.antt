-- ===== src/Association/Taken.antt =====
-- What happens when the 16-bit counter comes round to an association that is there.
use rxcore.Prelude.{ℕ, ◌≡◌, ◌≢◌, ◌∙◌, subst, none, some, inl, inr}
use rxcore.Prelude.Assoc.{lookup, nat_eq, bytes_eq, key_cases, lookup-insert_self, lookup-insert_ne}
use rxcore.Text.{Str}
use rxcore.Association.{
  ClientAssociation, Tables, create, get_or_create_by, get_or_create_association, find_association,
}
use rxcore.Association.Registry.{IsRegistry, none_lem}

-- If the id that is next is that of a client's association, a datagram of a new client takes that
-- association over: the first client's session keeps the id, and from then on a reply on the id goes
-- to the new client.
pub get_or_create_association_takes_over :
    (now later : ℕ) (client : Str) (socket : ℕ) (s : Tables) (a : ClientAssociation)
    → IsRegistry s
    → lookup client s.sessions ≡ none
    → lookup s.next_assoc_id s.assocs ≡ some a
    → let after = (get_or_create_association now client socket s).1 in
      (a.client_addr ≢ client)
      × (lookup a.client_addr after.sessions ≡ some s.next_assoc_id)
      × ((find_association later s.next_assoc_id after).0
          ≡ some (record { client_addr = client; socket = socket; last_active = now }))
unfolding get_or_create_association get_or_create_by create find_association
get_or_create_association_takes_over now later client socket s a h new live =
    let there : lookup a.client_addr s.sessions ≡ some s.next_assoc_id =
      h.back s.next_assoc_id a live in
    let differs : a.client_addr ≢ client = λ same.
      none_lem (lookup client s.sessions) new
        (subst (λ k. lookup k s.sessions ≡ some s.next_assoc_id) same there) in
    let entry : ClientAssociation = record {
      client_addr = client;
      socket = socket;
      last_active = now;
    } in
    rw new (
      differs,
      elim (key_cases a.client_addr client) [
        | inl same ↦ absurd (differs same)
        | inr apart ↦ lookup-insert_ne a.client_addr client s.next_assoc_id s.sessions apart ∙ there
      ],
      lookup-insert_self s.next_assoc_id entry s.assocs,
    )
