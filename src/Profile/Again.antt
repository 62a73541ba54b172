-- ===== src/Profile/Again.antt =====
-- The validation of a profile that has been validated.
use rxcore.Prelude.{◌≡◌, refl, sym, ap, ◌∙◌, List, Option, none, some}
use rxcore.Text.{Str}
use rxcore.Profile.{
  RealityProfile, ConfigError, Crates, check_texts, normalize_names, normalize_ids, or_hex,
  check_key, derive_reality_public_key, with_public, with_key, with_ids, with_names, with_texts,
  validate_and_normalize,
}
use rxcore.Profile.Normal.{normalize_names_twice, normalize_ids_twice}

module _ (crates : Crates) where
  abbrev key_of : RealityProfile → Option Str
  key_of p = or_hex crates (crates.decode_base64 p.private_key) p.private_key

  record Passes (p : RealityProfile) (public : Str) : Type 0 where
    texts : check_texts p ≡ none
    names : (normalize_names p.server_names).1 ≡ none
    ids : (normalize_ids crates p.short_ids).1 ≡ none
    key : check_key crates (key_of p) ≡ none
    derived : derive_reality_public_key crates p.private_key ≡ some public

  abbrev named : RealityProfile → RealityProfile
  named p = record p { server_names = (normalize_names p.server_names).0 }

  abbrev identified : RealityProfile → RealityProfile
  identified p = record (named p) { short_ids = (normalize_ids crates p.short_ids).0 }

  -- Each stage in turn, on what it is given.
  names_step :
      (p : RealityProfile) (r : List Str × Option ConfigError)
      → r.1 ≡ none
      → with_names crates p r
        ≡ with_ids crates (record p { server_names = r.0 }) (normalize_ids crates p.short_ids)
  names_step p (names, none) h = refl
  names_step p (names, some e) h = cc

  ids_step :
      (p : RealityProfile) (r : List Str × Option ConfigError)
      → r.1 ≡ none
      → with_ids crates p r
        ≡ with_key crates (record p { short_ids = r.0 }) (check_key crates (key_of p))
  ids_step p (ids, none) h = refl
  ids_step p (ids, some e) h = cc

  texts_pass :
      (p : RealityProfile) (o : Option ConfigError) → (with_texts crates p o).1 ≡ none → o ≡ none
  texts_pass p none h = refl
  texts_pass p (some e) h = cc

  names_pass :
      (p : RealityProfile) (r : List Str × Option ConfigError)
      → (with_names crates p r).1 ≡ none
      → r.1 ≡ none
  names_pass p (names, none) h = refl
  names_pass p (names, some e) h = cc

  ids_pass :
      (p : RealityProfile) (r : List Str × Option ConfigError)
      → (with_ids crates p r).1 ≡ none
      → r.1 ≡ none
  ids_pass p (ids, none) h = refl
  ids_pass p (ids, some e) h = cc

  key_pass :
      (p : RealityProfile) (o : Option ConfigError) → (with_key crates p o).1 ≡ none → o ≡ none
  key_pass p none h = refl
  key_pass p (some e) h = cc

  public_pass :
      (p : RealityProfile) (o : Option Str)
      → (with_public crates p o).1 ≡ none
      → (key : Str) × (o ≡ some key)
  public_pass p none h = cc
  public_pass p (some key) h = (key, refl)

  Passes_lem :
      (p : RealityProfile)
      → (validate_and_normalize crates p).1 ≡ none
      → (public : Str) × Passes p public
  unfolding validate_and_normalize
  Passes_lem p h =
      let texts = texts_pass p (check_texts p) h in
      let named_h = sym (ap (λ o. (with_texts crates p o).1) texts) ∙ h in
      let names = names_pass p (normalize_names p.server_names) named_h in
      let ids_h =
        sym (ap (λ r. r.1) (names_step p (normalize_names p.server_names) names)) ∙ named_h in
      let ids = ids_pass (named p) (normalize_ids crates p.short_ids) ids_h in
      let key_h =
        sym (ap (λ r. r.1) (ids_step (named p) (normalize_ids crates p.short_ids) ids)) ∙ ids_h in
      let key = key_pass (identified p) (check_key crates (key_of p)) key_h in
      let public_h = sym (ap (λ o. (with_key crates (identified p) o).1) key) ∙ key_h in
      let (public, derived) =
        public_pass (identified p) (derive_reality_public_key crates p.private_key) public_h in
      (public, record { texts = texts; names = names; ids = ids; key = key; derived = derived })

  validated :
      (p : RealityProfile) (public : Str) (h : Passes p public)
      → validate_and_normalize crates p ≡ (record (identified p) { public_key = public }, none)
  unfolding validate_and_normalize
  validated p public h =
      ap (with_texts crates p) h.texts
      ∙ (names_step p (normalize_names p.server_names) h.names
          ∙ (ids_step (named p) (normalize_ids crates p.short_ids) h.ids
              ∙ (ap (with_key crates (identified p)) h.key
                  ∙ ap (with_public crates (identified p)) h.derived)))

  abbrev settled : RealityProfile → Str → RealityProfile
  settled p public = record (identified p) { public_key = public }

  settled-Passes :
      (p : RealityProfile) (public : Str) → Passes p public → Passes (settled p public) public
  unfolding check_texts
  settled-Passes p public h = record {
    texts = h.texts;
    names = ap (λ r. r.1) (normalize_names_twice p.server_names h.names) ∙ h.names;
    ids = ap (λ r. r.1) (normalize_ids_twice crates p.short_ids h.ids) ∙ h.ids;
    key = h.key;
    derived = h.derived;
  }

  settled_again :
      (p : RealityProfile) (public : Str)
      → Passes p public
      → validate_and_normalize crates (settled p public) ≡ (settled p public, none)
  settled_again p public h =
      validated (settled p public) public (settled-Passes p public h)
      ∙ (ap
            (λ names. (
              record (settled p public) {
                server_names = names;
                short_ids = (normalize_ids crates (settled p public).short_ids).0;
              },
              none,
            ))
            (ap (λ r. r.0) (normalize_names_twice p.server_names h.names))
          ∙ ap (λ ids. (record (settled p public) { short_ids = ids }, none))
              (ap (λ r. r.0) (normalize_ids_twice crates p.short_ids h.ids)))

-- Whatever the crates compute, a profile that the validation has accepted and changed is accepted
-- again, and nothing of it changes any more.
pub validate_and_normalize_twice :
    (crates : Crates) (p : RealityProfile)
    → (validate_and_normalize crates p).1 ≡ none
    → validate_and_normalize crates (validate_and_normalize crates p).0
      ≡ validate_and_normalize crates p
validate_and_normalize_twice crates p h =
    let (public, passes) = Passes_lem crates p h in
    let is = validated crates p public passes in
    ap (λ r. validate_and_normalize crates r.0) is ∙ (settled_again crates p public passes ∙ sym is)
