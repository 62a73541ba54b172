-- ===== src/Reality/Verify.antt =====
-- Whom the Reality server accepts.
use rxcore.Prelude.{
  ℕ, ◌≡◌, refl, sym, ap, subst, ◌∙◌, List, [], ◌∷◌, Option, none, some, true, false, not, ltb, ◌==◌,
  length, take, drop, arith, inl, inr, ◌⊎◌, Bool-cases, Option-cases, if_else_some, if_then_some,
}
use rxcore.Prelude.Loops.{eq_bytes, eq_bytes→eq}
use rxcore.Text.{Str}
use rxcore.ClientHello.{ClientHelloInfo, HelloResult, hello, not_hello, error, parse_client_hello}
use rxcore.Reality.{
  ReadTask, finished, closed_early, invalid_length, too_large, read_client_hello, Crypto,
  RealityConfig, PrefixedStream, handshake, authenticated, proceed, accept_read, accept, key_of,
  sni_valid, verify_client_reality, check_public_key, check_key, check_opened, short_id_at,
  clear_at,
}

-- The short id stands in the opened session id at one of its two places.
abbrev pub HasShortId : List (List ℕ) → List ℕ → Type 0
HasShortId [] buf = ⊥
HasShortId (sid ∷ sids) buf =
    (sid ≡ take 8 (drop 4 buf)) ⊎ (sid ≡ take 8 (drop 8 buf)) ⊎ HasShortId sids buf

none_lem {ℓ} : {A : Type ℓ} {a : A} → ¬ (◌≡◌ {A = Option A} none (some a))
none_lem h = cc

short_id_at-HasShortId :
    (sids : List (List ℕ)) (buf : List ℕ) (offset : ℕ)
    → short_id_at sids buf ≡ some offset
    → HasShortId sids buf
unfolding short_id_at
short_id_at-HasShortId [] buf offset h = absurd (none_lem h)
short_id_at-HasShortId (sid ∷ sids) buf offset h =
    elim (Bool-cases (eq_bytes sid (take 8 (drop 4 buf)))) [
      | inl e ↦ inl (eq_bytes→eq sid (take 8 (drop 4 buf)) e)
      | inr e ↦ elim (Bool-cases (eq_bytes sid (take 8 (drop 8 buf)))) [
        | inl f ↦ inr (inl (eq_bytes→eq sid (take 8 (drop 8 buf)) f))
        | inr f ↦ inr (inr (short_id_at-HasShortId sids buf offset (later_lem e f h)))
      ]
    ]
  where
    later_lem :
        eq_bytes sid (take 8 (drop 4 buf)) ≡ false
        → eq_bytes sid (take 8 (drop 8 buf)) ≡ false
        → short_id_at (sid ∷ sids) buf ≡ some offset
        → short_id_at sids buf ≡ some offset
    later_lem e f h = ground arith

pair_lem :
    (offset place : ℕ) (auth_key key : List ℕ)
    → ◌≡◌ {A = Option (ℕ × List ℕ)} (some (place, auth_key)) (some (offset, key))
    → auth_key ≡ key
pair_lem offset place auth_key key h = cc

key_lem :
    (o : Option (ℕ × List ℕ)) (key : List ℕ)
    → key_of o ≡ some key
    → (offset : ℕ) × (o ≡ some (offset, key))
key_lem none key h = absurd (none_lem h)
key_lem (some (offset, k)) key h = (offset, cc)

module _ (crypto : Crypto) (config : RealityConfig) where
  -- What a client has shown: a name of the configuration, and a session id that opens, under the key
  -- that its public key and the server's private key give, to something with a short id of the
  -- configuration.
  pub record IsClient (payload : Str) (key : List ℕ) : Type 0 where
    pub info : ClientHelloInfo
    pub public_key : List ℕ
    pub opened : List ℕ
    pub is_hello : parse_client_hello payload ≡ hello info
    pub is_valid : sni_valid config info.server_name ≡ true
    pub has_session_id : length info.session_id ≡ 32
    pub has_public_key : info.public_key ≡ some public_key
    pub derived :
        crypto.derive config.private_key public_key (take 20 info.client_random) ≡ some key
    pub decrypted :
        crypto.decrypt key
          (take 12 (drop 20 info.client_random))
          (clear_at info.session_id_offset payload)
          info.session_id
        ≡ some opened
    pub has_short_id : HasShortId config.short_ids opened

  opened_lem :
      (auth_key key : List ℕ) (o : Option (List ℕ)) (offset : ℕ)
      → check_opened config auth_key o ≡ some (offset, key)
      → (opened : List ℕ) × (o ≡ some opened)
        × HasShortId config.short_ids opened
        × (auth_key ≡ key)
  unfolding check_opened
  opened_lem auth_key key none offset h = absurd (none_lem h)
  opened_lem auth_key key (some buf) offset h =
      elim (Option-cases (short_id_at config.short_ids buf)) [
        | inl e ↦
            absurd (
              none_lem (sym (rw e refl) ∙ (if_else_some (ltb (length buf) 16) _ (offset, key) h).1))
        | inr (place, e) ↦ (
          buf,
          refl,
          short_id_at-HasShortId config.short_ids buf place e,
          pair_lem offset place auth_key key
              (sym (rw e refl) ∙ (if_else_some (ltb (length buf) 16) _ (offset, key) h).1),
        )
      ]

  -- The salt, the nonce and the authenticated data of a ClientHello.
  abbrev decrypt_with : ClientHelloInfo → Str → List ℕ → Option (List ℕ)
  decrypt_with info payload key =
      crypto.decrypt key (take 12 (drop 20 info.client_random))
        (clear_at info.session_id_offset payload) info.session_id

  key_checked :
      (info : ClientHelloInfo) (payload key : List ℕ) (o : Option (List ℕ)) (offset : ℕ)
      → check_key crypto config info payload o ≡ some (offset, key)
      → (opened : List ℕ) × (o ≡ some key)
        × (decrypt_with info payload key ≡ some opened)
        × HasShortId config.short_ids opened
  unfolding check_key
  key_checked info payload key none offset h = absurd (none_lem h)
  key_checked info payload key (some auth_key) offset h =
      let (opened, decrypted, has, same) =
        opened_lem auth_key key (decrypt_with info payload auth_key) offset h in
      (
        opened,
        ap (λ k. some k) same,
        subst (λ k. decrypt_with info payload k ≡ some opened) same decrypted,
        has,
      )

  public_key_checked :
      (info : ClientHelloInfo) (payload key : List ℕ) (o : Option (List ℕ)) (offset : ℕ)
      → check_public_key crypto config info payload o ≡ some (offset, key)
      → (public_key : List ℕ) × (o ≡ some public_key)
        × (check_key crypto config info payload
              (crypto.derive config.private_key public_key (take 20 info.client_random))
            ≡ some (offset, key))
  unfolding check_public_key
  public_key_checked info payload key none offset h = absurd (none_lem h)
  public_key_checked info payload key (some pk) offset h =
      (pk, refl, (if_else_some (not (length pk == 32)) _ (offset, key) h).1)

  verified_lem :
      (info : ClientHelloInfo) (payload key : List ℕ) (offset : ℕ)
      → parse_client_hello payload ≡ hello info
      → sni_valid config info.server_name ≡ true
      → verify_client_reality crypto config info payload ≡ some (offset, key)
      → IsClient payload key
  unfolding verify_client_reality
  verified_lem info payload key offset is_hello valid h =
      let (is_32, h1) = if_else_some (not (length info.session_id == 32)) _ (offset, key) h in
      let (pk, has, h2) = public_key_checked info payload key info.public_key offset h1 in
      let (opened, derived, decrypted, has_short_id) =
        key_checked info payload key
          (crypto.derive config.private_key pk (take 20 info.client_random)) offset h2 in
      record {
        info = info;
        public_key = pk;
        opened = opened;
        is_hello = is_hello;
        is_valid = valid;
        has_session_id = ground arith;
        has_public_key = has;
        derived = derived;
        decrypted = decrypted;
        has_short_id = has_short_id;
      }

  authenticated_lem :
      (payload key : List ℕ) (r : HelloResult)
      → parse_client_hello payload ≡ r
      → authenticated crypto config r payload ≡ some key
      → IsClient payload key
  unfolding authenticated
  authenticated_lem payload key (hello info) e h =
      let (valid, h1) = if_then_some (sni_valid config info.server_name) _ key h in
      let (offset, h2) = key_lem (verify_client_reality crypto config info payload) key h1 in
      verified_lem info payload key offset e valid h2
  authenticated_lem payload key not_hello e h = absurd (none_lem h)
  authenticated_lem payload key (error x) e h = absurd (none_lem h)

  proceed_lem :
      (buffer rest : Str) (o : Option (List ℕ)) (key : List ℕ) (s : PrefixedStream)
      → proceed crypto config buffer rest o ≡ handshake key s
      → o ≡ some key
  unfolding proceed
  proceed_lem buffer rest (some k) key s h = cc
  proceed_lem buffer rest none key s h = ground arith

  accept_read_lem :
      (r : ReadTask) (key : List ℕ) (s : PrefixedStream)
      → accept_read crypto config r ≡ handshake key s
      → (buffer : Str) × (payload : Str) × (rest : Str) × (r ≡ finished buffer payload rest)
        × IsClient payload key
  unfolding accept_read
  accept_read_lem (finished buffer payload rest) key s h = (
    buffer,
    payload,
    rest,
    refl,
    authenticated_lem payload key (parse_client_hello payload) refl (
        proceed_lem buffer rest (authenticated crypto config (parse_client_hello payload) payload)
          key s h),
  )
  accept_read_lem closed_early key s h = cc
  accept_read_lem invalid_length key s h = cc
  accept_read_lem too_large key s h = cc

  -- Only a client goes on to the TLS handshake whose ClientHello names one of the server names, if
  -- there are any, and whose session id of 32 bytes opens, under the key of the handshake, which its
  -- public key and the server's private key give, to something that has a short id of the
  -- configuration.
  pub accept-IsClient :
      (input : Str) (key : List ℕ) (s : PrefixedStream)
      → accept crypto config input ≡ handshake key s
      → (buffer : Str) × (payload : Str) × (rest : Str) × (read_client_hello input
          ≡ finished buffer payload rest)
        × IsClient payload key
  unfolding accept
  accept-IsClient input key s h = accept_read_lem (read_client_hello input) key s h
