-- ===== src/Session/Accepted.antt =====
-- What is accepted as a session.
use rxcore.Prelude.{
  ◌≡◌, refl, ap, ◌∙◌, Option, none, some, Bool, true, false, not, ◌==◌, length, take, drop, ==_iff,
  if◌then◌else◌,
}
use rxcore.Prelude.Int.{ℤ, ltb_ℤ}
use rxcore.Text.{Str}
use rxcore.Session.{
  AdminSessionClaims, Crates, SessionResult, SessionError, not_base64, wrong_length, bad_signature,
  unsupported_version, expired, ok, error, read_claims, check_claims, check_full,
  decode_and_verify_session,
}

-- Bytes of the right length with a tag that verifies, and claims of version 1 that have not expired.
abbrev pub IsSession : Crates → Str → ℤ → AdminSessionClaims → Str → Type 0
IsSession crates key now claims full =
    (length full ≡ 89)
    × (crates.verify key (take 57 full) (drop 57 full) ≡ true)
    × (claims ≡ read_claims (take 57 full))
    × (claims.version ≡ 1)
    × (ltb_ℤ claims.expires_at now ≡ false)

-- What a guard says of a session that came through it.
guarded :
    (b : Bool) (x : SessionError) (r : SessionResult) (claims : AdminSessionClaims)
    → (if b then error x else r) ≡ ok claims
    → (b ≡ false) × (r ≡ ok claims)
guarded true x r claims h = cc
guarded false x r claims h = (refl, h)

not_lem : (b : Bool) → not b ≡ false → b ≡ true
not_lem true h = refl
not_lem false h = cc

claims_lem :
    (now : ℤ) (c claims : AdminSessionClaims)
    → check_claims now c ≡ ok claims
    → (claims ≡ c) × (c.version ≡ 1) × (ltb_ℤ c.expires_at now ≡ false)
unfolding check_claims
claims_lem now c claims h =
    let (version, h1) = guarded (not (c.version == 1)) unsupported_version _ claims h in
    let (current, h2) = guarded (ltb_ℤ c.expires_at now) expired (ok c) claims h1 in
    (ok_lem h2, (==_iff c.version 1).0 (not_lem (c.version == 1) version), current)
  where
    ok_lem : ok c ≡ ok claims → claims ≡ c
    ok_lem e = cc

full_lem :
    (crates : Crates) (key : Str) (now : ℤ) (claims : AdminSessionClaims) (o : Option Str)
    → check_full crates key now o ≡ ok claims
    → (full : Str) × (o ≡ some full) × IsSession crates key now claims full
unfolding check_full
full_lem crates key now claims none h = absurd (error_lem h)
  where
    error_lem : ¬ (error not_base64 ≡ ok claims)
    error_lem e = cc
full_lem crates key now claims (some full) h =
    let tested = crates.verify key (take 57 full) (drop 57 full) in
    let (len, h1) = guarded (not (length full == 89)) wrong_length _ claims h in
    let (valid, h2) = guarded (not tested) bad_signature _ claims h1 in
    let (same, version, current) = claims_lem now (read_claims (take 57 full)) claims h2 in
    (
      full,
      refl,
      (
        (==_iff (length full) 89).0 (not_lem (length full == 89) len),
        not_lem tested valid,
        same,
        ap (λ c. c.version) same ∙ version,
        ap (λ c. ltb_ℤ c.expires_at now) same ∙ current,
      ),
    )

-- A cookie is accepted only if base64 decodes it to 89 bytes of which the last 32 are a tag that
-- verifies the others; its claims are those that these say, of version 1 and not expired.
pub decode_and_verify_session-IsSession :
    (crates : Crates) (cookie key : Str) (now : ℤ) (claims : AdminSessionClaims)
    → decode_and_verify_session crates cookie key now ≡ ok claims
    → (full : Str) × (crates.decode cookie ≡ some full) × IsSession crates key now claims full
unfolding decode_and_verify_session
decode_and_verify_session-IsSession crates cookie key now claims h =
    full_lem crates key now claims (crates.decode cookie) h
