-- ===== src/Session.antt =====
-- The session cookies of the administration API: `encode_session_cookie` and
-- `decode_and_verify_session` of target_core/src/auth.rs. The crates ring (HMAC-SHA256) and base64 are
-- given by functions.
pub mod Cookie
pub mod Accepted
use rxcore.Prelude.{
  ℕ, ◌+◌, ◌-◌, ◌*◌, ◌/◌, ◌%◌, ◌^◌, List, [], ◌∷◌, ◌++◌, Option, none, some, Bool, not, ◌==◌, length,
  get_or, take, drop, if◌then◌else◌,
}
use rxcore.Prelude.Int.{ℤ, pos, negsuc, ltb_ℤ}
use rxcore.Prelude.Words.{u32_to_be_bytes, u32_from_be_bytes, to_i64}
use rxcore.Text.{Str}

-- `u64::to_be_bytes` and `from_be_bytes`; an i64 is its two's complement.
abbrev pub u64_to_be_bytes : ℕ → Str
u64_to_be_bytes n = u32_to_be_bytes (n / 2 ^ 32) ++ u32_to_be_bytes (n % 2 ^ 32)

unfoldable pub u64_from_be_bytes : Str → ℕ
u64_from_be_bytes (a ∷ b ∷ c ∷ d ∷ e ∷ f ∷ g ∷ h ∷ _) =
    u32_from_be_bytes a b c d * 2 ^ 32 + u32_from_be_bytes e f g h
u64_from_be_bytes _ = 0

abbrev pub from_i64 : ℤ → ℕ
from_i64 (pos n) = n % 2 ^ 64
from_i64 (negsuc n) = 2 ^ 64 - 1 - n % 2 ^ 64

abbrev pub i64_to_be_bytes : ℤ → Str
i64_to_be_bytes z = u64_to_be_bytes (from_i64 z)

unfoldable pub i64_from_be_bytes : Str → ℤ
unfolding u64_from_be_bytes to_i64
i64_from_be_bytes bytes = to_i64 (u64_from_be_bytes bytes)

pub record AdminSessionClaims : Type 0 where
  pub version : ℕ
  pub issued_at : ℤ
  pub expires_at : ℤ
  pub session_epoch : ℕ
  pub csrf_token : Str

-- `hmac::sign` and `hmac::verify`, and base64 for URLs without padding.
pub record Crates : Type 0 where
  pub sign : (key payload : Str) → Str
  pub verify : (key payload tag : Str) → Bool
  pub encode : Str → Str
  pub decode : Str → Option Str

pub data SessionError : Type 0 where
  not_base64 wrong_length bad_signature unsupported_version expired : SessionError

pub data SessionResult : Type 0 where
  ok : AdminSessionClaims → SessionResult
  error : SessionError → SessionResult

unfoldable pub claims_payload : AdminSessionClaims → Str
claims_payload claims =
    claims.version
    ∷ (i64_to_be_bytes claims.issued_at
        ++ (i64_to_be_bytes claims.expires_at
            ++ (u64_to_be_bytes claims.session_epoch ++ claims.csrf_token)))

unfoldable pub read_claims : Str → AdminSessionClaims
unfolding i64_from_be_bytes u64_from_be_bytes
read_claims payload = record {
  version = get_or payload 0 0;
  issued_at = i64_from_be_bytes (take 8 (drop 1 payload));
  expires_at = i64_from_be_bytes (take 8 (drop 9 payload));
  session_epoch = u64_from_be_bytes (take 8 (drop 17 payload));
  csrf_token = take 32 (drop 25 payload);
}

-- `now` in seconds since the epoch.
unfoldable pub check_claims : ℤ → AdminSessionClaims → SessionResult
check_claims now claims =
    if not (claims.version == 1)
    then error unsupported_version
    else if ltb_ℤ claims.expires_at now
    then error expired
    else ok claims

module _ (crates : Crates) where
  unfoldable pub encode_session_cookie : AdminSessionClaims → Str → Str
  unfolding claims_payload
  encode_session_cookie claims key_bytes =
      crates.encode (claims_payload claims ++ crates.sign key_bytes (claims_payload claims))

  unfoldable pub check_full : Str → ℤ → Option Str → SessionResult
  unfolding read_claims check_claims
  check_full key_bytes now none = error not_base64
  check_full key_bytes now (some full) =
      if not (length full == 89)
      then error wrong_length
      else if not (crates.verify key_bytes (take 57 full) (drop 57 full))
      then error bad_signature
      else check_claims now (read_claims (take 57 full))

  unfoldable pub decode_and_verify_session : Str → Str → ℤ → SessionResult
  unfolding check_full
  decode_and_verify_session cookie_val key_bytes now =
      check_full key_bytes now (crates.decode cookie_val)
