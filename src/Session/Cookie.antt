-- ===== src/Session/Cookie.antt =====
-- A session cookie gives back its claims.
use rxcore.Prelude.{
  ℕ, ◌+◌, ◌/◌, ◌%◌, ◌^◌, ◌<◌, ◌≡◌, refl, sym, ap, ◌∙◌, List, [], ◌++◌, some, true, false, not, ◌==◌,
  length, take, length-append, arith, append-nil,
}
use rxcore.Prelude.Loops.{take_append, drop_append}
use rxcore.Prelude.Int.{ℤ, pos, negsuc, ltb_ℤ}
use rxcore.Prelude.Words.{u32_from_be_bytes, to_i64}
use rxcore.Text.{Str}
use rxcore.Session.{
  u64_to_be_bytes, u64_from_be_bytes, from_i64, i64_to_be_bytes, i64_from_be_bytes,
  AdminSessionClaims, Crates, ok, claims_payload, read_claims, check_claims, check_full,
  encode_session_cookie, decode_and_verify_session,
}

u32_lem :
    (n : ℕ)
    → n < 2 ^ 32
    → u32_from_be_bytes (n / 16777216 % 256) (n / 65536 % 256) (n / 256 % 256) (n % 256) ≡ n
u32_lem n h = omega arith

u64_lem : (n : ℕ) (rest : Str) → n < 2 ^ 64 → u64_from_be_bytes (u64_to_be_bytes n ++ rest) ≡ n
unfolding u64_from_be_bytes
u64_lem n rest h =
    rw (u32_lem (n / 2 ^ 32) (omega arith), u32_lem (n % 2 ^ 32) (omega arith)) (omega arith)

-- The numbers of 64 bits with a sign.
abbrev pub IsI64 : ℤ → Type 0
IsI64 (pos n) = n < 2 ^ 63
IsI64 (negsuc n) = n < 2 ^ 63

two_complement : (z : ℤ) → IsI64 z → (to_i64 (from_i64 z) ≡ z) × (from_i64 z < 2 ^ 64)
unfolding to_i64
two_complement (pos n) h = (ground arith, omega arith)
two_complement (negsuc n) h = (ground arith, omega arith)

i64_lem : (z : ℤ) (rest : Str) → IsI64 z → i64_from_be_bytes (i64_to_be_bytes z ++ rest) ≡ z
unfolding i64_from_be_bytes
i64_lem z rest h =
    let (same, small) = two_complement z h in ap to_i64 (u64_lem (from_i64 z) rest small) ∙ same

-- Claims as the server makes them: version 1, numbers of 64 bits, a token of 32 bytes.
pub record IsClaims (claims : AdminSessionClaims) : Type 0 where
  pub first_version : claims.version ≡ 1
  pub issued_fits : IsI64 claims.issued_at
  pub expires_fits : IsI64 claims.expires_at
  pub epoch_fits : claims.session_epoch < 2 ^ 64
  pub token_len : length claims.csrf_token ≡ 32

take_all : {A : Type 0} (xs : List A) (n : ℕ) → length xs ≡ n → take n xs ≡ xs
take_all xs n h = ap (take n) (sym (append-nil xs)) ∙ take_append xs [] n (sym h)

read_lem :
    (claims : AdminSessionClaims) → IsClaims claims → read_claims (claims_payload claims) ≡ claims
unfolding read_claims claims_payload
read_lem claims h =
    rw
      (
        i64_lem claims.issued_at [] h.issued_fits,
        i64_lem claims.expires_at [] h.expires_fits,
        u64_lem claims.session_epoch [] h.epoch_fits,
        take_all claims.csrf_token 32 h.token_len,
      )
      refl

length_lem : (claims : AdminSessionClaims) → IsClaims claims → length (claims_payload claims) ≡ 57
unfolding claims_payload
length_lem claims h = omega (arith, h.token_len)

full_lem :
    (crates : Crates) (key : Str) (now : ℤ) (payload tag : Str)
    → length payload ≡ 57
    → length tag ≡ 32
    → crates.verify key payload tag ≡ true
    → check_full crates key now (some (payload ++ tag)) ≡ check_claims now (read_claims payload)
unfolding check_full
full_lem crates key now payload tag len tag_len valid = rw (whole_lem (length-append payload tag)) (
    rw (take_append payload tag 57 (sym len), drop_append payload tag 57 (sym len)) (rw valid refl))
  where
    whole_lem :
        length (payload ++ tag) ≡ length payload + length tag
        → not (length (payload ++ tag) == 89) ≡ false
    whole_lem e = ground arith

current_lem :
    (claims : AdminSessionClaims) (now : ℤ)
    → claims.version ≡ 1
    → ltb_ℤ claims.expires_at now ≡ false
    → check_claims now claims ≡ ok claims
unfolding check_claims
current_lem claims now v e = rw v (rw e refl)

-- If base64 decodes what it encodes, and a tag of HMAC has 32 bytes and verifies the payload that it was
-- made for, then the cookie of a session gives back its claims until they expire.
pub decode_and_verify_session-encode_session_cookie :
    (crates : Crates) (claims : AdminSessionClaims) (key : Str) (now : ℤ)
    → ((bytes : Str) → crates.decode (crates.encode bytes) ≡ some bytes)
    → ((payload : Str) → length (crates.sign key payload) ≡ 32)
    → ((payload : Str) → crates.verify key payload (crates.sign key payload) ≡ true)
    → IsClaims claims
    → ltb_ℤ claims.expires_at now ≡ false
    → decode_and_verify_session crates (encode_session_cookie crates claims key) key now ≡ ok claims
unfolding decode_and_verify_session encode_session_cookie
decode_and_verify_session-encode_session_cookie crates claims key now decodes tag_len verifies h e =
    let payload = claims_payload claims in
    let tag = crates.sign key payload in
    ap (check_full crates key now) (decodes (payload ++ tag))
    ∙ (full_lem crates key now payload tag (length_lem claims h) (tag_len payload)
          (verifies payload)
        ∙ (ap (check_claims now) (read_lem claims h) ∙ current_lem claims now h.first_version e))
