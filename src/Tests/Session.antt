-- ===== src/Tests/Session.antt =====
-- Session cookies at a concrete input, with a tag and an encoding that hide nothing.
use rxcore.Prelude.{◌≡◌, refl, [], some, replicate, length, true, arith}
use rxcore.Prelude.Loops.{eq_bytes, eq_bytes_refl}
use rxcore.Prelude.Int.{pos}
use rxcore.Text.{Str}
use rxcore.Session.{
  AdminSessionClaims, Crates, ok, error, expired, encode_session_cookie, decode_and_verify_session,
}
use rxcore.Session.Cookie.{IsClaims, decode_and_verify_session-encode_session_cookie}
use rxcore.Session.Accepted.{IsSession, decode_and_verify_session-IsSession}

abbrev crates : Crates
unfolding eq_bytes
crates = record {
  sign = λ key payload. replicate 32 7;
  verify = λ key payload tag. eq_bytes tag (replicate 32 7);
  encode = λ bytes. bytes;
  decode = λ bytes. some bytes;
}

abbrev claims : AdminSessionClaims
claims = record {
  version = 1;
  issued_at = pos 1000;
  expires_at = pos 4600;
  session_epoch = 3;
  csrf_token = replicate 32 9;
}

claims-IsClaims : IsClaims claims
claims-IsClaims = record {
  first_version = refl;
  issued_fits = omega arith;
  expires_fits = omega arith;
  epoch_fits = omega arith;
  token_len = refl;
}

verifies : (payload : Str) → crates.verify [] payload (crates.sign [] payload) ≡ true
unfolding crates
verifies payload = eq_bytes_refl (replicate 32 7)

lengths : (payload : Str) → length (crates.sign [] payload) ≡ 32
unfolding crates
lengths payload = refl

decodes : (bytes : Str) → crates.decode (crates.encode bytes) ≡ some bytes
unfolding crates
decodes bytes = refl

decode_and_verify_session-encode_session_cookie_example :
    decode_and_verify_session crates (encode_session_cookie crates claims []) [] (pos 2000)
    ≡ ok claims
decode_and_verify_session-encode_session_cookie_example =
    decode_and_verify_session-encode_session_cookie crates claims [] (pos 2000) decodes lengths
      verifies claims-IsClaims refl

decode_and_verify_session-IsSession_example :
    let cookie = encode_session_cookie crates claims [] in
    (full : Str) × (crates.decode cookie ≡ some full) × IsSession crates [] (pos 2000) claims full
decode_and_verify_session-IsSession_example =
    decode_and_verify_session-IsSession crates (encode_session_cookie crates claims []) []
      (pos 2000) claims decode_and_verify_session-encode_session_cookie_example

too_late :
    decode_and_verify_session crates (encode_session_cookie crates claims []) [] (pos 4601)
    ≡ error expired
unfolding decode_and_verify_session encode_session_cookie eq_bytes
too_late = refl
