-- ===== src/Tests/Hello.antt =====
-- The readers of a ClientHello at concrete inputs.
use rxcore.Prelude.{◌≡◌, ◌≢◌, refl, replicate, [], ◌∷◌, true, arith}
use rxcore.Text.{Str}
use rxcore.Text.Utf8.{is_utf8}
use rxcore.ClientHello.{hello, error, out_of_fuel, parse_client_hello}
use rxcore.ClientHello.Total.{parse_client_hello_total}
use rxcore.ClientHello.Extensions.{server_name, key_share, other}
use rxcore.ClientHello.Wire.{Hello, IsHello, encode, info_of, parse_client_hello-encode}
use rxcore.Sniffer.{found, parse_sni_from_bytes}
use rxcore.Sniffer.Answers.{IsAnswer}
use rxcore.Sniffer.Bounds.{parse_sni_from_bytes-IsAnswer}

-- "a.b".
abbrev name : Str
name = 97 ∷ 46 ∷ 98 ∷ []

name-is_utf8 : is_utf8 name ≡ true
unfolding is_utf8
name-is_utf8 = refl

abbrev client : Hello
client = record {
  version = 3 ∷ 3 ∷ [];
  random = replicate 32 7;
  session_id = 1 ∷ 2 ∷ [];
  cipher_suites = 19 ∷ 1 ∷ [];
  compression_methods = 0 ∷ [];
  extensions = other 16 (5 ∷ []) ∷ server_name name ∷ key_share (replicate 32 9) ∷ [];
}

client-IsHello : IsHello client
client-IsHello = record {
  version_len = refl;
  random_len = refl;
  session_id_len = omega arith;
  suites_len = omega arith;
  methods_len = omega arith;
  extensions_len = omega arith;
  extensions_fit = (
    (omega arith, (λ e. absurd (omega (arith, e))), (λ e. absurd (omega (arith, e))), omega arith),
    ((omega arith, name-is_utf8), (refl, tt)),
  );
}

parse_client_hello-encode_example : parse_client_hello (encode client) ≡ hello (info_of client)
parse_client_hello-encode_example = parse_client_hello-encode client client-IsHello

-- The sniffer finds the name in the same message, in one record.
sniffed : parse_sni_from_bytes (22 ∷ 3 ∷ 1 ∷ 0 ∷ 108 ∷ encode client) ≡ found name
unfolding parse_sni_from_bytes
sniffed = refl

parse_client_hello_total_example : parse_client_hello (encode client) ≢ error out_of_fuel
parse_client_hello_total_example = parse_client_hello_total (encode client)

-- A record whose extensions claim more than there is.
abbrev cut : Str
cut = 22 ∷ 3 ∷ 1 ∷ 0 ∷ 5 ∷ 1 ∷ 0 ∷ 0 ∷ 1 ∷ 3 ∷ []

parse_sni_from_bytes-IsAnswer_example : IsAnswer cut (parse_sni_from_bytes cut)
parse_sni_from_bytes-IsAnswer_example = parse_sni_from_bytes-IsAnswer cut
