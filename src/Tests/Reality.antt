-- ===== src/Tests/Reality.antt =====
-- The Reality server at concrete inputs.
use rxcore.Prelude.{◌≡◌, refl, List, [], ◌∷◌, ◌++◌, replicate, map, some, false, arith}
use rxcore.Prelude.Loops.{concat, eq_bytes}
use rxcore.Text.{Str}
use rxcore.ClientHello.Extensions.{server_name, key_share}
use rxcore.ClientHello.Wire.{Hello, encode}
use rxcore.Reality.{
  Crypto, RealityConfig, finished, read_client_hello, new_prefixed, accept, fall_back, handshake,
  name_matches_pattern,
}
use rxcore.Reality.Verify.{IsClient, accept-IsClient}
use rxcore.Reality.Fragments.{record_of, read_client_hello-record_of}

-- "a.b".
abbrev name : Str
name = 97 ∷ 46 ∷ 98 ∷ []

-- A key for every client, and session ids that are not sealed.
abbrev crypto : Crypto
crypto = record {
  derive = λ private_key public_key salt. some (replicate 32 1);
  decrypt = λ key nonce aad sealed. some sealed;
}

abbrev config : RealityConfig
config = record {
  private_key = replicate 32 2;
  short_ids = replicate 8 5 ∷ [];
  server_names = name ∷ [];
  dest = some name;
}

abbrev client : Hello
client = record {
  version = 3 ∷ 3 ∷ [];
  random = replicate 32 7;
  session_id = replicate 32 5;
  cipher_suites = 19 ∷ 1 ∷ [];
  compression_methods = 0 ∷ [];
  extensions = server_name name ∷ key_share (replicate 32 9) ∷ [];
}

abbrev sent : Str
sent = record_of (encode client) ++ 9 ∷ []

accepted :
    accept crypto config sent
    ≡ handshake (replicate 32 1) (new_prefixed (record_of (encode client)) (9 ∷ []))
unfolding accept eq_bytes
accepted = refl

accept-IsClient_example :
    (buffer : Str) × (payload : Str) × (rest : Str) × (read_client_hello sent
      ≡ finished buffer payload rest)
    × IsClient crypto config payload (replicate 32 1)
accept-IsClient_example =
    accept-IsClient crypto config sent (replicate 32 1)
      (new_prefixed (record_of (encode client)) (9 ∷ [])) accepted

-- A client that does not begin with a handshake.
abbrev alert : Str
alert = 21 ∷ 3 ∷ 1 ∷ 0 ∷ 0 ∷ 9 ∷ []

fell_back : accept crypto config alert ≡ fall_back name (21 ∷ 3 ∷ 1 ∷ 0 ∷ 0 ∷ []) (9 ∷ [])
unfolding accept
fell_back = refl

abbrev pieces : List Str
pieces = (1 ∷ 0 ∷ []) ∷ (0 ∷ 2 ∷ 9 ∷ 9 ∷ []) ∷ []

read_client_hello-record_of_example :
    let wire = concat (map record_of pieces) in
    read_client_hello (wire ++ 7 ∷ []) ≡ finished wire (concat pieces) (7 ∷ [])
read_client_hello-record_of_example =
    read_client_hello-record_of (1 ∷ 0 ∷ []) (7 ∷ []) ((0 ∷ 2 ∷ 9 ∷ 9 ∷ []) ∷ []) (omega arith)
      (omega arith, omega arith) ((omega arith, omega arith), tt) (refl, refl, omega arith)

deeper_names_differ : name_matches_pattern (120 ∷ 46 ∷ 121 ∷ 46 ∷ name) (42 ∷ 46 ∷ name) ≡ false
unfolding name_matches_pattern eq_bytes
deeper_names_differ = refl
