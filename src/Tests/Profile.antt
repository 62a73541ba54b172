-- ===== src/Tests/Profile.antt =====
-- The validation of a Reality profile at concrete inputs.
use rxcore.Prelude.{◌≡◌, refl, [], ◌∷◌, none, some}
use rxcore.Prelude.Int.{pos}
use rxcore.Text.{Str}
use rxcore.Profile.{RealityProfile, Crates, odd_short_id, validate_and_normalize}
use rxcore.Profile.Again.{validate_and_normalize_twice}

abbrev key : Str
key =
    1 ∷ 2 ∷ 3 ∷ 4 ∷ 5 ∷ 6 ∷ 7 ∷ 8 ∷ 1 ∷ 2 ∷ 3 ∷ 4 ∷ 5 ∷ 6 ∷ 7 ∷ 8 ∷ 1 ∷ 2 ∷ 3 ∷ 4 ∷ 5 ∷ 6 ∷ 7 ∷ 8
    ∷ 1 ∷ 2 ∷ 3 ∷ 4 ∷ 5 ∷ 6 ∷ 7 ∷ 8 ∷ []

-- Every text is its own encoding.
abbrev plain : Crates
plain = record {
  decode_base64 = λ s. some s;
  decode_hex = λ s. some s;
  public_of = λ s. 80 ∷ s;
  encode_url = λ s. s;
}

-- The name " Ab " and the short id "AB ", in front of "a.b:443".
abbrev profile : RealityProfile
profile = record {
  id = 1 ∷ [];
  name = 112 ∷ [];
  inbound_tag = 116 ∷ [];
  listen = 48 ∷ 46 ∷ 48 ∷ 46 ∷ 48 ∷ 46 ∷ 48 ∷ [];
  port = 443;
  dest = 97 ∷ 46 ∷ 98 ∷ 58 ∷ 52 ∷ 52 ∷ 51 ∷ [];
  server_names = (32 ∷ 65 ∷ 98 ∷ 32 ∷ []) ∷ [];
  private_key = key;
  public_key = [];
  short_ids = (65 ∷ 66 ∷ 32 ∷ []) ∷ [];
  fingerprint = [];
  created_at = pos 0;
  updated_at = pos 0;
}

normalized : validate_and_normalize plain profile ≡ (
  record profile {
    server_names = (97 ∷ 98 ∷ []) ∷ [];
    short_ids = (97 ∷ 98 ∷ []) ∷ [];
    public_key = 80 ∷ key;
  },
  none,
)
unfolding validate_and_normalize
normalized = refl

-- The names are changed although a short id is refused.
half_changed : validate_and_normalize plain (record profile { short_ids = (65 ∷ []) ∷ [] }) ≡ (
  record profile { server_names = (97 ∷ 98 ∷ []) ∷ []; short_ids = (97 ∷ []) ∷ [] },
  some odd_short_id,
)
unfolding validate_and_normalize
half_changed = refl

validate_and_normalize_twice_example :
    validate_and_normalize plain (validate_and_normalize plain profile).0
    ≡ validate_and_normalize plain profile
unfolding validate_and_normalize
validate_and_normalize_twice_example = validate_and_normalize_twice plain profile refl
