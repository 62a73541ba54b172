-- ===== src/Tests/Link.antt =====
-- Links at concrete inputs.
use rxcore.Prelude.{ℕ, ◌≡◌, ◌≢◌, refl, [], ◌∷◌, some, false, arith, ◌==◌}
use rxcore.Text.{Str}
use rxcore.Text.Search.{Absent}
use rxcore.Link.{decode_percent, parse_vless_link}
use rxcore.Link.Links.{IsPart, link, parse_vless_link-link}

-- "a.b" and "u".
abbrev host : Str
host = 97 ∷ 46 ∷ 98 ∷ []

abbrev user : Str
user = 117 ∷ []

apart : (a b : ℕ) → (a == b) ≡ false → a ≢ b
apart a b h = ground arith

host-Absent : (b : ℕ) → (97 == b) ≡ false → (46 == b) ≡ false → (98 == b) ≡ false → Absent b host
host-Absent b h k l = (apart 97 b h, (apart 46 b k, (apart 98 b l, tt)))

host-IsPart : IsPart host
host-IsPart = (
  host-Absent 35 refl refl refl,
  host-Absent 63 refl refl refl,
  host-Absent 64 refl refl refl,
  host-Absent 58 refl refl refl,
)

user-IsPart : IsPart user
user-IsPart = (
  (apart 117 35 refl, tt),
  (apart 117 63 refl, tt),
  (apart 117 64 refl, tt),
  (apart 117 58 refl, tt),
)

parse_vless_link-link_example :
    parse_vless_link (link user host 443 (98 ∷ 46 ∷ 99 ∷ []) (77 ∷ 32 ∷ 35 ∷ []))
    ≡ some (record {
      name = 77 ∷ 32 ∷ 35 ∷ [];
      server = host;
      port = 443;
      uuid = user;
      sni = 98 ∷ 46 ∷ 99 ∷ [];
      allow_insecure = false;
    })
parse_vless_link-link_example =
    parse_vless_link-link user host 443 (98 ∷ 46 ∷ 99 ∷ []) (77 ∷ 32 ∷ 35 ∷ []) user-IsPart
      host-IsPart (omega arith) (omega arith, (omega arith, (omega arith, tt)))
      (omega arith, (omega arith, (omega arith, tt)))

-- The two bytes of an e with an acute accent become two characters.
accent : decode_percent (37 ∷ 67 ∷ 51 ∷ 37 ∷ 65 ∷ 57 ∷ []) ≡ 195 ∷ 169 ∷ []
unfolding decode_percent
accent = refl

-- Behind a percent sign, an e with an acute accent ends the escape, and what follows is an escape of
-- its own.
accent_taken : decode_percent (37 ∷ 233 ∷ 37 ∷ 52 ∷ 49 ∷ []) ≡ 37 ∷ 233 ∷ 65 ∷ []
unfolding decode_percent
accent_taken = refl

-- A euro sign comes twice, and so does an accent in the second place.
euro_twice : decode_percent (37 ∷ 8364 ∷ []) ≡ 37 ∷ 8364 ∷ 8364 ∷ []
unfolding decode_percent
euro_twice = refl

accent_twice : decode_percent (37 ∷ 52 ∷ 233 ∷ []) ≡ 37 ∷ 52 ∷ 233 ∷ 233 ∷ []
unfolding decode_percent
accent_twice = refl

-- A percent sign without digits stays.
percent : decode_percent (37 ∷ 122 ∷ 122 ∷ 37 ∷ []) ≡ 37 ∷ 122 ∷ 122 ∷ 37 ∷ []
unfolding decode_percent
percent = refl
