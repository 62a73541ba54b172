-- ===== src/Tests/Text.antt =====
-- The text of addresses at concrete inputs.
use rxcore.Prelude.{◌≡◌, refl, [], ◌∷◌, none, some}
use rxcore.Text.Ip.{v4, v6, parse_ip}

four : parse_ip (49 ∷ 48 ∷ 46 ∷ 48 ∷ 46 ∷ 48 ∷ 46 ∷ 50 ∷ 53 ∷ 53 ∷ []) ≡ some (v4 10 0 0 255)
unfolding parse_ip
four = refl

leading_zero : parse_ip (49 ∷ 48 ∷ 46 ∷ 48 ∷ 48 ∷ 46 ∷ 48 ∷ 46 ∷ 50 ∷ []) ≡ none
unfolding parse_ip
leading_zero = refl

loopback :
    parse_ip (58 ∷ 58 ∷ 49 ∷ [])
    ≡ some (v6 (0 ∷ 0 ∷ 0 ∷ 0 ∷ 0 ∷ 0 ∷ 0 ∷ 0 ∷ 0 ∷ 0 ∷ 0 ∷ 0 ∷ 0 ∷ 0 ∷ 0 ∷ 1 ∷ []))
unfolding parse_ip
loopback = refl

embedded :
    parse_ip (102 ∷ 58 ∷ 58 ∷ 49 ∷ 46 ∷ 50 ∷ 46 ∷ 51 ∷ 46 ∷ 52 ∷ [])
    ≡ some (v6 (0 ∷ 15 ∷ 0 ∷ 0 ∷ 0 ∷ 0 ∷ 0 ∷ 0 ∷ 0 ∷ 0 ∷ 0 ∷ 0 ∷ 1 ∷ 2 ∷ 3 ∷ 4 ∷ []))
unfolding parse_ip
embedded = refl
