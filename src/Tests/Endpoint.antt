-- ===== src/Tests/Endpoint.antt =====
-- Endpoints and queries at concrete inputs.
use rxcore.Prelude.{◌≡◌, refl, [], ◌∷◌, ◌++◌, some, false, arith}
use rxcore.Prelude.Loops.{eq_bytes}
use rxcore.Text.{Str}
use rxcore.Text.Ip.{v4, v6}
use rxcore.Endpoint.{
  parse_endpoint, ok, error, ipv6_rejected, no_port, invalid_port, reject_ipv6_ip,
}
use rxcore.Endpoint.Decimal.{decimal}
use rxcore.Endpoint.Host.{IsHost, parse_endpoint-decimal}
use rxcore.Endpoint.Query.{IsLabel}

-- "a.b".
abbrev name : Str
name = 97 ∷ 46 ∷ 98 ∷ []

name-IsHost : IsHost name
name-IsHost = (
  refl,
  (
    λ e. absurd (omega (arith, e)),
    (λ e. absurd (omega (arith, e)), (λ e. absurd (omega (arith, e)), tt)),
  ),
  (
    λ e. absurd (omega (arith, e)),
    (λ e. absurd (omega (arith, e)), (λ e. absurd (omega (arith, e)), tt)),
  ),
  (
    λ e. absurd (omega (arith, e)),
    (λ e. absurd (omega (arith, e)), (λ e. absurd (omega (arith, e)), tt)),
  ),
)

parse_endpoint-decimal_example : parse_endpoint (name ++ 58 ∷ decimal 40000) 1080 ≡ ok name 40000
parse_endpoint-decimal_example =
    parse_endpoint-decimal name 40000 1080 name-IsHost (omega arith) (omega arith)

-- " a.b ", "a.b:", "a.b:65536" and "::1".
trimmed : parse_endpoint (32 ∷ (name ++ 32 ∷ [])) 1080 ≡ ok name 1080
unfolding parse_endpoint
trimmed = refl

portless : parse_endpoint (name ++ 58 ∷ []) 1080 ≡ error no_port
unfolding parse_endpoint
portless = refl

port_too_large : parse_endpoint (name ++ 58 ∷ 54 ∷ 53 ∷ 53 ∷ 51 ∷ 54 ∷ []) 1080 ≡ error invalid_port
unfolding parse_endpoint
port_too_large = refl

ipv6 : parse_endpoint (58 ∷ 58 ∷ 49 ∷ []) 1080 ≡ error ipv6_rejected
unfolding parse_endpoint
ipv6 = refl

-- ::ffff:1.2.3.4
mapped :
    reject_ipv6_ip
      (v6 (0 ∷ 0 ∷ 0 ∷ 0 ∷ 0 ∷ 0 ∷ 0 ∷ 0 ∷ 0 ∷ 0 ∷ 255 ∷ 255 ∷ 1 ∷ 2 ∷ 3 ∷ 4 ∷ []))
      false
    ≡ some (v4 1 2 3 4)
unfolding reject_ipv6_ip eq_bytes
mapped = refl

a-IsLabel : IsLabel (97 ∷ [])
a-IsLabel = (omega arith, omega arith, (λ e. absurd (omega (arith, e)), tt))

b-IsLabel : IsLabel (98 ∷ [])
b-IsLabel = (omega arith, omega arith, (λ e. absurd (omega (arith, e)), tt))
