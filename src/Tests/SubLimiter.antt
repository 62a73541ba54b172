-- ===== src/Tests/SubLimiter.antt =====
-- The limit on subscriptions at concrete inputs.
use rxcore.Prelude.{ℕ, ◌≤◌, ◌≡◌, refl, List, [], ◌∷◌, some, true, false, length, arith}
use rxcore.Prelude.Loops.{retain, eq_bytes}
use rxcore.Prelude.Window.{recent}
use rxcore.Text.Ip.{IpAddr, v4}
use rxcore.Login.{Ip}
use rxcore.SubLimiter.{check_sub_rate_limit}
use rxcore.SubLimiter.Client.{Request, get_client_ip, is_trusted}
use rxcore.SubLimiter.Bound.{admitted, admitted_ten}
use rxcore.SubLimiter.Sliding.{permits}
use rxcore.SubLimiter.Granted.{run, granted, nothing, check_sub_rate_limit-permits}

abbrev ip : Ip
ip = 10 ∷ 0 ∷ 0 ∷ 7 ∷ []

abbrev requests : List (ℕ × Ip)
requests =
    (1, ip)
    ∷ (2, ip)
    ∷ (3, ip)
    ∷ (4, ip)
    ∷ (5, ip)
    ∷ (6, ip)
    ∷ (7, ip)
    ∷ (8, ip)
    ∷ (9, ip)
    ∷ (10, ip)
    ∷ []

refused : (check_sub_rate_limit 60 ip (run requests [])).0 ≡ false
unfolding run check_sub_rate_limit eq_bytes
refused = refl

granted_again : (check_sub_rate_limit 61 ip (run requests [])).0 ≡ true
unfolding run check_sub_rate_limit eq_bytes
granted_again = refl

check_sub_rate_limit-permits_example :
    (check_sub_rate_limit 60 ip (run requests [])).0 ≡ permits 60 ip (granted requests nothing)
check_sub_rate_limit-permits_example = check_sub_rate_limit-permits requests 60 ip (
  omega arith,
  (
    omega arith,
    (
      omega arith,
      (
        omega arith,
        (
          omega arith,
          (omega arith, (omega arith, (omega arith, (omega arith, (omega arith, omega arith))))),
        ),
      ),
    ),
  ),
)

abbrev stranger : IpAddr
stranger = v4 203 0 113 9

abbrev proxy : IpAddr
proxy = v4 10 0 0 1

-- The header names 7.7.7.7.
abbrev asks_at : ℕ → IpAddr → Request
asks_at t ip = record {
  time = t;
  peer_ip = ip;
  xff = some (55 ∷ 46 ∷ 55 ∷ 46 ∷ 55 ∷ 46 ∷ 55 ∷ 44 ∷ 49 ∷ []);
}

believed : get_client_ip (proxy ∷ []) proxy (asks_at 1 proxy).xff ≡ v4 7 7 7 7
unfolding get_client_ip
believed = refl

not_believed : get_client_ip (proxy ∷ []) stranger (asks_at 1 proxy).xff ≡ stranger
unfolding get_client_ip
not_believed = refl

abbrev both : List Request
both = asks_at 1 stranger ∷ asks_at 2 proxy ∷ asks_at 3 stranger ∷ []

admitted_twice : admitted (proxy ∷ []) stranger both [] ≡ 1 ∷ 3 ∷ []
unfolding admitted
admitted_twice = refl

untrusted : is_trusted (proxy ∷ []) stranger ≡ false
unfolding is_trusted
untrusted = refl

admitted_ten_example : length (retain (recent 60 3) (admitted (proxy ∷ []) stranger both [])) ≤ 10
admitted_ten_example =
    admitted_ten (proxy ∷ []) stranger both 3 untrusted
      (omega arith, (omega arith, (omega arith, omega arith)))
