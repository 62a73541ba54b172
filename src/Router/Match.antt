-- ===== src/Router/Match.antt =====
-- `match_domain_suffix`, `matches_rule_domain`, `matches_cidr` and `is_private_or_local` of
-- target_core/src/router/mod.rs. The crates `regex` and `ipnet` are parameters. The cache of
-- compiled expressions returns what it was given to keep, and is not part of the model.

use rxcore.Prelude.{
  ℕ, ◌-◌, List, [], ◌∷◌, Option, none, some, Bool, true, false, ◌&&◌, ◌||◌, ltb, leb, ◌==◌, length,
  get_elem?, if◌then◌else◌,
}
use rxcore.Prelude.Loops.{eq_bytes}
use rxcore.Text.{Str, to_lowercase, eq_ignore_ascii_case, strip_prefix, ends_with, contains_str}
use rxcore.Text.Ip.{
  IpAddr, v4, v6, parse_ip, is_loopback, is_private, is_link_local, is_broadcast, is_documentation,
}

-- `regex::Regex::new(r).ok()` with `is_match`, and `Ipv4Net::from_str` with `contains`.
pub record Crates : Type 0 where
  pub regex : Str → Option (Str → Bool)
  pub ipv4_net : Str → Option (ℕ → ℕ → ℕ → ℕ → Bool)

-- Whether the byte at an index is a dot.
abbrev pub is_dot : Option ℕ → Bool
is_dot none = false
is_dot (some c) = c == 46

unfoldable pub match_domain_suffix : Str → Str → Bool
unfolding to_lowercase ends_with eq_bytes
match_domain_suffix domain suffix =
    let d = to_lowercase domain in
    let s = to_lowercase suffix in
    if eq_bytes d s
    then true
    else if ends_with d s
    then (let prefix_len = length d - length s in
        if ltb 0 prefix_len && is_dot (get_elem? d (prefix_len - 1)) then true else false)
    else false

-- The test of the first and of the last branch of `matches_rule_domain`.
unfoldable pub is_or_under : Str → Str → Bool
unfolding eq_bytes ends_with
is_or_under host suffix =
    eq_bytes host suffix
    || (ends_with host suffix && is_dot (get_elem? host (length host - length suffix - 1)))

abbrev pub domain_colon : Str
domain_colon = 100 ∷ 111 ∷ 109 ∷ 97 ∷ 105 ∷ 110 ∷ 58 ∷ []

abbrev pub keyword_colon : Str
keyword_colon = 107 ∷ 101 ∷ 121 ∷ 119 ∷ 111 ∷ 114 ∷ 100 ∷ 58 ∷ []

abbrev pub regexp_colon : Str
regexp_colon = 114 ∷ 101 ∷ 103 ∷ 101 ∷ 120 ∷ 112 ∷ 58 ∷ []

-- An expression that does not compile is looked for as it stands.
abbrev regex_match : Option (Str → Bool) → Str → Str → Bool
unfolding contains_str
regex_match (some is_match) regex_str host = is_match host
regex_match none regex_str host = contains_str host regex_str

unfoldable pub matches_rule_domain : Crates → Str → Str → Bool
unfolding to_lowercase strip_prefix is_or_under contains_str
matches_rule_domain crates domain_pattern h =
    let host = to_lowercase h in
    let pattern = to_lowercase domain_pattern in
    elim (strip_prefix domain_colon pattern) [
      | some suffix ↦ is_or_under host suffix
      | none ↦ elim (strip_prefix keyword_colon pattern) [
        | some keyword ↦ contains_str host keyword
        | none ↦ elim (strip_prefix regexp_colon pattern) [
          | some regex_str ↦ regex_match (crates.regex regex_str) regex_str host
          | none ↦ is_or_under host pattern
        ]
      ]
    ]

abbrev is_v4 : Option IpAddr → ℕ → ℕ → ℕ → ℕ → Bool
is_v4 (some (v4 e f g h)) a b c d = (e == a) && ((f == b) && ((g == c) && (h == d)))
is_v4 _ a b c d = false

abbrev in_net : Option (ℕ → ℕ → ℕ → ℕ → Bool) → Option IpAddr → ℕ → ℕ → ℕ → ℕ → Bool
in_net (some contains) ip a b c d = contains a b c d
in_net none ip a b c d = is_v4 ip a b c d

-- No IPv6 address matches.
unfoldable pub matches_cidr : Crates → Str → IpAddr → Bool
unfolding parse_ip
matches_cidr crates cidr_str (v4 a b c d) =
    in_net (crates.ipv4_net cidr_str) (parse_ip cidr_str) a b c d
matches_cidr crates cidr_str (v6 octets) = false

abbrev pub localhost : Str
localhost = 108 ∷ 111 ∷ 99 ∷ 97 ∷ 108 ∷ 104 ∷ 111 ∷ 115 ∷ 116 ∷ []

-- `fc00::/7` and `fe80::/10`, by the first two octets.
unfoldable pub is_local_v6 : List ℕ → Bool
is_local_v6 (a ∷ b ∷ _) = (leb 252 a && leb a 253) || ((a == 254) && (leb 128 b && leb b 191))
is_local_v6 _ = false

unfoldable pub is_private_or_local_ip : IpAddr → Bool
unfolding is_loopback is_private is_link_local is_broadcast is_documentation is_local_v6
is_private_or_local_ip (v4 a b c d) =
    is_loopback (v4 a b c d)
    || (is_private a b || (is_link_local a b || (is_broadcast a b c d || is_documentation a b c)))
is_private_or_local_ip (v6 octets) = is_loopback (v6 octets) || is_local_v6 octets

abbrev pub parsed_is_local : Option IpAddr → Bool
unfolding is_private_or_local_ip
parsed_is_local none = false
parsed_is_local (some ip) = is_private_or_local_ip ip

unfoldable pub is_private_or_local : Str → Bool
unfolding eq_ignore_ascii_case parse_ip is_private_or_local_ip
is_private_or_local host =
    if eq_ignore_ascii_case host localhost then true else parsed_is_local (parse_ip host)
