-- ===== src/Link/Links.antt =====
-- A link is read as what it was made of.
use rxcore.Prelude.{
  ℕ, ◌<◌, ◌≡◌, ◌≢◌, refl, ap, ◌∙◌, [], ◌∷◌, ◌++◌, some, false, ◌==◌, length, if◌then◌else◌, arith,
  inl, inr, ◌⊎◌,
}
use rxcore.Prelude.Loops.{All}
use rxcore.Prelude.Words.{IsByte}
use rxcore.Text.{Str, split}
use rxcore.Text.Search.{Absent, Absent-append, split-Absent, split_behind}
use rxcore.Endpoint.Decimal.{decimal, IsDigit, decimal-AreDigits, parse_u16-decimal}
use rxcore.Link.{
  decode_percent, vless_prefix, sni_key, name_of, read_param, read_params, query_sni, config_of,
  with_server, with_user, parse_content, parse_vless_link, exactly_two,
}
use rxcore.Link.Percent.{encode_percent, decode_percent-encode_percent, encode_percent-Absent}

-- Nothing that separates the parts of a link: `#`, `?`, `@` and `:`.
abbrev pub IsPart : Str → Type 0
IsPart s = Absent 35 s × Absent 63 s × Absent 64 s × Absent 58 s

-- vless://uuid@host:port?sni=...#name
abbrev pub host_port : Str → ℕ → Str
host_port host port = host ++ 58 ∷ decimal port

abbrev pub query : Str → Str
query sni = sni_key ++ 61 ∷ encode_percent sni

abbrev pub main_part : (uuid host : Str) (port : ℕ) (sni : Str) → Str
main_part uuid host port sni = (uuid ++ 64 ∷ host_port host port) ++ 63 ∷ query sni

abbrev pub link : (uuid host : Str) (port : ℕ) (sni name : Str) → Str
link uuid host port sni name =
    vless_prefix ++ (main_part uuid host port sni ++ 35 ∷ encode_percent name)

digits-Absent : (b : ℕ) (s : Str) → (b < 48) ⊎ (57 < b) → All IsDigit s → Absent b s
digits-Absent b [] k h = tt
digits-Absent b (c ∷ s) k h = (apart_lem k h.0, digits-Absent b s k h.1)
  where
    apart_lem : (b < 48) ⊎ (57 < b) → IsDigit c → c ≢ b
    apart_lem k h = ground arith

ne_lem : (a b : ℕ) → (a == b) ≡ false → a ≢ b
ne_lem a b h = ground arith

Absent-join :
    (b sep : ℕ) (s t : Str) → (sep == b) ≡ false → Absent b s → Absent b t → Absent b (s ++ sep ∷ t)
Absent-join b sep s t k h i = Absent-append b s (sep ∷ t) h (ne_lem sep b k, i)

split_two :
    (sep : ℕ) (s t : Str) → Absent sep s → Absent sep t → split sep (s ++ sep ∷ t) ≡ s ∷ t ∷ []
split_two sep s t h k = split_behind sep s t h ∙ ap (◌∷◌ s) (split-Absent sep t k)

query-Absent :
    (b : ℕ) (sni : Str)
    → Absent b sni_key
    → (61 == b) ≡ false
    → Absent b (encode_percent sni)
    → Absent b (query sni)
query-Absent b sni k e h = Absent-join b 61 sni_key (encode_percent sni) e k h

key_lem : (b : ℕ) → b < 100 → Absent b sni_key
key_lem b h = (
  λ e. absurd (omega (arith, e)),
  (λ e. absurd (omega (arith, e)), (λ e. absurd (omega (arith, e)), tt)),
)

query_lem : (sni : Str) → All IsByte sni → query_sni (some (query sni)) ≡ sni
unfolding query_sni read_params
query_lem sni h =
    rw
      (split-Absent 38 (query sni) (
        query-Absent 38 sni (key_lem 38 (omega arith)) refl
          (encode_percent-Absent 38 sni (inr (inl refl)) h)))
      (rw
        (split_two 61 sni_key (encode_percent sni) (key_lem 61 (omega arith))
          (encode_percent-Absent 61 sni (inr (inr (inl refl))) h))
        (key_found sni ∙ decode_percent-encode_percent sni h))
  where
    key_found :
        (sni : Str)
        → read_param (some (sni_key, encode_percent sni)) [] ≡ decode_percent (encode_percent sni)
    key_found sni = refl

server_lem :
    (name uuid host sni : Str) (port : ℕ)
    → IsPart host
    → port < 65536
    → with_server name uuid sni (exactly_two (split 58 (host_port host port)))
      ≡ some (record {
        name = name;
        server = host;
        port = port;
        uuid = uuid;
        sni = if length sni == 0 then host else sni;
        allow_insecure = false;
      })
unfolding with_server config_of
server_lem name uuid host sni port h fits =
    rw
      (split_two 58 host (decimal port) h.3
        (digits-Absent 58 (decimal port) (inr (omega arith)) (decimal-AreDigits port)))
      (rw (parse_u16-decimal port fits) refl)

main_part-Absent :
    (uuid host : Str) (port : ℕ) (sni : Str)
    → IsPart uuid
    → IsPart host
    → All IsByte sni
    → Absent 35 (main_part uuid host port sni)
main_part-Absent uuid host port sni u h b =
    Absent-join 35 63 (uuid ++ 64 ∷ host_port host port) (query sni) refl
      (Absent-join 35 64 uuid (host_port host port) refl u.0 (
        Absent-join 35 58 host (decimal port) refl h.0
          (digits-Absent 35 (decimal port) (inl (omega arith)) (decimal-AreDigits port))))
      (query-Absent 35 sni (key_lem 35 (omega arith)) refl
        (encode_percent-Absent 35 sni (inl refl) b))

address-Absent :
    (uuid host : Str) (port : ℕ)
    → IsPart uuid
    → IsPart host
    → Absent 63 (uuid ++ 64 ∷ host_port host port)
address-Absent uuid host port u h = Absent-join 63 64 uuid (host_port host port) refl u.1 (
    Absent-join 63 58 host (decimal port) refl h.1
      (digits-Absent 63 (decimal port) (inr (omega arith)) (decimal-AreDigits port)))

host_port-Absent : (host : Str) (port : ℕ) → IsPart host → Absent 64 (host_port host port)
host_port-Absent host port h =
    Absent-join 64 58 host (decimal port) refl h.2
      (digits-Absent 64 (decimal port) (inr (omega arith)) (decimal-AreDigits port))

-- A link that is made of a user, a host, a port of 16 bits, a server name and a name is read back as
-- these: the user and the host have none of the characters that separate the parts of a link, and the
-- two names, which are percent encoded, have characters below 256. An empty server name stands for
-- the host.
pub parse_vless_link-link :
    (uuid host : Str) (port : ℕ) (sni name : Str)
    → IsPart uuid
    → IsPart host
    → port < 65536
    → All IsByte sni
    → All IsByte name
    → parse_vless_link (link uuid host port sni name)
      ≡ some (record {
        name = name;
        server = host;
        port = port;
        uuid = uuid;
        sni = if length sni == 0 then host else sni;
        allow_insecure = false;
      })
unfolding parse_vless_link parse_content with_user name_of
parse_vless_link-link uuid host port sni name u h fits bs bn =
    let main = main_part uuid host port sni in
    let address = uuid ++ 64 ∷ host_port host port in
    let q : Absent 63 (query sni) =
      query-Absent 63 sni (key_lem 63 (omega arith)) refl
        (encode_percent-Absent 63 sni (inr (inr (inr refl))) bs) in
    rw
      (split_two 35 main (encode_percent name) (main_part-Absent uuid host port sni u h bs)
        (encode_percent-Absent 35 name (inl refl) bn))
      (rw (split_two 63 address (query sni) (address-Absent uuid host port u h) q) (
        rw (split_two 64 uuid (host_port host port) u.2 (host_port-Absent host port h)) (
          rw (decode_percent-encode_percent name bn, query_lem sni bs)
            (server_lem name uuid host sni port h fits))))
