-- ===== src/DnsMessage/Reply.antt =====
-- What an accepted reply says.
use rxcore.Prelude.{
  ℕ, ◌<◌, ◌≡◌, refl, sym, subst, ap, ◌∙◌, List, [], ◌∷◌, Option, none, some, Bool, true, false, not,
  ◌==◌, ==_iff, length, arith, Option-cases, inl, inr, if◌then◌else◌, ◌-◌, ◌^◌,
}
use rxcore.Prelude.Loops.{eq_bytes, eq_bytes→eq}
use rxcore.Text.{Str}
use rxcore.DnsMessage.{
  Question, Packet, DnsError, DnsResult, ok, error, trim_dots, contains, collect, as_result,
  check_question, check_packet, parse_dns_response,
}
use rxcore.DnsMessage.Answers.{addresses, NoDup, collect-NoDup, collect-contains}

-- A test that was passed.
passed :
    (c : Bool) (e : DnsError) (r : DnsResult) (ips : List ℕ) (ttl : ℕ)
    → (if c then error e else r) ≡ ok ips ttl
    → (c ≡ false) × (r ≡ ok ips ttl)
passed true e r ips ttl h = cc
passed false e r ips ttl h = (refl, h)

not-false : (b : Bool) → not b ≡ false → b ≡ true
not-false true h = refl
not-false false h = cc

-- A reply to the query: its id, its flags, and a first question for the addresses of the host.
pub record IsReply (txid : ℕ) (host : Str) (p : Packet) : Type 0 where
  pub same_id : p.id ≡ txid
  pub response : p.query ≡ false
  pub standard : p.is_standard_query ≡ true
  pub no_error : p.is_no_error ≡ true
  pub complete : p.truncated ≡ false
  pub question : Question
  pub others : List Question
  pub first : p.questions ≡ question ∷ others
  pub same_name : trim_dots question.qname ≡ trim_dots host
  pub type_a : question.qtype_is_a ≡ true
  pub class_in : question.qclass_is_in ≡ true

-- The addresses that come out: each once, those of the answers and no others, at least one.
abbrev pub Resolves : Packet → List ℕ → Type 0
Resolves p ips =
    NoDup ips × ((j : ℕ) → contains ips j ≡ contains (addresses p.answers) j) × (0 < length ips)

as_result_ok :
    (c : List ℕ × ℕ) (ips : List ℕ) (ttl : ℕ)
    → as_result c ≡ ok ips ttl
    → (c.0 ≡ ips) × (0 < length ips)
as_result_ok ([], t) ips ttl h = cc
as_result_ok (ip ∷ l, t) ips ttl h =
    let same : ip ∷ l ≡ ips = cc in (same, omega (arith, ap length same))

collected :
    (p : Packet) (ips : List ℕ) (ttl : ℕ)
    → as_result (collect p.answers [] (2 ^ 32 - 1)) ≡ ok ips ttl
    → Resolves p ips
collected p ips ttl h =
    let (same, some_there) = as_result_ok (collect p.answers [] (2 ^ 32 - 1)) ips ttl h in
    (
      subst NoDup same (collect-NoDup p.answers [] (2 ^ 32 - 1) tt),
      (λ j. ap (λ l. contains l j) (sym same) ∙ collect-contains p.answers [] (2 ^ 32 - 1) j),
      some_there,
    )

check_first :
    (p : Packet) (host : Str) (question : Question) (others : List Question)
    → p.questions ≡ question ∷ others
    → check_question p host ≡ (
        if not (eq_bytes (trim_dots question.qname) (trim_dots host))
        then error DnsError.name_mismatch
        else if not question.qtype_is_a
        then error DnsError.wrong_type
        else if not question.qclass_is_in
        then error DnsError.wrong_class
        else as_result (collect p.answers [] (2 ^ 32 - 1)))
unfolding check_question
check_first p host question others e = rw (e, check_question) refl

no_question :
    (p : Packet) (host : Str)
    → p.questions ≡ []
    → check_question p host ≡ error DnsError.no_questions
unfolding check_question
no_question p host e = rw (e, check_question) refl

check_packet_ok :
    (p : Packet) (txid : ℕ) (host : Str) (ips : List ℕ) (ttl : ℕ)
    → check_packet p txid host ≡ ok ips ttl
    → IsReply txid host p × Resolves p ips
unfolding check_packet
check_packet_ok p txid host ips ttl h =
    let (id, h1) = passed _ _ _ ips ttl h in
    let (query, h2) = passed _ _ _ ips ttl h1 in
    let (standard, h3) = passed _ _ _ ips ttl h2 in
    let (no_error, h4) = passed _ _ _ ips ttl h3 in
    let (whole, h5) = passed _ _ _ ips ttl h4 in
    by_questions p.questions refl id query standard no_error whole h5
  where
    by_questions :
        (qs : List Question)
        → p.questions ≡ qs
        → not (p.id == txid) ≡ false
        → p.query ≡ false
        → not p.is_standard_query ≡ false
        → not p.is_no_error ≡ false
        → p.truncated ≡ false
        → check_question p host ≡ ok ips ttl
        → IsReply txid host p × Resolves p ips
    by_questions [] e id query standard no_error whole h = cc (h, no_question p host e)
    by_questions (question ∷ others) e id query standard no_error whole h =
        let (name, h1) = passed _ _ _ ips ttl (sym (check_first p host question others e) ∙ h) in
        let (type_a, h2) = passed _ _ _ ips ttl h1 in
        let (class_in, h3) = passed _ _ _ ips ttl h2 in
        (
          record {
            same_id = (==_iff p.id txid).0 (not-false (p.id == txid) id);
            response = query;
            standard = not-false p.is_standard_query standard;
            no_error = not-false p.is_no_error no_error;
            complete = whole;
            question = question;
            others = others;
            first = e;
            same_name =
                eq_bytes→eq _ _
                  (not-false (eq_bytes (trim_dots question.qname) (trim_dots host)) name);
            type_a = not-false question.qtype_is_a type_a;
            class_in = not-false question.qclass_is_in class_in;
          },
          collected p ips ttl h3,
        )

-- An accepted message is a reply to the query, and the addresses are those of its answers of class IN
-- and type A, each once, at least one.
pub parse_dns_response_sound :
    (parse : Str → Option Packet) (resp : Str) (txid : ℕ) (host : Str) (ips : List ℕ) (ttl : ℕ)
    → parse_dns_response parse resp txid host ≡ ok ips ttl
    → (p : Packet) × (parse resp ≡ some p) × IsReply txid host p × Resolves p ips
unfolding parse_dns_response
parse_dns_response_sound parse resp txid host ips ttl h = elim (Option-cases (parse resp)) [
  | inl e ↦ cc (h, no_packet e)
  | inr (p, e) ↦
      let (reply, res) = check_packet_ok p txid host ips ttl (sym (is_packet p e) ∙ h) in
      (p, e, reply, res)
]
  where
    no_packet :
        parse resp ≡ none → parse_dns_response parse resp txid host ≡ error DnsError.parse_error
    no_packet e = rw (e, parse_dns_response) refl

    is_packet :
        (p : Packet)
        → parse resp ≡ some p
        → parse_dns_response parse resp txid host ≡ check_packet p txid host
    is_packet p e = rw (e, parse_dns_response) refl
