-- ===== src/DnsMessage.antt =====
-- `parse_dns_response` of target_core/src/transport/mod.rs. The crate dns_parser is a parameter: what
-- it makes of the bytes of a message is a packet, or nothing.
pub mod Answers
pub mod Reply
use rxcore.Prelude.{
  ℕ, min, ◌-◌, ◌^◌, List, [], ◌∷◌, ◌++◌, Option, none, some, Bool, true, false, not, ◌==◌,
  if◌then◌else◌,
}
use rxcore.Prelude.Loops.{any, eq_bytes}
use rxcore.Text.{Str}

pub record Question : Type 0 where
  pub qname : Str
  pub qtype_is_a : Bool
  pub qclass_is_in : Bool

-- A record of the answer, with its address if it is an A record.
pub record ResourceRecord : Type 0 where
  pub cls_is_in : Bool
  pub a_record : Option ℕ
  pub ttl : ℕ

pub record Packet : Type 0 where
  pub id : ℕ
  pub query : Bool
  pub is_standard_query : Bool
  pub is_no_error : Bool
  pub truncated : Bool
  pub questions : List Question
  pub answers : List ResourceRecord

pub data DnsError : Type 0 where
  parse_error : DnsError
  txid_mismatch : DnsError
  not_a_response : DnsError
  wrong_opcode : DnsError
  error_code : DnsError
  is_truncated : DnsError
  no_questions : DnsError
  name_mismatch : DnsError
  wrong_type : DnsError
  wrong_class : DnsError
  no_addresses : DnsError

pub data DnsResult : Type 0 where
  ok : (ips : List ℕ) (ttl : ℕ) → DnsResult
  error : DnsError → DnsResult

-- `trim_end_matches('.')`.
unfoldable pub trim_dots : Str → Str
trim_dots [] = []
trim_dots (c ∷ cs) = elim (trim_dots cs) [
  | [] ↦ if c == 46 then [] else c ∷ []
  | d ∷ ds ↦ c ∷ d ∷ ds
]

-- The address of an answer that counts.
abbrev pub address_of : ResourceRecord → Option ℕ
address_of r = if r.cls_is_in then r.a_record else none

abbrev pub contains : List ℕ → ℕ → Bool
contains l ip = any (◌==◌ ip) l

-- The loop over the answers.
unfoldable pub collect : List ResourceRecord → List ℕ → ℕ → List ℕ × ℕ
collect [] resolved min_ttl = (resolved, min_ttl)
collect (r ∷ rs) resolved min_ttl = elim (address_of r) [
  | none ↦ collect rs resolved min_ttl
  | some ip ↦
      let known = collect rs resolved min_ttl in
      let new = collect rs (resolved ++ ip ∷ []) (min r.ttl min_ttl) in
      if contains resolved ip then known else new
]

abbrev pub as_result : List ℕ × ℕ → DnsResult
as_result ([], ttl) = error no_addresses
as_result (ip ∷ ips, ttl) = ok (ip ∷ ips) ttl

-- The tests on the first question, then the answers.
unfoldable pub check_question : Packet → Str → DnsResult
unfolding trim_dots eq_bytes collect
check_question packet expected_hostname = elim packet.questions [
  | [] ↦ error no_questions
  | question ∷ _ ↦
      if not (eq_bytes (trim_dots question.qname) (trim_dots expected_hostname))
      then error name_mismatch
      else if not question.qtype_is_a
      then error wrong_type
      else if not question.qclass_is_in
      then error wrong_class
      else as_result (collect packet.answers [] (2 ^ 32 - 1))
]

unfoldable pub check_packet : Packet → ℕ → Str → DnsResult
unfolding check_question
check_packet packet expected_txid expected_hostname =
    if not (packet.id == expected_txid)
    then error txid_mismatch
    else if packet.query
    then error not_a_response
    else if not packet.is_standard_query
    then error wrong_opcode
    else if not packet.is_no_error
    then error error_code
    else if packet.truncated
    then error is_truncated
    else check_question packet expected_hostname

unfoldable pub parse_dns_response : (Str → Option Packet) → Str → ℕ → Str → DnsResult
unfolding check_packet
parse_dns_response parse resp expected_txid expected_hostname = elim (parse resp) [
  | none ↦ error parse_error
  | some packet ↦ check_packet packet expected_txid expected_hostname
]
