-- ===== src/Tests/DnsMessage.antt =====
-- Replies to a DNS query at concrete inputs.
use rxcore.Prelude.{◌≡◌, refl, [], ◌∷◌, Option, some, true, false}
use rxcore.Prelude.Loops.{eq_bytes}
use rxcore.Text.{Str}
use rxcore.DnsMessage.{Packet, ok, parse_dns_response}
use rxcore.DnsMessage.Reply.{IsReply, Resolves, parse_dns_response_sound}

-- "a." and three answers, one of another class and one twice.
abbrev packet : Packet
packet = record {
  id = 7;
  query = false;
  is_standard_query = true;
  is_no_error = true;
  truncated = false;
  questions = record { qname = 97 ∷ 46 ∷ []; qtype_is_a = true; qclass_is_in = true } ∷ [];
  answers =
      record { cls_is_in = true; a_record = some 5; ttl = 60 }
      ∷ record { cls_is_in = false; a_record = some 6; ttl = 9 }
      ∷ record { cls_is_in = true; a_record = some 5; ttl = 30 }
      ∷ [];
}

abbrev parse : Str → Option Packet
parse bytes = some packet

accepted : parse_dns_response parse [] 7 (97 ∷ []) ≡ ok (5 ∷ []) 60
unfolding parse_dns_response eq_bytes
accepted = refl

parse_dns_response_sound_example :
    (p : Packet) × (parse [] ≡ some p) × IsReply 7 (97 ∷ []) p × Resolves p (5 ∷ [])
parse_dns_response_sound_example =
    parse_dns_response_sound parse [] 7 (97 ∷ []) (5 ∷ []) 60 accepted
