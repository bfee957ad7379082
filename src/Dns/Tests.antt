-- ===== src/Dns/Tests.antt =====
-- Concrete messages, and the theorems of the resolver there.
use iwa_brook_quic.Base.{ℕ, ◌≡◌, refl, true, some, List, [], ◌∷◌, ◌++◌, arith}
use iwa_brook_quic.Base.Int.{pos}
use iwa_brook_quic.Bytes.{read_uint16_be, read_uint32_be}
use iwa_brook_quic.Base.Table.{lookup, text_eq}
use iwa_brook_quic.Dns.{
  Address, dotted, split_dots, build_dns_query, skip_question, skip_labels, skip_name,
  parse_answers, parse_dns_response,
}
use iwa_brook_quic.Dns.Message.{
  pointer, labels, ResourceRecord, encode_labels, addresses, encode_message, with_length_prefix,
}
use iwa_brook_quic.Dns.Query.{parts_of, build_dns_query-encode_message}
use iwa_brook_quic.Dns.Response.{parse_dns_response-encode_message}
use iwa_brook_quic.Dns.Resolver.{
  CacheEntry, DnsResolver, DnsEvent, asks, ends, starter_resumes, new_resolver, dns_run,
}
use iwa_brook_quic.Dns.Resolver.Bounds.{IsBounded, dns_run-IsBounded}
use iwa_brook_quic.Dns.Resolver.Fairness.{ask_all, in_turn, ask_all-in_turn}

-- The name "a.b".
abbrev domain : List ℕ
domain = b'a' ∷ b'.' ∷ b'b' ∷ []

abbrev question : List (List ℕ)
question = (b'a' ∷ []) ∷ (b'b' ∷ []) ∷ []

-- A CNAME whose name is a pointer, and an address whose name is written out.
abbrev alias : ResourceRecord
alias = record { name = pointer 192 12; type_code = 5; class_code = 1; ttl = 60; rdata = 0 ∷ [] }

abbrev host_address : ResourceRecord
host_address = record {
  name = labels ((b'c' ∷ []) ∷ []);
  type_code = 1;
  class_code = 1;
  ttl = 300;
  rdata = 10 ∷ 0 ∷ 0 ∷ 7 ∷ [];
}

build_dns_query-encode_message_example :
    build_dns_query (λ text. text) 0xabcd domain
    ≡ with_length_prefix (encode_message 0xabcd 256 0 0 (parts_of (λ text. text) domain) [] [])
unfolding split_dots encode_labels
build_dns_query-encode_message_example =
    build_dns_query-encode_message (λ text. text) 0xabcd domain (omega arith)
      (
        record { present = omega arith; short = omega arith },
        (record { present = omega arith; short = omega arith }, tt),
      )
      ((omega arith, tt), ((omega arith, tt), tt)) (omega arith)

parse_dns_response-encode_message_example :
    parse_dns_response (
      with_length_prefix (encode_message 0xabcd 0x8180 0 0 question (alias ∷ host_address ∷ []) []))
    ≡ addresses (alias ∷ host_address ∷ [])
parse_dns_response-encode_message_example =
    parse_dns_response-encode_message 0xabcd 0x8180 0 0 question (alias ∷ host_address ∷ []) []
      (
        record { present = omega arith; short = omega arith },
        (record { present = omega arith; short = omega arith }, tt),
      )
      (
        record {
          named = (omega arith, omega arith, omega arith);
          type_fits = omega arith;
          ttl_fits = omega arith;
          data_fits = omega arith;
        },
        (
          record {
            named = (record { present = omega arith; short = omega arith }, tt);
            type_fits = omega arith;
            ttl_fits = omega arith;
            data_fits = omega arith;
          },
          tt,
        ),
      )

-- One question and one answer, both given as bytes.
abbrev one_answer : List ℕ → List ℕ → List ℕ
one_answer asked answer =
    with_length_prefix (
      0xab ∷ 0xcd ∷ 0x81 ∷ 0x80 ∷ 0 ∷ 1 ∷ 0 ∷ 1 ∷ 0 ∷ 0 ∷ 0 ∷ 0 ∷ asked ++ (0 ∷ 1 ∷ 0 ∷ 1 ∷ answer))

abbrev address_fields : List ℕ
address_fields = 0 ∷ 1 ∷ 0 ∷ 1 ∷ 0 ∷ 0 ∷ 0 ∷ 60 ∷ 0 ∷ 4 ∷ 10 ∷ 0 ∷ 0 ∷ 7 ∷ []

one_address : List Address
one_address = record { ip = dotted 10 0 0 7; ttl = pos 60 } ∷ []

asked_name : List ℕ
asked_name = 1 ∷ b'a' ∷ 1 ∷ b'b' ∷ 0 ∷ []

-- An answer whose name is a pointer is found.
pointer_found : parse_dns_response (one_answer asked_name (192 ∷ 12 ∷ address_fields)) ≡ one_address
unfolding parse_dns_response skip_question skip_name parse_answers read_uint16_be read_uint32_be
    asked_name one_address
pointer_found = refl

-- One whose name is a label and then a pointer is lost: the pointer is taken for a label.
mixed_lost : parse_dns_response (one_answer asked_name (1 ∷ b'c' ∷ 192 ∷ 12 ∷ address_fields)) ≡ []
unfolding parse_dns_response skip_question skip_name skip_labels parse_answers read_uint16_be
    asked_name
mixed_lost = refl

-- Behind a question whose name is a pointer the first byte of the type is taken for the name's end.
compressed_question_lost :
    parse_dns_response (one_answer (192 ∷ 12 ∷ []) (192 ∷ 12 ∷ address_fields)) ≡ []
unfolding parse_dns_response skip_question skip_name skip_labels parse_answers read_uint16_be
compressed_question_lost = refl

abbrev two_addresses : List Address
two_addresses =
    record { ip = dotted 10 0 0 7; ttl = pos 90 }
    ∷ record { ip = dotted 10 0 0 8; ttl = pos 90 }
    ∷ []

abbrev one_query : List DnsEvent
one_query =
    asks domain 0 true ∷ ends domain two_addresses 5 ∷ starter_resumes domain two_addresses ∷ []

dns_run-IsBounded_example : IsBounded (dns_run one_query new_resolver)
dns_run-IsBounded_example =
    dns_run-IsBounded one_query new_resolver (record { bounded = omega arith; usable = tt })

abbrev entry : CacheEntry
entry = record { ips = two_addresses; round_robin_idx = 1; expires_at = 90005 }

abbrev resolver : DnsResolver
resolver = record { cache = (domain, entry) ∷ []; pending = [] }

found_entry : lookup domain resolver.cache ≡ some entry
unfolding lookup
found_entry = refl

ask_all-in_turn_example :
    ask_all domain (10 ∷ 20 ∷ 30 ∷ []) true resolver ≡ in_turn 3 1 two_addresses
ask_all-in_turn_example =
    ask_all-in_turn domain (10 ∷ 20 ∷ 30 ∷ []) true resolver entry found_entry (omega arith)
      (omega arith, (omega arith, (omega arith, tt)))
