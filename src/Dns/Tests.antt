-- ===== src/Dns/Tests.antt =====
-- dpdk-code/dns: runs of the decoder, the resolver and the encoder on one query.
use dpdk_learning.Base.{ℕ, ◌≡◌, refl, some, [], ◌∷◌, ◌++◌, arith, length}
use mathlib.Core.List.{map, reverse_aux}
use dpdk_learning.Dns.Wire.{done, ok, Question, Message, get16bits, put16bits, get16bits-put16bits}
use dpdk_learning.Dns.Header.{decode_fields, HeaderFits, read_back, decode_fields_lem}
use dpdk_learning.Dns.Name.{decode_domain_name, encode_domain_name}
use dpdk_learning.Dns.Name.RoundTrip.{decode_domain_name-encode_domain_name}
use dpdk_learning.Dns.Name.Bounds.{
  InBounds, decode_domain_name-InBounds, dotted, decode_domain_name-encode_label,
}
use dpdk_learning.Dns.Query.{decode_msg}
use dpdk_learning.Dns.Query.RoundTrip.{IsQuery, decode_msg-encode_msg}
use dpdk_learning.Dns.Response.{encode_msg}
use dpdk_learning.Dns.Resolve.{known_name, resolve_query}
use dpdk_learning.Dns.Resolve.Answers.{response_spec, resolve_query-eq-response_spec}

-- One question for the address of the known name.
abbrev known_question : Question
known_question = record { q_name = known_name; q_type = 1; q_class = 1 }

abbrev text_question : Question
text_question = record { q_name = known_name; q_type = 16; q_class = 1 }

abbrev empty_message : Message
empty_message = record {
  id = 0;
  qr = 0;
  opcode = 0;
  aa = 0;
  tc = 0;
  rd = 0;
  ra = 0;
  rcode = 0;
  qd_count = 0;
  an_count = 0;
  ns_count = 0;
  ar_count = 0;
  questions = [];
  answers = [];
  authorities = [];
  additionals = [];
}

abbrev pub query : Message
query = record empty_message {
  id = 4660;
  qd_count = 2;
  questions = known_question ∷ text_question ∷ [];
}

query_fits : HeaderFits query
query_fits = record {
  id_fits = omega arith;
  qr_fits = omega arith;
  rcode_fits = omega arith;
  qd_fits = omega arith;
  an_fits = omega arith;
  ns_fits = omega arith;
  ar_fits = omega arith;
}

pub query-IsQuery : IsQuery 100 query
query-IsQuery = record {
  header = query_fits;
  counted = refl;
  no_answers = refl;
  no_authorities = refl;
  fits = (
    record {
      named = refl;
      covered = omega arith;
      type_fits = omega arith;
      class_fits = omega arith;
    },
    (
      record {
        named = refl;
        covered = omega arith;
        type_fits = omega arith;
        class_fits = omega arith;
      },
      tt,
    ),
  );
}

get16bits-put16bits_example : get16bits (put16bits 4660 ++ (7 ∷ [])) ≡ done (4660, 7 ∷ [])
get16bits-put16bits_example = get16bits-put16bits 4660 (7 ∷ []) (omega arith)

decode_fields_lem_example :
    decode_fields empty_message 34176
    ≡ record empty_message { qr = 1; opcode = 0; aa = 1; tc = 0; rd = 1; ra = 256; rcode = 0 }
decode_fields_lem_example = decode_fields_lem empty_message 34176

decode_domain_name-encode_domain_name_example :
    decode_domain_name (encode_domain_name known_name ++ (0 ∷ 1 ∷ [])) 20
    ≡ done (some (known_name, 0 ∷ 1 ∷ []))
decode_domain_name-encode_domain_name_example =
    decode_domain_name-encode_domain_name known_name (0 ∷ 1 ∷ []) 20 refl (omega arith)

decode_domain_name-InBounds_example :
    InBounds
      (length {A = ℕ} (3 ∷ 102 ∷ 111 ∷ 0 ∷ []))
      30
      (decode_domain_name (3 ∷ 102 ∷ 111 ∷ 0 ∷ []) 30)
decode_domain_name-InBounds_example = decode_domain_name-InBounds 3 (102 ∷ 111 ∷ 0 ∷ []) 30

-- "web1-x" comes back as "web..x".
decode_domain_name-encode_label_example :
    decode_domain_name
      (encode_domain_name (b'w' ∷ b'e' ∷ b'b' ∷ b'1' ∷ b'-' ∷ b'x' ∷ []) ++ (9 ∷ []))
      50
    ≡ done (some (map dotted (b'w' ∷ b'e' ∷ b'b' ∷ b'1' ∷ b'-' ∷ b'x' ∷ []), 9 ∷ []))
decode_domain_name-encode_label_example =
    decode_domain_name-encode_label (b'w' ∷ b'e' ∷ b'b' ∷ b'1' ∷ b'-' ∷ b'x' ∷ []) (9 ∷ []) 50 refl
      (omega arith)

decode_msg-encode_msg_example :
    decode_msg empty_message (encode_msg query).1 100
    ≡ done (
      ok,
      record (read_back empty_message query) {
        questions = reverse_aux query.questions empty_message.questions;
      },
    )
decode_msg-encode_msg_example = decode_msg-encode_msg empty_message query 100 query-IsQuery

resolve_query-eq-response_spec_example : resolve_query query ≡ response_spec query
resolve_query-eq-response_spec_example = resolve_query-eq-response_spec query
