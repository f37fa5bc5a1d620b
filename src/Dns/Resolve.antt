-- ===== src/Dns/Resolve.antt =====
-- dpdk-code/dns/dns.c: the records that the responder knows, and resolve_query.
pub mod Answers
use dpdk_learning.Base.{
  ℕ, ◌+◌, ◌*◌, ◌%◌, ◌≡◌, refl, Bool, true, false, Option, none, some, List, [], ◌∷◌, ◌++◌, ◌==◌,
  if◌then◌else◌, bytes_eq, length,
}
use dpdk_learning.Dns.Wire.{
  Question, ResourceData, a_record, aaaa_record, txt_record, ResourceRecord, Message,
}
use dpdk_learning.Dns.Response.{
  a_resource_record_type, txt_resource_record_type, aaaa_resource_record_type,
}

-- "foo.bar.com"
abbrev pub known_name : List ℕ
known_name = b'f' ∷ b'o' ∷ b'o' ∷ b'.' ∷ b'b' ∷ b'a' ∷ b'r' ∷ b'.' ∷ b'c' ∷ b'o' ∷ b'm' ∷ []

-- "abcdefg"
abbrev pub known_text : List ℕ
known_text = b'a' ∷ b'b' ∷ b'c' ∷ b'd' ∷ b'e' ∷ b'f' ∷ b'g' ∷ []

-- `none` is the return code -1.
unfoldable pub get_a_record : List ℕ → Option (List ℕ)
get_a_record domain = if bytes_eq known_name domain then some (192 ∷ 168 ∷ 232 ∷ 133 ∷ []) else none

unfoldable pub get_aaaa_record : List ℕ → Option (List ℕ)
get_aaaa_record domain =
    if bytes_eq known_name domain
    then some (0xfe ∷ 0x80 ∷ 0 ∷ 0 ∷ 0 ∷ 0 ∷ 0 ∷ 0 ∷ 0 ∷ 0 ∷ 0 ∷ 0 ∷ 0 ∷ 0 ∷ 0 ∷ 0x01 ∷ [])
    else none

unfoldable pub get_txt_record : List ℕ → Option (List ℕ)
get_txt_record domain = if bytes_eq known_name domain then some known_text else none

abbrev pub ok_response_type : ℕ
ok_response_type = 0

abbrev pub not_implemented_response_type : ℕ
not_implemented_response_type = 4

abbrev pub record_of : Question → ℕ → ResourceData → ResourceRecord
record_of q len body = record {
  name = q.q_name;
  rr_type = q.q_type;
  rr_class = q.q_class;
  ttl = 60 * 60;
  rd_length = len % 65536;
  rd_data = body;
}

-- What one question comes to: a record, nothing (the name is not known), or a type that the code
-- does not answer.
pub data Answer : Type 0 where
  answer : ResourceRecord → Answer
  no_record : Answer
  not_implemented : Answer

abbrev pub a_answer : Question → Option (List ℕ) → Answer
a_answer q none = no_record
a_answer q (some addr) = answer (record_of q 4 (a_record addr))

abbrev pub aaaa_answer : Question → Option (List ℕ) → Answer
aaaa_answer q none = no_record
aaaa_answer q (some addr) = answer (record_of q 16 (aaaa_record addr))

abbrev pub txt_answer : Question → Option (List ℕ) → Answer
txt_answer q none = no_record
txt_answer q (some text) =
    answer (record_of q (length text + 1) (txt_record (length text % 256) text))

-- The switch of `resolve_query`.
unfoldable pub resolve_question : Question → Answer
resolve_question q =
    if q.q_type == a_resource_record_type
    then a_answer q (get_a_record q.q_name)
    else if q.q_type == aaaa_resource_record_type
    then aaaa_answer q (get_aaaa_record q.q_name)
    else if q.q_type == txt_resource_record_type
    then txt_answer q (get_txt_record q.q_name)
    else not_implemented

-- The part of the message that one question changes.
abbrev pub add_answer : Answer → Message → Message
add_answer (answer rr) msg = record msg {
  an_count = (msg.an_count + 1) % 65536;
  answers = rr ∷ msg.answers;
}
add_answer no_record msg = msg
add_answer not_implemented msg = record msg { rcode = not_implemented_response_type }

unfoldable pub resolve_questions : List Question → Message → Message
resolve_questions [] msg = msg
resolve_questions (q ∷ qs) msg = resolve_questions qs (add_answer (resolve_question q) msg)

-- What `resolve_query` sets before it looks at the questions.
abbrev pub begin_response : Message → Message
begin_response msg = record msg {
  qr = 1;
  aa = 1;
  ra = 0;
  rcode = ok_response_type;
  an_count = 0;
  ns_count = 0;
  ar_count = 0;
}

unfoldable pub resolve_query : Message → Message
unfolding resolve_questions
resolve_query msg = resolve_questions msg.questions (begin_response msg)
