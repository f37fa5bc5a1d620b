-- ===== src/Dns/Query/RoundTrip.antt =====
-- dpdk-code/dns/dns.c: decode_msg behind encode_msg of a query.
use dpdk_learning.Base.{
  ℕ, ◌+◌, ◌≤◌, ◌<◌, ◌≡◌, refl, min, true, some, List, [], ◌∷◌, ◌++◌, arith, length, append_assoc,
  All,
}
use mathlib.Core.List.{reverse_aux}
use dpdk_learning.Dns.Wire.{done, ok, Question, Message, put16bits, get16bits_then}
use dpdk_learning.Dns.Header.{HeaderFits, read_back, decode_header-encode_header}
use dpdk_learning.Dns.Name.{encode_domain_name, is_name}
use dpdk_learning.Dns.Name.RoundTrip.{decode_domain_name-encode_domain_name}
use dpdk_learning.Dns.Query.{decode_question, decode_questions, decode_body, decode_msg}
use dpdk_learning.Dns.Response.{encode_questions, encode_msg}

-- A question that the wire format carries, in a packet of `size` bytes.
pub record QuestionFits (size : ℕ) (q : Question) : Type 0 where
  pub named : is_name 0 q.q_name ≡ true
  pub covered : length q.q_name + 2 ≤ min 256 size
  pub type_fits : q.q_type < 65536
  pub class_fits : q.q_class < 65536

decode_question-encode :
    (q : Question) (qs : List Question) (tl : List ℕ) (size : ℕ)
    → QuestionFits size q
    → decode_question qs
        (encode_domain_name q.q_name ++ (put16bits q.q_type ++ (put16bits q.q_class ++ tl)))
        size
      ≡ done (some (q ∷ qs), tl)
unfolding decode_question
decode_question-encode q qs tl size fits = rw (
  decode_domain_name-encode_domain_name q.q_name (put16bits q.q_type ++ (put16bits q.q_class ++ tl))
      size fits.named fits.covered,
  get16bits_then q.q_type fits.type_fits,
  get16bits_then q.q_class fits.class_fits,
)

decode_questions-encode_questions :
    (qs acc : List Question) (tl : List ℕ) (size : ℕ)
    → All (QuestionFits size) qs
    → decode_questions (length qs) acc (encode_questions qs ++ tl) size
      ≡ done (ok, reverse_aux qs acc)
unfolding decode_questions encode_questions
decode_questions-encode_questions [] acc tl size fits = refl
decode_questions-encode_questions (q ∷ qs) acc tl size fits =
    rw
      (
        append_assoc,
        append_assoc,
        append_assoc,
        decode_questions,
        decode_question-encode q acc (encode_questions qs ++ tl) size fits.0,
      )
      (decode_questions-encode_questions qs (q ∷ acc) tl size fits.1)

-- A query of this responder's own making: no records, and the counts that go with it.
pub record IsQuery (size : ℕ) (msg : Message) : Type 0 where
  pub header : HeaderFits msg
  pub counted : msg.qd_count ≡ length msg.questions
  pub no_answers : msg.an_count ≡ 0
  pub no_authorities : msg.ns_count ≡ 0
  pub fits : All (QuestionFits size) msg.questions

decode_body-encode_questions :
    (m : Message) (qs : List Question) (tl : List ℕ) (size : ℕ)
    → m.an_count ≡ 0
    → m.ns_count ≡ 0
    → m.qd_count ≡ length qs
    → All (QuestionFits size) qs
    → decode_body m (encode_questions qs ++ tl) size
      ≡ done (ok, record m { questions = reverse_aux qs m.questions })
unfolding decode_body
decode_body-encode_questions m qs tl size an ns qd fits =
    ground (arith, decode_questions-encode_questions qs m.questions tl size fits)

-- The same with more bytes behind the query.
pub decode_msg-encode_msg_then :
    (dest msg : Message) (size : ℕ) (rest : List ℕ)
    → IsQuery size msg
    → decode_msg dest ((encode_msg msg).1 ++ rest) size
      ≡ done
          (ok, record (read_back dest msg) { questions = reverse_aux msg.questions dest.questions })
unfolding decode_msg encode_msg
decode_msg-encode_msg_then dest msg size rest q =
    rw (append_assoc, append_assoc, decode_header-encode_header dest msg _ q.header)
      (decode_body-encode_questions (read_back dest msg) msg.questions _ size q.no_answers
        q.no_authorities q.counted q.fits)

-- A query whose questions the wire format carries is decoded from its encoding without an error:
-- identifier, QR, RCODE and counts come back, and the questions are put, last one first, in front
-- of those that the destination held.
pub decode_msg-encode_msg :
    (dest msg : Message) (size : ℕ)
    → IsQuery size msg
    → decode_msg dest (encode_msg msg).1 size
      ≡ done
          (ok, record (read_back dest msg) { questions = reverse_aux msg.questions dest.questions })
unfolding decode_msg encode_msg
decode_msg-encode_msg dest msg size q = rw (decode_header-encode_header dest msg _ q.header) (
    decode_body-encode_questions (read_back dest msg) msg.questions _ size q.no_answers
      q.no_authorities q.counted q.fits)
