-- ===== src/Dns/Resolve/Answers.antt =====
-- dpdk-code/dns/dns.c: what resolve_query answers, and that the response can be encoded.
use dpdk_learning.Base.{
  ℕ, ◌+◌, ◌<◌, ◌%◌, ◌≡◌, ◌∙◌, refl, sym, Bool, true, false, ◌||◌, List, [], ◌∷◌, arith, ◌==◌,
  if◌then◌else◌, Bool-cases, bytes_eq, eq_of_bytes_eq, length, All, inl, inr, ◌&&◌,
}
use mathlib.Core.List.{reverse_aux}
use native.Mathlib.Nat.{zero-add}
use dpdk_learning.Dns.Wire.{
  Question, ResourceData, a_record, aaaa_record, txt_record, ResourceRecord, Message,
}
use dpdk_learning.Dns.Response.{known_type, encode_resource_records, encode_msg}
use dpdk_learning.Dns.Resolve.{
  known_name, get_a_record, get_aaaa_record, get_txt_record, Answer, answer, no_record,
  not_implemented, begin_response, resolve_question, add_answer, resolve_questions, resolve_query,
  record_of, known_text,
}

abbrev body_spec : ℕ → ResourceData
body_spec t =
    if t == 1
    then a_record (192 ∷ 168 ∷ 232 ∷ 133 ∷ [])
    else if t == 28
    then aaaa_record (254 ∷ 128 ∷ 0 ∷ 0 ∷ 0 ∷ 0 ∷ 0 ∷ 0 ∷ 0 ∷ 0 ∷ 0 ∷ 0 ∷ 0 ∷ 0 ∷ 0 ∷ 1 ∷ [])
    else txt_record 7 known_text

-- The record that answers a question: the type and the name alone decide.
unfoldable pub answer_spec : Question → Answer
answer_spec q =
    if known_type q.q_type
    then (if bytes_eq known_name q.q_name
        then answer (
            record_of q (if q.q_type == 1 then 4 else if q.q_type == 28 then 16 else 8)
              (body_spec q.q_type))
        else no_record)
    else not_implemented

resolve_question-eq-answer_spec : (q : Question) → resolve_question q ≡ answer_spec q
unfolding resolve_question get_a_record get_aaaa_record get_txt_record answer_spec
resolve_question-eq-answer_spec q = ground arith

abbrev pub push_answer : Answer → List ResourceRecord → List ResourceRecord
push_answer (answer rr) rrs = rr ∷ rrs
push_answer no_record rrs = rrs
push_answer not_implemented rrs = rrs

-- The records for a list of questions, in their order.
unfoldable pub answers_spec : List Question → List ResourceRecord
answers_spec [] = []
answers_spec (q ∷ qs) = push_answer (answer_spec q) (answers_spec qs)

abbrev pub unanswerable : Answer → Bool
unanswerable (answer rr) = false
unanswerable no_record = false
unanswerable not_implemented = true

-- Whether a question has a type that the responder does not know.
unfoldable pub some_unanswerable : List Question → Bool
some_unanswerable [] = false
some_unanswerable (q ∷ qs) = unanswerable (answer_spec q) || some_unanswerable qs

-- The outcome of the question loop, started at `msg`: the records put in front, and whether a type
-- was not known.
record Resolved (rrs : List ResourceRecord) (bad : Bool) (msg out : Message) : Type 0 where
  answers : out.answers ≡ reverse_aux rrs msg.answers
  counted : out.an_count ≡ (msg.an_count + length rrs) % 65536
  code : out.rcode ≡ (if bad then 4 else msg.rcode)
  same : out ≡ record msg { answers = out.answers; an_count = out.an_count; rcode = out.rcode }

Resolved-eq :
    {rrs : List ResourceRecord} {bad : Bool} {msg out : Message}
    → Resolved rrs bad msg out
    → out ≡ record msg {
      answers = reverse_aux rrs msg.answers;
      an_count = (msg.an_count + length rrs) % 65536;
      rcode = if bad then 4 else msg.rcode;
    }
Resolved-eq {msg} r =
    r.same ∙ (λ i. record msg { answers = r.answers i; an_count = r.counted i; rcode = r.code i })

Resolved-add_answer :
    (a : Answer) (rrs : List ResourceRecord) (bad : Bool) (msg out : Message)
    → Resolved rrs bad (add_answer a msg) out
    → Resolved (push_answer a rrs) (unanswerable a || bad) msg out
Resolved-add_answer (answer rr) rrs bad msg out r = record {
  answers = r.answers;
  counted = omega (arith, r.counted);
  code = r.code;
  same = r.same;
}
Resolved-add_answer no_record rrs bad msg out r = r
Resolved-add_answer not_implemented rrs bad msg out r = record {
  answers = r.answers;
  counted = r.counted;
  code = ground (arith, r.code);
  same = r.same;
}

add_answer-small :
    (a : Answer) (msg : Message) → msg.an_count < 65536 → (add_answer a msg).an_count < 65536
add_answer-small (answer rr) msg h = omega arith
add_answer-small no_record msg h = h
add_answer-small not_implemented msg h = h

resolve_questions-Resolved :
    (qs : List Question) (msg : Message)
    → msg.an_count < 65536
    → Resolved (answers_spec qs) (some_unanswerable qs) msg (resolve_questions qs msg)
unfolding resolve_questions answers_spec some_unanswerable
resolve_questions-Resolved [] msg small = record {
  answers = refl;
  counted = omega arith;
  code = refl;
  same = refl;
}
resolve_questions-Resolved (q ∷ qs) msg small = rw (resolve_question-eq-answer_spec q) (
    Resolved-add_answer (answer_spec q) (answers_spec qs) (some_unanswerable qs) msg _ (
      resolve_questions-Resolved qs (add_answer (answer_spec q) msg)
        (add_answer-small (answer_spec q) msg small)))

-- The message that answers `msg`: a response, authoritative, without recursion, with a record for
-- every question that the responder can answer, the last one first, their number in ANCOUNT, and
-- the code 4 where some question has a type that it does not know.
abbrev pub response_spec : Message → Message
response_spec msg = record msg {
  qr = 1;
  aa = 1;
  ra = 0;
  rcode = if some_unanswerable msg.questions then 4 else 0;
  an_count = length (answers_spec msg.questions) % 65536;
  ns_count = 0;
  ar_count = 0;
  answers = reverse_aux (answers_spec msg.questions) msg.answers;
}

-- `resolve_query` computes exactly the message of `response_spec`.
pub resolve_query-eq-response_spec : (msg : Message) → resolve_query msg ≡ response_spec msg
unfolding resolve_query
resolve_query-eq-response_spec msg =
    rw zero-add at
      (Resolved-eq (resolve_questions-Resolved msg.questions (begin_response msg) (omega arith)))

-- A record of the one name that the responder knows, at a type that it can encode.
abbrev pub IsAnswer : ResourceRecord → Type 0
IsAnswer rr = (rr.name ≡ known_name) × (known_type rr.rr_type ≡ true)

push_answer-IsAnswer :
    (q : Question) (rrs : List ResourceRecord)
    → All IsAnswer rrs
    → All IsAnswer (push_answer (answer_spec q) rrs)
unfolding answer_spec
push_answer-IsAnswer q rrs h = elim (Bool-cases (known_type q.q_type)) [
  | inr e ↦ rw e h
  | inl e ↦ elim (Bool-cases (bytes_eq known_name q.q_name)) [
    | inr n ↦ rw (e, n) h
    | inl n ↦ rw (e, n) ((sym (eq_of_bytes_eq known_name q.q_name n), e), h)
  ]
]

answers_spec-IsAnswer : (qs : List Question) → All IsAnswer (answers_spec qs)
unfolding answers_spec
answers_spec-IsAnswer [] = tt
answers_spec-IsAnswer (q ∷ qs) = push_answer-IsAnswer q (answers_spec qs) (answers_spec-IsAnswer qs)

All-reverse_aux :
    (xs ys : List ResourceRecord)
    → All IsAnswer xs
    → All IsAnswer ys
    → All IsAnswer (reverse_aux xs ys)
All-reverse_aux [] ys hx hy = hy
All-reverse_aux (x ∷ xs) ys hx hy = All-reverse_aux xs (x ∷ ys) hx.1 (hx.0, hy)

-- Every record that `resolve_query` puts into a message without records is an answer for the known
-- name.
resolve_query-IsAnswer :
    (msg : Message) → msg.answers ≡ [] → All IsAnswer (resolve_query msg).answers
resolve_query-IsAnswer msg none_yet = rw (resolve_query-eq-response_spec msg) (
    All-reverse_aux (answers_spec msg.questions) msg.answers (answers_spec-IsAnswer msg.questions)
      (rw none_yet tt))

abbrev pub all_known : List ResourceRecord → Bool
all_known [] = true
all_known (rr ∷ rrs) = known_type rr.rr_type && all_known rrs

-- `encode_resource_records` returns 0 exactly if it knows the type of every record, and else 1.
pub encode_resource_records-code :
    (rrs : List ResourceRecord) → (encode_resource_records rrs).0 ≡ (if all_known rrs then 0 else 1)
unfolding encode_resource_records
encode_resource_records-code [] = refl
encode_resource_records-code (rr ∷ rrs) = ground (arith, encode_resource_records-code rrs)

all_known_of_answers : (rrs : List ResourceRecord) → All IsAnswer rrs → all_known rrs ≡ true
all_known_of_answers [] h = refl
all_known_of_answers (rr ∷ rrs) h = ground (arith, h.0, all_known_of_answers rrs h.1)

-- The response to a message without records is encoded without an error.
pub encode_msg-resolve_query :
    (msg : Message)
    → msg.answers ≡ []
    → msg.authorities ≡ []
    → msg.additionals ≡ []
    → (encode_msg (resolve_query msg)).0 ≡ 0
unfolding encode_msg encode_resource_records
encode_msg-resolve_query msg an au ad =
    let known = all_known_of_answers (resolve_query msg).answers (resolve_query-IsAnswer msg an) in
    let known' = rw (resolve_query-eq-response_spec msg) at known in
    rw (
      resolve_query-eq-response_spec msg,
      encode_resource_records-code (response_spec msg).answers,
      known',
      au,
      ad,
      encode_resource_records,
    )
