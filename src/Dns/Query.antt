-- ===== src/Dns/Query.antt =====
-- dpdk-code/dns/dns.c: decode_msg, against the bytes that encode_msg writes for a query.
pub mod RoundTrip
use dpdk_learning.Base.{
  ℕ, zero, suc, ◌+◌, ◌-◌, ◌≤◌, ◌<◌, ◌≡◌, ◌≢◌, ◌∙◌, refl, ap, min, Bool, true, false, ◌&&◌, ◌||◌,
  not, Option, none, some, List, [], ◌∷◌, ◌++◌, arith, ◌==◌, if◌then◌else◌, length, append_assoc,
  append-nil, All,
}
use dpdk_learning.Dns.Wire.{
  Outcome, fault, done, ◌>>=◌, Status, ok, failed, Question, Message, get16bits, put16bits,
  get16bits_then,
}
use dpdk_learning.Dns.Header.{decode_header}
use dpdk_learning.Dns.Name.{Decoded, decode_domain_name, encode_domain_name}

-- A question whose name was not decoded ends the loop; else it is put before those read so far.
abbrev pub add_question : Option (List ℕ × List ℕ) → ℕ → ℕ → List Question → Option (List Question)
add_question none t c qs = none
add_question (some (name, b)) t c qs = some (record { q_name = name; q_type = t; q_class = c } ∷ qs)

-- Where the cursor is behind a name: a NULL leaves it where it was.
abbrev pub cursor : Option (List ℕ × List ℕ) → List ℕ → List ℕ
cursor none buf = buf
cursor (some (name, b)) buf = b

-- One round of the question loop: name, type and class are read before the name is tested.
unfoldable pub decode_question :
    List Question → List ℕ → ℕ → Outcome (Option (List Question) × List ℕ)
decode_question qs buf size = do
  name ← decode_domain_name buf size
  (t, b1) ← get16bits (cursor name buf)
  (c, b2) ← get16bits b1
  done (add_question name t c qs, b2)

-- The question loop. The flag says whether every name was decoded.
unfoldable pub decode_questions : ℕ → List Question → List ℕ → ℕ → Outcome (Status × List Question)
decode_questions zero qs buf size = done (ok, qs)
decode_questions (suc n) qs buf size = elim (decode_question qs buf size) [
  | fault ↦ fault
  | done (none, b) ↦ done (failed, qs)
  | done (some qs', b) ↦ decode_questions n qs' b size
]

-- The test of the record counts, and the questions.
unfoldable pub decode_body : Message → List ℕ → ℕ → Outcome (Status × Message)
decode_body m b size =
    if not (m.an_count == 0) || not (m.ns_count == 0) then done (failed, m) else do
      (status, qs) ← decode_questions m.qd_count m.questions b size
      done (status, record m { questions = qs })

unfoldable pub decode_msg : Message → List ℕ → ℕ → Outcome (Status × Message)
decode_msg msg buffer size = do (m, b) ← decode_header msg buffer; decode_body m b size
