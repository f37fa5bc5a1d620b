-- ===== src/Dns/Response.antt =====
-- dpdk-code/dns/dns.c: encode_resource_records and encode_msg.
use dpdk_learning.Base.{ℕ, Bool, ◌||◌, List, [], ◌∷◌, ◌++◌, ◌==◌, if◌then◌else◌, take}
use dpdk_learning.Dns.Wire.{
  Question, ResourceData, a_record, aaaa_record, txt_record, ResourceRecord, Message, put8bits,
  put16bits, put32bits,
}
use dpdk_learning.Dns.Header.{encode_header}
use dpdk_learning.Dns.Name.{encode_domain_name}

-- The enum `Resource Record Types` of dns.h, as far as the code answers them.
abbrev pub a_resource_record_type : ℕ
a_resource_record_type = 1

abbrev pub txt_resource_record_type : ℕ
txt_resource_record_type = 16

abbrev pub aaaa_resource_record_type : ℕ
aaaa_resource_record_type = 28

abbrev pub put_bytes : List ℕ → List ℕ
put_bytes [] = []
put_bytes (b ∷ bs) = put8bits b ++ put_bytes bs

-- The member of the union that the type of the record selects, put out byte by byte. The code
-- reads the member that the type names; a record of another member does not arise from
-- `resolve_query`, and writes nothing here.
unfoldable pub encode_rd_data : ℕ → ResourceData → List ℕ
encode_rd_data t (a_record addr) =
    if t == a_resource_record_type then put_bytes (take 4 addr) else []
encode_rd_data t (aaaa_record addr) =
    if t == aaaa_resource_record_type then put_bytes (take 16 addr) else []
encode_rd_data t (txt_record len text) =
    if t == txt_resource_record_type then put8bits len ++ put_bytes (take len text) else []

abbrev pub known_type : ℕ → Bool
known_type t =
    t == a_resource_record_type || (t == aaaa_resource_record_type || t == txt_resource_record_type)

-- Name, type, class, time to live and length of a record.
unfoldable pub encode_record_head : ResourceRecord → List ℕ
encode_record_head rr =
    encode_domain_name rr.name
    ++ (put16bits rr.rr_type
        ++ (put16bits rr.rr_class ++ (put32bits rr.ttl ++ put16bits rr.rd_length)))

-- The return code (1 where a type is not known, which ends the loop) and the bytes written.
unfoldable pub encode_resource_records : List ResourceRecord → ℕ × List ℕ
encode_resource_records [] = (0, [])
encode_resource_records (rr ∷ rrs) =
    let rest = encode_resource_records rrs in
    if known_type rr.rr_type
    then (rest.0, encode_record_head rr ++ (encode_rd_data rr.rr_type rr.rd_data ++ rest.1))
    else (1, encode_record_head rr)

unfoldable pub encode_questions : List Question → List ℕ
encode_questions [] = []
encode_questions (q ∷ qs) =
    encode_domain_name q.q_name
    ++ (put16bits q.q_type ++ (put16bits q.q_class ++ encode_questions qs))

-- `rc |= …` of codes that are 0 or 1.
abbrev pub or_code : ℕ → ℕ → ℕ
or_code a b = if a == 0 then b else a

unfoldable pub encode_msg : Message → ℕ × List ℕ
encode_msg msg =
    let an = encode_resource_records msg.answers in
    let au = encode_resource_records msg.authorities in
    let ad = encode_resource_records msg.additionals in
    (
      or_code (or_code an.0 au.0) ad.0,
      encode_header msg ++ (encode_questions msg.questions ++ (an.1 ++ (au.1 ++ ad.1))),
    )
