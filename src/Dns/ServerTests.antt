-- ===== src/Dns/ServerTests.antt =====
-- dpdk-code/dns: a query in a frame, and the frame that answers it.
use dpdk_learning.Base.{ℕ, ◌≡◌, refl, List, [], ◌∷◌, ◌++◌, arith, length}
use dpdk_learning.Dns.Wire.{put16bits, put8bits, put32bits}
use dpdk_learning.Dns.Header.{encode_header, encode_fields}
use dpdk_learning.Dns.Name.{encode_domain_name, encode_labels}
use dpdk_learning.Dns.Response.{
  encode_msg, encode_questions, encode_resource_records, encode_record_head, encode_rd_data,
}
use dpdk_learning.Dns.Resolve.Answers.{answers_spec, answer_spec, some_unanswerable}
use dpdk_learning.Dns.Server.{replied, serve_frame}
use dpdk_learning.Dns.Server.Reply.{Carries, response}
use dpdk_learning.Dns.Server.Answered.{CarriesQuery, received, serve_frame-Carries}
use dpdk_learning.Dns.Tests.{query, query-IsQuery}
use dpdk_learning.Net.State.{done}
use dpdk_learning.Net.Tests.{list_rte, zeros, mac}
use dpdk_learning.Ddos.CountBit.Loop.{IsMemory}
use dpdk_learning.Icmp.Tests.{all_bytes-IsMemory}

-- From host 8, port 5000, to port 53 of host 9.
abbrev headers : List ℕ
headers =
    zeros 6
    ++ (mac
        ++ (0
            ∷ 8
            ∷ (zeros 9
                ++ (17 ∷ 0 ∷ 0 ∷ 8 ∷ 0 ∷ 0 ∷ 0 ∷ 9 ∷ 0 ∷ 0 ∷ 0 ∷ 136 ∷ 19 ∷ 53 ∷ 0 ∷ 108 ∷ 0 ∷ 0 ∷ 0
                    ∷ []))))

abbrev query_frame : List ℕ
query_frame = headers ++ ((encode_msg query).1 ++ zeros 200)

query_frame-IsMemory : IsMemory query_frame
unfolding encode_msg encode_header encode_fields encode_questions encode_domain_name encode_labels
    put16bits put8bits encode_resource_records
query_frame-IsMemory = all_bytes-IsMemory query_frame refl

length-response : length (response (received query)) ≡ 104
unfolding encode_msg encode_header encode_fields encode_questions encode_domain_name encode_labels
    put16bits put8bits put32bits encode_resource_records encode_record_head encode_rd_data
    answers_spec answer_spec some_unanswerable
length-response = refl

length-query_frame : length query_frame ≡ 288
unfolding encode_msg encode_header encode_fields encode_questions encode_domain_name encode_labels
    put16bits put8bits encode_resource_records
length-query_frame = refl

carries_query : CarriesQuery list_rte mac query (zeros 200) query_frame
carries_query = record {
  memory = query_frame-IsMemory;
  udp = refl;
  port = refl;
  query = query-IsQuery;
  held = refl;
  room = omega (arith, length-response, length-query_frame);
  buffer = omega (arith, length-query_frame);
}

serve_frame-Carries_example :
    (reply : List ℕ) × (serve_frame list_rte mac 5 query_frame ≡ done (replied reply))
    × Carries list_rte mac query_frame (response (received query)) reply
serve_frame-Carries_example =
    serve_frame-Carries list_rte mac 5 query (zeros 200) query_frame carries_query refl
