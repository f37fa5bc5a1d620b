-- ===== src/Dns/Server/Answered.antt =====
-- dpdk-code/dns/dpdk_kni.c: a query of encode_msg in a frame, and the response to it.
use dpdk_learning.Base.{
  ℕ, ◌+◌, ◌≤◌, ◌≡◌, ◌∙◌, refl, ap, true, List, [], ◌++◌, ◌==◌, leb, drop, length, arith,
}
use mathlib.Core.List.{reverse_aux}
use dpdk_learning.Dns.Wire.{Outcome, Question, Message, ok}
use dpdk_learning.Dns.Wire
use dpdk_learning.Dns.Header.{read_back}
use dpdk_learning.Dns.Query.{decode_msg}
use dpdk_learning.Dns.Query.RoundTrip.{IsQuery, decode_msg-encode_msg_then}
use dpdk_learning.Dns.Response.{encode_msg}
use dpdk_learning.Dns.Resolve.Answers.{resolve_query-eq-response_spec}
use dpdk_learning.Dns.Server.{
  udp_port, cleared, replied, do_send_udp, data_length, respond, answer_query, is_udp, serve_frame,
}
use dpdk_learning.Dns.Server.Reply.{Carries, response, reply_to, reply_to-Carries, decoded}
use dpdk_learning.Net.Rte.{Rte}
use dpdk_learning.Net.State.{done}
use dpdk_learning.Net.Frame.{load16, mbuf_room}
use dpdk_learning.Ddos.CountBit.Loop.{IsMemory}

-- What the responder has decoded behind the query: its questions are the last one first.
abbrev pub received : Message → Message
received msg = record (read_back cleared msg) { questions = reverse_aux msg.questions [] }

module _ (rte : Rte) (src_mac : List ℕ) where
  -- A frame of bytes that carries a query to port 53, with room in its buffer for the response.
  pub record CarriesQuery (msg : Message) (rest frame : List ℕ) : Type 0 where
    pub memory : IsMemory frame
    pub udp : is_udp rte frame ≡ true
    pub port : (udp_port == rte.ntohs (load16 frame 36)) ≡ true
    pub query : IsQuery (data_length rte frame) msg
    pub held : drop 42 frame ≡ (encode_msg msg).1 ++ rest
    pub room : 42 + length (response (received msg)) ≤ length frame
    pub buffer : length frame ≤ mbuf_room

  -- A query in a frame to port 53, with memory to be had, and room in the packet's buffer for the
  -- response: one frame is sent, from the address and port that the query was sent to, to the
  -- sender's, and it carries the encoding of the response of `response_spec` to the questions.
  pub serve_frame-Carries :
      (n : ℕ) (msg : Message) (rest frame : List ℕ)
      → CarriesQuery msg rest frame
      → rte.alloc n ≡ true
      → (reply : List ℕ) × (serve_frame rte src_mac n frame ≡ done (replied reply))
        × Carries rte src_mac frame (response (received msg)) reply
  unfolding serve_frame answer_query respond do_send_udp
  serve_frame-Carries n msg rest frame c a =
      let d : decoded rte frame ≡ Wire.done (ok, received msg) =
        ap (λ l. decode_msg cleared l (data_length rte frame)) c.held
        ∙ decode_msg-encode_msg_then cleared msg (data_length rte frame) rest c.query in
      let fits : leb (42 + length (response (received msg))) (length frame) ≡ true =
        ground (arith, c.room) in
      let fits' : leb (length (response (received msg)) + 42) mbuf_room ≡ true =
        ground (arith, c.room, c.buffer) in
      (
        reply_to rte src_mac frame (response (received msg)),
        rw (c.udp, c.port, d, resolve_query-eq-response_spec (received msg), fits, a, fits') refl,
        reply_to-Carries rte src_mac frame (response (received msg)) c.memory
            (omega (arith, c.room, c.buffer)),
      )
