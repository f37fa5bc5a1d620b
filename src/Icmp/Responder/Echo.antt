-- ===== src/Icmp/Responder/Echo.antt =====
-- dpdk-code/04_icmp/icmp.c: the answer to an echo request, as its sender reads it.
use dpdk_learning.Base.{
  ℕ, ◌+◌, ◌-◌, ◌%◌, ◌^◌, ◌<◌, ◌≡◌, ◌≢◌, ◌∙◌, refl, ap, ◌==◌, List, some, get_or, take, drop, arith,
  true, false,
}
use dpdk_learning.Net.Rte.{Rte}
use dpdk_learning.Net.State.{done}
use dpdk_learning.Net.Frame.{load16, load32, mac6, ether_type_ipv4, ether_type_arp}
use dpdk_learning.Net.Frame.RoundTrip.{loaded16, loaded32}
use dpdk_learning.Ddos.CountBit.Loop.{IsMemory}
use dpdk_learning.Icmp.Checksum.{add_words, folded, ng_checksum}
use dpdk_learning.Icmp.Checksum.Sums.{ng_checksum-add_words, Checks-zero}
use dpdk_learning.Icmp.Responder.{
  ipproto_icmp, echo_reply, echo_request, icmp_fields, ng_encode_icmp_pkt, ng_send_icmp,
  answer_icmp, answer_ip, answer_frame,
}

pub load16-lt : (bs : List ℕ) (i : ℕ) → IsMemory bs → load16 bs i < 2 ^ 16
load16-lt bs i m = omega (arith, m i, m (i + 1))

pub load32-lt : (bs : List ℕ) (i : ℕ) → IsMemory bs → load32 bs i < 2 ^ 32
load32-lt bs i m = omega (arith, m i, m (i + 1), m (i + 2), m (i + 3))

-- The eight bytes of a reply carry a checksum that is right.
icmp_fields-checksum :
    (id seqnb : ℕ)
    → ng_checksum (icmp_fields id seqnb (ng_checksum (icmp_fields id seqnb 0) 8)) 8 ≡ 0
unfolding ng_checksum add_words
icmp_fields-checksum id seqnb =
    let bs = icmp_fields id seqnb 0 in
    let h = ng_checksum-add_words bs 8 in
    let c = ng_checksum bs 8 in
    let e : add_words 8 (icmp_fields id seqnb c) 0 0 ≡ add_words 8 bs 0 0 + c =
      omega (arith, loaded16 c h.short) in
    ap (λ s. 65535 - folded s % 2 ^ 16) e ∙ Checks-zero (add_words 8 bs 0 0) c h

module _ (rte : Rte) (src_mac : List ℕ) (local_ip : ℕ) where
  -- A frame that carries an echo request.
  pub record IsRequest (frame : List ℕ) : Type 0 where
    pub memory : IsMemory frame
    pub ipv4 : load16 frame 12 ≡ rte.ntohs ether_type_ipv4
    pub icmp : get_or frame 23 0 ≡ ipproto_icmp
    pub request : get_or frame 34 0 ≡ echo_request

  -- What its sender finds in the answer: it is addressed to the sender at both levels, comes from the
  -- address that the request was sent to, carries the identifier and the sequence number of the
  -- request, and its checksum is right.
  pub record IsReply (frame reply : List ℕ) : Type 0 where
    pub to_mac : take 6 reply ≡ mac6 (take 6 (drop 6 frame))
    pub from_mac : take 6 (drop 6 reply) ≡ mac6 src_mac
    pub ether_type : load16 reply 12 ≡ rte.ntohs ether_type_ipv4
    pub protocol : get_or reply 23 0 ≡ ipproto_icmp
    pub from_ip : load32 reply 26 ≡ load32 frame 30
    pub to_ip : load32 reply 30 ≡ load32 frame 26
    pub icmp_type : get_or reply 34 0 ≡ echo_reply
    pub ident : load16 reply 38 ≡ load16 frame 38
    pub seq_nb : load16 reply 40 ≡ load16 frame 40
    pub checked : ng_checksum (drop 34 reply) 8 ≡ 0

  abbrev pub reply_to : List ℕ → List ℕ
  reply_to frame =
      ng_encode_icmp_pkt rte src_mac local_ip (take 6 (drop 6 frame)) (load32 frame 30)
        (load32 frame 26) (load16 frame 38) (load16 frame 40)

  reply_to-IsReply : (frame : List ℕ) → IsMemory frame → IsReply frame (reply_to frame)
  unfolding ng_encode_icmp_pkt
  reply_to-IsReply frame m = record {
    to_mac = refl;
    from_mac = refl;
    ether_type = loaded16 (rte.ntohs ether_type_ipv4) (rte.ntohs-lt ether_type_ipv4 (omega arith));
    protocol = refl;
    from_ip = loaded32 (load32 frame 30) (load32-lt frame 30 m);
    to_ip = loaded32 (load32 frame 26) (load32-lt frame 26 m);
    icmp_type = refl;
    ident = loaded16 (load16 frame 38) (load16-lt frame 38 m);
    seq_nb = loaded16 (load16 frame 40) (load16-lt frame 40 m);
    checked = icmp_fields-checksum (load16 frame 38) (load16 frame 40);
  }

  -- The two types of a frame differ in every byte order.
  types_differ : rte.ntohs ether_type_ipv4 ≢ rte.ntohs ether_type_arp
  types_differ e = omega (
    arith,
    rte.ntohs-ntohs ether_type_ipv4 (omega arith),
    rte.ntohs-ntohs ether_type_arp (omega arith),
    ap rte.ntohs e,
  )

  -- A frame that carries an echo request, with memory to be had, is answered by one frame, and that
  -- is addressed to the sender at both levels, comes from the address that the request was sent to,
  -- carries the identifier and the sequence number of the request, and has a checksum that is right.
  pub answer_frame-IsReply :
      (n : ℕ) (frame : List ℕ)
      → IsRequest frame
      → rte.alloc n ≡ true
      → (reply : List ℕ) × (answer_frame rte src_mac local_ip n frame ≡ done (some reply))
        × IsReply frame reply
  unfolding answer_frame answer_ip answer_icmp ng_send_icmp
  answer_frame-IsReply n frame r a =
      let not_arp : (load16 frame 12 == rte.ntohs ether_type_arp) ≡ false =
        ground (arith, r.ipv4, types_differ) in
      let ip : (load16 frame 12 == rte.ntohs ether_type_ipv4) ≡ true = ground (arith, r.ipv4) in
      (reply_to frame, rw (not_arp, ip, r.icmp, r.request, a) refl, reply_to-IsReply frame r.memory)
