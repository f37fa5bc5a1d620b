-- ===== src/Net/Output/Delivery.antt =====
-- dpdk-code/14_tcp_concurrency/tcp_concurrency.c: the way of a payload from nsend through the frame
-- of ng_encode_tcp_apppkt into the receive buffer of the peer.
use dpdk_learning.Base.{
  ℕ, suc, ◌+◌, ◌-◌, ◌*◌, ◌%◌, ◌^◌, ◌<◌, ◌≤◌, ◌≡◌, ◌∙◌, refl, sym, ap, subst, true, some, List, ◌++◌,
  take, drop, length, length-append, arith,
}
use dpdk_learning.Base.Int.{pos, sub_ℕ, minus}
use dpdk_learning.Net.Rte.{Rte}
use dpdk_learning.Net.State.{Fragment, Stream, Stack, ipproto_tcp}
use dpdk_learning.Net.Tcp.{TcpHdr, IpHdr}
use dpdk_learning.Net.TcpProcess.{payload_len, data_fragment, ng_tcp_enqueue_recvbuffer}
use dpdk_learning.Net.TcpProcess.Payload.{Stored, ng_tcp_enqueue_recvbuffer-Stored}
use dpdk_learning.Net.SocketData.{data_segment}
use dpdk_learning.Net.Frame.{
  tcp_total, ip_header, tcp_segment, ng_encode_tcp_apppkt, read_ip, read_tcp,
}
use dpdk_learning.Net.Frame.RoundTrip.{
  FragmentFits, take_exactly, take_whole, read_ip-ng_encode_tcp_apppkt,
  read_tcp-ng_encode_tcp_apppkt,
}

-- The length that ng_tcp_process computes is that of the payload and its header.
segment_len : (k : ℕ) → minus (sub_ℕ (suc k + 40) 20) 20 ≡ pos (suc k)
segment_len k = ground arith

module _ (rte : Rte) where
  -- A connection whose numbers fit the header, and a payload of `suc k` bytes that fits a packet.
  pub record CanSend (s : Stream rte) (buf : List ℕ) (k : ℕ) : Type 0 where
    pub sport_fits : s.sport < 2 ^ 16
    pub dport_fits : s.dport < 2 ^ 16
    pub sip_fits : s.sip < 2 ^ 32
    pub dip_fits : s.dip < 2 ^ 32
    pub snd_fits : s.snd_nxt < 2 ^ 32
    pub rcv_fits : s.rcv_nxt < 2 ^ 32
    pub measured : length buf ≡ suc k
    pub short : k + 41 < 2 ^ 16

  segment_fits :
      (s : Stream rte) (buf : List ℕ) (k : ℕ)
      → CanSend s buf k
      → FragmentFits rte (data_segment rte s buf) buf
  segment_fits s buf k c = record {
    sport_fits = c.dport_fits;
    dport_fits = c.sport_fits;
    seqnum_fits = c.snd_fits;
    acknum_fits = c.rcv_fits;
    total_fits = omega (arith, c.measured, c.short);
    held = refl;
    measured = omega (arith, c.measured, c.short);
  }

  module _ (s : Stream rte) (buf : List ℕ) (k : ℕ) (c : CanSend s buf k) (n : ℕ)
      (mac rest : List ℕ) where
    abbrev pub frame : List ℕ
    frame = ng_encode_tcp_apppkt rte n s.dip s.sip s.localmac mac (data_segment rte s buf) ++ rest

    abbrev parsed : TcpHdr
    parsed = record {
      src_port = s.dport;
      dst_port = s.sport;
      sent_seq = rte.ntohl s.snd_nxt;
      recv_ack = rte.ntohl s.rcv_nxt;
      data_off = 0x50;
      tcp_flags = 0x18;
      cksum_ok = true;
      segment =
          tcp_segment rte n
            (ip_header rte ((tcp_total (data_segment rte s buf) - 14) % 2 ^ 16) ipproto_tcp s.dip
              s.sip)
            (data_segment rte s buf)
          ++ rest;
    }

    len_lem : length buf % 2 ^ 32 ≡ suc k
    len_lem = omega (arith, c.measured, c.short)

    all_taken : take (length buf % 2 ^ 32) buf ≡ buf
    all_taken = ap (λ l. take l buf) (omega (arith, c.measured, c.short)) ∙ take_whole buf

    payload_lem : take (suc k) (drop 20 parsed.segment) ≡ buf
    payload_lem =
        ap (λ l. take (suc k) (l ++ rest)) all_taken ∙ take_exactly (suc k) buf rest c.measured

    within : 20 + suc k ≤ length parsed.segment
    within = omega (
      arith,
      length-append (take (length buf % 2 ^ 32) buf) rest,
      ap length all_taken,
      c.measured,
    )

    unfoldable total : ℕ
    total = (data_segment rte s buf).len + 40 + (data_segment rte s buf).optlen * 4

    parsed_len : payload_len parsed (sub_ℕ total 20) ≡ pos (suc k)
    unfolding total
    parsed_len =
        let e : total ≡ suc k + 40 = omega (arith, len_lem) in
        ap (λ t. minus (sub_ℕ t 20) 20) e ∙ segment_len k

    -- A payload of `suc k` bytes on a connection, in a packet short enough for its length field: the
    -- segment that `nsend` queues, sent as a frame from any buffer and received in a buffer with
    -- anything behind it, is put into the receive buffer of the peer's stream, which has room and
    -- memory, as exactly the payload, with the ports of the sender.
    pub ng_tcp_enqueue_recvbuffer-frame :
        (r : Stream rte) (ring : rte.Ring Fragment) (st : Stack rte)
        → r.rcvbuf ≡ some ring
        → length (rte.items ring) < rte.room
        → rte.alloc st.clock ≡ true
        → rte.alloc (st.clock + 1) ≡ true
        → Stored rte r
            (rte.items ring)
            (data_fragment (rte.ntohs s.dport) (rte.ntohs s.sport) (some buf) (suc k))
            st
            (ng_tcp_enqueue_recvbuffer rte r
              (read_tcp rte frame)
              (sub_ℕ (read_ip rte frame).total_length 20)
              st)
    unfolding total
    ng_tcp_enqueue_recvbuffer-frame r ring st b room a a' =
        let f = data_segment rte s buf in
        let fits = segment_fits s buf k c in
        let base =
          ng_tcp_enqueue_recvbuffer-Stored rte r parsed (sub_ℕ total 20) k ring st parsed_len within
            b room a a' in
        let stored =
          subst
            (λ l.
              Stored rte r (rte.items ring)
                (data_fragment (rte.ntohs s.dport) (rte.ntohs s.sport) (some l) (suc k)) st
                (ng_tcp_enqueue_recvbuffer rte r parsed (sub_ℕ total 20) st))
            payload_lem base in
        let read =
          subst
            (λ h.
              Stored rte r (rte.items ring)
                (data_fragment (rte.ntohs s.dport) (rte.ntohs s.sport) (some buf) (suc k)) st
                (ng_tcp_enqueue_recvbuffer rte r h (sub_ℕ total 20) st))
            (sym (
              read_tcp-ng_encode_tcp_apppkt rte n s.dip s.sip s.localmac mac f buf rest c.dip_fits
                c.sip_fits fits))
            stored in
        subst
          (λ (h : IpHdr).
            Stored rte r (rte.items ring)
              (data_fragment (rte.ntohs s.dport) (rte.ntohs s.sport) (some buf) (suc k)) st
              (ng_tcp_enqueue_recvbuffer rte r (read_tcp rte frame) (sub_ℕ h.total_length 20) st))
          (sym (
            read_ip-ng_encode_tcp_apppkt rte n s.dip s.sip s.localmac mac f buf rest c.dip_fits
              c.sip_fits fits))
          read
