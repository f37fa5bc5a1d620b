-- ===== src/Net/Socket/HalfOpen.antt =====
-- dpdk-code/14_tcp_concurrency/tcp_concurrency.c: the stream that ng_tcp_handle_listen opens for a
-- SYN, and get_accept_tcb.
use dpdk_learning.Base.{
  ◌+◌, ◌%◌, ◌^◌, ◌<◌, ◌≡◌, ◌∙◌, refl, ap, true, none, some, [], ◌∷◌, ◌++◌, ==_refl, arith, bit_or,
}
use dpdk_learning.Net.Rte.{Rte}
use dpdk_learning.Net.State.{
  Run, crash, exit, wait, done, listen, syn_rcvd, status_eq, Fragment, Stream, Stack,
}
use dpdk_learning.Net.Tcp.{
  TcpHdr, IpHdr, has_flag, syn_flag, ack_flag, tcp_max_seq, control_fragment, new_ring, answer_syn,
  open_stream, ng_tcp_stream_create, ng_tcp_handle_listen,
}
use dpdk_learning.Net.Streams.{vacant, put_stream-vacant}
use dpdk_learning.Net.Socket.{get_accept_tcb}

module _ (rte : Rte) where
  -- The stream for a connection that the peer has asked for.
  pub record IsHalfOpen (hdr : TcpHdr) (ip : IpHdr) (syn : Stream rte) : Type 0 where
    pub unaccepted : syn.fd ≡ none
    pub waiting : syn.status ≡ syn_rcvd
    pub peer : (syn.sip ≡ ip.src_addr) × (syn.sport ≡ hdr.src_port)
    pub here : (syn.dip ≡ ip.dst_addr) × (syn.dport ≡ hdr.dst_port)
    pub expects : syn.rcv_nxt ≡ (rte.ntohl hdr.sent_seq + 1) % 2 ^ 32
    pub in_range : syn.snd_nxt < tcp_max_seq
    pub answered :
        (ring : rte.Ring Fragment) × (syn.sndbuf ≡ some ring)
        × (rte.items ring
            ≡ control_fragment rte hdr.dst_port hdr.src_port syn.snd_nxt syn.rcv_nxt
                (bit_or syn_flag ack_flag)
              ∷ [])

  abbrev pub Opened : TcpHdr → IpHdr → Stack rte → Run (Stack rte) → Type 0
  Opened hdr ip st (done st') =
      (syn : Stream rte) × (st'.tcb_set ≡ syn ∷ st.tcb_set)
      × (get_accept_tcb rte hdr.dst_port st' ≡ some syn)
      × IsHalfOpen hdr ip syn
  Opened hdr ip st crash = ⊥
  Opened hdr ip st exit = ⊥
  Opened hdr ip st wait = ⊥

  -- A SYN for a listener, with memory and a ring of some room to be had, and the fresh address
  -- vacant: `ng_tcp_handle_listen` returns and puts one stream in front of the others, in SYN_RCVD,
  -- with the addresses of the packet, the sequence number that comes next, and SYN and ACK as the
  -- one fragment to be sent. `get_accept_tcb` takes that stream at once, before the peer's ACK.
  pub ng_tcp_handle_listen-Opened :
      (s : Stream rte) (hdr : TcpHdr) (ip : IpHdr) (st : Stack rte)
      → has_flag hdr.tcp_flags syn_flag ≡ true
      → status_eq s.status listen ≡ true
      → vacant rte st.clock st.tcb_set ≡ true
      → rte.alloc st.clock ≡ true
      → rte.ring_create (st.clock + 1) ≡ true
      → rte.alloc (st.clock + 3) ≡ true
      → 0 < rte.room
      → Opened hdr ip st (ng_tcp_handle_listen rte s hdr ip st)
  unfolding get_accept_tcb ng_tcp_handle_listen open_stream answer_syn ng_tcp_stream_create
  ng_tcp_handle_listen-Opened s hdr ip st f l v a r b room =
      rw (f, l, a, r, b, ==_refl st.clock, put_stream-vacant rte syn st.tcb_set v)
        (syn, refl, accepted, shape)
    where
      answer : Fragment
      answer =
          control_fragment rte hdr.dst_port hdr.src_port (rte.rand st.clock % tcp_max_seq)
            ((rte.ntohl hdr.sent_seq + 1) % 2 ^ 32) (bit_or syn_flag ack_flag)

      ring : rte.Ring Fragment
      ring = rte.enqueue rte.ring_new answer

      syn : Stream rte
      syn = record {
        ptr = st.clock;
        fd = none;
        dip = ip.dst_addr;
        localmac = st.src_mac;
        dport = hdr.dst_port;
        protocol = 6;
        sport = hdr.src_port;
        sip = ip.src_addr;
        snd_nxt = rte.rand st.clock % tcp_max_seq;
        rcv_nxt = (rte.ntohl hdr.sent_seq + 1) % 2 ^ 32;
        status = syn_rcvd;
        sndbuf = some ring;
        rcvbuf = new_ring rte (st.clock + 2);
      }

      empty : rte.items (rte.ring_new {A = Fragment}) ≡ []
      empty = rte.items-ring_new

      held : rte.items ring ≡ answer ∷ []
      held =
          rte.items-enqueue rte.ring_new answer (rw empty room)
          ∙ ap (λ xs. xs ++ (answer ∷ [])) empty

      shape : IsHalfOpen hdr ip syn
      shape = record {
        unaccepted = refl;
        waiting = refl;
        peer = (refl, refl);
        here = (refl, refl);
        expects = refl;
        in_range = omega arith;
        answered = (ring, refl, held);
      }

      accepted :
          get_accept_tcb rte hdr.dst_port
            (record st { tcb_set = syn ∷ st.tcb_set; clock = st.clock + 4 })
          ≡ some syn
      accepted = rw (get_accept_tcb, ==_refl hdr.dst_port) refl
