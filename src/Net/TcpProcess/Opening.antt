-- ===== src/Net/TcpProcess/Opening.antt =====
-- dpdk-code/14_tcp_concurrency/tcp_concurrency.c: the handshake keeps what the table and the event poll need.
use dpdk_learning.Base.{
  ℕ, ◌+◌, ◌%◌, ◌^◌, ◌<◌, ◌≡◌, ◌∙◌, refl, sym, ap, true, Option, none, some, List, ◌∷◌, ==_iff,
  arith, Bool-cases, Option-cases, inl, inr,
}
use dpdk_learning.Net.Rte.{Rte}
use dpdk_learning.Net.State.{
  listen, syn_rcvd, established, status_eq, Fragment, Stream, Stack, put_stream, write_stream,
}
use dpdk_learning.Net.Returns.{Returns, Returns-map}
use dpdk_learning.Net.Tcp.{
  TcpHdr, IpHdr, has_flag, ack_flag, syn_flag, first, matches, ng_tcp_stream_search,
  ng_tcp_stream_create, open_stream, answer_syn, ng_tcp_handle_listen, ng_tcp_handle_syn_rcvd,
  wake_listener,
}
use dpdk_learning.Net.TcpProcess.Open.{IsPolled, IsNotified, notify-Returns, IsConnection}
use dpdk_learning.Net.TcpProcess.Sound.{
  IsSound, put-IsSound, kept_listeners, notified-IsSound, cons-IsSound, Searched,
}
use dpdk_learning.Net.Streams.{vacant, put_stream-vacant}
use dpdk_learning.Net.Streams.Fine.{HasRing, has_listener, has_listener-first, vacant_of_below}

module _ (rte : Rte) (memory : (n : ℕ) → rte.alloc n ≡ true)
    (rings : (n : ℕ) → rte.ring_create n ≡ true) where
  -- The listener that is looked for behind the end of a handshake is there.
  wake_listener-Returns :
      (dport : ℕ) (st : Stack rte)
      → has_listener rte dport st.tcb_set ≡ true
      → IsPolled rte st.ep
      → Returns (IsNotified rte st) (wake_listener rte dport st)
  unfolding wake_listener ng_tcp_stream_search
  wake_listener-Returns dport st h p =
      let (s, e) = has_listener-first rte dport st.tcb_set h in
      elim (Option-cases (first rte (matches rte 0 0 0 dport) st.tcb_set)) [
        | inr (x, m) ↦ rw (m, wake_listener) (notify-Returns rte x.fd st p)
        | inl m ↦ rw (m, e, wake_listener) (notify-Returns rte s.fd st p)
      ]

  pub syn_rcvd-Sound :
      (hdr : TcpHdr) (s : Stream rte) (st : Stack rte)
      → IsSound rte st
      → Searched rte hdr.dst_port st s
      → s.status ≡ syn_rcvd
      → Returns (IsSound rte) (ng_tcp_handle_syn_rcvd rte s hdr st)
  unfolding ng_tcp_handle_syn_rcvd
  syn_rcvd-Sound hdr s st i (f, (p, r, q, a), d, l) e =
      elim (Bool-cases (has_flag hdr.tcp_flags ack_flag)) [
        | inr g ↦ rw g i
        | inl g ↦
            let s' : Stream rte = record s { status = established } in
            let st' : Stack rte = write_stream rte s' st in
            let i' : IsSound rte st' =
              put-IsSound rte s s' st st' i f refl p (r, q, refl, refl) (rw e refl) refl
                (omega arith) i.polled in
            let c : IsConnection rte s' = (r, q, refl, refl) in
            let h : has_listener rte s.dport st.tcb_set ≡ true = rw e at a in
            let h' =
              kept_listeners rte s.dport s s' st.tcb_set f refl c (ap (λ x. status_eq x listen) e)
              ∙ h in
            rw (g, ap (λ x. status_eq x syn_rcvd) e)
              (Returns-map (IsNotified rte st') (IsSound rte) (wake_listener rte s.dport st')
                (wake_listener-Returns s.dport st' h' i.polled)
                (λ st2. notified-IsSound rte st' st2 i'))
      ]

  -- The stream that a SYN opens, once its answer is queued.
  put_stream-new :
      (s s' : Stream rte) (ss : List (Stream rte))
      → s'.ptr ≡ s.ptr
      → vacant rte s.ptr ss ≡ true
      → put_stream rte s' (s ∷ ss) ≡ s' ∷ ss
  put_stream-new s s' ss e v =
      let v' : vacant rte s'.ptr ss ≡ true = ap (λ p. vacant rte p ss) e ∙ v in
      rw ((==_iff s.ptr s'.ptr).1 (sym e)) (ap (λ l. s' ∷ l) (put_stream-vacant rte s' ss v'))

  answer_syn-Sound :
      (hdr : TcpHdr) (s : Stream rte) (ring : rte.Ring Fragment) (st st' : Stack rte)
      → IsSound rte st
      → s.ptr ≡ st.clock
      → HasRing rte s.rcvbuf
      → s.sndbuf ≡ some ring
      → has_listener rte s.dport st.tcb_set ≡ true
      → st'.tcb_set ≡ s ∷ st.tcb_set
      → st.clock < st'.clock
      → IsPolled rte st'.ep
      → Returns (IsSound rte) (answer_syn rte hdr st' s)
  unfolding answer_syn
  answer_syn-Sound hdr s ring st st' i e r b h t l p = rw b (
      cons-IsSound rte (answered (rte.enqueue ring _)) st
        (write_stream rte (answered (rte.enqueue ring _)) st') i e r tt h
        (ap (put_stream rte (answered (rte.enqueue ring _))) t
          ∙ put_stream-new s (answered (rte.enqueue ring _)) st.tcb_set refl v)
        l p)
    where
      answered : rte.Ring Fragment → Stream rte
      answered q = record s {
        rcv_nxt = (rte.ntohl hdr.sent_seq + 1) % 2 ^ 32;
        sndbuf = some q;
        status = syn_rcvd;
      }

      v : vacant rte s.ptr st.tcb_set ≡ true
      v =
          ap (λ n. vacant rte n st.tcb_set) e
          ∙ vacant_of_below rte st.clock st.tcb_set st.tcb_set i.fine

  -- The stream of a SYN is made, with its buffers.
  abbrev Created : ℕ → ℕ → Option (Stream rte) → Type 0
  Created n dport none = ⊥
  Created n dport (some s) =
      (s.ptr ≡ n)
      × (s.dport ≡ dport)
      × HasRing rte s.rcvbuf
      × ((ring : rte.Ring Fragment) × (s.sndbuf ≡ some ring))

  ng_tcp_stream_create-Created :
      (n sip dip sport dport : ℕ) (mac : List ℕ)
      → Created n dport (ng_tcp_stream_create rte n sip dip sport dport mac)
  unfolding ng_tcp_stream_create
  ng_tcp_stream_create-Created n sip dip sport dport mac =
      rw (memory n, rings (n + 1), rings (n + 2)) (refl, refl, tt, (rte.ring_new, refl))

  open_stream-Sound :
      (hdr : TcpHdr) (st : Stack rte) (o : Option (Stream rte))
      → IsSound rte st
      → has_listener rte hdr.dst_port st.tcb_set ≡ true
      → Created st.clock hdr.dst_port o
      → Returns (IsSound rte) (open_stream rte hdr st o)
  unfolding open_stream
  open_stream-Sound hdr st none i h c = absurd c
  open_stream-Sound hdr st (some s) i h (p, d, r, (ring, b)) =
      rw (memory (st.clock + 3))
        (answer_syn-Sound hdr s ring st _ i p r b (rw d h) refl (omega arith) i.polled)

  pub listen-Sound :
      (hdr : TcpHdr) (ip : IpHdr) (s : Stream rte) (st : Stack rte)
      → IsSound rte st
      → Searched rte hdr.dst_port st s
      → s.status ≡ listen
      → Returns (IsSound rte) (ng_tcp_handle_listen rte s hdr ip st)
  unfolding ng_tcp_handle_listen
  listen-Sound hdr ip s st i (f, a, d, l) e = elim (Bool-cases (has_flag hdr.tcp_flags syn_flag)) [
    | inr g ↦ rw g i
    | inl g ↦
        let q : status_eq s.status listen ≡ true = ap (λ x. status_eq x listen) e in
        rw (g, q)
          (open_stream-Sound hdr st _ i (l q) (
            ng_tcp_stream_create-Created st.clock ip.src_addr ip.dst_addr hdr.src_port hdr.dst_port
              st.src_mac))
  ]
