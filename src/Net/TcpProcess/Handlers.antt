-- ===== src/Net/TcpProcess/Handlers.antt =====
-- dpdk-code/14_tcp_concurrency/tcp_concurrency.c: the handlers of a segment and the table they leave.
use dpdk_learning.Base.{
  ℕ, ◌+◌, ◌≡◌, ◌∙◌, refl, sym, ap, Bool, true, ◌||◌, Option, some, List, ◌∷◌, arith, Option-cases,
  Bool-cases, inl, inr, ◌⊎◌, subst,
}
use dpdk_learning.Base.Int.{ℤ}
use dpdk_learning.Net.Rte.{Rte, Fd}
use dpdk_learning.Net.State.{
  Run, crash, exit, wait, done, ◌>>=◌, Status, listen, syn_rcvd, established, close_wait, last_ack,
  status_eq, Stream, EventPoll, Stack, put_stream,
}
use dpdk_learning.Net.Epoll.{epoll_event_callback, epollin}
use dpdk_learning.Net.Tcp.{
  TcpHdr, IpHdr, has_flag, fin_flag, psh_flag, ack_flag, syn_flag, ng_tcp_stream_search,
  ng_tcp_stream_create, answer_syn, open_stream, ng_tcp_handle_listen, ng_tcp_handle_syn_rcvd,
  wake_listener, notify,
}
use dpdk_learning.Net.TcpProcess.{ng_tcp_handle_established, ng_tcp_handle_last_ack}
use dpdk_learning.Net.TcpProcess.Writes.{
  View, view, Written, established_view, ng_tcp_handle_established-Written,
}
use dpdk_learning.Net.Streams.{vacant, distinct, Found, put_stream-vacant}
use dpdk_learning.Net.TcpProcess.Steps.{
  allowed, Steps, Steps-refl, Steps-put, Steps-remove, Steps-cons,
}

module _ (rte : Rte) where
  -- A run that returns leaves a table in step.
  abbrev pub Evolved : List (Stream rte) → Run (Stack rte) → Type 0
  Evolved ss (done st) = Steps rte ss st.tcb_set
  Evolved ss crash = Unit
  Evolved ss exit = Unit
  Evolved ss wait = Unit

  put_stream_head :
      (s s' : Stream rte) (ss : List (Stream rte))
      → s'.ptr ≡ s.ptr
      → put_stream rte s' (s ∷ ss) ≡ s' ∷ put_stream rte s' ss
  put_stream_head s s' ss e = ground arith

  abbrev pub new_status : Status → Bool
  new_status a = status_eq a listen || status_eq a syn_rcvd

  -- The new stream of a SYN, written once more.
  written_Steps :
      (s s' : Stream rte) (ss : List (Stream rte))
      → distinct rte ss ≡ true
      → vacant rte s.ptr ss ≡ true
      → s'.ptr ≡ s.ptr
      → s'.status ≡ syn_rcvd
      → Steps rte ss (put_stream rte s' (s ∷ ss))
  written_Steps s s' ss d v e a =
      let w : vacant rte s'.ptr ss ≡ true = ap (λ p. vacant rte p ss) e ∙ v in
      let q : put_stream rte s' (s ∷ ss) ≡ s' ∷ ss =
        put_stream_head s s' ss e ∙ ap (λ t. s' ∷ t) (put_stream-vacant rte s' ss w) in
      subst (Steps rte ss) (sym q) (Steps-cons rte ss s' d w (ap new_status a))

  answer_syn-Evolved :
      (hdr : TcpHdr) (s : Stream rte) (st : Stack rte) (ss : List (Stream rte))
      → st.tcb_set ≡ s ∷ ss
      → distinct rte ss ≡ true
      → vacant rte s.ptr ss ≡ true
      → Evolved ss (answer_syn rte hdr st s)
  unfolding answer_syn
  answer_syn-Evolved hdr s st ss e d v = elim (Option-cases s.sndbuf) [
    | inl f ↦ rw f tt
    | inr (ring, f) ↦ rw (f, e) (written_Steps s _ ss d v refl refl)
  ]

  open_stream-Evolved :
      (hdr : TcpHdr) (s : Stream rte) (st : Stack rte)
      → distinct rte st.tcb_set ≡ true
      → vacant rte s.ptr st.tcb_set ≡ true
      → s.status ≡ listen
      → Evolved st.tcb_set (open_stream rte hdr st (some s))
  unfolding open_stream
  open_stream-Evolved hdr s st d v a = elim (Bool-cases (rte.alloc (st.clock + 3))) [
    | inr e ↦ rw e (Steps-cons rte st.tcb_set s d v (rw a refl))
    | inl e ↦ rw e (answer_syn-Evolved hdr s _ st.tcb_set refl d v)
  ]

  created-Evolved :
      (hdr : TcpHdr) (ip : IpHdr) (st : Stack rte)
      → distinct rte st.tcb_set ≡ true
      → vacant rte st.clock st.tcb_set ≡ true
      → Evolved st.tcb_set (
          open_stream rte hdr st (
            ng_tcp_stream_create rte st.clock ip.src_addr ip.dst_addr hdr.src_port hdr.dst_port
              st.src_mac))
  unfolding ng_tcp_stream_create open_stream
  created-Evolved hdr ip st d v = elim (Bool-cases (rte.alloc st.clock)) [
    | inr e ↦ rw e tt
    | inl e ↦ rw e (open_stream-Evolved hdr _ st d v refl)
  ]

  pub listen-Evolved :
      (s : Stream rte) (hdr : TcpHdr) (ip : IpHdr) (st : Stack rte)
      → distinct rte st.tcb_set ≡ true
      → vacant rte st.clock st.tcb_set ≡ true
      → Evolved st.tcb_set (ng_tcp_handle_listen rte s hdr ip st)
  unfolding ng_tcp_handle_listen
  listen-Evolved s hdr ip st d v = elim (Bool-cases (has_flag hdr.tcp_flags syn_flag)) [
    | inr e ↦ rw e (Steps-refl rte st.tcb_set d)
    | inl e ↦ rw e (elim (Bool-cases (status_eq s.status listen)) [
      | inr f ↦ rw f (Steps-refl rte st.tcb_set d)
      | inl f ↦ rw f (created-Evolved hdr ip st d v)
    ])
  ]

  notify-Evolved :
      (fd : Fd) (st : Stack rte) (ss : List (Stream rte))
      → Steps rte ss st.tcb_set
      → Evolved ss (notify rte fd st)
  unfolding notify
  notify-Evolved fd st ss a = elim (Option-cases st.ep) [
    | inl e ↦ rw (e, notify) tt
    | inr (ep, e) ↦ rw (e, notify) (called (epoll_event_callback rte ep fd epollin))
  ]
    where
      called :
          (r : Run (Option ℕ × EventPoll rte))
          → Evolved ss (r >>= (λ q. done (record st { ep = some q.1 })))
      called (done q) = a
      called crash = tt
      called exit = tt
      called wait = tt

  wake_listener-Evolved :
      (dport : ℕ) (st : Stack rte) (ss : List (Stream rte))
      → Steps rte ss st.tcb_set
      → Evolved ss (wake_listener rte dport st)
  unfolding wake_listener
  wake_listener-Evolved dport st ss a =
      elim (Option-cases (ng_tcp_stream_search rte 0 0 0 dport st.tcb_set)) [
        | inl e ↦ rw (e, wake_listener) tt
        | inr (s, e) ↦ rw (e, wake_listener) (notify-Evolved s.fd st ss a)
      ]

  from_syn_rcvd : (a : Status) → status_eq a syn_rcvd ≡ true → allowed a established ≡ true
  from_syn_rcvd syn_rcvd e = refl
  from_syn_rcvd established e = refl
  from_syn_rcvd a e = ground arith

  pub syn_rcvd-Evolved :
      (s : Stream rte) (hdr : TcpHdr) (st : Stack rte)
      → distinct rte st.tcb_set ≡ true
      → Found rte s st.tcb_set
      → Evolved st.tcb_set (ng_tcp_handle_syn_rcvd rte s hdr st)
  unfolding ng_tcp_handle_syn_rcvd
  syn_rcvd-Evolved s hdr st d f = elim (Bool-cases (has_flag hdr.tcp_flags ack_flag)) [
    | inr e ↦ rw e (Steps-refl rte st.tcb_set d)
    | inl e ↦ rw e (elim (Bool-cases (status_eq s.status syn_rcvd)) [
      | inr g ↦ rw g (Steps-refl rte st.tcb_set d)
      | inl g ↦ rw g (
          wake_listener-Evolved s.dport _ st.tcb_set (
            Steps-put rte st.tcb_set s (record s { status = established }) d f refl
              (from_syn_rcvd s.status g)))
    ])
  ]

  -- A segment keeps a stream's address, and keeps its status or closes the peer's side.
  established_view_lem :
      (hdr : TcpHdr) (n : ℤ) (v : View rte) (ss : List (Stream rte))
      → ((established_view rte ss hdr n v).ptr ≡ v.ptr)
        × (((established_view rte ss hdr n v).status ≡ v.status)
            ⊎ ((established_view rte ss hdr n v).status ≡ close_wait))
  established_view_lem hdr n v ss = elim (Bool-cases (has_flag hdr.tcp_flags psh_flag)) [
    | inl p ↦ elim (Bool-cases (has_flag hdr.tcp_flags fin_flag)) [
      | inl f ↦ rw (p, f) (refl, inr refl)
      | inr f ↦ rw (p, f) (refl, inl refl)
    ]
    | inr p ↦ elim (Bool-cases (has_flag hdr.tcp_flags fin_flag)) [
      | inl f ↦ rw (p, f) (refl, inr refl)
      | inr f ↦ rw (p, f) (refl, inl refl)
    ]
  ]

  allowed_cases : (a b : Status) → a ≡ established → (b ≡ a) ⊎ (b ≡ close_wait) → allowed a b ≡ true
  allowed_cases a b e (inl f) = rw (f, e) refl
  allowed_cases a b e (inr f) = rw (f, e) refl

  pub established-Evolved :
      (s : Stream rte) (hdr : TcpHdr) (n : ℤ) (st : Stack rte)
      → distinct rte st.tcb_set ≡ true
      → Found rte s st.tcb_set
      → s.status ≡ established
      → Evolved st.tcb_set (ng_tcp_handle_established rte s hdr n st)
  established-Evolved s hdr n st d f e =
      written (ng_tcp_handle_established rte s hdr n st)
        (ng_tcp_handle_established-Written rte st.tcb_set hdr n s st (sym f.same))
    where
      written :
          (r : Run (Stack rte))
          → Written rte st.tcb_set (established_view rte st.tcb_set hdr n (view rte s)) r
          → Evolved st.tcb_set r
      written (done st') (s', v, t) =
          let (p, a) = established_view_lem hdr n (view rte s) st.tcb_set in
          let b : s'.status ≡ (established_view rte st.tcb_set hdr n (view rte s)).status =
            ap (λ (u : View rte). u.status) v in
          subst (Steps rte st.tcb_set) (sym t) (
            Steps-put rte st.tcb_set s s' d f (ap (λ (u : View rte). u.ptr) v ∙ p) (
              allowed_cases s.status s'.status e
                (subst (λ x. (x ≡ s.status) ⊎ (x ≡ close_wait)) (sym b) a)))
      written crash w = tt
      written exit w = tt
      written wait w = tt

  pub last_ack-Evolved :
      (s : Stream rte) (hdr : TcpHdr) (st : Stack rte)
      → distinct rte st.tcb_set ≡ true
      → Found rte s st.tcb_set
      → Steps rte st.tcb_set (ng_tcp_handle_last_ack rte s hdr st).tcb_set
  unfolding ng_tcp_handle_last_ack
  last_ack-Evolved s hdr st d f = elim (Bool-cases (has_flag hdr.tcp_flags ack_flag)) [
    | inr e ↦ rw e (Steps-refl rte st.tcb_set d)
    | inl e ↦ rw e (elim (Bool-cases (status_eq s.status last_ack)) [
      | inr g ↦ rw g (Steps-refl rte st.tcb_set d)
      | inl g ↦ rw g (Steps-remove rte st.tcb_set s d f g)
    ])
  ]
