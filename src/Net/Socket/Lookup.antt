-- ===== src/Net/Socket/Lookup.antt =====
-- dpdk-code/14_tcp_concurrency/tcp_concurrency.c: a socket that a call has written is found again
-- by its descriptor, with what was written.
use dpdk_learning.Base.{
  ℕ, ◌≡◌, ◌∙◌, refl, sym, ap, Bool, true, false, none, some, List, [], ◌∷◌, ◌==◌, ==_iff, arith,
  Bool-cases, inl, inr, subst, some-injective,
}
use dpdk_learning.Net.Rte.{Rte, Fd, fd_eq}
use dpdk_learning.Net.State.{Stream, Host, EventPoll, Stack, put_stream, write_stream}
use dpdk_learning.Net.Tcp.{first}
use dpdk_learning.Net.Socket.{udp, tcp, poll, get_hostinfo_fromfd, first_host, put_host}

module _ (rte : Rte) where
  pub first-test :
      (test : Stream rte → Bool) (ss : List (Stream rte)) (s : Stream rte)
      → first rte test ss ≡ some s
      → test s ≡ true
  first-test test [] s e = ground arith
  first-test test (x ∷ ss) s e = elim (Bool-cases (test x)) [
    | inl t ↦
        let e' : some x ≡ some s = rw t at e in subst (λ y. test y ≡ true) (some-injective x s e') t
    | inr t ↦ let e' : first rte test ss ≡ some s = rw t at e in first-test test ss s e'
  ]

  -- A write of the stream that a search finds, if the test still holds, is found instead.
  pub first-put_stream :
      (test : Stream rte → Bool) (ss : List (Stream rte)) (s s' : Stream rte)
      → first rte test ss ≡ some s
      → s.ptr ≡ s'.ptr
      → test s' ≡ true
      → first rte test (put_stream rte s' ss) ≡ some s'
  first-put_stream test [] s s' e p t = ground arith
  first-put_stream test (x ∷ ss) s s' e p t = elim (Bool-cases (x.ptr == s'.ptr)) [
    | inl c ↦ rw (c, t) refl
    | inr c ↦ elim (Bool-cases (test x)) [
      | inr u ↦
          let e' : first rte test ss ≡ some s = rw u at e in
          rw (c, u) (first-put_stream test ss s s' e' p t)
      | inl u ↦
          let e' : some x ≡ some s = rw u at e in
          let q : x.ptr ≡ s'.ptr = ap (λ (y : Stream rte). y.ptr) (some-injective x s e') ∙ p in
          let w : false ≡ true = sym c ∙ (==_iff x.ptr s'.ptr).1 q in ground (arith, w)
    ]
  ]

  pub first_host-test :
      (test : Host rte → Bool) (hs : List (Host rte)) (s : Host rte)
      → first_host rte test hs ≡ some s
      → test s ≡ true
  first_host-test test [] s e = ground arith
  first_host-test test (x ∷ hs) s e = elim (Bool-cases (test x)) [
    | inl t ↦
        let e' : some x ≡ some s = rw t at e in subst (λ y. test y ≡ true) (some-injective x s e') t
    | inr t ↦ let e' : first_host rte test hs ≡ some s = rw t at e in first_host-test test hs s e'
  ]

  -- A write of the host that a search finds, if the test still holds, is found instead.
  pub first_host-put_host :
      (test : Host rte → Bool) (hs : List (Host rte)) (s s' : Host rte)
      → first_host rte test hs ≡ some s
      → s.ptr ≡ s'.ptr
      → test s' ≡ true
      → first_host rte test (put_host rte s' hs) ≡ some s'
  first_host-put_host test [] s s' e p t = ground arith
  first_host-put_host test (x ∷ hs) s s' e p t = elim (Bool-cases (x.ptr == s'.ptr)) [
    | inl c ↦ rw (c, t) refl
    | inr c ↦ elim (Bool-cases (test x)) [
      | inr u ↦
          let e' : first_host rte test hs ≡ some s = rw u at e in
          rw (c, u) (first_host-put_host test hs s s' e' p t)
      | inl u ↦
          let e' : some x ≡ some s = rw u at e in
          let q : x.ptr ≡ s'.ptr = ap (λ (y : Host rte). y.ptr) (some-injective x s e') ∙ p in
          let w : false ≡ true = sym c ∙ (==_iff x.ptr s'.ptr).1 q in ground (arith, w)
    ]
  ]

  -- The descriptor is that of a UDP socket, or of a TCP stream.
  abbrev pub UdpSocket : Fd → Host rte → Stack rte → Type 0
  UdpSocket fd h st = first_host rte (λ x. fd_eq fd x.fd) st.lhost ≡ some h

  abbrev pub TcpSocket : Fd → Stream rte → Stack rte → Type 0
  TcpSocket fd s st =
      (first_host rte (λ x. fd_eq fd x.fd) st.lhost ≡ none)
      × (first rte (λ x. fd_eq fd x.fd) st.tcb_set ≡ some s)

  pub get_hostinfo_fromfd-UdpSocket :
      (fd : Fd) (h : Host rte) (st : Stack rte)
      → UdpSocket fd h st
      → get_hostinfo_fromfd rte fd st ≡ udp h
  unfolding get_hostinfo_fromfd
  get_hostinfo_fromfd-UdpSocket fd h st e = rw e refl

  pub get_hostinfo_fromfd-TcpSocket :
      (fd : Fd) (s : Stream rte) (st : Stack rte)
      → TcpSocket fd s st
      → get_hostinfo_fromfd rte fd st ≡ tcp s
  unfolding get_hostinfo_fromfd
  get_hostinfo_fromfd-TcpSocket fd s st (h, e) = rw (h, e) refl

  -- A write of the same address and descriptor.
  pub put_host-UdpSocket :
      (fd : Fd) (h h' : Host rte) (st : Stack rte) (n : ℕ)
      → UdpSocket fd h st
      → h.ptr ≡ h'.ptr
      → h.fd ≡ h'.fd
      → UdpSocket fd h' (record st { lhost = put_host rte h' st.lhost; clock = n })
  put_host-UdpSocket fd h h' st n e p d =
      first_host-put_host (λ x. fd_eq fd x.fd) st.lhost h h' e p
        (subst (λ f. fd_eq fd f ≡ true) d (first_host-test (λ x. fd_eq fd x.fd) st.lhost h e))

  pub write_stream-TcpSocket :
      (fd : Fd) (s s' : Stream rte) (st : Stack rte)
      → TcpSocket fd s st
      → s.ptr ≡ s'.ptr
      → s.fd ≡ s'.fd
      → TcpSocket fd s' (write_stream rte s' st)
  write_stream-TcpSocket fd s s' st (h, e) p d = (
    h,
    first-put_stream (λ x. fd_eq fd x.fd) st.tcb_set s s' e p
        (subst (λ f. fd_eq fd f ≡ true) d (first-test (λ x. fd_eq fd x.fd) st.tcb_set s e)),
  )

  first-put_stream-none :
      (test : Stream rte → Bool) (ss : List (Stream rte)) (s' : Stream rte)
      → first rte test ss ≡ none
      → test s' ≡ false
      → first rte test (put_stream rte s' ss) ≡ none
  first-put_stream-none test [] s' e t = refl
  first-put_stream-none test (x ∷ ss) s' e t = elim (Bool-cases (test x)) [
    | inl u ↦ let e' : some x ≡ none = rw u at e in ground (arith, e')
    | inr u ↦
        let e' : first rte test ss ≡ none = rw u at e in
        elim (Bool-cases (x.ptr == s'.ptr)) [
          | inl c ↦ rw (c, t) (first-put_stream-none test ss s' e' t)
          | inr c ↦ rw (c, u) (first-put_stream-none test ss s' e' t)
        ]
  ]

  -- The descriptor is that of the event poll.
  abbrev pub PollSocket : Fd → EventPoll rte → Stack rte → Type 0
  PollSocket fd ep st =
      (first_host rte (λ x. fd_eq fd x.fd) st.lhost ≡ none)
      × (first rte (λ x. fd_eq fd x.fd) st.tcb_set ≡ none)
      × ((st.ep ≡ some ep) × (fd_eq ep.fd fd ≡ true))

  pub get_hostinfo_fromfd-PollSocket :
      (fd : Fd) (ep : EventPoll rte) (st : Stack rte)
      → PollSocket fd ep st
      → get_hostinfo_fromfd rte fd st ≡ poll ep
  unfolding get_hostinfo_fromfd
  get_hostinfo_fromfd-PollSocket fd ep st (h, e, (p, d)) = rw (h, e, p, d) refl

  pub write_stream-PollSocket :
      (fd : Fd) (ep : EventPoll rte) (s' : Stream rte) (st : Stack rte)
      → PollSocket fd ep st
      → fd_eq fd s'.fd ≡ false
      → PollSocket fd ep (write_stream rte s' st)
  write_stream-PollSocket fd ep s' st (h, e, r) n =
      (h, first-put_stream-none (λ x. fd_eq fd x.fd) st.tcb_set s' e n, r)
