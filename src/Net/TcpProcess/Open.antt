-- ===== src/Net/TcpProcess/Open.antt =====
-- dpdk-code/14_tcp_concurrency/tcp_concurrency.c: the handlers of an open connection return, and keep
-- what the table and the event poll need.
use dpdk_learning.Base.{
  leb-true, ℕ, zero, suc, ◌+◌, ◌*◌, ◌/◌, ◌%◌, ◌^◌, ◌≤◌, ◌≡◌, ◌∙◌, refl, sym, ap, true, false,
  Option, none, some, List, leb, length, arith, Bool-cases, Option-cases, inl, inr,
}
use dpdk_learning.Base.Int.{ℤ, pos, negsuc, minus}
use dpdk_learning.Net.Rte.{Rte, Fd}
use dpdk_learning.Net.State.{
  Run, done, ◌>>=◌, listen, syn_rcvd, close_wait, status_eq, Fragment, Stream, EventPoll, Stack,
  put_stream, write_stream,
}
use dpdk_learning.Net.Returns.{Returns, Returns-bind}
use dpdk_learning.Net.Epoll.{epoll_event_callback, epollin}
use dpdk_learning.Net.Epoll.Reach
use dpdk_learning.Net.Tcp.{TcpHdr, has_flag, psh_flag, fin_flag, notify}
use dpdk_learning.Net.TcpProcess.{
  header_bytes, payload_len, receive, receive_payload, receive_len, ng_tcp_enqueue_recvbuffer,
  ng_tcp_send_ackpkt, advance, acknowledge, notify_stream, handle_psh, handle_fin,
  ng_tcp_handle_established,
}
use dpdk_learning.Net.Streams.{put_stream-put_stream}
use dpdk_learning.Net.Streams.Fine.{HasRing, ring_of}

-- The data that the length `n` of a segment speaks of lie within the packet.
abbrev pub IsWithin : TcpHdr → ℤ → Type 0
IsWithin hdr n =
    (k : ℕ) → payload_len hdr n ≡ pos (suc k) → header_bytes hdr + suc k ≤ length hdr.segment

abbrev pub magnitude : ℤ → ℕ
magnitude (pos n) = n
magnitude (negsuc n) = 0

no_data : (w k : ℕ) → minus (pos w) (w * 4) ≡ pos (suc k) → ⊥
no_data w k e = elim (Bool-cases (leb (w * 4) w)) [
  | inl l ↦ let e' = rw l at e in ground (arith, ap magnitude e')
  | inr l ↦ let e' = rw l at e in ground (arith, ap magnitude e')
]

-- The length that is passed for a FIN leaves no data.
fin-IsWithin : (hdr : TcpHdr) → IsWithin hdr (pos (hdr.data_off / 2 ^ 4 % 16))
fin-IsWithin hdr k e = absurd (no_data (hdr.data_off / 2 ^ 4 % 16) k e)

module _ (rte : Rte) where
  -- The event poll is there and sound.
  abbrev pub IsPolled : Option (EventPoll rte) → Type 0
  IsPolled none = ⊥
  IsPolled (some ep) = Reach.IsSound rte ep

  -- A call of the callback leaves the table, and a sound poll.
  abbrev pub IsNotified : Stack rte → Stack rte → Type 0
  IsNotified st st' = (st'.tcb_set ≡ st.tcb_set) × (st'.clock ≡ st.clock) × IsPolled st'.ep

  pub notify-Returns :
      (fd : Fd) (st : Stack rte) → IsPolled st.ep → Returns (IsNotified st) (notify rte fd st)
  unfolding notify
  notify-Returns fd st h = elim (Option-cases st.ep) [
    | inl e ↦ let h' : ⊥ = rw e at h in absurd h'
    | inr (ep, e) ↦
        let h' : Reach.IsSound rte ep = rw e at h in
        rw (e, notify)
          (Returns-bind (λ x. Reach.IsSound rte x.1) (IsNotified st)
            (epoll_event_callback rte ep fd epollin) (λ r. done (record st { ep = some r.1 }))
            (Reach.epoll_event_callback-Returns rte ep fd epollin h') (λ r q. (refl, refl, q)))
  ]

  -- A connection with its buffers, which neither listens nor awaits the end of a handshake.
  abbrev pub IsConnection : Stream rte → Type 0
  IsConnection s =
      HasRing rte s.rcvbuf
      × HasRing rte s.sndbuf
      × (status_eq s.status listen ≡ false)
      × (status_eq s.status syn_rcvd ≡ false)

  -- The connection at address `p` in hand, and the state: its table is `ss` with the connection
  -- written, and its clock is `n` or later.
  pub record IsHeld (ss : List (Stream rte)) (p n : ℕ) (x : Stream rte × Stack rte) : Type 0 where
    pub at : x.0.ptr ≡ p
    pub connection : IsConnection x.0
    pub table : x.1.tcb_set ≡ put_stream rte x.0 ss
    pub later : n ≤ x.1.clock
    pub polled : IsPolled x.1.ep

  module _ (ss : List (Stream rte)) (p n : ℕ) (memory : (k : ℕ) → rte.alloc k ≡ true) where
    abbrev pub Holds : Run (Stream rte × Stack rte) → Type 0
    Holds r = Returns (IsHeld ss p n) r

    write-IsHeld :
        (s s' : Stream rte) (st st' : Stack rte)
        → IsHeld ss p n (s, st)
        → s'.ptr ≡ s.ptr
        → IsConnection s'
        → st'.tcb_set ≡ st.tcb_set
        → st'.ep ≡ st.ep
        → st.clock ≤ st'.clock
        → IsHeld ss p n (s', write_stream rte s' st')
    write-IsHeld s s' st st' h e c t q l = record {
      at = e ∙ h.at;
      connection = c;
      table = ap (put_stream rte s') (t ∙ h.table) ∙ put_stream-put_stream rte s s' ss (sym e);
      later = omega (arith, h.later, l);
      polled = rw q h.polled;
    }

    receive-Holds :
        (s : Stream rte) (frag : Fragment) (st st' : Stack rte)
        → IsHeld ss p n (s, st)
        → st'.tcb_set ≡ st.tcb_set
        → st'.ep ≡ st.ep
        → st.clock ≤ st'.clock
        → Holds (receive rte s frag st')
    receive-Holds s frag st st' h t q l =
        let (ring, e) = ring_of rte s.rcvbuf h.connection.0 in
        rw e (
          write-IsHeld s (record s { rcvbuf = some (rte.enqueue ring frag) }) st st' h refl
            (tt, h.connection.1, h.connection.2, h.connection.3) t q l)

    receive_len-Holds :
        (m : ℤ) (hdr : TcpHdr) (s : Stream rte) (st : Stack rte)
        → ((k : ℕ) → m ≡ pos (suc k) → header_bytes hdr + suc k ≤ length hdr.segment)
        → IsHeld ss p n (s, st)
        → Holds (receive_len rte m hdr s st)
    unfolding receive_len receive_payload
    receive_len-Holds (pos zero) hdr s st w h = receive-Holds s _ st _ h refl refl (omega arith)
    receive_len-Holds (negsuc k) hdr s st w h = receive-Holds s _ st _ h refl refl (omega arith)
    receive_len-Holds (pos (suc k)) hdr s st w h =
        rw
          (
            memory (st.clock + 1),
            leb-true (header_bytes hdr + suc k) (length hdr.segment) (w k refl),
          )
          (receive-Holds s _ st _ h refl refl (omega arith))

    enqueue-Holds :
        (s : Stream rte) (hdr : TcpHdr) (m : ℤ) (st : Stack rte)
        → IsWithin hdr m
        → IsHeld ss p n (s, st)
        → Holds (ng_tcp_enqueue_recvbuffer rte s hdr m st)
    unfolding ng_tcp_enqueue_recvbuffer
    enqueue-Holds s hdr m st w h =
        rw (memory st.clock) (receive_len-Holds (payload_len hdr m) hdr s st w h)

    send_ackpkt-Holds :
        (s : Stream rte) (hdr : TcpHdr) (st : Stack rte)
        → IsHeld ss p n (s, st)
        → Holds (ng_tcp_send_ackpkt rte s hdr st)
    unfolding ng_tcp_send_ackpkt
    send_ackpkt-Holds s hdr st h =
        let (ring, e) = ring_of rte s.sndbuf h.connection.1 in
        rw (memory st.clock, e)
          (write-IsHeld s (record s { sndbuf = some (rte.enqueue ring _) }) st
            (record st { clock = st.clock + 1 }) h refl
            (h.connection.0, tt, h.connection.2, h.connection.3) refl refl (omega arith))

    notify-Holds : (x : Stream rte × Stack rte) → IsHeld ss p n x → Holds (notify_stream rte x)
    notify-Holds (s, st) h =
        Returns-bind (IsNotified st) (IsHeld ss p n) (notify rte s.fd st) (λ st'. done (s, st'))
          (notify-Returns s.fd st h.polled)
          (λ st' c. record {
            at = h.at;
            connection = h.connection;
            table = c.0 ∙ h.table;
            later = omega (arith, h.later, c.1);
            polled = c.2;
          })

    acknowledge-Holds :
        (m : ℤ) (hdr : TcpHdr) (x : Stream rte × Stack rte)
        → IsHeld ss p n x
        → Holds (acknowledge rte m hdr x)
    acknowledge-Holds m hdr (s, st) h =
        send_ackpkt-Holds (advance rte m hdr s) hdr (write_stream rte (advance rte m hdr s) st)
          (write-IsHeld s (advance rte m hdr s) st st h refl h.connection refl refl (omega arith))

    -- What both branches do with the data of a segment.
    take_in-Holds :
        (m : ℤ) (hdr : TcpHdr) (a : ℤ) (s : Stream rte) (st : Stack rte)
        → IsWithin hdr m
        → IsHeld ss p n (s, st)
        → Holds (
            ng_tcp_enqueue_recvbuffer rte s hdr m st
            >>= notify_stream rte
            >>= acknowledge rte a hdr)
    take_in-Holds m hdr a s st w h =
        Returns-bind (IsHeld ss p n) (IsHeld ss p n) _ (acknowledge rte a hdr)
          (Returns-bind (IsHeld ss p n) (IsHeld ss p n) _ (notify_stream rte)
            (enqueue-Holds s hdr m st w h) notify-Holds)
          (acknowledge-Holds a hdr)

    handle_psh-Holds :
        (hdr : TcpHdr) (m : ℤ) (x : Stream rte × Stack rte)
        → IsWithin hdr m
        → IsHeld ss p n x
        → Holds (handle_psh rte hdr m x)
    unfolding handle_psh
    handle_psh-Holds hdr m (s, st) w h = elim (Bool-cases (has_flag hdr.tcp_flags psh_flag)) [
      | inr e ↦ rw e h
      | inl e ↦ rw e (take_in-Holds m hdr (payload_len hdr m) s st w h)
    ]

    handle_fin-Holds :
        (hdr : TcpHdr) (x : Stream rte × Stack rte) → IsHeld ss p n x → Holds (handle_fin rte hdr x)
    unfolding handle_fin
    handle_fin-Holds hdr (s, st) h = elim (Bool-cases (has_flag hdr.tcp_flags fin_flag)) [
      | inr e ↦ rw e h
      | inl e ↦
          let s' : Stream rte = record s { status = close_wait } in
          rw e (
            take_in-Holds (pos (hdr.data_off / 2 ^ 4 % 16)) hdr (pos 1) s' (write_stream rte s' st)
              (fin-IsWithin hdr)
              (write-IsHeld s s' st st h refl (h.connection.0, h.connection.1, refl, refl) refl refl
                (omega arith)))
    ]

    -- The handling of a segment for an established connection returns, and the connection is in hand.
    pub ng_tcp_handle_established-Holds :
        (hdr : TcpHdr) (m : ℤ) (s : Stream rte) (st : Stack rte)
        → IsWithin hdr m
        → IsHeld ss p n (s, st)
        → Returns
            (λ st'. (s' : Stream rte) × IsHeld ss p n (s', st'))
            (ng_tcp_handle_established rte s hdr m st)
    unfolding ng_tcp_handle_established
    ng_tcp_handle_established-Holds hdr m s st w h =
        Returns-bind (IsHeld ss p n) (λ st'. (s' : Stream rte) × IsHeld ss p n (s', st')) _
          (λ r. done r.1)
          (Returns-bind (IsHeld ss p n) (IsHeld ss p n) _ (handle_fin rte hdr)
            (handle_psh-Holds hdr m (s, st) w h) (handle_fin-Holds hdr))
          (λ x h'. (x.0, h'))
