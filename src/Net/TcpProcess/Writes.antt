-- ===== src/Net/TcpProcess/Writes.antt =====
-- dpdk-code/14_tcp_concurrency/tcp_concurrency.c: what the handlers of an open connection write
-- into the table of streams.
use dpdk_learning.Base.{
  ℕ, zero, suc, ◌+◌, ◌≡◌, ◌∙◌, refl, ap, Option, some, List, leb, if◌then◌else◌, Option-cases,
  Bool-cases, inl, inr, length,
}
use dpdk_learning.Base.Int.{ℤ, pos, negsuc, add_int32}
use dpdk_learning.Net.Rte.{Rte}
use dpdk_learning.Net.State.{
  Run, crash, exit, wait, done, ◌>>=◌, Status, close_wait, Fragment, Stream, EventPoll, Stack,
  put_stream, write_stream,
}
use dpdk_learning.Net.Epoll.{epoll_event_callback, epollin}
use dpdk_learning.Net.Tcp.{TcpHdr, has_flag, psh_flag, fin_flag, notify}
use dpdk_learning.Net.TcpProcess.{
  header_bytes, payload_len, receive, receive_payload, receive_len, ng_tcp_enqueue_recvbuffer,
  queue, ng_tcp_send_ackpkt, advance, acknowledge, notify_stream, handle_psh, handle_fin,
  ng_tcp_handle_established,
}
use dpdk_learning.Net.Streams.{put_stream-put_stream}

module _ (rte : Rte) where
  -- The identity of a stream, its status and its sequence numbers.
  pub record View : Type 0 where
    pub ptr : ℕ
    pub status : Status
    pub snd_nxt : ℕ
    pub rcv_nxt : ℕ

  abbrev pub view : Stream rte → View
  view s = record { ptr = s.ptr; status = s.status; snd_nxt = s.snd_nxt; rcv_nxt = s.rcv_nxt }

  -- The stream looks like `v`, and the table is `ss` with that stream written.
  abbrev pub At : List (Stream rte) → View → Stream rte × Stack rte → Type 0
  At ss v (s, st) = (view s ≡ v) × (st.tcb_set ≡ put_stream rte s ss)

  -- The same of a run that returns.
  abbrev pub Leaves : List (Stream rte) → View → Run (Stream rte × Stack rte) → Type 0
  Leaves ss v (done x) = At ss v x
  Leaves ss v crash = Unit
  Leaves ss v exit = Unit
  Leaves ss v wait = Unit

  module _ (ss : List (Stream rte)) where
    Leaves-bind :
        (v w : View) (r : Run (Stream rte × Stack rte))
        (f : Stream rte × Stack rte → Run (Stream rte × Stack rte))
        → Leaves ss v r
        → ((x : Stream rte × Stack rte) → At ss v x → Leaves ss w (f x))
        → Leaves ss w (r >>= f)
    Leaves-bind v w (done x) f l k = k x l
    Leaves-bind v w crash f l k = tt
    Leaves-bind v w exit f l k = tt
    Leaves-bind v w wait f l k = tt

    -- A write of a stream over an earlier write of it.
    write_At :
        (v w : View) (s s' : Stream rte) (st : Stack rte)
        → At ss v (s, st)
        → s.ptr ≡ s'.ptr
        → view s' ≡ w
        → At ss w (s', write_stream rte s' st)
    write_At v w s s' st a e f =
        (f, ap (put_stream rte s') a.1 ∙ put_stream-put_stream rte s s' ss e)

    receive-Leaves :
        (v : View) (s : Stream rte) (frag : Fragment) (st : Stack rte)
        → At ss v (s, st)
        → Leaves ss v (receive rte s frag st)
    receive-Leaves v s frag st a = elim (Option-cases s.rcvbuf) [
      | inl e ↦ rw e tt
      | inr (ring, e) ↦ rw e (write_At v v s _ st a refl a.0)
    ]

    queue-Leaves :
        (v : View) (s : Stream rte) (frag : Fragment) (st : Stack rte)
        → At ss v (s, st)
        → Leaves ss v (queue rte s frag st)
    queue-Leaves v s frag st a = elim (Option-cases s.sndbuf) [
      | inl e ↦ rw e tt
      | inr (ring, e) ↦ rw e (write_At v v s _ st a refl a.0)
    ]

    receive_len-Leaves :
        (v : View) (n : ℤ) (hdr : TcpHdr) (s : Stream rte) (st : Stack rte)
        → At ss v (s, st)
        → Leaves ss v (receive_len rte n hdr s st)
    unfolding receive_len receive_payload
    receive_len-Leaves v (pos zero) hdr s st a = receive-Leaves v s _ _ a
    receive_len-Leaves v (negsuc k) hdr s st a = receive-Leaves v s _ _ a
    receive_len-Leaves v (pos (suc k)) hdr s st a = elim (Bool-cases (rte.alloc (st.clock + 1))) [
      | inr e ↦ rw e a
      | inl e ↦ rw e (elim (Bool-cases (leb (header_bytes hdr + suc k) (length hdr.segment))) [
        | inl f ↦ rw f (receive-Leaves v s _ _ a)
        | inr f ↦ rw f tt
      ])
    ]

    enqueue-Leaves :
        (v : View) (s : Stream rte) (hdr : TcpHdr) (n : ℤ) (st : Stack rte)
        → At ss v (s, st)
        → Leaves ss v (ng_tcp_enqueue_recvbuffer rte s hdr n st)
    unfolding ng_tcp_enqueue_recvbuffer
    enqueue-Leaves v s hdr n st a = elim (Bool-cases (rte.alloc st.clock)) [
      | inr e ↦ rw e a
      | inl e ↦ rw e (receive_len-Leaves v (payload_len hdr n) hdr s st a)
    ]

    send_ackpkt-Leaves :
        (v : View) (s : Stream rte) (hdr : TcpHdr) (st : Stack rte)
        → At ss v (s, st)
        → Leaves ss v (ng_tcp_send_ackpkt rte s hdr st)
    unfolding ng_tcp_send_ackpkt
    send_ackpkt-Leaves v s hdr st a = elim (Bool-cases (rte.alloc st.clock)) [
      | inr e ↦ rw e a
      | inl e ↦ rw e (queue-Leaves v s _ _ a)
    ]

    -- The callback changes the poll alone.
    notify-Leaves :
        (v : View) (x : Stream rte × Stack rte) → At ss v x → Leaves ss v (notify_stream rte x)
    unfolding notify
    notify-Leaves v (s, st) a = elim (Option-cases st.ep) [
      | inl e ↦ rw (e, notify) tt
      | inr (ep, e) ↦ rw (e, notify) (called (epoll_event_callback rte ep s.fd epollin))
    ]
      where
        called :
            (r : Run (Option ℕ × EventPoll rte))
            → Leaves ss v
                (r >>= (λ q. done (record st { ep = some q.1 })) >>= (λ st'. done (s, st')))
        called (done (code, ep)) = a
        called crash = tt
        called exit = tt
        called wait = tt

    -- The view of a stream that has taken `n` more bytes and the peer's acknowledgement.
    abbrev pub moved : ℤ → TcpHdr → View → View
    moved n hdr v = record v { rcv_nxt = add_int32 v.rcv_nxt n; snd_nxt = rte.ntohl hdr.recv_ack }

    acknowledge-Leaves :
        (v : View) (n : ℤ) (hdr : TcpHdr) (x : Stream rte × Stack rte)
        → At ss v x
        → Leaves ss (moved n hdr v) (acknowledge rte n hdr x)
    acknowledge-Leaves v n hdr (s, st) a =
        send_ackpkt-Leaves (moved n hdr v) (advance rte n hdr s) hdr
          (write_stream rte (advance rte n hdr s) st)
          (write_At v (moved n hdr v) s (advance rte n hdr s) st a refl (ap (moved n hdr) a.0))

    handle_psh-Leaves :
        (v : View) (hdr : TcpHdr) (n : ℤ) (x : Stream rte × Stack rte)
        → At ss v x
        → Leaves ss
            (if has_flag hdr.tcp_flags psh_flag then moved (payload_len hdr n) hdr v else v)
            (handle_psh rte hdr n x)
    unfolding handle_psh
    handle_psh-Leaves v hdr n (s, st) a = elim (Bool-cases (has_flag hdr.tcp_flags psh_flag)) [
      | inr e ↦ rw e a
      | inl e ↦ rw e (
          Leaves-bind v (moved (payload_len hdr n) hdr v) _ _
            (Leaves-bind v v _ _ (enqueue-Leaves v s hdr n st a) (notify-Leaves v))
            (acknowledge-Leaves v (payload_len hdr n) hdr))
    ]

    handle_fin-Leaves :
        (v : View) (hdr : TcpHdr) (x : Stream rte × Stack rte)
        → At ss v x
        → Leaves ss
            (if has_flag hdr.tcp_flags fin_flag
              then moved (pos 1) hdr (record v { status = close_wait })
              else v)
            (handle_fin rte hdr x)
    unfolding handle_fin
    handle_fin-Leaves v hdr (s, st) a = elim (Bool-cases (has_flag hdr.tcp_flags fin_flag)) [
      | inr e ↦ rw e a
      | inl e ↦
          let w = record v { status = close_wait } in
          let s' = record s { status = close_wait } in
          rw e (
            Leaves-bind w (moved (pos 1) hdr w) _ _
              (Leaves-bind w w _ _
                (enqueue-Leaves w s' hdr _ (write_stream rte s' st) (
                  write_At v w s s' st a refl
                    (ap (λ (u : View). record u { status = close_wait }) a.0)))
                (notify-Leaves w))
              (acknowledge-Leaves w (pos 1) hdr))
    ]

    -- A run that returns leaves the table with one stream written, which looks like `v`.
    abbrev pub Written : View → Run (Stack rte) → Type 0
    Written v (done st) = (s : Stream rte) × (view s ≡ v) × (st.tcb_set ≡ put_stream rte s ss)
    Written v crash = Unit
    Written v exit = Unit
    Written v wait = Unit

    Written-Leaves :
        (v : View) (r : Run (Stream rte × Stack rte))
        → Leaves ss v r
        → Written v (r >>= λ x. done x.1)
    Written-Leaves v (done (s, st)) l = (s, l.0, l.1)
    Written-Leaves v crash l = tt
    Written-Leaves v exit l = tt
    Written-Leaves v wait l = tt

    -- The view of a stream after a segment: PSH moves the numbers by the payload, then FIN closes
    -- the peer's side and moves them by one.
    abbrev pub established_view : TcpHdr → ℤ → View → View
    established_view hdr n v =
        let w = if has_flag hdr.tcp_flags psh_flag then moved (payload_len hdr n) hdr v else v in
        if has_flag hdr.tcp_flags fin_flag
        then moved (pos 1) hdr (record w { status = close_wait })
        else w

    -- Where the table is `ss` with the stream written: a segment for an established stream, if its
    -- handling returns, leaves `ss` with that stream alone written, and its sequence numbers and
    -- its status are those of `established_view`: for PSH the next byte expected moves by the
    -- payload, for FIN by one, and with either the next byte to be sent becomes the one that the
    -- segment acknowledges; FIN puts the stream into CLOSE_WAIT.
    pub ng_tcp_handle_established-Written :
        (hdr : TcpHdr) (n : ℤ) (s : Stream rte) (st : Stack rte)
        → st.tcb_set ≡ put_stream rte s ss
        → Written (established_view hdr n (view s)) (ng_tcp_handle_established rte s hdr n st)
    unfolding ng_tcp_handle_established
    ng_tcp_handle_established-Written hdr n s st e =
        let w =
          if has_flag hdr.tcp_flags psh_flag
          then moved (payload_len hdr n) hdr (view s)
          else view s in
        Written-Leaves _ _ (
          Leaves-bind w _ _ _ (handle_psh-Leaves (view s) hdr n (s, st) (refl, e))
            (handle_fin-Leaves w hdr))
