-- ===== src/Net/Apps/HangUp.antt =====
-- dpdk-code/14_tcp_concurrency/tcp_concurrency.c: the end of a connection through a round of
-- tcp_server_entry.
use dpdk_learning.Base.{
  ℕ, ◌+◌, ◌<◌, ◌≡◌, refl, sym, Option, true, false, none, some, List, [], ◌∷◌, ◌++◌, length,
  Option-cases, inl, inr,
}
use dpdk_learning.Net.Rte.{Rte, Fd, fd_eq}
use dpdk_learning.Net.State.{
  Run, crash, exit, wait, done, listen, last_ack, status_eq, Fragment, Stream, EventPoll, Stack,
  write_stream,
}
use dpdk_learning.Net.Epoll.{release_fd, ctl_del, ctl_del_item, nepoll_ctl}
use dpdk_learning.Net.Socket.{fin_fragment, close_stream, nclose}
use dpdk_learning.Net.Socket.Lookup.{
  TcpSocket, get_hostinfo_fromfd-TcpSocket, write_stream-TcpSocket, PollSocket,
  get_hostinfo_fromfd-PollSocket, write_stream-PollSocket,
}
use dpdk_learning.Net.SocketData.{receive_fragment, nrecv}
use dpdk_learning.Net.Apps.{buffer_size, poll_ctl, hang_up, serve_client}

module _ (rte : Rte) where
  nrecv-empty :
      (fd : Fd) (f : Fragment) (s : Stream rte) (ring ring' : rte.Ring Fragment) (st : Stack rte)
      → TcpSocket rte fd s st
      → s.rcvbuf ≡ some ring
      → rte.dequeue ring ≡ some (f, ring')
      → f.len ≡ 0
      → nrecv rte fd buffer_size st
        ≡ done (some (0, []), write_stream rte (record s { rcvbuf = some ring' }) st)
  unfolding nrecv receive_fragment
  nrecv-empty fd f s ring ring' st t r d l =
      rw (get_hostinfo_fromfd-TcpSocket rte fd s st t, r, d, l) refl

  -- The state after the deletion of a descriptor that the event poll does not know.
  abbrev unwatched : EventPoll rte → Stack rte → Stack rte
  unwatched ep st = record st { ep = some ep; clock = st.clock + 1 }

  poll_ctl-unknown :
      (epfd fd : Fd) (ep : EventPoll rte) (st : Stack rte)
      → PollSocket rte epfd ep st
      → rte.rb_find ep.rbr fd ≡ none
      → poll_ctl rte epfd ctl_del fd none st ≡ done (false, unwatched ep st)
  unfolding poll_ctl nepoll_ctl ctl_del_item
  poll_ctl-unknown epfd fd ep st p f =
      rw (get_hostinfo_fromfd-PollSocket rte epfd ep st p, f, ctl_del_item) refl

  poll_ctl-known :
      (epfd fd : Fd) (ep : EventPoll rte) (n : ℕ) (st : Stack rte)
      → PollSocket rte epfd ep st
      → rte.rb_find ep.rbr fd ≡ some n
      → poll_ctl rte epfd ctl_del fd none st ≡ crash
  unfolding poll_ctl nepoll_ctl ctl_del_item
  poll_ctl-known epfd fd ep n st p f =
      rw (get_hostinfo_fromfd-PollSocket rte epfd ep st p, f, ctl_del_item) refl

  -- The stream after `nclose`.
  abbrev closed_stream : ℕ → rte.Ring Fragment → Stream rte → Stream rte
  closed_stream n ring s = record s {
    sndbuf = some (rte.enqueue ring (fin_fragment rte n s));
    status = last_ack;
  }

  nclose-stream :
      (fd : Fd) (s : Stream rte) (ring : rte.Ring Fragment) (st : Stack rte)
      → TcpSocket rte fd s st
      → status_eq s.status listen ≡ false
      → s.sndbuf ≡ some ring
      → rte.alloc st.clock ≡ true
      → nclose rte fd st
        ≡ done (
          true,
          write_stream rte
              (closed_stream st.clock ring s)
              (record st { fd_table = release_fd rte fd st.fd_table; clock = st.clock + 1 }),
        )
  unfolding nclose close_stream
  nclose-stream fd s ring st t n b a =
      rw (get_hostinfo_fromfd-TcpSocket rte fd s st t, n, a, b) refl

  -- The stream awaits the last acknowledgement with its FIN to be sent, and the descriptor is given
  -- back. The buffer and the event poll are as they were.
  abbrev pub HungUp :
      Fd
      → Stream rte
      → List Fragment
      → List Fragment
      → List ℕ
      → Stack rte
      → Run (List ℕ × Stack rte)
      → Type 0
  HungUp fd s fs queued buff st (done (buff', st')) =
      (buff' ≡ buff)
      × (st'.fd_table ≡ release_fd rte fd st.fd_table)
      × (st'.ep ≡ st.ep)
      × ((r : rte.Ring Fragment) × (q : rte.Ring Fragment) × TcpSocket rte fd
            (record s { rcvbuf = some r; sndbuf = some q; status = last_ack }) st'
          × (rte.items r ≡ fs)
          × (rte.items q ≡ queued ++ (fin_fragment rte (st.clock + 1) s ∷ [])))
  HungUp fd s fs queued buff st crash = ⊥
  HungUp fd s fs queued buff st exit = ⊥
  HungUp fd s fs queued buff st wait = ⊥

  -- What a round comes to, as the event poll knows the descriptor or not.
  abbrev pub Ended :
      Option ℕ
      → Fd
      → Stream rte
      → List Fragment
      → List Fragment
      → List ℕ
      → Stack rte
      → Run (List ℕ × Stack rte)
      → Type 0
  Ended (some p) fd s fs queued buff st run = run ≡ crash
  Ended none fd s fs queued buff st run = HungUp fd s fs queued buff st run

  -- For a descriptor of a TCP stream that does not listen, whose first fragment to be read is of length
  -- 0, an event poll whose descriptor is not the stream's, room in the send buffer, and memory to be
  -- had. If the event poll knows the descriptor, as it does where it has reported it, a round of
  -- tcp_server_entry at this connection faults, since the item goes from rte_malloc to free. Else the
  -- round returns: the fragment is taken out, a FIN is queued behind the segments to be sent, the
  -- stream awaits the last acknowledgement, the descriptor is given back, and the event poll stays.
  pub serve_client-Ended :
      (epfd fd : Fd) (ep : EventPoll rte) (s : Stream rte) (f : Fragment) (fs : List Fragment)
      (buff : List ℕ) (r q : rte.Ring Fragment) (st : Stack rte)
      → TcpSocket rte fd s st
      → PollSocket rte epfd ep st
      → fd_eq epfd s.fd ≡ false
      → status_eq s.status listen ≡ false
      → s.rcvbuf ≡ some r
      → s.sndbuf ≡ some q
      → rte.items r ≡ f ∷ fs
      → f.len ≡ 0
      → length (rte.items q) < rte.room
      → rte.alloc (st.clock + 1) ≡ true
      → Ended
          (rte.rb_find ep.rbr fd)
          fd
          s
          fs
          (rte.items q)
          buff
          st
          (serve_client rte epfd fd buff st)
  unfolding serve_client hang_up
  serve_client-Ended epfd fd ep s f fs buff r q st t p ne n b b' i l room a =
      let (r', deq, i') = rte.dequeue_cons r f fs i in
      let s1 : Stream rte = record s { rcvbuf = some r' } in
      let st1 : Stack rte = write_stream rte s1 st in
      let st2 : Stack rte = unwatched ep st1 in
      let t1 : TcpSocket rte fd s1 st2 = write_stream-TcpSocket rte fd s s1 st t refl refl in
      let p1 : PollSocket rte epfd ep st1 = write_stream-PollSocket rte epfd ep s1 st p ne in
      let read = nrecv-empty fd f s r r' st t b deq l in
      elim (Option-cases (rte.rb_find ep.rbr fd)) [
        | inr (m, known) ↦ rw (known, read, poll_ctl-known epfd fd ep m st1 p1 known) refl
        | inl unknown ↦
            rw
              (
                unknown,
                read,
                poll_ctl-unknown epfd fd ep st1 p1 unknown,
                nclose-stream fd s1 q st2 t1 n b' a,
              )
              (
                refl,
                refl,
                sym p.2.0,
                (
                  r',
                  rte.enqueue q (fin_fragment rte (st.clock + 1) s),
                  write_stream-TcpSocket rte fd s1 (closed_stream (st.clock + 1) q s1)
                      (record st2 {
                        fd_table = release_fd rte fd st.fd_table;
                        clock = st.clock + 1 + 1;
                      })
                      t1 refl refl,
                  i',
                  rte.items-enqueue q _ room,
                ),
              )
      ]
