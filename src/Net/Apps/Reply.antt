-- ===== src/Net/Apps/Reply.antt =====
-- dpdk-code/14_tcp_concurrency/tcp_concurrency.c: a segment through ng_tcp_process, the event poll and
-- a round of tcp_server_entry, to the segment that answers it.
use dpdk_learning.Base.{
  ℕ, length-take, suc, length-drop, length-append, ◌+◌, ◌%◌, ◌^◌, ◌≤◌, ◌<◌, ◌≡◌, ◌∙◌, refl, sym, ap,
  true, false, some, List, [], ◌∷◌, ◌++◌, append_assoc, take, drop, length, arith,
}
use dpdk_learning.Net.Rte.{Rte, Fd, fd_eq}
use dpdk_learning.Net.State.{
  Run, crash, exit, wait, done, ◌>>=◌, established, EpItem, EventPoll, Fragment, Stream, Stack,
  write_stream,
}
use dpdk_learning.Net.Epoll.{Event, epollin, event_of}
use dpdk_learning.Net.Epoll.OneReady.{
  one_ready, none_ready, callback-one_ready, nepoll_wait-one_ready, idle,
}
use dpdk_learning.Net.Socket.Lookup.{
  TcpSocket, write_stream-TcpSocket, PollSocket, get_hostinfo_fromfd-PollSocket,
  write_stream-PollSocket,
}
use dpdk_learning.Net.SocketData.{data_segment}
use dpdk_learning.Net.Tcp.{TcpHdr, IpHdr, ng_tcp_stream_search}
use dpdk_learning.Net.TcpProcess.{header_bytes, ng_tcp_process}
use dpdk_learning.Net.TcpProcess.Received.{
  IsData, IsWatched, payload_of, ack_of, stored_stream, moved_stream, acked_stream, after_segment,
  received_stream, ng_tcp_process-done,
}
use dpdk_learning.Net.Apps.{serve_client, serve_event, tcp_server_round}
use dpdk_learning.Net.Apps.TcpEcho.{IsEnded, Returned, serve_client-Echoed}

module _ (rte : Rte) where
  -- The bytes of the data of a segment.
  abbrev pub data_of : TcpHdr → ℕ → List ℕ
  data_of hdr k = take (suc k) (drop (header_bytes hdr) hdr.segment)

  data_length :
      (hdr : TcpHdr) (ip : IpHdr) (k : ℕ) → IsData rte hdr ip k → length (data_of hdr k) ≡ suc k
  data_length hdr ip k d =
      length-take (suc k) (drop (header_bytes hdr) hdr.segment)
        (omega (arith, d.within, length-drop (header_bytes hdr) hdr.segment))

  -- The connection has nothing more to be read, and the acknowledgement and the answer behind what was
  -- to be sent.
  abbrev pub Replied : TcpHdr → ℕ → Stream rte → List Fragment → Run (List ℕ × Stack rte) → Type 0
  Replied hdr k s to_send (done (buff', st')) =
      IsEnded 1023 buff'
      × ((r : rte.Ring Fragment) × (q : rte.Ring Fragment) × TcpSocket rte s.fd
            (received_stream rte r q hdr k s) st'
          × (rte.items r ≡ [])
          × (rte.items q
              ≡ to_send
                ++ (ack_of rte hdr (rte.ntohl hdr.recv_ack) ((s.rcv_nxt + suc k) % 2 ^ 32)
                    ∷ data_segment rte (received_stream rte r q hdr k s) (data_of hdr k)
                    ∷ [])))
  Replied hdr k s to_send crash = ⊥
  Replied hdr k s to_send exit = ⊥
  Replied hdr k s to_send wait = ⊥

  Replied-Returned :
      (hdr : TcpHdr) (k : ℕ) (s : Stream rte) (r0 q0 : rte.Ring Fragment)
      (to_send queued : List Fragment) (run : Run (List ℕ × Stack rte))
      → queued
        ≡ to_send ++ (ack_of rte hdr (rte.ntohl hdr.recv_ack) ((s.rcv_nxt + suc k) % 2 ^ 32) ∷ [])
      → Returned rte s.fd
          (acked_stream rte q0 hdr (suc k) (stored_stream rte r0 hdr k s))
          (data_of hdr k)
          []
          queued
          run
      → Replied hdr k s to_send (run >>= λ x. done (x.0, x.1))
  Replied-Returned hdr k s r0 q0 to_send queued (done (buff', st')) e (b, (r, q, t, i, i')) = (
    b,
    (
      r,
      q,
      t,
      i,
      i'
          ∙ ap (λ l. l ++ (data_segment rte (received_stream rte r q hdr k s) (data_of hdr k) ∷ []))
              e
          ∙ append_assoc to_send _ _,
    ),
  )
  Replied-Returned hdr k s r0 q0 to_send queued crash e h = h
  Replied-Returned hdr k s r0 q0 to_send queued exit e h = h
  Replied-Returned hdr k s r0 q0 to_send queued wait e h = h

  -- The connection and the poll are still found after the three writes of the stream.
  after_segment-TcpSocket :
      (fd : Fd) (s s1 s2 s3 : Stream rte) (ep' : EventPoll rte) (st : Stack rte)
      → TcpSocket rte fd s st
      → (s.ptr ≡ s1.ptr) × (s.fd ≡ s1.fd)
      → (s1.ptr ≡ s2.ptr) × (s1.fd ≡ s2.fd)
      → (s2.ptr ≡ s3.ptr) × (s2.fd ≡ s3.fd)
      → TcpSocket rte fd s3 (after_segment rte s1 s3 s2 ep' st)
  after_segment-TcpSocket fd s s1 s2 s3 ep' st t a b c =
      write_stream-TcpSocket rte fd s2 s3 (write_stream rte s2 (write_stream rte s1 st))
        (write_stream-TcpSocket rte fd s1 s2 (write_stream rte s1 st)
          (write_stream-TcpSocket rte fd s s1 st t a.0 a.1) b.0 b.1)
        c.0 c.1

  after_segment-PollSocket :
      (fd : Fd) (s1 s2 s3 : Stream rte) (ep ep' : EventPoll rte) (st : Stack rte)
      → PollSocket rte fd ep st
      → ep'.fd ≡ ep.fd
      → fd_eq fd s1.fd ≡ false
      → fd_eq fd s2.fd ≡ false
      → fd_eq fd s3.fd ≡ false
      → PollSocket rte fd ep' (after_segment rte s1 s3 s2 ep' st)
  after_segment-PollSocket fd s1 s2 s3 ep ep' st t e a b c =
      let t1 = write_stream-PollSocket rte fd ep s1 st t a in
      let t2 = write_stream-PollSocket rte fd ep s2 (write_stream rte s1 st) t1 b in
      let t3 =
        write_stream-PollSocket rte fd ep s3 (write_stream rte s2 (write_stream rte s1 st)) t2 c in
      (t3.0, t3.1, (refl, rw e t3.2.1))

  serve_event-client :
      (listenfd epfd fd : Fd) (ev : Event) (buff : List ℕ) (st : Stack rte)
      → ev.ev_fd ≡ fd
      → fd_eq listenfd fd ≡ false
      → serve_event rte listenfd epfd ev buff st ≡ serve_client rte epfd fd buff st
  unfolding serve_event
  serve_event-client listenfd epfd fd ev buff st e n = rw (e, n) refl

  -- For an established connection with nothing to be read, a sound segment with 1 to 1023 bytes of data
  -- and without FIN, which finds the stream, with memory to be had, and a valid event poll in which
  -- nothing is ready, with the connection's descriptor, which is neither the listener's nor the poll's:
  -- `ng_tcp_process` and then a round of tcp_server_entry return, and leave behind what the connection
  -- had to send its acknowledgement of the segment and a segment with the same data. Nothing is left to
  -- be read, and the buffer of the server ends with a zero as before.
  pub tcp_server_round-Replied :
      (hdr : TcpHdr) (ip : IpHdr) (k : ℕ) (s : Stream rte) (r q : rte.Ring Fragment)
      (ep : EventPoll rte) (p : ℕ) (epi : EpItem) (listenfd epfd : Fd) (buff : List ℕ)
      (st : Stack rte)
      → ((n : ℕ) → rte.alloc n ≡ true)
      → ng_tcp_stream_search rte ip.src_addr ip.dst_addr hdr.src_port hdr.dst_port st.tcb_set
        ≡ some s
      → TcpSocket rte s.fd s st
      → s.status ≡ established
      → IsData rte hdr ip k
      → suc k ≤ 1023
      → IsWatched rte s st r q ep p
      → rte.items r ≡ []
      → length (rte.items q) + 1 < rte.room
      → ep.items p ≡ some epi
      → epi.ev_fd ≡ s.fd
      → ep.rdlist ≡ []
      → PollSocket rte epfd ep st
      → fd_eq epfd s.fd ≡ false
      → fd_eq listenfd s.fd ≡ false
      → IsEnded 1023 buff
      → Replied hdr k s
          (rte.items q)
          (ng_tcp_process rte hdr ip st >>= λ x. tcp_server_round rte listenfd epfd buff x.1)
  unfolding tcp_server_round
  tcp_server_round-Replied hdr ip k s r q ep p epi listenfd epfd buff st memory found t e d small w
        i room h own l poll apart other ended =
      let s1 : Stream rte = stored_stream rte r hdr k s in
      let s2 : Stream rte = moved_stream rte hdr (suc k) s1 in
      let s3 : Stream rte = acked_stream rte q hdr (suc k) s1 in
      let st1 : Stack rte = after_segment rte s1 s3 s2 (one_ready rte p epi ep) st in
      let st2 : Stack rte = record st1 { ep = some (none_ready rte p epi ep) } in
      let c =
        callback-one_ready rte ep s.fd epollin p epi w.found h (idle rte ep p epi w.valid h l) l
          (w.valid.counted ∙ ap length l) in
      let t1 : TcpSocket rte s.fd s3 st2 =
        after_segment-TcpSocket s.fd s s1 s2 s3 (one_ready rte p epi ep) st t (refl, refl)
          (refl, refl) (refl, refl) in
      let poll1 : PollSocket rte epfd (one_ready rte p epi ep) st1 =
        after_segment-PollSocket epfd s1 s2 s3 ep (one_ready rte p epi ep) st poll refl apart apart
          apart in
      let size = data_length hdr ip k d in
      rw
        (
          ng_tcp_process-done rte hdr ip k s r q ep (one_ready rte p epi ep) (some 0) p st found e d
              w c (memory st.clock) (memory (st.clock + 1)) (memory (st.clock + 2)),
          get_hostinfo_fromfd-PollSocket rte epfd (one_ready rte p epi ep) st1 poll1,
          nepoll_wait-one_ready rte ep p epi,
          serve_event-client listenfd epfd s.fd (event_of rte epi) buff st2 own other,
        )
        (Replied-Returned hdr k s r q (rte.items q) _ _ (rte.items-enqueue q _ w.room_to_send) (
          serve_client-Echoed rte epfd s.fd s3 (payload_of rte hdr k) [] (data_of hdr k) buff
            (rte.enqueue r (payload_of rte hdr k))
            (rte.enqueue q (ack_of rte hdr (rte.ntohl hdr.recv_ack) ((s.rcv_nxt + suc k) % 2 ^ 32)))
            st2 t1 refl refl
            (rte.items-enqueue r _ w.room_left ∙ ap (λ l. l ++ (payload_of rte hdr k ∷ [])) i) refl
            (sym size) (rw size (ground arith)) (rw size small) ended
            (rw (rte.items-enqueue q _ w.room_to_send) (
              omega (
                arith,
                length-append (rte.items q)
                    (ack_of rte hdr (rte.ntohl hdr.recv_ack) ((s.rcv_nxt + suc k) % 2 ^ 32) ∷ []),
                room,
              )))
            (memory st2.clock) (memory (st2.clock + 1))))
