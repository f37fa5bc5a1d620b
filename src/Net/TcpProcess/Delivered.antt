-- ===== src/Net/TcpProcess/Delivered.antt =====
-- dpdk-code/14_tcp_concurrency/tcp_concurrency.c: what a segment with data leaves behind in the
-- receive buffer, the ready list and the send buffer.
use dpdk_learning.Base.{
  ℕ, suc, ◌+◌, ◌%◌, ◌^◌, ◌≡◌, ◌∙◌, refl, ap, true, false, Option, some, List, [], ◌∷◌, ◌++◌,
}
use dpdk_learning.Net.Rte.{Rte}
use dpdk_learning.Net.State.{
  Run, crash, exit, wait, done, established, EventPoll, Fragment, Stream, Stack, put_stream,
}
use dpdk_learning.Net.Epoll.{epoll_event_callback, epollin}
use dpdk_learning.Net.Epoll.Ready.{IsValid, absent, Called, epoll_event_callback-Called}
use dpdk_learning.Net.TcpProcess.Received.{
  IsData, IsWatched, payload_of, ack_of, stored_stream, moved_stream, acked_stream, received_stream,
  ng_tcp_process-done,
}
use dpdk_learning.Net.Streams.{put_stream-put_stream}
use dpdk_learning.Net.Tcp.{TcpHdr, IpHdr, ng_tcp_stream_search}
use dpdk_learning.Net.TcpProcess.{Code, processed, ng_tcp_process}

module _ (rte : Rte) where
  -- The segment is processed: one stream of the table is written, with the payload behind what was to
  -- be read and the acknowledgement behind what was to be sent; its item is in the ready list of a
  -- valid poll.
  abbrev pub Received :
      TcpHdr
      → ℕ
      → Stream rte
      → Stack rte
      → List Fragment
      → List Fragment
      → ℕ
      → Run (Code × Stack rte)
      → Type 0
  Received hdr k s st to_read to_send p (done (code, st')) =
      (code ≡ processed)
      × (st'.lhost ≡ st.lhost)
      × ((ep' : EventPoll rte) × (st'.ep ≡ some ep')
          × IsValid rte ep'
          × (absent p ep'.rdlist ≡ false))
      × ((r : rte.Ring Fragment) × (q : rte.Ring Fragment) × (st'.tcb_set
            ≡ put_stream rte (received_stream rte r q hdr k s) st.tcb_set)
          × (rte.items r ≡ to_read ++ (payload_of rte hdr k ∷ []))
          × (rte.items q
              ≡ to_send
                ++ (ack_of rte hdr (rte.ntohl hdr.recv_ack) ((s.rcv_nxt + suc k) % 2 ^ 32) ∷ [])))
  Received hdr k s st to_read to_send p crash = ⊥
  Received hdr k s st to_read to_send p exit = ⊥
  Received hdr k s st to_read to_send p wait = ⊥

  called :
      (p : ℕ) (run : Run (Option ℕ × EventPoll rte))
      → Called rte p run
      → (code : Option ℕ) × (ep' : EventPoll rte) × (run ≡ done (code, ep'))
        × IsValid rte ep'
        × (absent p ep'.rdlist ≡ false)
  called p (done (code, ep')) (v, a) = (code, ep', refl, v, a)
  called p crash c = absurd c
  called p exit c = absurd c
  called p wait c = absurd c

  -- A sound segment with data and without FIN, for an established stream that the table holds, whose
  -- buffers have room and whose descriptor is in a valid event poll, with memory to be had:
  -- `ng_tcp_process` returns 0. The payload stands behind what the receive buffer held, and an
  -- acknowledgement behind what the send buffer held, with the stream's numbers: the next byte expected
  -- has moved by the payload, and the next to be sent is the one that the peer expects. The item of the
  -- descriptor is in the ready list of a valid poll, and no other stream and no UDP socket changes.
  pub ng_tcp_process-Received :
      (hdr : TcpHdr) (ip : IpHdr) (k : ℕ) (s : Stream rte) (r q : rte.Ring Fragment)
      (ep : EventPoll rte) (p : ℕ) (st : Stack rte)
      → ng_tcp_stream_search rte ip.src_addr ip.dst_addr hdr.src_port hdr.dst_port st.tcb_set
        ≡ some s
      → s.status ≡ established
      → IsData rte hdr ip k
      → IsWatched rte s st r q ep p
      → rte.alloc st.clock ≡ true
      → rte.alloc (st.clock + 1) ≡ true
      → rte.alloc (st.clock + 2) ≡ true
      → Received hdr k s st (rte.items r) (rte.items q) p (ng_tcp_process rte hdr ip st)
  ng_tcp_process-Received hdr ip k s r q ep p st found e d w a a' a'' =
      let (epi, held) = w.held in
      let s1 : Stream rte = stored_stream rte r hdr k s in
      let s2 : Stream rte = moved_stream rte hdr (suc k) s1 in
      let s3 : Stream rte = acked_stream rte q hdr (suc k) s1 in
      let (code, ep', c, v, ready) =
        called p (epoll_event_callback rte ep s.fd epollin)
          (epoll_event_callback-Called rte ep s.fd epollin p epi w.found held w.valid) in
      rw (ng_tcp_process-done rte hdr ip k s r q ep ep' code p st found e d w c a a' a'') (
        refl,
        refl,
        (ep', refl, v, ready),
        (
          rte.enqueue r (payload_of rte hdr k),
          rte.enqueue q (ack_of rte hdr (rte.ntohl hdr.recv_ack) ((s.rcv_nxt + suc k) % 2 ^ 32)),
          ap (put_stream rte s3) (put_stream-put_stream rte s1 s2 st.tcb_set refl)
              ∙ put_stream-put_stream rte s2 s3 st.tcb_set refl,
          rte.items-enqueue r _ w.room_left,
          rte.items-enqueue q _ w.room_to_send,
        ),
      )
