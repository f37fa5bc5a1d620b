-- ===== src/Net/TcpProcess/Payload.antt =====
-- dpdk-code/14_tcp_concurrency/tcp_concurrency.c: the payload that ng_tcp_enqueue_recvbuffer puts
-- into the receive buffer.
use dpdk_learning.Base.{
  leb-true, ℕ, suc, ◌+◌, ◌≤◌, ◌<◌, ◌≡◌, refl, true, some, List, [], ◌∷◌, ◌++◌, take, drop, length,
}
use dpdk_learning.Base.Int.{ℤ, pos}
use dpdk_learning.Net.Rte.{Rte}
use dpdk_learning.Net.State.{Run, crash, exit, wait, done, Fragment, Stream, Stack, put_stream}
use dpdk_learning.Net.Tcp.{TcpHdr}
use dpdk_learning.Net.TcpProcess.{
  header_bytes, payload_len, data_fragment, receive_payload, receive_len, ng_tcp_enqueue_recvbuffer,
}

module _ (rte : Rte) where
  -- The call returns, and the fragment stands behind what the receive buffer held; the table has
  -- the stream written, and nothing else of the stream has changed.
  abbrev pub Stored :
      Stream rte → List Fragment → Fragment → Stack rte → Run (Stream rte × Stack rte) → Type 0
  Stored s queued frag st (done (s', st')) =
      (ring : rte.Ring Fragment) × (rte.items ring ≡ queued ++ (frag ∷ []))
      × (s' ≡ record s { rcvbuf = some ring })
      × (st'.tcb_set ≡ put_stream rte s' st.tcb_set)
  Stored s queued frag st crash = ⊥
  Stored s queued frag st exit = ⊥
  Stored s queued frag st wait = ⊥

  -- A segment with a payload that lies within the packet, with memory to be had and room in the
  -- receive buffer: `ng_tcp_enqueue_recvbuffer` returns, and the payload, all bytes behind the header
  -- as long as the IP length says, is queued behind what the buffer held, with the ports of the
  -- segment.
  pub ng_tcp_enqueue_recvbuffer-Stored :
      (s : Stream rte) (hdr : TcpHdr) (tcplen : ℤ) (k : ℕ) (ring : rte.Ring Fragment)
      (st : Stack rte)
      → payload_len hdr tcplen ≡ pos (suc k)
      → header_bytes hdr + suc k ≤ length hdr.segment
      → s.rcvbuf ≡ some ring
      → length (rte.items ring) < rte.room
      → rte.alloc st.clock ≡ true
      → rte.alloc (st.clock + 1) ≡ true
      → Stored s
          (rte.items ring)
          (data_fragment
            (rte.ntohs hdr.src_port)
            (rte.ntohs hdr.dst_port)
            (some (take (suc k) (drop (header_bytes hdr) hdr.segment)))
            (suc k))
          st
          (ng_tcp_enqueue_recvbuffer rte s hdr tcplen st)
  unfolding ng_tcp_enqueue_recvbuffer receive_len receive_payload
  ng_tcp_enqueue_recvbuffer-Stored s hdr tcplen k ring st p within b room a a' =
      rw
        (
          a,
          p,
          receive_len,
          receive_payload,
          a',
          leb-true (header_bytes hdr + suc k) (length hdr.segment) within,
          b,
        )
        (rte.enqueue ring _, rte.items-enqueue ring _ room, refl, refl)
