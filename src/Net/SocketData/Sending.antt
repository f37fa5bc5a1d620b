-- ===== src/Net/SocketData/Sending.antt =====
-- dpdk-code/14_tcp_concurrency/tcp_concurrency.c: the segment that nsend puts into the send buffer.
use dpdk_learning.Base.{
  ℕ, ◌+◌, ◌^◌, ◌<◌, ◌≡◌, refl, ap, true, some, List, [], ◌∷◌, ◌++◌, length, arith,
}
use dpdk_learning.Net.Rte.{Rte, Fd}
use dpdk_learning.Net.State.{Run, crash, exit, wait, done, Fragment, Stream, Stack, put_stream}
use dpdk_learning.Net.Socket.{tcp, get_hostinfo_fromfd}
use dpdk_learning.Net.SocketData.{data_segment, Result, sent, send_stream, nsend}

module _ (rte : Rte) where
  -- The call returns a length; the segment stands behind what the send buffer held, and the table
  -- has the stream written, with its sequence numbers as they were.
  abbrev Queued :
      Stream rte → List Fragment → List ℕ → Stack rte → Run (Result rte × Stack rte) → Type 0
  Queued s queued buf st (done (res, st')) =
      (res ≡ sent (length buf))
      × ((ring : rte.Ring Fragment) × (rte.items ring ≡ queued ++ (data_segment rte s buf ∷ []))
          × (st'.tcb_set ≡ put_stream rte (record s { sndbuf = some ring }) st.tcb_set))
  Queued s queued buf st crash = ⊥
  Queued s queued buf st exit = ⊥
  Queued s queued buf st wait = ⊥

  -- For a descriptor of a TCP stream with room in its send buffer, fewer than 2 ^ 32 bytes, and
  -- memory to be had: `nsend` returns the number of the bytes, and queues one segment with all of
  -- them and the numbers of the stream behind what the send buffer held. The sequence number of the
  -- stream stays.
  nsend-Queued :
      (fd : Fd) (buf : List ℕ) (ring : rte.Ring Fragment) (s : Stream rte) (st : Stack rte)
      → get_hostinfo_fromfd rte fd st ≡ tcp s
      → s.sndbuf ≡ some ring
      → length (rte.items ring) < rte.room
      → length buf < 2 ^ 32
      → rte.alloc st.clock ≡ true
      → rte.alloc (st.clock + 1) ≡ true
      → Queued s (rte.items ring) buf st (nsend rte fd buf st)
  unfolding nsend send_stream
  nsend-Queued fd buf ring s st h b room small a a' =
      rw (h, a, a', b)
        (
          ap sent (omega arith),
          (rte.enqueue ring (data_segment rte s buf), rte.items-enqueue ring _ room, refl),
        )
