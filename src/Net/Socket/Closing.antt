-- ===== src/Net/Socket/Closing.antt =====
-- dpdk-code/14_tcp_concurrency/tcp_concurrency.c: nclose of a connection, and the descriptor that it
-- gives back.
use dpdk_learning.Base.{
  ℕ, ◌<◌, ◌≡◌, refl, Bool, true, false, none, some, List, [], ◌∷◌, ◌++◌, ==_refl, length,
}
use dpdk_learning.Net.Rte.{Rte, fd_eq}
use dpdk_learning.Net.State.{
  Run, crash, exit, wait, done, listen, last_ack, status_eq, Fragment, Stream, Stack, put_stream,
}
use dpdk_learning.Net.FdTable.{set_fd_frombitmap}
use dpdk_learning.Net.FdTable.Bitmap.{IsTable, taken, taken-set_fd_frombitmap}
use dpdk_learning.Net.Tcp.{first}
use dpdk_learning.Net.Socket.Lookup.{first-test, first-put_stream}
use dpdk_learning.Net.Socket.{
  tcp, first_host, get_hostinfo_fromfd, fin_fragment, close_stream, nclose,
}

module _ (rte : Rte) where
  -- The call returns 0 and queues the FIN; the descriptor is free, and a lookup of it still finds
  -- the stream, which awaits the last acknowledgement.
  abbrev pub Closing : ℕ → Stream rte → List Fragment → ℕ → Run (Bool × Stack rte) → Type 0
  Closing fd s queued n (done (code, st')) =
      (code ≡ true)
      × (taken st'.fd_table fd ≡ false)
      × ((s' : Stream rte) × (get_hostinfo_fromfd rte (some fd) st' ≡ tcp s')
          × (s'.status ≡ last_ack)
          × ((ring : rte.Ring Fragment) × (s'.sndbuf ≡ some ring)
              × (rte.items ring ≡ queued ++ (fin_fragment rte n s ∷ []))))
  Closing fd s queued n crash = ⊥
  Closing fd s queued n exit = ⊥
  Closing fd s queued n wait = ⊥

  -- For a descriptor below 1024 of no UDP socket, whose first stream does not listen and has room in
  -- its send buffer, with memory to be had: `nclose` returns 0, queues the FIN behind what the send
  -- buffer holds, and frees the descriptor, while a lookup of the descriptor still finds the stream,
  -- now in LAST_ACK.
  pub nclose-Closing :
      (fd : ℕ) (s : Stream rte) (ring : rte.Ring Fragment) (st : Stack rte)
      → fd < 1024
      → IsTable st.fd_table
      → first_host rte (λ h. fd_eq (some fd) h.fd) st.lhost ≡ none
      → first rte (λ x. fd_eq (some fd) x.fd) st.tcb_set ≡ some s
      → status_eq s.status listen ≡ false
      → s.sndbuf ≡ some ring
      → length (rte.items ring) < rte.room
      → rte.alloc st.clock ≡ true
      → Closing fd s (rte.items ring) st.clock (nclose rte (some fd) st)
  unfolding nclose close_stream get_hostinfo_fromfd
  nclose-Closing fd s ring st hfd t h f l b room a =
      rw (h, f, l, a, b, h)
        (
          refl,
          freed,
          (
            closing,
            rw found refl,
            refl,
            (rte.enqueue ring (fin_fragment rte st.clock s), refl, rte.items-enqueue ring _ room),
          ),
        )
    where
      closing : Stream rte
      closing = record s {
        sndbuf = some (rte.enqueue ring (fin_fragment rte st.clock s));
        status = last_ack;
      }

      found :
          first rte (λ x. fd_eq (some fd) x.fd) (put_stream rte closing st.tcb_set) ≡ some closing
      found =
          first-put_stream rte (λ x. fd_eq (some fd) x.fd) st.tcb_set s closing f refl
            (first-test rte (λ x. fd_eq (some fd) x.fd) st.tcb_set s f)

      freed : taken (set_fd_frombitmap fd st.fd_table) fd ≡ false
      freed = rw (taken-set_fd_frombitmap st.fd_table t fd fd hfd, ==_refl fd) refl
