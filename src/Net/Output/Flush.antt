-- ===== src/Net/Output/Flush.antt =====
-- dpdk-code/14_tcp_concurrency/tcp_concurrency.c: the send buffers under rounds of ng_tcp_out.
use dpdk_learning.Base.{
  ℕ, zero, suc, ◌≤◌, ◌<◌, ◌≡◌, refl, true, Option, none, some, List, [], ◌∷◌, leb, length, All,
  arith,
}
use dpdk_learning.Net.Rte.{Rte}
use dpdk_learning.Net.State.{Run, crash, exit, wait, done, ◌>>=◌, Fragment, Stream}
use dpdk_learning.Net.Arp.{ArpTable, ng_get_dst_macaddr}
use dpdk_learning.Net.Frame.{tcp_total, mbuf_room, ng_tcp_pkt}
use dpdk_learning.Net.Output.{
  Link, transmit_fragment, transmit_next, transmit_ring, out_stream, out_streams, World,
  set_streams, link_of, ng_tcp_out,
}

module _ (rte : Rte) where
  abbrev pub Fits : Fragment → Type 0
  Fits f = leb (tcp_total f) mbuf_room ≡ true

  -- What waits in a send buffer: at most `k` fragments, each of which has room in a packet's buffer.
  abbrev pub Waiting : ℕ → Option (rte.Ring Fragment) → Type 0
  Waiting k none = Unit
  Waiting k (some ring) = (length (rte.items ring) ≤ k) × All Fits (rte.items ring)

  -- The peer at an address is in the ARP table, if anything waits for it.
  abbrev pub Known : ArpTable → ℕ → Option (rte.Ring Fragment) → Type 0
  Known arpt sip none = Unit
  Known arpt sip (some ring) =
      0 < length (rte.items ring) → (mac : List ℕ) × (ng_get_dst_macaddr arpt sip ≡ some mac)

  abbrev pub Pending : ArpTable → ℕ → Stream rte → Type 0
  Pending arpt k s = Waiting k s.sndbuf × Known arpt s.sip s.sndbuf

  abbrev pub Sends : ArpTable → ℕ → Run (Stream rte × Link rte) → Type 0
  Sends arpt k (done (s, l)) = Pending arpt k s
  Sends arpt k crash = ⊥
  Sends arpt k exit = ⊥
  Sends arpt k wait = ⊥

  module _ (memory : (n : ℕ) → rte.alloc n ≡ true) (arpt : ArpTable) (src : List ℕ) where
    transmit_next-Sends :
        (k : ℕ) (s : Stream rte) (ring : rte.Ring Fragment) (fs : List Fragment) (l : Link rte)
        → s.sndbuf ≡ some ring
        → rte.items ring ≡ fs
        → length fs ≤ suc k
        → All Fits fs
        → (0 < length fs → (mac : List ℕ) × (ng_get_dst_macaddr arpt s.sip ≡ some mac))
        → Sends arpt k (transmit_next rte arpt src s (rte.dequeue ring) l)
    unfolding transmit_fragment ng_tcp_pkt
    transmit_next-Sends k s ring [] l b i h a known =
        rw (rte.dequeue_nil ring i) (rw (b, i) ((omega arith, tt), known))
    transmit_next-Sends k s ring (f ∷ fs) l b i h a known =
        let (ring', d, i') = rte.dequeue_cons ring f fs i in
        let (mac, m) = known (omega arith) in
        rw (d, transmit_fragment, m, ng_tcp_pkt, memory l.clock, a.0)
          (rw i' (omega arith, a.1), λ more. (mac, m))

    transmit_ring-Sends :
        (k : ℕ) (s : Stream rte) (o : Option (rte.Ring Fragment)) (l : Link rte)
        → s.sndbuf ≡ o
        → Waiting (suc k) o
        → Known arpt s.sip o
        → Sends arpt k (transmit_ring rte arpt src s o l)
    transmit_ring-Sends k s none l e w known = rw e (tt, tt)
    transmit_ring-Sends k s (some ring) l e w known =
        transmit_next-Sends k s ring (rte.items ring) l e refl w.0 w.1 known

    out_stream-Sends :
        (k : ℕ) (s : Stream rte) (l : Link rte)
        → Pending arpt (suc k) s
        → Sends arpt k (out_stream rte arpt src s l)
    unfolding out_stream
    out_stream-Sends k s l (w, known) = transmit_ring-Sends k s s.sndbuf l refl w known

    abbrev pub AllSends : ℕ → Run (List (Stream rte) × Link rte) → Type 0
    AllSends k (done (ss, l)) = All (Pending arpt k) ss
    AllSends k crash = ⊥
    AllSends k exit = ⊥
    AllSends k wait = ⊥

    -- The stream is sent, and then the rest of the table.
    sent_first :
        (k : ℕ) (r : Run (Stream rte × Link rte))
        (rest : Link rte → Run (List (Stream rte) × Link rte))
        → Sends arpt k r
        → ((l : Link rte) → AllSends k (rest l))
        → AllSends k (r >>= λ x. rest x.1 >>= λ q. done (x.0 ∷ q.0, q.1))
    sent_first k (done (s, l)) rest a h = both (rest l) (h l)
      where
        both :
            (q : Run (List (Stream rte) × Link rte))
            → AllSends k q
            → AllSends k (q >>= λ q. done (s ∷ q.0, q.1))
        both (done (ss, l')) b = (a, b)
        both crash b = b
        both exit b = b
        both wait b = b
    sent_first k crash rest a h = absurd a
    sent_first k exit rest a h = absurd a
    sent_first k wait rest a h = absurd a

    out_streams-AllSends :
        (k : ℕ) (ss : List (Stream rte)) (l : Link rte)
        → All (Pending arpt (suc k)) ss
        → AllSends k (out_streams rte arpt src ss l)
    unfolding out_streams
    out_streams-AllSends k [] l a = tt
    out_streams-AllSends k (s ∷ ss) l a =
        sent_first k (out_stream rte arpt src s l) (out_streams rte arpt src ss)
          (out_stream-Sends k s l a.0) (λ l'. out_streams-AllSends k ss l' a.1)

  -- `n` rounds of `ng_tcp_out`.
  unfoldable pub rounds : ℕ → World rte → Run (World rte)
  rounds zero w = done w
  rounds (suc n) w = ng_tcp_out rte w >>= λ w'. rounds n w'

  -- The run returns, and every send buffer is empty.
  abbrev pub Flushed : Run (World rte) → Type 0
  Flushed (done w) = All (λ (s : Stream rte). Waiting 0 s.sndbuf) w.stack.tcb_set
  Flushed crash = ⊥
  Flushed exit = ⊥
  Flushed wait = ⊥

  flushed :
      (arpt : ArpTable) (ss : List (Stream rte))
      → All (Pending arpt 0) ss
      → All (λ (s : Stream rte). Waiting 0 s.sndbuf) ss
  flushed arpt [] a = tt
  flushed arpt (s ∷ ss) a = (a.0.0, flushed arpt ss a.1)

  -- If memory is to be had, the peer of every stream with something to send is in the ARP table, and
  -- no send buffer holds more than `n` fragments, each with room in a packet's buffer, then `n` rounds
  -- of `ng_tcp_out` return and leave every send buffer empty.
  pub rounds-Flushed :
      (n : ℕ) (w : World rte)
      → ((k : ℕ) → rte.alloc k ≡ true)
      → All (Pending w.arpt n) w.stack.tcb_set
      → Flushed (rounds n w)
  unfolding rounds ng_tcp_out
  rounds-Flushed zero w memory a = flushed w.arpt w.stack.tcb_set a
  rounds-Flushed (suc n) w memory a =
      next (out_streams rte w.arpt w.stack.src_mac w.stack.tcb_set (link_of rte w))
        (out_streams-AllSends memory w.arpt w.stack.src_mac n w.stack.tcb_set (link_of rte w) a)
        (λ ss l. rounds-Flushed n (set_streams rte w (ss, l)) memory)
    where
      next :
          (r : Run (List (Stream rte) × Link rte))
          → AllSends memory w.arpt w.stack.src_mac n r
          → ((ss : List (Stream rte)) (l : Link rte)
              → All (Pending w.arpt n) ss
              → Flushed (rounds n (set_streams rte w (ss, l))))
          → Flushed (r >>= (λ q. done (set_streams rte w q)) >>= λ w'. rounds n w')
      next (done (ss, l)) b h = h ss l b
      next crash b h = b
      next exit b h = b
      next wait b h = b
