-- ===== src/Net/Main.antt =====
-- dpdk-code/14_tcp_concurrency/tcp_concurrency.c: the loop of main over the port, with the detector of
-- attacks, the rings `in` and `out`, and the timer.
pub mod Rounds
pub mod Order
use dpdk_learning.Base.{
  ◌/◌, leb, ℕ, ◌+◌, ◌-◌, ◌*◌, ◌%◌, ◌^◌, Bool, Option, none, some, List, [], ◌∷◌, ◌++◌, ltb,
  if◌then◌else◌, take, length, map,
}
use dpdk_learning.Net.Rte.{Rte}
use dpdk_learning.Net.State.{Run, crash, exit, wait, done, ◌>>=◌}
use dpdk_learning.Net.Output.{World, pkt_process, arp_request_timer_cb}
use dpdk_learning.Ddos.CountBit.{count_bit}
use dpdk_learning.Ddos.Detect.{Double, Packet, Detector, ddos_detect}

abbrev pub burst_size : ℕ
burst_size = 32

abbrev pub timer_resolution_cycles : ℕ
timer_resolution_cycles = 120000000000

-- 192.168.0.119, as it is stored.
abbrev pub g_local_ip : ℕ
g_local_ip = 192 + 168 * 2 ^ 8 + 0 * 2 ^ 16 + 119 * 2 ^ 24

-- A received packet: the bytes from its data to the end of its buffer, those of the memory behind it,
-- and the size of the buffer.
pub record Mbuf : Type 0 where
  pub frame : List ℕ
  pub beyond : List ℕ
  pub buf_len : ℕ

-- The bytes that `count_bit` reads: to the end of the last word, and a word at least.
abbrev pub bytes_read : ℕ → ℕ
bytes_read length = 8 * ((length - 1) / 8 + 1)

abbrev pub packet_of : Mbuf → Packet
packet_of m = record { msg = m.frame ++ m.beyond; buf_len = m.buf_len }

module _ (rte : Rte) (double : Double) where
  open rte use {Ring, enqueue_burst, dequeue_burst}

  -- The state of the process: that of the packet thread, the ring `in`, the detector, the frames that
  -- the port has taken, and the time stamp of the last look at the timer.
  pub record Node : Type 0 where
    pub world : World rte
    pub inq : Ring Mbuf
    pub detector : Detector double
    pub sent : List (List ℕ)
    pub prev_tsc : ℕ

  -- `count_bit` faults where it reads past the end of the memory. Its loop ends, by `count_bit-ends`, so
  -- that the process does not stay in it. `ddos_detect` ends the process, or goes on.
  abbrev pub detect_one : Packet → Detector double → Run (Detector double)
  detect_one pkt d =
      if leb (bytes_read pkt.buf_len) (length pkt.msg)
      then elim (count_bit pkt.msg pkt.buf_len) [
        | none ↦ wait
        | some n ↦ elim (ddos_detect double pkt d) [ none ↦ exit | some d' ↦ done d' ]
      ]
      else crash

  unfoldable pub detect_all : List Mbuf → Detector double → Run (Detector double)
  detect_all [] d = done d
  detect_all (m ∷ ms) d = detect_one (packet_of m) d >>= λ d'. detect_all ms d'

  abbrev pub receive_some : List Mbuf → Node → Run Node
  receive_some [] n = done n
  receive_some (m ∷ ms) n = detect_all (m ∷ ms) n.detector >>= λ d.
      done (record n { detector = d; inq = enqueue_burst n.inq (m ∷ ms) })

  -- The packets of `rte_eth_rx_burst`.
  unfoldable pub receive_burst : List Mbuf → Node → Run Node
  receive_burst rx n = if ltb burst_size (length rx) then exit else receive_some rx n

  -- The frames of the ring `out` are given to the port, which takes the first ones, `accepted` at
  -- most; all of them are freed.
  unfoldable pub transmit_burst : ℕ → Node → Node
  transmit_burst accepted n =
      let b = dequeue_burst n.world.out burst_size in
      record n { world = record n.world { out = b.1 }; sent = n.sent ++ take accepted b.0 }

  -- The time stamps are 64-bit words. `expired` says whether the period of the timer has ended, so
  -- that `rte_timer_manage` calls the callback.
  abbrev pub is_due : ℕ → ℕ → Bool
  is_due prev_tsc cur_tsc = ltb timer_resolution_cycles ((cur_tsc + (2 ^ 64 - prev_tsc)) % 2 ^ 64)

  abbrev pub timer_manage : Bool → World rte → Run (World rte)
  timer_manage expired w = if expired then arp_request_timer_cb rte g_local_ip w else done w

  unfoldable pub manage_timer : ℕ → Bool → Node → Run Node
  manage_timer cur_tsc expired n =
      if is_due n.prev_tsc cur_tsc
      then (timer_manage expired n.world >>= λ w. done (record n { world = w; prev_tsc = cur_tsc }))
      else done n

  -- A round of the loop of main.
  unfoldable pub main_round : List Mbuf → ℕ → ℕ → Bool → Node → Run Node
  main_round rx accepted cur_tsc expired n =
      receive_burst rx n >>= λ n'. manage_timer cur_tsc expired (transmit_burst accepted n')

  -- A round of the loop of `pkt_process`, with the burst that it takes out of the ring `in`.
  unfoldable pub pkt_round : Node → Run Node
  pkt_round n =
      let b = dequeue_burst n.inq burst_size in
      pkt_process rte (map (λ (m : Mbuf). m.frame) b.0) n.world >>= λ w.
      done (record n { world = w; inq = b.1 })
