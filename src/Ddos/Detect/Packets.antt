-- ===== src/Ddos/Detect/Packets.antt =====
-- dpdk-code/14_tcp_concurrency/tcp_concurrency.c: ddos_detect over the packets that arrive.
use dpdk_learning.Base.{
  ℕ, ◌+◌, ◌-◌, ◌*◌, ◌/◌, ◌%◌, ◌^◌, ◌≡◌, refl, sym, subst, Option, none, some, List, [], ◌∷◌, All,
  map,
}
use dpdk_learning.Ddos.CountBit.Loop.{IsMemory, ones_from, count_bit-ones_from}
use dpdk_learning.Ddos.Detect.{Double, Packet, Detector, initial, observe, ddos_detect}
use dpdk_learning.Ddos.Detect.Window.{replay, Follows, replay-Follows}

-- The ones of a packet, counted bit by bit to the end of its last word, and its bits.
abbrev pub counts : Packet → ℕ × ℕ
counts pkt =
    (ones_from (8 * ((pkt.buf_len - 1) / 8 + 1)) pkt.msg 0 % 2 ^ 32, pkt.buf_len * 8 % 2 ^ 32)

module _ (double : Double) where
  -- The detector after the packets of a history, most recent first.
  unfoldable pub watch : List Packet → Option (Detector double)
  watch [] = some (initial double)
  watch (pkt ∷ hist) = elim (watch hist) [ none ↦ none | some d ↦ ddos_detect double pkt d ]

  ddos_detect-counts :
      (pkt : Packet) (d : Detector double)
      → IsMemory pkt.msg
      → ddos_detect double pkt d ≡ observe double (counts pkt).0 (counts pkt).1 d
  unfolding ddos_detect
  ddos_detect-counts pkt d m = rw (ddos_detect, count_bit-ones_from pkt.msg pkt.buf_len m) refl

  watch-replay :
      (hist : List Packet)
      → All (λ (pkt : Packet). IsMemory pkt.msg) hist
      → watch hist ≡ replay double (map counts hist)
  unfolding watch replay
  watch-replay [] m = refl
  watch-replay (pkt ∷ hist) m = rw (watch-replay hist m.1) (next (replay double (map counts hist)))
    where
      next :
          (o : Option (Detector double))
          → elim o [ none ↦ none | some d ↦ ddos_detect double pkt d ]
            ≡ elim o [ none ↦ none | some d ↦ observe double (counts pkt).0 (counts pkt).1 d ]
      next none = refl
      next (some d) = ddos_detect-counts pkt d m.0

  -- After any packets of bytes from the cleared state on, if the detector has not ended the program,
  -- its two arrays hold the ones and the bits of the last 256 packets, each in its slot, so that the
  -- sums that it compares are those of these packets; `pkt_idx` is below 512; and the flag is off, so
  -- that its message about the end of an attack is never printed. It ends the program only on a packet
  -- behind the first 256.
  pub watch-Follows :
      (hist : List Packet)
      → All (λ (pkt : Packet). IsMemory pkt.msg) hist
      → Follows double (map counts hist) (watch hist)
  watch-Follows hist m =
      subst (λ o. Follows double (map counts hist) o) (sym (watch-replay hist m))
        (replay-Follows double (map counts hist))
