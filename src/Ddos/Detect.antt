-- ===== src/Ddos/Detect.antt =====
-- dpdk-code/14_tcp_concurrency/tcp_concurrency.c: ddos_entropy and ddos_detect. The type `double` and
-- its operations are a parameter.
pub mod Window
pub mod Packets
use dpdk_learning.Base.{
  ℕ, zero, suc, ◌+◌, ◌*◌, ◌%◌, ◌^◌, Bool, true, false, Option, none, some, List, [], ◌∷◌, leb,
  if◌then◌else◌, set, replicate,
}
use dpdk_learning.Ddos.CountBit.{count_bit}

-- The machine's `double`, with the conversion from an integer, `<` and `log2`.
pub record Double : Type 1 where
  pub F : Type 0
  pub of_ℕ : ℕ → F
  pub neg : F → F
  pub add : F → F → F
  pub sub : F → F → F
  pub mul : F → F → F
  pub log2 : F → F
  pub less : F → F → Bool

abbrev pub capture_windows : ℕ
capture_windows = 256

abbrev pub sum : List ℕ → ℕ
sum [] = 0
sum (x ∷ xs) = x + sum xs

-- The sum of an array in a `uint32_t`.
abbrev pub total : List ℕ → ℕ
total xs = sum xs % 2 ^ 32

-- The memory from the packet's data on, and the size of its buffer.
pub record Packet : Type 0 where
  pub msg : List ℕ
  pub buf_len : ℕ

module _ (double : Double) where
  open double use {F, of_ℕ, neg, add, sub, mul, log2, less}

  unfoldable pub ddos_entropy : F → F → F
  ddos_entropy set_bits total_bits =
      add
        (sub (mul (neg set_bits) (sub (log2 set_bits) (log2 total_bits)))
          (mul (sub total_bits set_bits) (sub (log2 (sub total_bits set_bits)) (log2 total_bits))))
        (log2 total_bits)

  -- The static variables: the three arrays, `pkt_idx`, and `flag`.
  pub record Detector : Type 0 where
    pub p_setbits : List ℕ
    pub p_totbits : List ℕ
    pub p_entropy : List F
    pub pkt_idx : ℕ
    pub flag : Bool

  abbrev pub initial : Detector
  initial = record {
    p_setbits = replicate capture_windows 0;
    p_totbits = replicate capture_windows 0;
    p_entropy = replicate capture_windows (of_ℕ 0);
    pkt_idx = 0;
    flag = false;
  }

  -- The packet's numbers are stored in the window.
  abbrev pub capture : ℕ → ℕ → Detector → Detector
  capture set_bits tot_bits d = record d {
    p_setbits = set d.p_setbits (d.pkt_idx % capture_windows) set_bits;
    p_totbits = set d.p_totbits (d.pkt_idx % capture_windows) tot_bits;
    p_entropy =
        set d.p_entropy (d.pkt_idx % capture_windows)
          (ddos_entropy (of_ℕ set_bits) (of_ℕ tot_bits));
  }

  abbrev pub add_up : F → List F → F
  add_up acc [] = acc
  add_up acc (x ∷ xs) = add_up (add acc x) xs

  -- Whether the entropies of the window exceed that of its sums by more than `tresh`, which is 1200.
  unfoldable pub attacked : Detector → Bool
  attacked d = less (of_ℕ 1200) (
      sub (add_up (of_ℕ 0) d.p_entropy)
        (ddos_entropy (of_ℕ (total d.p_setbits)) (of_ℕ (total d.p_totbits))))

  abbrev pub advance : Detector → Detector
  advance d = record d { pkt_idx = (d.pkt_idx + 1) % capture_windows + capture_windows }

  -- The decision on a full window; `none` is `rte_exit`.
  unfoldable pub decide : Detector → Option Detector
  decide d =
      if attacked d
      then (if d.flag then some (advance (record d { flag = true })) else none)
      else some (advance (record d { flag = false }))

  -- `ddos_detect` behind the count: a packet with the number of its ones and of its bits.
  unfoldable pub observe : ℕ → ℕ → Detector → Option Detector
  observe set_bits tot_bits d =
      let d' = capture set_bits tot_bits d in
      if leb capture_windows d.pkt_idx
      then decide d'
      else some (record d' { pkt_idx = d.pkt_idx + 1 })

  unfoldable pub ddos_detect : Packet → Detector → Option Detector
  ddos_detect pkt d = elim (count_bit pkt.msg pkt.buf_len) [
    | none ↦ none
    | some set_bits ↦ observe set_bits (pkt.buf_len * 8 % 2 ^ 32) d
  ]
