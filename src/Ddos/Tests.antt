-- ===== src/Ddos/Tests.antt =====
-- dpdk-code/14_tcp_concurrency: runs of count_bit, and of the detector over numbers in place of
-- `double`.
use dpdk_learning.Base.{
  ℕ, zero, suc, ◌+◌, ◌-◌, ◌*◌, ◌/◌, ◌%◌, ◌^◌, ◌≡◌, some, List, [], ◌∷◌, ltb, arith, map,
}
use dpdk_learning.Ddos.CountBit.{count_bit}
use dpdk_learning.Ddos.CountBit.Loop.{IsMemory, ones_from, count_bit-ones_from}
use dpdk_learning.Ddos.Detect.{Double, Packet}
use dpdk_learning.Ddos.Detect.Window.{Follows}
use dpdk_learning.Ddos.Detect.Packets.{counts, watch, watch-Follows}

abbrev memory : List ℕ
memory = 255 ∷ 7 ∷ 128 ∷ []

memory-IsMemory : IsMemory memory
memory-IsMemory zero = omega arith
memory-IsMemory (suc zero) = omega arith
memory-IsMemory (suc (suc zero)) = omega arith
memory-IsMemory (suc (suc (suc i))) = omega arith

count_bit-ones_from_example :
    count_bit memory 3 ≡ some (ones_from (8 * ((3 - 1) / 8 + 1)) memory 0 % 2 ^ 32)
count_bit-ones_from_example = count_bit-ones_from memory 3 memory-IsMemory

-- Numbers in place of `double`, and the identity in place of its logarithm.
abbrev pub numbers : Double
numbers = record {
  F = ℕ;
  of_ℕ = λ n. n;
  neg = λ a. a;
  add = λ a b. a + b;
  sub = λ a b. a - b;
  mul = λ a b. a * b;
  log2 = λ a. a;
  less = ltb;
}

abbrev history : List Packet
history = record { msg = memory; buf_len = 3 } ∷ record { msg = []; buf_len = 16 } ∷ []

watch-Follows_example : Follows numbers (map counts history) (watch numbers history)
watch-Follows_example = watch-Follows numbers history (memory-IsMemory, ((λ i. omega arith), tt))
