-- ===== src/Icmp/Tests.antt =====
-- dpdk-code/04_icmp: runs of the checksum and of the responder.
use dpdk_learning.Base.{
  ℕ, zero, suc, ◌/◌, ◌^◌, ◌≡◌, refl, Bool, true, ◌&&◌, and_parts, ltb, some, List, [], ◌∷◌, ◌++◌,
  arith,
}
use dpdk_learning.Net.State.{done}
use dpdk_learning.Net.Tests.{list_rte, zeros, mac}
use dpdk_learning.Ddos.CountBit.Loop.{IsMemory}
use dpdk_learning.Icmp.Checksum.{add_words, folded, ng_checksum}
use dpdk_learning.Icmp.Checksum.Sums.{sum_of, Checks, ng_checksum-Checks}
use dpdk_learning.Icmp.Responder.{answer_frame}
use dpdk_learning.Icmp.Responder.Echo.{IsRequest, IsReply, answer_frame-IsReply}
use dpdk_learning.Icmp.Responder.Resolution.{asking, Resolves, answer_frame-Resolves}

abbrev odd_bytes : List ℕ
odd_bytes = 255 ∷ 255 ∷ 1 ∷ []

ng_checksum-Checks_example :
    (folded (add_words 3 odd_bytes 0 0) / 2 ^ 16 ≡ 0)
    × Checks (sum_of 3 odd_bytes 0) (ng_checksum odd_bytes 3)
ng_checksum-Checks_example = ng_checksum-Checks odd_bytes 3

abbrev pub all_bytes : List ℕ → Bool
all_bytes [] = true
all_bytes (x ∷ xs) = ltb x 256 && all_bytes xs

pub all_bytes-IsMemory : (xs : List ℕ) → all_bytes xs ≡ true → IsMemory xs
all_bytes-IsMemory [] h i = omega arith
all_bytes-IsMemory (x ∷ xs) h zero =
    let small = (and_parts (ltb x 256) (all_bytes xs) h).0 in ground (arith, small)
all_bytes-IsMemory (x ∷ xs) h (suc i) =
    all_bytes-IsMemory xs (and_parts (ltb x 256) (all_bytes xs) h).1 i

-- An echo request of host 8 to host 9.
abbrev ping : List ℕ
ping =
    zeros 6
    ++ (mac
        ++ (0
            ∷ 8
            ∷ (zeros 9
                ++ (1 ∷ 0 ∷ 0 ∷ 8 ∷ 0 ∷ 0 ∷ 0 ∷ 9 ∷ 0 ∷ 0 ∷ 0 ∷ 8 ∷ 0 ∷ 0 ∷ 0 ∷ 7 ∷ 1 ∷ 3 ∷ 0
                    ∷ []))))

ping-IsRequest : IsRequest list_rte mac 9 ping
ping-IsRequest = record {
  memory = all_bytes-IsMemory ping refl;
  ipv4 = refl;
  icmp = refl;
  request = refl;
}

answer_frame-IsReply_example :
    (reply : List ℕ) × (answer_frame list_rte mac 9 5 ping ≡ done (some reply))
    × IsReply list_rte mac 9 ping reply
answer_frame-IsReply_example = answer_frame-IsReply list_rte mac 9 5 ping ping-IsRequest refl

-- Host 8 asks for the address of host 9.
abbrev host_mac : List ℕ
host_mac = 2 ∷ 0 ∷ 0 ∷ 0 ∷ 0 ∷ 8 ∷ []

answer_frame-Resolves_example :
    (reply : List ℕ) × (answer_frame list_rte mac 9 5
        (asking list_rte mac 9 host_mac [] [] 8 (omega arith) (omega arith))
      ≡ done (some reply))
    × Resolves list_rte mac 9 host_mac 9 8 reply
answer_frame-Resolves_example =
    answer_frame-Resolves list_rte mac 9 host_mac [] [] 8 (omega arith) (omega arith) 5 refl
