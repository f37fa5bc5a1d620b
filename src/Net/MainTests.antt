-- ===== src/Net/MainTests.antt =====
-- dpdk-code/14_tcp_concurrency: rounds of main and of the packet thread, over rings that are lists.
use dpdk_learning.Base.{ℕ, ◌≡◌, refl, true, false, List, [], ◌∷◌, ◌++◌, arith, map}
use dpdk_learning.Net.State.{done, crash, exit, wait}
use dpdk_learning.Net.Output.{
  pkt_process, process_frames, process_frame, udp_out, ng_tcp_out, out_hosts, out_streams,
  out_stream,
}
use dpdk_learning.Ddos.Detect.{Detector, initial, ddos_detect, observe}
use dpdk_learning.Ddos.CountBit.{count_bit}
use dpdk_learning.Ddos.Tests.{numbers}
use dpdk_learning.Net.Main.{
  Mbuf, Node, detect_all, main_round, pkt_round, receive_burst, manage_timer, transmit_burst,
}
use dpdk_learning.Net.Main.Rounds.{Rounded, main_round-Rounded}
use dpdk_learning.Net.Main.Order.{Reachable, start, main_turn, pkt_turn, Reachable-in_order}
use dpdk_learning.Net.Tests.{list_rte, zeros, arp_table, stack}

-- Two frames that are for KNI.
abbrev packets : List Mbuf
packets =
    record { frame = zeros 14; beyond = zeros 2; buf_len = 14 }
    ∷ record { frame = zeros 14; beyond = []; buf_len = 8 }
    ∷ []

-- A node with one frame to be sent, and an empty ring `in`.
abbrev node : Node list_rte numbers
node = record {
  world = record { stack = stack; arpt = arp_table; out = zeros 3 ∷ []; kni = [] };
  inq = [];
  detector = initial numbers;
  sent = [];
  prev_tsc = 0;
}

main_round-Rounded_example :
    Rounded list_rte numbers packets 1 true node
      (detect_all list_rte numbers packets node.detector)
      (main_round list_rte numbers packets 1 200000000000 true node)
main_round-Rounded_example =
    main_round-Rounded list_rte numbers packets 1 200000000000 true node (λ n. refl) refl
      (omega arith) (omega arith)

-- The detector after a burst that it goes on from.
abbrev after_burst : List Mbuf → Detector numbers
after_burst ms = elim (detect_all list_rte numbers ms (initial numbers)) [
  | done d ↦ d
  | crash ↦ initial numbers
  | exit ↦ initial numbers
  | wait ↦ initial numbers
]

abbrev frames_of : List Mbuf → List (List ℕ)
frames_of ms = map (λ (m : Mbuf). m.frame) ms

-- The two packets are in the ring, and the frame is sent.
abbrev received_node : Node list_rte numbers
received_node = record node {
  world = record node.world { out = [] };
  inq = packets;
  detector = after_burst packets;
  sent = zeros 3 ∷ [];
}

received_node-Reachable : Reachable list_rte numbers received_node packets []
unfolding main_round receive_burst manage_timer transmit_burst detect_all count_bit ddos_detect
    observe
received_node-Reachable =
    main_turn packets 1 5 false node received_node [] [] (start node refl) (omega arith) refl

-- The packet thread has taken both, and passed the burst to KNI for each of them.
abbrev taken_node : Node list_rte numbers
taken_node = record received_node {
  world = record received_node.world { kni = frames_of packets ++ frames_of packets };
  inq = [];
}

taken_node-Reachable : Reachable list_rte numbers taken_node packets packets
unfolding pkt_round pkt_process process_frames process_frame udp_out ng_tcp_out out_hosts
    out_streams out_stream
taken_node-Reachable = pkt_turn received_node taken_node packets [] received_node-Reachable refl

Reachable-in_order_example : packets ≡ packets ++ []
Reachable-in_order_example =
    Reachable-in_order list_rte numbers taken_node packets packets taken_node-Reachable
