-- ===== src/Icmp/Responder/Resolution.antt =====
-- dpdk-code/04_icmp/icmp.c and dpdk-code/14_tcp_concurrency/tcp_concurrency.c: the answer to an ARP
-- request of ng_send_arp.
use dpdk_learning.Base.{
  ℕ, ◌^◌, ◌<◌, ◌≡◌, ◌∙◌, refl, ◌==◌, List, ◌++◌, some, take, drop, arith, true,
}
use dpdk_learning.Net.Rte.{Rte}
use dpdk_learning.Net.State.{done}
use dpdk_learning.Net.Frame.{load16, load32, mac6, ether_type_arp}
use dpdk_learning.Net.Frame
use dpdk_learning.Net.Frame.RoundTrip.{loaded16, loaded32}
use dpdk_learning.Net.Output.{arp_op_request}
use dpdk_learning.Icmp.Responder.{ng_encode_arp_pkt, ng_send_arp, answer_arp, answer_frame}

load32_small : {a b : ℕ} → a ≡ b → b < 2 ^ 32 → a < 2 ^ 32
load32_small e h = omega (arith, e)

module _ (rte : Rte) (src_mac : List ℕ) (local_ip : ℕ) where
  -- An ARP reply to a host, which says that the address `ip` has the address `src_mac`.
  pub record Resolves (mac : List ℕ) (ip to_ip : ℕ) (reply : List ℕ) : Type 0 where
    pub to_mac : take 6 reply ≡ mac6 mac
    pub ether_type : load16 reply 12 ≡ rte.ntohs ether_type_arp
    pub opcode : load16 reply 20 ≡ rte.ntohs 2
    pub sender_mac : take 6 (drop 22 reply) ≡ mac6 src_mac
    pub sender_ip : load32 reply 28 ≡ ip
    pub target_mac : take 6 (drop 32 reply) ≡ mac6 mac
    pub target_ip : load32 reply 38 ≡ to_ip

  answered :
      (n : ℕ) (frame : List ℕ)
      → load16 frame 12 ≡ rte.ntohs ether_type_arp
      → load32 frame 38 ≡ local_ip
      → rte.alloc n ≡ true
      → answer_frame rte src_mac local_ip n frame
        ≡ done (
            some (
              ng_encode_arp_pkt rte src_mac local_ip
                (take 6 (drop 22 frame))
                (load32 frame 38)
                (load32 frame 28)))
  unfolding answer_frame answer_arp ng_send_arp
  answered n frame e f a =
      let arp : (load16 frame 12 == rte.ntohs ether_type_arp) ≡ true = ground (arith, e) in
      let local : (load32 frame 38 == local_ip) ≡ true = ground (arith, f) in
      rw (arp, local, a) refl

  module _ (mac dst_mac rest : List ℕ) (sip : ℕ) (hs : sip < 2 ^ 32) (hl : local_ip < 2 ^ 32) where
    abbrev pub asking : List ℕ
    asking = Frame.ng_encode_arp_pkt rte arp_op_request mac dst_mac sip local_ip ++ rest

    -- With memory to be had, a request for the responder's address, in a frame that `ng_send_arp` of
    -- the stack encodes for a host, whatever follows it in the buffer, is answered by one frame to
    -- that host, an ARP reply with the responder's two addresses, and with the host's as the target.
    pub answer_frame-Resolves :
        (n : ℕ)
        → rte.alloc n ≡ true
        → (reply : List ℕ) × (answer_frame rte src_mac local_ip n asking ≡ done (some reply))
          × Resolves mac local_ip sip reply
    unfolding ng_encode_arp_pkt Frame.ng_encode_arp_pkt
    answer_frame-Resolves n a =
        let arp = loaded16 (rte.ntohs ether_type_arp) (rte.ntohs-lt ether_type_arp (omega arith)) in
        let own = loaded32 local_ip hl in
        (
          ng_encode_arp_pkt rte src_mac local_ip (take 6 (drop 22 asking)) (load32 asking 38)
              (load32 asking 28),
          answered n asking arp own a,
          record {
            to_mac = refl;
            ether_type = arp;
            opcode = loaded16 (rte.ntohs 2) (rte.ntohs-lt 2 (omega arith));
            sender_mac = refl;
            sender_ip = loaded32 (load32 asking 38) (load32_small own hl) ∙ own;
            target_mac = refl;
            target_ip =
                loaded32 (load32 asking 28) (load32_small (loaded32 sip hs) hs) ∙ loaded32 sip hs;
          },
        )
