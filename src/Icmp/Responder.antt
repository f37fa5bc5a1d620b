-- ===== src/Icmp/Responder.antt =====
-- dpdk-code/04_icmp/icmp.c: the frames that answer a request, and one round of the loop of main.
pub mod Echo
pub mod Resolution
use dpdk_learning.Base.{
  ℕ, ◌+◌, ◌-◌, ◌^◌, ◌==◌, leb, ltb, if◌then◌else◌, Option, none, some, List, [], ◌∷◌, ◌++◌, get_or,
  set, take, drop, length,
}
use dpdk_learning.Net.Rte.{Rte}
use dpdk_learning.Net.State.{Run, crash, exit, wait, done, ◌>>=◌, ipproto_udp}
use dpdk_learning.Net.Frame.{
  load16, load32, store16, store32, mac6, ether_type_ipv4, ether_type_arp, eth_header, ip_header,
  ng_udp_pkt,
}
use dpdk_learning.Icmp.Checksum.{ng_checksum}

abbrev pub ipproto_icmp : ℕ
ipproto_icmp = 1

abbrev pub echo_reply : ℕ
echo_reply = 0

abbrev pub echo_request : ℕ
echo_request = 8

-- The ICMP part of a reply, with the checksum given. The identifier and the sequence number stay in
-- the byte order of the wire.
abbrev pub icmp_fields : ℕ → ℕ → ℕ → List ℕ
icmp_fields id seqnb sum = echo_reply ∷ 0 ∷ (store16 sum ++ (store16 id ++ store16 seqnb))

-- The parameters are the runtime and the globals `gSrcMac` and `gLocalIp`.
module _ (rte : Rte) (src_mac : List ℕ) (local_ip : ℕ) where
  open rte use {ntohs, alloc}

  unfoldable pub ng_encode_arp_pkt : List ℕ → ℕ → ℕ → List ℕ
  ng_encode_arp_pkt dst_mac sip dip =
      eth_header rte dst_mac src_mac ether_type_arp
      ++ (store16 (ntohs 1)
          ++ (store16 (ntohs ether_type_ipv4)
              ++ (6
                  ∷ 4
                  ∷ (store16 (ntohs 2)
                      ++ (mac6 src_mac ++ (store32 sip ++ (mac6 dst_mac ++ store32 dip)))))))

  unfoldable pub ng_send_arp : ℕ → List ℕ → ℕ → ℕ → Run (List ℕ)
  ng_send_arp n dst_mac sip dip = if alloc n then done (ng_encode_arp_pkt dst_mac sip dip) else exit

  unfoldable pub ng_encode_icmp_pkt : List ℕ → ℕ → ℕ → ℕ → ℕ → List ℕ
  ng_encode_icmp_pkt dst_mac sip dip id seqnb =
      eth_header rte dst_mac src_mac ether_type_ipv4
      ++ (ip_header rte 28 ipproto_icmp sip dip
          ++ icmp_fields id seqnb (ng_checksum (icmp_fields id seqnb 0) 8))

  unfoldable pub ng_send_icmp : ℕ → List ℕ → ℕ → ℕ → ℕ → ℕ → Run (List ℕ)
  ng_send_icmp n dst_mac sip dip id seqnb =
      if alloc n then done (ng_encode_icmp_pkt dst_mac sip dip id seqnb) else exit

  -- An ARP frame: if it asks for this host's address, whatever its opcode, the answer goes to its
  -- sender.
  unfoldable pub answer_arp : ℕ → List ℕ → Run (Option (List ℕ))
  answer_arp n frame =
      if load32 frame 38 == local_ip
      then (ng_send_arp n (take 6 (drop 22 frame)) (load32 frame 38) (load32 frame 28) >>= λ reply.
          done (some reply))
      else done none

  unfoldable pub ng_send_udp : ℕ → ℕ → ℕ → ℕ → ℕ → List ℕ → List ℕ → ℕ → Run (List ℕ)
  ng_send_udp n sip dip sport dport dst_mac bytes len =
      ng_udp_pkt rte n sip dip sport dport src_mac dst_mac bytes len

  -- A datagram goes back to its sender, with a zero put at its end. Its data is as long as the header
  -- claims, eight bytes too many, and as many again are read behind them; a read or write past the
  -- end of the packet's buffer is a fault.
  unfoldable pub answer_udp : ℕ → List ℕ → Run (Option (List ℕ))
  answer_udp n frame =
      let len = ntohs (load16 frame 38) in
      let frame' = set frame (34 + len) 0 in
      if ltb (34 + len) (length frame)
      then (if leb (42 + len + 8) (length frame)
          then (ng_send_udp n (load32 frame 30) (load32 frame 26) (load16 frame 36)
                (load16 frame 34) (take 6 (drop 6 frame)) (drop 42 frame') len
              >>= λ reply. done (some reply))
          else crash)
      else crash

  -- An ICMP packet: only an echo request is answered.
  unfoldable pub answer_icmp : ℕ → List ℕ → Run (Option (List ℕ))
  answer_icmp n frame =
      if get_or frame 34 0 == echo_request
      then (ng_send_icmp n (take 6 (drop 6 frame)) (load32 frame 30) (load32 frame 26)
            (load16 frame 38) (load16 frame 40)
          >>= λ reply. done (some reply))
      else done none

  unfoldable pub answer_ip : ℕ → List ℕ → Run (Option (List ℕ))
  answer_ip n frame =
      if get_or frame 23 0 == ipproto_udp
      then answer_udp n frame
      else if get_or frame 23 0 == ipproto_icmp
      then answer_icmp n frame
      else done none

  -- One round of the inner loop of main: the frame that is sent for a frame that is received. The
  -- frame is the packet's buffer to its end.
  unfoldable pub answer_frame : ℕ → List ℕ → Run (Option (List ℕ))
  answer_frame n frame =
      if load16 frame 12 == ntohs ether_type_arp
      then answer_arp n frame
      else if load16 frame 12 == ntohs ether_type_ipv4
      then answer_ip n frame
      else done none
