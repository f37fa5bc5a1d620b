-- ===== src/Dns/Server.antt =====
-- dpdk-code/dns/dpdk_kni.c: one round of the loop of main on a received frame, and the frame that
-- carries the response.
pub mod Reply
pub mod Answered
use dpdk_learning.Base.{
  ℕ, ◌+◌, ◌-◌, ◌%◌, ◌^◌, Bool, ◌&&◌, List, [], ◌∷◌, ◌++◌, ◌==◌, leb, if◌then◌else◌, get_or, take,
  drop, length,
}
use dpdk_learning.Dns.Wire.{Outcome, fault, Message}
use dpdk_learning.Dns.Wire
use dpdk_learning.Dns.Query.{decode_msg}
use dpdk_learning.Dns.Response.{encode_msg}
use dpdk_learning.Dns.Resolve.{resolve_query}
use dpdk_learning.Net.Rte.{Rte}
use dpdk_learning.Net.State.{Run, crash, exit, done, ◌>>=◌, ipproto_udp}
use dpdk_learning.Net.Frame.{
  load16, load32, ether_type_ipv4, mbuf_room, eth_header, ip_header, udp_fields,
}

abbrev pub udp_port : ℕ
udp_port = 53

-- `msg` behind its `memset`.
abbrev pub cleared : Message
cleared = record {
  id = 0;
  qr = 0;
  opcode = 0;
  aa = 0;
  tc = 0;
  rd = 0;
  ra = 0;
  rcode = 0;
  qd_count = 0;
  an_count = 0;
  ns_count = 0;
  ar_count = 0;
  questions = [];
  answers = [];
  authorities = [];
  additionals = [];
}

-- What becomes of a frame: it goes to KNI with all the frames of its burst, nothing is done, or a
-- frame is sent.
pub data Handled : Type 0 where
  to_kni : Handled
  ignored : Handled
  replied : List ℕ → Handled

-- A read past the end of the packet's buffer is a fault of the process.
abbrev pub run_of {ℓ} : {A : Type ℓ} → Outcome A → Run A
run_of fault = crash
run_of (Wire.done a) = done a

module _ (rte : Rte) where
  open rte use {ntohs}

  -- The length of the data as a `uint16_t`.
  abbrev pub data_length : List ℕ → ℕ
  data_length frame = (ntohs (load16 frame 38) + 2 ^ 16 - 8) % 2 ^ 16

  abbrev pub is_udp : List ℕ → Bool
  is_udp frame = load16 frame 12 == ntohs ether_type_ipv4 && (get_or frame 23 0 == ipproto_udp)

-- The parameters are the runtime and `g_src_mac_addr`.
module _ (rte : Rte) (src_mac : List ℕ) where
  open rte use {ntohs, alloc, l4_cksum}

  -- The frame of `total_len` bytes; the ports and the length are given in the order of the host.
  unfoldable pub create_eth_ip_udp_pkt : ℕ → List ℕ → ℕ → ℕ → ℕ → ℕ → List ℕ → List ℕ
  create_eth_ip_udp_pkt total_len dst_mac src_ip dst_ip src_port dst_port bytes =
      let ip = ip_header rte ((total_len - 14) % 2 ^ 16) ipproto_udp src_ip dst_ip in
      let len = (length bytes + 8) % 2 ^ 16 in
      let sum = l4_cksum ip (udp_fields rte (ntohs src_port) (ntohs dst_port) len 0 ++ bytes) in
      eth_header rte dst_mac src_mac ether_type_ipv4
      ++ (ip ++ (udp_fields rte (ntohs src_port) (ntohs dst_port) len sum ++ bytes))

  -- The code does not compare the length with the room of the buffer, and a write past its end is a
  -- fault here.
  unfoldable pub do_send_udp : ℕ → List ℕ → ℕ → ℕ → ℕ → ℕ → List ℕ → Run (List ℕ)
  do_send_udp n dst_mac src_ip dst_ip src_port dst_port bytes =
      if alloc n
      then (if leb (length bytes + 42) mbuf_room
          then done (
              create_eth_ip_udp_pkt (length bytes + 42) dst_mac src_ip dst_ip src_port dst_port
                bytes)
          else crash)
      else exit

  -- The message has been decoded; the return codes of `decode_msg` and `encode_msg` are dropped. The
  -- response is written over the query, in the packet's buffer, and then sent to where the query came
  -- from.
  unfoldable pub respond : ℕ → List ℕ → Message → Run Handled
  respond n frame msg =
      let out = (encode_msg (resolve_query msg)).1 in
      if leb (42 + length out) (length frame)
      then (do_send_udp n (take 6 (drop 6 frame)) (load32 frame 30) (load32 frame 26)
            (ntohs (load16 frame 36)) (ntohs (load16 frame 34)) out
          >>= λ reply. done (replied reply))
      else crash

  -- A datagram for the port of the responder. `msg` is cleared for every one.
  unfoldable pub answer_query : ℕ → List ℕ → Run Handled
  answer_query n frame =
      run_of (decode_msg cleared (drop 42 frame) (data_length rte frame)) >>= λ r.
      respond n frame r.1

  -- One round of the inner loop of main. The frame is the packet's buffer to its end.
  unfoldable pub serve_frame : ℕ → List ℕ → Run Handled
  serve_frame n frame =
      if is_udp rte frame
      then (if udp_port == ntohs (load16 frame 36) then answer_query n frame else done ignored)
      else done to_kni
