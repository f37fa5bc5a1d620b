-- ===== src/Net/Output.antt =====
-- dpdk-code/14_tcp_concurrency/tcp_concurrency.c: the frames that leave, from ng_tcp_out, udp_out and
-- the ARP timer, and pkt_process with its UDP input.
pub mod Flush
pub mod Delivery
pub mod Timer
use dpdk_learning.Base.{
  ℕ, zero, suc, ◌+◌, ◌-◌, ◌*◌, ◌/◌, ◌%◌, ◌^◌, ◌≡◌, Bool, true, false, Option, none, some, List, [],
  ◌∷◌, ◌++◌, ◌==◌, leb, if◌then◌else◌, get_or, take, drop, length,
}
use dpdk_learning.Net.Rte.{Rte}
use dpdk_learning.Net.State.{
  Run, crash, exit, wait, done, ◌>>=◌, Fragment, Offload, Stream, Host, Stack, ipproto_tcp,
  ipproto_udp,
}
use dpdk_learning.Net.Arp.{ArpTable, ng_get_dst_macaddr, ng_arp_entry_insert}
use dpdk_learning.Net.Frame.{
  load16, default_arp_mac, ether_type_ipv4, ng_tcp_pkt, ng_udp_pkt, ng_send_arp, read_ip, read_tcp,
}
use dpdk_learning.Net.TcpProcess.{ng_tcp_process}
use dpdk_learning.Net.Socket.{put_host, get_hostinfo_fromip_port}

abbrev pub arp_op_request : ℕ
arp_op_request = 1

-- The part of `struct rte_udp_hdr` that is read, with the length in host order, and the bytes behind
-- it to the end of the packet's buffer.
pub record UdpHdr : Type 0 where
  pub src_port : ℕ
  pub dst_port : ℕ
  pub dgram_len : ℕ
  pub body : List ℕ

abbrev pub else_default : Option (List ℕ) → List ℕ
else_default none = default_arp_mac
else_default (some mac) = mac

module _ (rte : Rte) where
  open rte use {Ring, enqueue, dequeue, alloc, ntohs}

  -- The ring `out` with the number of the next allocation.
  pub record Link : Type 0 where
    pub clock : ℕ
    pub out : Ring (List ℕ)

  -- A frame is put into the ring `out`, in the buffer that was allocated for it.
  abbrev pub emit : List ℕ → Link → Link
  emit frame l = record { clock = l.clock + 1; out = enqueue l.out frame }

  -- The fragment `f` has been taken out of the send buffer: it is sent, or, if the peer's address is
  -- not known, a request for it is sent and the fragment queued again behind the others.
  unfoldable pub transmit_fragment :
      ArpTable → List ℕ → Stream rte → Fragment → Ring Fragment → Link → Run (Stream rte × Link)
  transmit_fragment arpt src s f ring l = elim (ng_get_dst_macaddr arpt s.sip) [
    | none ↦ ng_send_arp rte l.clock arp_op_request src default_arp_mac s.dip s.sip >>= λ frame.
        done (record s { sndbuf = some (enqueue ring f) }, emit frame l)
    | some mac ↦ ng_tcp_pkt rte l.clock s.dip s.sip s.localmac mac f >>= λ frame.
        done (record s { sndbuf = some ring }, emit frame l)
  ]

  abbrev pub transmit_next :
      ArpTable
      → List ℕ
      → Stream rte
      → Option (Fragment × Ring Fragment)
      → Link
      → Run (Stream rte × Link)
  transmit_next arpt src s none l = done (s, l)
  transmit_next arpt src s (some (f, ring)) l = transmit_fragment arpt src s f ring l

  abbrev pub transmit_ring :
      ArpTable → List ℕ → Stream rte → Option (Ring Fragment) → Link → Run (Stream rte × Link)
  transmit_ring arpt src s none l = done (s, l)
  transmit_ring arpt src s (some ring) l = transmit_next arpt src s (dequeue ring) l

  -- One round of the loop of `ng_tcp_out`.
  unfoldable pub out_stream : ArpTable → List ℕ → Stream rte → Link → Run (Stream rte × Link)
  out_stream arpt src s l = transmit_ring arpt src s s.sndbuf l

  -- The loop of `ng_tcp_out` along the table.
  unfoldable pub out_streams :
      ArpTable → List ℕ → List (Stream rte) → Link → Run (List (Stream rte) × Link)
  out_streams arpt src [] l = done ([], l)
  out_streams arpt src (s ∷ ss) l =
      out_stream arpt src s l >>= λ r. out_streams arpt src ss r.1 >>= λ q. done (r.0 ∷ q.0, q.1)

  -- The state of the packet thread: the stack, the ARP table, the ring `out`, and the frames that
  -- were passed to KNI.
  pub record World : Type 0 where
    pub stack : Stack rte
    pub arpt : ArpTable
    pub out : Ring (List ℕ)
    pub kni : List (List ℕ)

  abbrev pub link_of : World → Link
  link_of w = record { clock = w.stack.clock; out = w.out }

  abbrev pub set_streams : World → List (Stream rte) × Link → World
  set_streams w (ss, l) = record w {
    stack = record w.stack { tcb_set = ss; clock = l.clock };
    out = l.out;
  }

  unfoldable pub ng_tcp_out : World → Run World
  ng_tcp_out w =
      out_streams w.arpt w.stack.src_mac w.stack.tcb_set (link_of w) >>= λ r. done (set_streams w r)

  unfoldable pub transmit_offload :
      ArpTable → List ℕ → Host rte → Offload → Ring Offload → Link → Run (Host rte × Link)
  transmit_offload arpt src h ol ring l = elim (ng_get_dst_macaddr arpt ol.dip) [
    | none ↦ ng_send_arp rte l.clock arp_op_request src default_arp_mac ol.sip ol.dip >>= λ frame.
        done (record h { sndbuf = enqueue ring ol }, emit frame l)
    | some mac ↦
        ng_udp_pkt rte l.clock ol.sip ol.dip ol.sport ol.dport h.localmac mac ol.payload ol.len
        >>= λ frame. done (record h { sndbuf = ring }, emit frame l)
  ]

  abbrev pub out_host_next :
      ArpTable → List ℕ → Host rte → Option (Offload × Ring Offload) → Link → Run (Host rte × Link)
  out_host_next arpt src h none l = done (h, l)
  out_host_next arpt src h (some (ol, ring)) l = transmit_offload arpt src h ol ring l

  -- The loop of `udp_out` along the hosts.
  unfoldable pub out_hosts :
      ArpTable → List ℕ → List (Host rte) → Link → Run (List (Host rte) × Link)
  out_hosts arpt src [] l = done ([], l)
  out_hosts arpt src (h ∷ hs) l = out_host_next arpt src h (dequeue h.sndbuf) l >>= λ r.
      out_hosts arpt src hs r.1 >>= λ q. done (r.0 ∷ q.0, q.1)

  abbrev pub set_hosts : World → List (Host rte) × Link → World
  set_hosts w (hs, l) = record w {
    stack = record w.stack { lhost = hs; clock = l.clock };
    out = l.out;
  }

  unfoldable pub udp_out : World → Run World
  udp_out w =
      out_hosts w.arpt w.stack.src_mac w.stack.lhost (link_of w) >>= λ r. done (set_hosts w r)

  -- The return codes 0, -1, -2 and -3 of `udp_process`.
  pub data UdpCode : Type 0 where
    queued no_offload no_body no_host : UdpCode

  -- The offload has been allocated. The length of a datagram counts its header of eight bytes; of a
  -- length up to eight the size that is asked for is zero or wraps around, and there is no memory. A
  -- copy past the end of the packet's buffer is a fault.
  unfoldable pub receive_udp : Host rte → UdpHdr → ℕ → ℕ → Stack rte → Run (UdpCode × Stack rte)
  receive_udp h hdr sip dip st =
      let st' = record st { clock = st.clock + 2 } in
      if leb hdr.dgram_len 8
      then done (no_body, st')
      else if alloc (st.clock + 1)
      then (if leb (hdr.dgram_len - 8) (length hdr.body)
          then (let ol : Offload = record {
            sip = sip;
            dip = dip;
            sport = hdr.src_port;
            dport = hdr.dst_port;
            protocol = ipproto_udp;
            payload = take (hdr.dgram_len - 8) hdr.body;
            len = hdr.dgram_len;
          } in
              let h' = record h { rcvbuf = enqueue h.rcvbuf ol } in
              done (queued, record st' { lhost = put_host rte h' st.lhost }))
          else crash)
      else done (no_body, st')

  -- The socket of the datagram has been looked up.
  unfoldable pub udp_found :
      ℕ → ℕ → UdpHdr → Stack rte → Option (Host rte) → Run (UdpCode × Stack rte)
  udp_found sip dip hdr st none = done (no_host, st)
  udp_found sip dip hdr st (some h) =
      if alloc st.clock
      then receive_udp h hdr sip dip st
      else done (no_offload, record st { clock = st.clock + 1 })

  unfoldable pub udp_process : ℕ → ℕ → ℕ → UdpHdr → Stack rte → Run (UdpCode × Stack rte)
  udp_process sip dip proto hdr st =
      udp_found sip dip hdr st (get_hostinfo_fromip_port rte dip hdr.dst_port proto st)

  unfoldable pub read_udp : List ℕ → UdpHdr
  read_udp frame = record {
    src_port = load16 frame 34;
    dst_port = load16 frame 36;
    dgram_len = ntohs (load16 frame 38);
    body = drop 42 frame;
  }

  -- The sender of an IPv4 frame is entered into the ARP table. Memory is asked for only where it is
  -- not there yet.
  abbrev pub after_lookup : Option (List ℕ) → ℕ → ℕ
  after_lookup none clock = clock + 1
  after_lookup (some mac) clock = clock

  abbrev pub learn : List ℕ → World → World
  learn frame w = record w {
    arpt =
        (ng_arp_entry_insert (alloc w.stack.clock) (read_ip rte frame).src_addr
          (take 6 (drop 6 frame)) w.arpt).1;
    stack = record w.stack {
      clock = after_lookup (ng_get_dst_macaddr w.arpt (read_ip rte frame).src_addr) w.stack.clock;
    };
  }

  -- What is neither UDP nor TCP goes to KNI, with all the frames of its burst.
  abbrev pub to_kni : List (List ℕ) → World → World
  to_kni burst w = record w { kni = w.kni ++ burst }

  abbrev pub set_stack : World → Stack rte → World
  set_stack w st = record w { stack = st }

  unfoldable pub process_ip : List (List ℕ) → List ℕ → World → Run World
  process_ip burst frame w =
      let ip = read_ip rte frame in
      let proto = get_or frame 23 0 in
      if proto == ipproto_udp
      then (udp_process ip.src_addr ip.dst_addr proto (read_udp frame) w.stack >>= λ r.
          done (set_stack w r.1))
      else if proto == ipproto_tcp
      then (ng_tcp_process rte (read_tcp rte frame) ip w.stack >>= λ r. done (set_stack w r.1))
      else done (to_kni burst w)

  -- One round of the inner loop of `pkt_process`. The codes are dropped.
  unfoldable pub process_frame : List (List ℕ) → List ℕ → World → Run World
  process_frame burst frame w =
      if load16 frame 12 == ntohs ether_type_ipv4
      then process_ip burst frame (learn frame w)
      else done (to_kni burst w)

  unfoldable pub process_frames : List (List ℕ) → List (List ℕ) → World → Run World
  process_frames burst [] w = done w
  process_frames burst (frame ∷ frames) w =
      process_frame burst frame w >>= λ w'. process_frames burst frames w'

  -- One round of the loop of `pkt_process`, on a burst of the ring `in`.
  unfoldable pub pkt_process : List (List ℕ) → World → Run World
  pkt_process burst w = process_frames burst burst w >>= udp_out >>= ng_tcp_out

  -- The loop of `arp_request_timer_cb` over the last byte of the address, with the rounds that are
  -- left: a request to every address of the network of `local`, in the order of that byte.
  unfoldable pub request_addresses : ℕ → ℕ → ℕ → World → Run World
  request_addresses zero i local w = done w
  request_addresses (suc rounds) i local w =
      let dst = local % 2 ^ 24 + i * 2 ^ 24 in
      ng_send_arp rte w.stack.clock arp_op_request w.stack.src_mac
        (else_default (ng_get_dst_macaddr w.arpt dst)) local dst
      >>= λ frame. request_addresses rounds (i + 1) local (record w {
        out = enqueue w.out frame;
        stack = record w.stack { clock = w.stack.clock + 1 };
      })

  unfoldable pub arp_request_timer_cb : ℕ → World → Run World
  unfolding request_addresses
  arp_request_timer_cb local w = request_addresses 254 1 local w
