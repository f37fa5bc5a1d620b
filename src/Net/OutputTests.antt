-- ===== src/Net/OutputTests.antt =====
-- dpdk-code/14_tcp_concurrency: runs of the frames and of the output, over rings that are lists.
use dpdk_learning.Base.{ℕ, ◌-◌, ◌%◌, ◌^◌, ◌≡◌, refl, true, some, List, [], ◌∷◌, ◌++◌, arith}
use dpdk_learning.Base.Int.{sub_ℕ}
use dpdk_learning.Net.State.{established, listen, Fragment, Stream, ipproto_tcp}
use dpdk_learning.Net.FdTable.Bitmap.{taken}
use dpdk_learning.Net.FdTable.Refine.{Op, get_fd, set_fd, run, run_set, run-refines-run_set}
use dpdk_learning.Net.Arp.{ng_get_dst_macaddr}
use dpdk_learning.Net.TcpProcess.{data_fragment, ng_tcp_enqueue_recvbuffer}
use dpdk_learning.Net.TcpProcess.Payload.{Stored}
use dpdk_learning.Net.Frame.{
  tcp_total, ip_header, tcp_segment, ng_encode_tcp_apppkt, read_ip, read_tcp,
}
use dpdk_learning.Net.Frame.RoundTrip.{FragmentFits, read_tcp-ng_encode_tcp_apppkt}
use dpdk_learning.Net.Output.{World, arp_request_timer_cb}
use dpdk_learning.Net.Output.Timer.{AreRequests, Requested, arp_request_timer_cb-AreRequests}
use dpdk_learning.Net.Output.Flush.{rounds, Flushed, rounds-Flushed}
use dpdk_learning.Net.Output.Delivery.{CanSend, frame, ng_tcp_enqueue_recvbuffer-frame}
use dpdk_learning.Net.Tests.{list_rte, zeros, free_table, free_table-IsTable, mac, stream_at, stack}

abbrev ops : List Op
ops = get_fd ∷ get_fd ∷ set_fd 3 ∷ get_fd ∷ get_fd ∷ []

run-refines-run_set_example : run ops free_table ≡ run_set ops (taken free_table)
run-refines-run_set_example =
    run-refines-run_set ops free_table (taken free_table) (free_table-IsTable, λ j. refl)

-- Three bytes, to port 5000.
abbrev three_bytes : List ℕ
three_bytes = 1 ∷ 2 ∷ 3 ∷ []

abbrev fragment : Fragment
fragment = record {
  sport = 80;
  dport = 5000;
  seqnum = 100;
  acknum = 200;
  hdrlen_off = 0x50;
  tcp_flags = 0x18;
  windows = 14600;
  tcp_urp = 0;
  optlen = 0;
  payload = some three_bytes;
  len = 3;
}

fragment_fits : FragmentFits list_rte fragment three_bytes
fragment_fits = record {
  sport_fits = omega arith;
  dport_fits = omega arith;
  seqnum_fits = omega arith;
  acknum_fits = omega arith;
  total_fits = omega arith;
  held = refl;
  measured = refl;
}

read_tcp-ng_encode_tcp_apppkt_example :
    read_tcp list_rte (ng_encode_tcp_apppkt list_rte 60 9 8 mac mac fragment ++ zeros 4) ≡ record {
      src_port = 80;
      dst_port = 5000;
      sent_seq = 100;
      recv_ack = 200;
      data_off = 0x50;
      tcp_flags = 0x18;
      cksum_ok = true;
      segment =
          tcp_segment list_rte 60
            (ip_header list_rte ((tcp_total fragment - 14) % 2 ^ 16) ipproto_tcp 9 8)
            fragment
          ++ zeros 4;
    }
read_tcp-ng_encode_tcp_apppkt_example =
    read_tcp-ng_encode_tcp_apppkt list_rte 60 9 8 mac mac fragment three_bytes (zeros 4)
      (omega arith) (omega arith) fragment_fits

-- A connection of this host, and the stream of its peer.
abbrev here : Stream list_rte
here = stream_at 20 (some 4) established 8 5000

abbrev there : Stream list_rte
there = stream_at 30 (some 5) established 9 80

can_send : CanSend list_rte here three_bytes 2
can_send = record {
  sport_fits = omega arith;
  dport_fits = omega arith;
  sip_fits = omega arith;
  dip_fits = omega arith;
  snd_fits = omega arith;
  rcv_fits = omega arith;
  measured = refl;
  short = omega arith;
}

abbrev sent : List ℕ
sent = frame list_rte here three_bytes 2 can_send 60 mac (zeros 4)

ng_tcp_enqueue_recvbuffer-frame_example :
    Stored list_rte there [] (data_fragment 80 5000 (some three_bytes) 3) stack (
      ng_tcp_enqueue_recvbuffer list_rte there
        (read_tcp list_rte sent)
        (sub_ℕ (read_ip list_rte sent).total_length 20)
        stack)
ng_tcp_enqueue_recvbuffer-frame_example =
    ng_tcp_enqueue_recvbuffer-frame list_rte here three_bytes 2 can_send 60 mac (zeros 4) there []
      stack refl (omega arith) refl refl

-- Two fragments to send on a connection to host 8, whose address is known, and a listener.
abbrev busy_world : World list_rte
busy_world = record {
  stack = record stack {
    tcb_set =
        record here { sndbuf = some (fragment ∷ fragment ∷ []) }
        ∷ stream_at 10 (some 3) listen 0 0
        ∷ [];
  };
  arpt = record { entries = record { ip = 8; hwaddr = mac; entry_type = 0 } ∷ []; count = 1 };
  out = [];
  kni = [];
}

known_8 : ng_get_dst_macaddr busy_world.arpt 8 ≡ some mac
unfolding ng_get_dst_macaddr
known_8 = refl

rounds-Flushed_example : Flushed list_rte (rounds list_rte 2 busy_world)
rounds-Flushed_example =
    rounds-Flushed list_rte 2 busy_world (λ k. refl)
      (
        ((omega arith, (refl, (refl, tt))), λ more. (mac, known_8)),
        (((omega arith, tt), λ more. absurd (omega arith)), tt),
      )

arp_request_timer_cb-AreRequests_example :
    (frames : List (List ℕ)) × AreRequests list_rte busy_world.arpt busy_world.stack.src_mac 9 254 1
      frames
    × Requested list_rte busy_world frames (arp_request_timer_cb list_rte 9 busy_world)
arp_request_timer_cb-AreRequests_example =
    arp_request_timer_cb-AreRequests list_rte 9 busy_world (λ k. refl) (omega arith) (omega arith)
