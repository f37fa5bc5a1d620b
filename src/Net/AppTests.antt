-- ===== src/Net/AppTests.antt =====
-- dpdk-code/14_tcp_concurrency: rounds of the two servers, over rings that are lists.
use dpdk_learning.Base.{
  ℕ, false, zero, suc, ◌++◌, length, ◌≡◌, refl, ap, none, some, List, [], ◌∷◌, arith, replicate,
}
use dpdk_learning.Net.State.{
  listen, established, close_wait, Fragment, Host, Stream, EventPoll, Stack,
}
use dpdk_learning.Net.TcpProcess.{data_fragment}
use dpdk_learning.Net.Apps.{udp_server_round, serve_client}
use dpdk_learning.Net.Apps.UdpOverrun.{IsBound, datagram_of, udp_server_round-overrun}
use dpdk_learning.Net.Output.{UdpHdr, queued, udp_process}
use dpdk_learning.Net.Socket.Lookup.{UdpSocket}
use dpdk_learning.Net.Apps.TcpEcho.{Returned, serve_client-Echoed}
use dpdk_learning.Net.Apps.HangUp.{Ended, serve_client-Ended}
use dpdk_learning.Net.State.{◌>>=◌, crash, done}
use dpdk_learning.Net.Epoll.Ready.{IsValid}
use dpdk_learning.Net.TcpProcess.{ng_tcp_process}
use dpdk_learning.Net.Apps.{tcp_server_round}
use dpdk_learning.Net.Tcp.{ng_tcp_stream_search}
use dpdk_learning.Net.Apps.Reply.{Replied, tcp_server_round-Replied}
use dpdk_learning.Net.Tests.{item_4, segment, ip_header, list_rte, stream_at, stack, poll_with}

-- A datagram of three bytes from port 7000, for the second of two sockets.
abbrev hello : UdpHdr
hello = record { src_port = 7000; dst_port = 8889; dgram_len = 11; body = 104 ∷ 105 ∷ 33 ∷ 0 ∷ [] }

abbrev socket_at : ℕ → ℕ → ℕ → Host list_rte
socket_at p fd port = record {
  ptr = p;
  fd = some fd;
  localip = 7;
  localmac = [];
  localport = port;
  protocol = 17;
  sndbuf = [];
  rcvbuf = [];
}

abbrev udp_stack : Stack list_rte
udp_stack = record stack { lhost = socket_at 30 5 53 ∷ socket_at 31 6 8889 ∷ [] }

other_port : ¬ IsBound list_rte 7 8889 17 (socket_at 30 5 53)
other_port (a, b, c) = omega (arith, b)

udp_server_round-overrun_example :
    (st' : Stack list_rte) × (h' : Host list_rte) × (udp_process list_rte 9 7 17 hello udp_stack
      ≡ done (queued, st'))
    × UdpSocket list_rte (some 6) h' st'
    × (h'.rcvbuf ≡ datagram_of list_rte 9 7 hello ∷ [])
    × (udp_server_round list_rte (some 6) [] st' ≡ crash)
udp_server_round-overrun_example =
    udp_server_round-overrun list_rte 9 7 17 hello (socket_at 30 5 53 ∷ []) [] (socket_at 31 6 8889)
      [] udp_stack refl (other_port, tt) (refl, refl, refl) refl refl (omega arith) (omega arith)
      (omega arith) refl refl

-- A connection with five bytes to read, one of them zero.
abbrev five : List ℕ
five = 1 ∷ 2 ∷ 0 ∷ 4 ∷ 5 ∷ []

abbrev connection : Stream list_rte
connection = record (stream_at 20 (some 4) established 8 5000) {
  rcvbuf = some (data_fragment 5000 80 (some five) 5 ∷ []);
}

abbrev tcp_stack : Stack list_rte
tcp_stack = record stack { tcb_set = connection ∷ stream_at 10 (some 3) listen 0 0 ∷ [] }

length-replicate : (n : ℕ) → length (replicate {A = ℕ} n 0) ≡ n
length-replicate zero = refl
length-replicate (suc n) = ap suc (length-replicate n)

serve_client-Echoed_example :
    Returned list_rte
      (some 4)
      connection
      five
      []
      []
      (serve_client list_rte (some 6) (some 4) (replicate 1023 0 ++ (0 ∷ [])) tcp_stack)
serve_client-Echoed_example =
    serve_client-Echoed list_rte (some 6) (some 4) connection (data_fragment 5000 80 (some five) 5)
      [] five (replicate 1023 0 ++ (0 ∷ [])) (data_fragment 5000 80 (some five) 5 ∷ []) [] tcp_stack
      (refl, refl) refl refl refl refl refl refl (omega arith)
      (replicate 1023 0, refl, length-replicate 1023) (omega arith) refl refl

-- The same connection at its end, and an event poll that watches it.
abbrev ended : Fragment
ended = data_fragment 5000 80 none 0

abbrev last_connection : Stream list_rte
last_connection = record (stream_at 20 (some 4) close_wait 8 5000) { rcvbuf = some (ended ∷ []) }

abbrev watching : EventPoll list_rte
watching = poll_with false

abbrev ending_stack : Stack list_rte
ending_stack = record stack { tcb_set = last_connection ∷ []; ep = some watching }

serve_client-Ended_example :
    Ended list_rte
      (some 40)
      (some 4)
      last_connection
      []
      []
      (0 ∷ [])
      ending_stack
      (serve_client list_rte (some 3) (some 4) (0 ∷ []) ending_stack)
serve_client-Ended_example =
    serve_client-Ended list_rte (some 3) (some 4) watching last_connection ended [] (0 ∷ [])
      (ended ∷ []) [] ending_stack (refl, refl) (refl, refl, (refl, refl)) refl refl refl refl refl
      refl (omega arith) refl

-- Three bytes for a connection, and an event poll with its descriptor.
abbrev quiet : EventPoll list_rte
quiet = record (poll_with false) { fd = some 6 }

quiet-IsValid : IsValid list_rte quiet
quiet-IsValid = record { counted = refl; listed = tt; complete = λ p r. ground (arith, r) }

abbrev connected : Stream list_rte
connected = stream_at 20 (some 4) established 8 5000

abbrev connected_stack : Stack list_rte
connected_stack = record stack { ep = some quiet }

tcp_server_round-Replied_example : Replied list_rte (segment 5000 0x18) 2 connected [] (
    ng_tcp_process list_rte (segment 5000 0x18) ip_header connected_stack >>= λ x.
    tcp_server_round list_rte (some 3) (some 6) (replicate 1023 0 ++ (0 ∷ [])) x.1)
unfolding ng_tcp_stream_search
tcp_server_round-Replied_example =
    tcp_server_round-Replied list_rte (segment 5000 0x18) ip_header 2 connected [] [] quiet 40
      item_4 (some 3) (some 6) (replicate 1023 0 ++ (0 ∷ [])) connected_stack (λ n. refl) refl
      (refl, refl) refl
      (record {
        sound = refl;
        pushed = refl;
        goes_on = refl;
        measured = refl;
        within = omega arith;
      })
      (omega arith)
      (record {
        receives = refl;
        sends = refl;
        room_left = omega arith;
        room_to_send = omega arith;
        polled = refl;
        valid = quiet-IsValid;
        found = refl;
        held = (item_4, refl);
      })
      refl (omega arith) refl refl refl (refl, refl, (refl, refl)) refl refl
      (replicate 1023 0, refl, length-replicate 1023)
