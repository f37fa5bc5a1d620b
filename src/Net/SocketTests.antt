-- ===== src/Net/SocketTests.antt =====
-- dpdk-code/14_tcp_concurrency: runs of the socket calls, over rings that are lists.
use dpdk_learning.Base.{refl, some, [], ◌∷◌, arith}
use dpdk_learning.Net.State.{listen, established, Fragment, Stream, Stack}
use dpdk_learning.Net.Tcp.{ng_tcp_handle_listen}
use dpdk_learning.Net.TcpProcess.{data_fragment}
use dpdk_learning.Net.Socket.{get_hostinfo_fromfd, nclose}
use dpdk_learning.Net.Socket.Closing.{Closing, nclose-Closing}
use dpdk_learning.Net.Socket.HalfOpen.{Opened, ng_tcp_handle_listen-Opened}
use dpdk_learning.Net.SocketData.{nrecv}
use dpdk_learning.Net.SocketData.Delivery.{Delivers, nrecv-Delivers}
use dpdk_learning.Net.Tests.{list_rte, free_table-IsTable, stream_at, stack, segment, ip_header}

-- A listener, and a connection with five bytes to read.
abbrev five_bytes : Fragment
five_bytes = data_fragment 5000 80 (some (1 ∷ 2 ∷ 3 ∷ 4 ∷ 5 ∷ [])) 5

abbrev readable : Stream list_rte
readable = record (stream_at 20 (some 4) established 8 5000) { rcvbuf = some (five_bytes ∷ []) }

abbrev readable_stack : Stack list_rte
readable_stack = record stack { tcb_set = readable ∷ stream_at 10 (some 3) listen 0 0 ∷ [] }

-- Room for two bytes.
nrecv-Delivers_example :
    Delivers list_rte 2 five_bytes
      (1 ∷ 2 ∷ 3 ∷ 4 ∷ 5 ∷ [])
      []
      readable
      readable_stack
      (nrecv list_rte (some 4) 2 readable_stack)
unfolding get_hostinfo_fromfd
nrecv-Delivers_example =
    nrecv-Delivers list_rte (some 4) 2 five_bytes [] (1 ∷ 2 ∷ 3 ∷ 4 ∷ 5 ∷ []) (five_bytes ∷ [])
      readable readable_stack refl refl refl refl refl (omega arith)

nclose-Closing_example : Closing list_rte 4 readable [] 60 (nclose list_rte (some 4) readable_stack)
nclose-Closing_example =
    nclose-Closing list_rte 4 readable [] readable_stack (omega arith) free_table-IsTable refl refl
      refl refl (omega arith) refl

ng_tcp_handle_listen-Opened_example : Opened list_rte (segment 5001 0x02) ip_header readable_stack (
    ng_tcp_handle_listen list_rte
      (stream_at 10 (some 3) listen 0 0)
      (segment 5001 0x02)
      ip_header
      readable_stack)
ng_tcp_handle_listen-Opened_example =
    ng_tcp_handle_listen-Opened list_rte (stream_at 10 (some 3) listen 0 0) (segment 5001 0x02)
      ip_header readable_stack refl refl refl refl refl refl (omega arith)
