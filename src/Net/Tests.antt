-- ===== src/Net/Tests.antt =====
-- dpdk-code/14_tcp_concurrency: runs of the stack on small tables, over rings that are lists.
use dpdk_learning.Base.{
  ◌%◌, ◌^◌, ◌<◌, length, ℕ, zero, suc, ◌+◌, ◌≡◌, refl, Bool, true, false, Option, none, some, List,
  [], ◌∷◌, ◌++◌, arith, ◌==◌, if◌then◌else◌, take, drop, get_or,
}
use dpdk_learning.Base.Int.{pos}
use dpdk_learning.Net.Rte.{Fd, fd_eq, Rte}
use dpdk_learning.Net.State.{Status, listen, established, EpItem, Stream, Stack}
use dpdk_learning.Net.FdTable.{get_fd_frombitmap}
use dpdk_learning.Net.FdTable.Bitmap.{IsTable, Got, get_fd_frombitmap-Got}
use dpdk_learning.Net.Arp.{ArpTable, ng_get_dst_macaddr, ng_arp_entry_insert}
use dpdk_learning.Net.Arp.Table.{IsArpTable, else_mac, ng_get_dst_macaddr-insert}
use dpdk_learning.Net.Epoll.{Poll, epollin, epoll_event_callback, nepoll_wait}
use dpdk_learning.Net.Epoll.Ready.{IsValid, Called, epoll_event_callback-Called}
use dpdk_learning.Net.Epoll.Wait.{Waited, nepoll_wait-Waited}
use dpdk_learning.Net.Tcp.{TcpHdr, IpHdr, ng_tcp_stream_search}
use dpdk_learning.Net.TcpProcess.{ng_tcp_handle_established, ng_tcp_process}
use dpdk_learning.Net.TcpProcess.Writes.{
  Written, established_view, view, ng_tcp_handle_established-Written,
}
use dpdk_learning.Net.TcpProcess.Transitions.{Processed, ng_tcp_process-Processed}

abbrev pub list_items : {A : Type 0} → List A → List A
list_items xs = xs

abbrev pub list_enqueue : {A : Type 0} → List A → A → List A
list_enqueue xs x = xs ++ (x ∷ [])

abbrev pub list_dequeue : {A : Type 0} → List A → Option (A × List A)
list_dequeue [] = none
list_dequeue (x ∷ xs) = some (x, xs)

pub list_dequeue_nil : {A : Type 0} (r : List A) → list_items r ≡ [] → list_dequeue r ≡ none
list_dequeue_nil r e = rw e refl

pub list_dequeue_cons :
    {A : Type 0} (r : List A) (x : A) (xs : List A)
    → list_items r ≡ x ∷ xs
    → (r' : List A) × (list_dequeue r ≡ some (x, r')) × (list_items r' ≡ xs)
list_dequeue_cons r x xs e = (xs, rw e refl, refl)

pub four_below : 4660 < 2 ^ 16
four_below = omega arith

pub length-mod : (l : List ℕ) → length l % 2 ^ 16 < 2 ^ 16
length-mod l = omega arith

-- Rings are lists, trees are functions, and every allocation succeeds and is cleared.
abbrev pub list_rte : Rte
list_rte = record {
  Ring = List;
  room = 1023;
  items = list_items;
  ring_new = [];
  enqueue = list_enqueue;
  dequeue = list_dequeue;
  items-ring_new = refl;
  items-enqueue = λ r x h. refl;
  dequeue_nil = list_dequeue_nil;
  dequeue_cons = list_dequeue_cons;
  enqueue_burst = λ xs ys. xs ++ ys;
  dequeue_burst = λ xs n. (take n xs, drop n xs);
  items-enqueue_burst = λ r xs h. refl;
  dequeue_burst-take = λ r n. refl;
  items-dequeue_burst = λ r n. refl;
  Tree = Fd → Option ℕ;
  rb_init = λ k. none;
  rb_find = λ t k. t k;
  rb_insert = λ t k p j. if fd_eq k j then some p else t j;
  rb_find-init = λ k. refl;
  rb_find-insert = λ t k j p e. refl;
  alloc = λ n. true;
  ring_create = λ n. true;
  junk = λ n. 0;
  rand = λ n. 7000 + n;
  ntohl = λ n. n;
  ntohs = λ n. n;
  ntohl-ntohl = λ w h. refl;
  ntohs-ntohs = λ w h. refl;
  ntohl-lt = λ w h. h;
  ntohs-lt = λ w h. h;
  ip_cksum = λ h. 4660;
  l4_cksum = λ h l. length l % 2 ^ 16;
  ip_cksum-lt = λ h. four_below;
  l4_cksum-lt = λ h l. length-mod l;
  mbuf_byte = λ n i. 0;
}

abbrev pub zeros : ℕ → List ℕ
zeros zero = []
zeros (suc n) = 0 ∷ zeros n

get_or-zeros : (n i : ℕ) → get_or (zeros n) i 0 ≡ 0
get_or-zeros zero i = refl
get_or-zeros (suc n) zero = refl
get_or-zeros (suc n) (suc i) = get_or-zeros n i

-- The table in which no descriptor is taken.
abbrev pub free_table : List ℕ
free_table = zeros 128

pub free_table-IsTable : IsTable free_table
free_table-IsTable = record {
  covers = omega arith;
  bytes = λ i. rw (get_or-zeros 128 i) (omega arith);
}

get_fd_frombitmap-Got_example : Got free_table 3 1024 (get_fd_frombitmap free_table)
get_fd_frombitmap-Got_example = get_fd_frombitmap-Got free_table free_table-IsTable

abbrev pub mac : List ℕ
mac = 2 ∷ 0 ∷ 0 ∷ 0 ∷ 0 ∷ 9 ∷ []

abbrev pub arp_table : ArpTable
arp_table = record { entries = []; count = 0 }

arp_table-IsArpTable : IsArpTable arp_table
arp_table-IsArpTable = record { counted = refl; unique = refl }

-- An item for descriptor 4 at address 40, which is ready, or not.
abbrev pub poll_with : Bool → Poll list_rte
poll_with ready = record {
  fd = some 3;
  rbr = λ k. if fd_eq (some 4) k then some 40 else none;
  rbcnt = 1;
  rdlist = if ready then 40 ∷ [] else [];
  rdnum = if ready then 1 else 0;
  items = λ p.
      if p == 40
      then some (record { rdy = ready; sockfd = some 4; events = epollin; ev_fd = some 4 })
      else none;
}

abbrev pub item_4 : EpItem
item_4 = record { rdy = false; sockfd = some 4; events = epollin; ev_fd = some 4 }

idle_IsValid : IsValid list_rte (poll_with false)
idle_IsValid = record { counted = refl; listed = tt; complete = λ p r. ground (arith, r) }

ready_IsValid : IsValid list_rte (poll_with true)
ready_IsValid = record {
  counted = refl;
  listed = (refl, refl, tt);
  complete = λ p r. ground (arith, r);
}

epoll_event_callback-Called_example :
    Called list_rte 40 (epoll_event_callback list_rte (poll_with false) (some 4) epollin)
epoll_event_callback-Called_example =
    epoll_event_callback-Called list_rte (poll_with false) (some 4) epollin 40 item_4 refl refl
      idle_IsValid

nepoll_wait-Waited_example :
    Waited list_rte 5 true (poll_with true) (nepoll_wait list_rte 5 true (poll_with true))
nepoll_wait-Waited_example = nepoll_wait-Waited list_rte 5 true (poll_with true) ready_IsValid

abbrev pub stream_at : ℕ → Fd → Status → ℕ → ℕ → Stream list_rte
stream_at p fd st sip sport = record {
  ptr = p;
  fd = fd;
  dip = if sip == 0 then 0 else 9;
  localmac = mac;
  dport = 80;
  protocol = 6;
  sport = sport;
  sip = sip;
  snd_nxt = 100;
  rcv_nxt = 200;
  status = st;
  sndbuf = some [];
  rcvbuf = some [];
}

-- A listener on port 80, and a connection to it.
abbrev pub streams : List (Stream list_rte)
streams = stream_at 20 (some 4) established 8 5000 ∷ stream_at 10 (some 3) listen 0 0 ∷ []

abbrev pub stack : Stack list_rte
stack = record {
  lhost = [];
  tcb_set = streams;
  ep = some (poll_with false);
  fd_table = free_table;
  src_mac = mac;
  clock = 60;
}

abbrev pub segment : ℕ → ℕ → TcpHdr
segment sport flags = record {
  src_port = sport;
  dst_port = 80;
  sent_seq = 300;
  recv_ack = 101;
  data_off = 0x50;
  tcp_flags = flags;
  cksum_ok = true;
  segment = zeros 20 ++ (1 ∷ 2 ∷ 3 ∷ []);
}

abbrev pub ip_header : IpHdr
ip_header = record { src_addr = 8; dst_addr = 9; total_length = 43 }

-- Data and a FIN for the connection.
ng_tcp_handle_established-Written_example :
    Written list_rte streams
      (established_view list_rte streams
        (segment 5000 0x19)
        (pos 23)
        (view list_rte (stream_at 20 (some 4) established 8 5000)))
      (ng_tcp_handle_established list_rte
        (stream_at 20 (some 4) established 8 5000)
        (segment 5000 0x19)
        (pos 23)
        stack)
ng_tcp_handle_established-Written_example =
    ng_tcp_handle_established-Written list_rte streams (segment 5000 0x19) (pos 23)
      (stream_at 20 (some 4) established 8 5000) stack refl

ng_tcp_process-Processed_example :
    Processed list_rte true
      (ng_tcp_stream_search list_rte 8 9 5000 80 streams)
      stack
      (ng_tcp_process list_rte (segment 5000 0x19) ip_header stack)
ng_tcp_process-Processed_example =
    ng_tcp_process-Processed list_rte (segment 5000 0x19) ip_header stack refl refl

ng_get_dst_macaddr-insert_example :
    ng_get_dst_macaddr (ng_arp_entry_insert true 77 mac arp_table).1 77 ≡ (
      if 77 == 77
      then some (else_mac (ng_get_dst_macaddr arp_table 77) (take 6 mac))
      else ng_get_dst_macaddr arp_table 77)
ng_get_dst_macaddr-insert_example = ng_get_dst_macaddr-insert 77 77 mac arp_table
