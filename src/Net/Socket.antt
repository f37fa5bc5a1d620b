-- ===== src/Net/Socket.antt =====
-- dpdk-code/14_tcp_concurrency/tcp_concurrency.c: the socket calls of the stack that make, bind,
-- accept and close a socket, and the lookups by descriptor. A call that waits for a signal comes
-- to `wait`, and is made again when the state has changed.
pub mod Closing
pub mod HalfOpen
pub mod Lookup
use dpdk_learning.Base.{
  ℕ, ◌+◌, Bool, true, false, ◌&&◌, Option, none, some, List, [], ◌∷◌, ◌==◌, if◌then◌else◌,
}
use dpdk_learning.Net.Rte.{Rte, Fd, fd_eq}
use dpdk_learning.Net.State.{
  Run, crash, wait, done, ◌>>=◌, closed, listen, last_ack, status_eq, ipproto_tcp, ipproto_udp,
  Fragment, Stream, Host, EventPoll, Stack, remove_stream, write_stream,
}
use dpdk_learning.Net.FdTable.{get_fd_frombitmap}
use dpdk_learning.Net.Epoll.{release_fd}
use dpdk_learning.Net.Tcp.{first, push, fin_flag, ack_flag, tcp_initial_window}
use dpdk_learning.Base.{bit_or}

pub data SocketType : Type 0 where
  sock_dgram sock_stream sock_other : SocketType

module _ (rte : Rte) where
  open rte use {Ring, ring_new, enqueue, dequeue, alloc, ring_create, junk}

  -- What `get_hostinfo_fromfd` finds.
  pub data HostInfo : Type 0 where
    udp : Host rte → HostInfo
    tcp : Stream rte → HostInfo
    poll : EventPoll rte → HostInfo
    missing : HostInfo

  abbrev pub first_host : (Host rte → Bool) → List (Host rte) → Option (Host rte)
  first_host test [] = none
  first_host test (h ∷ hs) = if test h then some h else first_host test hs

  abbrev pub poll_info : Fd → Option (EventPoll rte) → HostInfo
  poll_info fd none = missing
  poll_info fd (some ep) = if fd_eq ep.fd fd then poll ep else missing

  abbrev pub tcp_info : Fd → Stack rte → Option (Stream rte) → HostInfo
  tcp_info fd st none = poll_info fd st.ep
  tcp_info fd st (some s) = tcp s

  abbrev pub udp_info : Fd → Stack rte → Option (Host rte) → HostInfo
  udp_info fd st none = tcp_info fd st (first rte (λ s. fd_eq fd s.fd) st.tcb_set)
  udp_info fd st (some h) = udp h

  -- UDP sockets first, then TCP streams, then the event poll.
  unfoldable pub get_hostinfo_fromfd : Fd → Stack rte → HostInfo
  get_hostinfo_fromfd fd st = udp_info fd st (first_host (λ h. fd_eq fd h.fd) st.lhost)

  unfoldable pub get_hostinfo_fromip_port : ℕ → ℕ → ℕ → Stack rte → Option (Host rte)
  get_hostinfo_fromip_port dip port proto st =
      first_host (λ h. (dip == h.localip) && ((port == h.localport) && (proto == h.protocol)))
        st.lhost

  abbrev pub acceptable : ℕ → Stream rte → Bool
  acceptable dport s = (dport == s.dport) && fd_eq s.fd none

  -- The first stream of the port that has no descriptor.
  unfoldable pub get_accept_tcb : ℕ → Stack rte → Option (Stream rte)
  get_accept_tcb dport st = first rte (acceptable dport) st.tcb_set

  -- The cleared host and stream of `nsocket`, at address `n`.
  abbrev pub new_host : ℕ → Fd → Host rte
  new_host n fd = record {
    ptr = n;
    fd = fd;
    localip = 0;
    localmac = [];
    localport = 0;
    protocol = ipproto_udp;
    sndbuf = ring_new;
    rcvbuf = ring_new;
  }

  abbrev pub new_stream : ℕ → Fd → Stream rte
  new_stream n fd = record {
    ptr = n;
    fd = fd;
    dip = 0;
    localmac = [];
    dport = 0;
    protocol = ipproto_tcp;
    sport = 0;
    sip = 0;
    snd_nxt = 0;
    rcv_nxt = 0;
    status = closed;
    sndbuf = some ring_new;
    rcvbuf = some ring_new;
  }

  -- The memory of the socket and its two rings: the n-th allocation and the next two.
  abbrev pub has_memory : ℕ → Bool
  has_memory n = alloc n && (ring_create (n + 1) && ring_create (n + 2))

  abbrev pub add_socket : SocketType → ℕ → Fd → Stack rte → Fd × Stack rte
  add_socket sock_dgram n fd st =
      if has_memory n then (fd, record st { lhost = new_host n fd ∷ st.lhost }) else (none, st)
  add_socket sock_stream n fd st =
      if has_memory n
      then (fd, record st { tcb_set = new_stream n fd ∷ st.tcb_set })
      else (none, st)
  add_socket sock_other n fd st = (fd, st)

  -- The descriptor is taken before the memory, and not given back where there is none.
  unfoldable pub nsocket : SocketType → Stack rte → Fd × Stack rte
  nsocket type st =
      let (fd, table) = get_fd_frombitmap st.fd_table in
      add_socket type st.clock fd (record st { fd_table = table; clock = st.clock + 3 })

  abbrev pub put_host : Host rte → List (Host rte) → List (Host rte)
  put_host h' [] = []
  put_host h' (h ∷ hs) = (if h.ptr == h'.ptr then h' else h) ∷ put_host h' hs

  abbrev pub remove_host : ℕ → List (Host rte) → List (Host rte)
  remove_host p [] = []
  remove_host p (h ∷ hs) = if h.ptr == p then hs else h ∷ remove_host p hs

  abbrev pub bind_stream : ℕ → ℕ → List ℕ → Stream rte → Stream rte
  bind_stream ip port mac s = record s { dport = port; dip = ip; localmac = mac; status = closed }

  abbrev pub bind_info : HostInfo → ℕ → ℕ → Stack rte → Run (Bool × Stack rte)
  bind_info missing ip port st = done (false, st)
  bind_info (udp h) ip port st =
      let h' = record h { localport = port; localip = ip; localmac = st.src_mac } in
      done (true, record st { lhost = put_host h' st.lhost })
  bind_info (tcp s) ip port st = done (true, write_stream rte (bind_stream ip port st.src_mac s) st)
  bind_info (poll ep) ip port st = crash

  -- The code reads the protocol through a `struct localhost` before it knows what the descriptor
  -- is; of the event poll that is other memory, which is a fault here.
  unfoldable pub nbind : Fd → ℕ → ℕ → Stack rte → Run (Bool × Stack rte)
  nbind fd ip port st = bind_info (get_hostinfo_fromfd fd st) ip port st

  abbrev pub listen_info : HostInfo → Stack rte → Run (Bool × Stack rte)
  listen_info missing st = done (false, st)
  listen_info (udp h) st = done (true, st)
  listen_info (tcp s) st = done (true, write_stream rte (record s { status = listen }) st)
  listen_info (poll ep) st = crash

  unfoldable pub nlisten : Fd → Stack rte → Run (Bool × Stack rte)
  nlisten fd st = listen_info (get_hostinfo_fromfd fd st) st

  -- The stream that is accepted is given a descriptor; the peer's port and address are returned.
  abbrev pub accept_stream : Option (Stream rte) → Stack rte → Run (Option (Fd × ℕ × ℕ) × Stack rte)
  accept_stream none st = wait
  accept_stream (some apt) st =
      let (fd, table) = get_fd_frombitmap st.fd_table in
      done (
        some (fd, apt.sport, apt.sip),
        write_stream rte (record apt { fd = fd }) (record st { fd_table = table }),
      )

  abbrev pub accept_info : HostInfo → Stack rte → Run (Option (Fd × ℕ × ℕ) × Stack rte)
  accept_info missing st = done (none, st)
  accept_info (udp h) st = done (none, st)
  accept_info (tcp s) st = accept_stream (get_accept_tcb s.dport st) st
  accept_info (poll ep) st = crash

  -- `none` is the return code -1 for a descriptor that is not a TCP socket.
  unfoldable pub naccept : Fd → Stack rte → Run (Option (Fd × ℕ × ℕ) × Stack rte)
  naccept fd st = accept_info (get_hostinfo_fromfd fd st) st

  -- The FIN of `nclose`, in uncleared memory: `optlen` and `tcp_urp` are not set.
  abbrev pub fin_fragment : ℕ → Stream rte → Fragment
  fin_fragment n s = record {
    sport = s.dport;
    dport = s.sport;
    seqnum = s.snd_nxt;
    acknum = s.rcv_nxt;
    hdrlen_off = 0x50;
    tcp_flags = bit_or fin_flag ack_flag;
    windows = tcp_initial_window;
    tcp_urp = junk n;
    optlen = junk n;
    payload = none;
    len = 0;
  }

  -- A stream that does not listen is sent a FIN and awaits the last acknowledgement; its
  -- descriptor is given back at once. A listener is taken out of the table, and its descriptor is
  -- not given back.
  unfoldable pub close_stream : Fd → Stream rte → Stack rte → Run (Bool × Stack rte)
  close_stream fd s st =
      if status_eq s.status listen
      then done (true, record st { tcb_set = remove_stream rte s.ptr st.tcb_set })
      else if alloc st.clock
      then push rte s.sndbuf (fin_fragment st.clock s) >>= (λ ring. done (
        true,
        write_stream rte (record s { sndbuf = some ring; status = last_ack })
            (record st { fd_table = release_fd rte fd st.fd_table; clock = st.clock + 1 }),
      ))
      else done (false, record st { clock = st.clock + 1 })

  abbrev pub close_info : Fd → HostInfo → Stack rte → Run (Bool × Stack rte)
  close_info fd missing st = done (false, st)
  close_info fd (udp h) st = done (
    true,
    record st { lhost = remove_host h.ptr st.lhost; fd_table = release_fd rte fd st.fd_table },
  )
  close_info fd (tcp s) st = close_stream fd s st
  close_info fd (poll ep) st = crash

  unfoldable pub nclose : Fd → Stack rte → Run (Bool × Stack rte)
  unfolding close_stream
  nclose fd st = close_info fd (get_hostinfo_fromfd fd st) st
