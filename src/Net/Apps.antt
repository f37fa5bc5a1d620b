-- ===== src/Net/Apps.antt =====
-- dpdk-code/14_tcp_concurrency/tcp_concurrency.c: the two applications, udp_server_entry and the
-- tcp_server_entry of one event poll. The loop of each is made of rounds, and its buffer is handed
-- from one round to the next. Printing a buffer reads it up to a zero, and reading past its end is a
-- fault.
pub mod UdpOverrun
pub mod TcpEcho
pub mod HangUp
pub mod Reply
use dpdk_learning.Base.{
  ℕ, ◌+◌, Bool, true, false, Option, none, some, List, [], ◌∷◌, ◌++◌, ◌==◌, ltb, if◌then◌else◌,
  take, drop, length,
}
use dpdk_learning.Net.Rte.{Rte, Fd, fd_eq}
use dpdk_learning.Net.State.{Run, crash, exit, wait, done, ◌>>=◌, Stack}
use dpdk_learning.Net.Epoll.{
  CtlOp, ctl_add, ctl_del, Event, epollin, nepoll_create, nepoll_ctl, nepoll_wait, Poll,
}
use dpdk_learning.Net.Socket.{
  HostInfo, udp, tcp, poll, missing, get_hostinfo_fromfd, sock_dgram, sock_stream, nsocket, nbind,
  nlisten, naccept, nclose,
}
use dpdk_learning.Net.SocketData.{nsend, nrecv, nsendto, Received, nrecvfrom}

-- `UDP_APP_RECV_BUFFER_SIZE` and `BUFFER_SIZE`.
abbrev pub udp_app_recv_buffer_size : ℕ
udp_app_recv_buffer_size = 128

abbrev pub buffer_size : ℕ
buffer_size = 1024

-- A call has copied bytes to the front of a buffer.
abbrev pub overlay : List ℕ → List ℕ → List ℕ
overlay bytes buffer = bytes ++ drop (length bytes) buffer

-- The string that stands in a buffer, without its zero; `none` where no zero ends it.
abbrev pub text_of : List ℕ → Option (List ℕ)
text_of [] = none
text_of (x ∷ xs) =
    let rest = text_of xs in
    if x == 0 then some [] else elim rest [ none ↦ none | some text ↦ some (x ∷ text) ]

module _ (rte : Rte) where
  open rte use {ntohl, ntohs}

  -- 192.168.0.119, and the ports of the two servers.
  abbrev pub server_ip : ℕ
  server_ip = ntohl 3232235639

  -- What `udp_server_entry` does before its loop: `none` is the return code -1. What nbind returns is
  -- not looked at.
  unfoldable pub udp_server_start : Stack rte → Run (Fd × Stack rte)
  udp_server_start st =
      let r = nsocket rte sock_dgram st in
      if fd_eq r.0 none
      then done r
      else nbind rte r.0 server_ip (ntohs 8889) r.1 >>= λ b. done (r.0, b.1)

  -- A datagram has been copied into the buffer: its text is sent back to the peer.
  abbrev pub echo_text :
      Fd → List ℕ → Received rte → Option (List ℕ) → Stack rte → Run (List ℕ × Stack rte)
  echo_text fd buffer r none st = crash
  echo_text fd buffer r (some text) st =
      nsendto rte fd text r.peer_ip r.peer_port st >>= λ x. done (buffer, x.1)

  abbrev pub echo_datagram :
      Fd → List ℕ → Option (Received rte) → Stack rte → Run (List ℕ × Stack rte)
  echo_datagram fd buffer none st = done (buffer, st)
  echo_datagram fd buffer (some r) st =
      let buffer' = overlay r.copied buffer in echo_text fd buffer' r (text_of buffer') st

  -- A round of the loop of `udp_server_entry`.
  unfoldable pub udp_server_round : Fd → List ℕ → Stack rte → Run (List ℕ × Stack rte)
  udp_server_round fd buffer st =
      nrecvfrom rte fd udp_app_recv_buffer_size st >>= λ r. echo_datagram fd buffer r.0 r.1

  -- `nepoll_ctl` by the descriptor of the event poll. A socket in its place is other memory.
  abbrev pub ctl_info :
      HostInfo rte → CtlOp → Fd → Option Event → Stack rte → Run (Bool × Stack rte)
  ctl_info missing op sockid ev st = done (false, st)
  ctl_info (poll ep) op sockid ev st = nepoll_ctl rte st.clock op sockid ev ep >>= λ r.
      done (r.0, record st { ep = some r.1; clock = st.clock + 1 })
  ctl_info (udp h) op sockid ev st = crash
  ctl_info (tcp s) op sockid ev st = crash

  unfoldable pub poll_ctl : Fd → CtlOp → Fd → Option Event → Stack rte → Run (Bool × Stack rte)
  poll_ctl epfd op sockid ev st = ctl_info (get_hostinfo_fromfd rte epfd st) op sockid ev st

  -- A descriptor is added to the event poll, for input.
  abbrev pub watch_fd : Fd → Fd → Stack rte → Run (Bool × Stack rte)
  watch_fd epfd fd st = poll_ctl epfd ctl_add fd (some (record { events = epollin; ev_fd = fd })) st

  -- What `tcp_server_entry` does before its loop, with the descriptors of its listener and of its
  -- event poll: a listener of -1 is the return code -1. No other return code is looked at.
  unfoldable pub tcp_server_start : Stack rte → Run ((Fd × Fd) × Stack rte)
  tcp_server_start st =
      let r = nsocket rte sock_stream st in
      if fd_eq r.0 none
      then done ((none, none), r.1)
      else nbind rte r.0 (ntohl 0) (ntohs 9999) r.1 >>= λ b. nlisten rte r.0 b.1 >>= λ l.
          let e = nepoll_create rte 1 l.1 in watch_fd e.0 r.0 e.1 >>= λ w. done ((r.0, e.0), w.1)

  -- The listener is readable: a connection is accepted and watched. The descriptor is -1 where
  -- none is accepted.
  abbrev pub accepted_fd : Option (Fd × ℕ × ℕ) → Fd
  accepted_fd none = none
  accepted_fd (some peer) = peer.0

  unfoldable pub serve_listener : Fd → Fd → Stack rte → Run (Stack rte)
  serve_listener listenfd epfd st =
      naccept rte listenfd st >>= λ a. watch_fd epfd (accepted_fd a.0) a.1 >>= λ w. done w.1

  -- The connection is no longer watched, and closed.
  unfoldable pub hang_up : Fd → Fd → Stack rte → Run (Stack rte)
  hang_up epfd fd st = poll_ctl epfd ctl_del fd none st >>= λ d. nclose rte fd d.1 >>= λ c. done c.1

  -- `n` is positive: the buffer is printed, and `n` bytes of it are sent.
  abbrev pub echo_bytes : Fd → ℕ → List ℕ → Option (List ℕ) → Stack rte → Run (List ℕ × Stack rte)
  echo_bytes fd n buff none st = crash
  echo_bytes fd n buff (some text) st =
      if ltb (length buff) n then crash else nsend rte fd (take n buff) st >>= λ x. done (buff, x.1)

  abbrev pub echo_received :
      Fd → Fd → List ℕ → Option (ℕ × List ℕ) → Stack rte → Run (List ℕ × Stack rte)
  echo_received epfd fd buff none st = hang_up epfd fd st >>= λ st'. done (buff, st')
  echo_received epfd fd buff (some (n, bytes)) st =
      let buff' = overlay bytes buff in
      if n == 0
      then (hang_up epfd fd st >>= λ st'. done (buff', st'))
      else echo_bytes fd n buff' (text_of buff') st

  -- A connection is readable.
  unfoldable pub serve_client : Fd → Fd → List ℕ → Stack rte → Run (List ℕ × Stack rte)
  serve_client epfd fd buff st =
      nrecv rte fd buffer_size st >>= λ r. echo_received epfd fd buff r.0 r.1

  unfoldable pub serve_event : Fd → Fd → Event → List ℕ → Stack rte → Run (List ℕ × Stack rte)
  serve_event listenfd epfd ev buff st =
      if fd_eq listenfd ev.ev_fd
      then (serve_listener listenfd epfd st >>= λ st'. done (buff, st'))
      else serve_client epfd ev.ev_fd buff st

  -- The loop over the events that are ready.
  abbrev pub serve_events : Fd → Fd → List Event → List ℕ → Stack rte → Run (List ℕ × Stack rte)
  serve_events listenfd epfd [] buff st = done (buff, st)
  serve_events listenfd epfd (ev ∷ evs) buff st =
      serve_event listenfd epfd ev buff st >>= λ r. serve_events listenfd epfd evs r.0 r.1

  abbrev pub serve_ready :
      Fd → Fd → List ℕ → Stack rte → Option (List Event) × Poll rte → Run (List ℕ × Stack rte)
  serve_ready listenfd epfd buff st (none, ep) = done (buff, record st { ep = some ep })
  serve_ready listenfd epfd buff st (some evs, ep) =
      serve_events listenfd epfd evs buff (record st { ep = some ep })

  abbrev pub round_info : HostInfo rte → Fd → Fd → List ℕ → Stack rte → Run (List ℕ × Stack rte)
  round_info missing listenfd epfd buff st = done (buff, st)
  round_info (poll ep) listenfd epfd buff st =
      nepoll_wait rte 128 false ep >>= λ r. serve_ready listenfd epfd buff st r
  round_info (udp h) listenfd epfd buff st = crash
  round_info (tcp s) listenfd epfd buff st = crash

  -- A round of the loop of `tcp_server_entry`, from the state in which the wait of five milliseconds
  -- ended.
  unfoldable pub tcp_server_round : Fd → Fd → List ℕ → Stack rte → Run (List ℕ × Stack rte)
  tcp_server_round listenfd epfd buff st =
      round_info (get_hostinfo_fromfd rte epfd st) listenfd epfd buff st
