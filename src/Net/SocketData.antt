-- ===== src/Net/SocketData.antt =====
-- dpdk-code/14_tcp_concurrency/tcp_concurrency.c: the socket calls that move data, nsend, nrecv,
-- nsendto and nrecvfrom. A buffer of the caller is the list of its bytes, and what a call copies
-- into it is returned.
pub mod Delivery
pub mod Sending
use dpdk_learning.Base.{
  ℕ, ◌+◌, ◌-◌, ◌%◌, ◌^◌, not, ◌&&◌, Option, none, some, List, [], ◌==◌, ltb, if◌then◌else◌, take,
  drop, length, bit_or,
}
use dpdk_learning.Net.Rte.{Rte, Fd}
use dpdk_learning.Net.State.{
  Run, crash, wait, done, ◌>>=◌, Fragment, Offload, Stream, Host, Stack, write_stream,
}
use dpdk_learning.Net.Tcp.{push, ack_flag, psh_flag, tcp_initial_window}
use dpdk_learning.Net.Socket.{HostInfo, udp, tcp, poll, missing, get_hostinfo_fromfd, put_host}

module _ (rte : Rte) where
  open rte use {Ring, enqueue, dequeue, alloc, junk}

  -- The fragment of `nsend`.
  abbrev pub data_segment : Stream rte → List ℕ → Fragment
  data_segment s buf = record {
    sport = s.dport;
    dport = s.sport;
    seqnum = s.snd_nxt;
    acknum = s.rcv_nxt;
    hdrlen_off = 0x50;
    tcp_flags = bit_or ack_flag psh_flag;
    windows = tcp_initial_window;
    tcp_urp = 0;
    optlen = 0;
    payload = some buf;
    len = length buf % 2 ^ 32;
  }

  -- What a call returns: a length, -1 or -2.
  pub data Result : Type 0 where
    sent : ℕ → Result
    failed : Result
    no_memory : Result

  unfoldable pub send_stream : Stream rte → List ℕ → Stack rte → Run (Result × Stack rte)
  send_stream s buf st =
      if alloc st.clock
      then (if alloc (st.clock + 1)
          then push rte s.sndbuf (data_segment s buf) >>= (λ ring. done (
            sent (length buf % 2 ^ 32),
            write_stream rte (record s { sndbuf = some ring }) (record st { clock = st.clock + 2 }),
          ))
          else done (failed, record st { clock = st.clock + 2 }))
      else done (no_memory, record st { clock = st.clock + 1 })

  abbrev pub send_info : HostInfo rte → List ℕ → Stack rte → Run (Result × Stack rte)
  send_info missing buf st = done (failed, st)
  send_info (udp h) buf st = done (sent 0, st)
  send_info (tcp s) buf st = send_stream s buf st
  send_info (poll ep) buf st = crash

  -- Of a UDP socket nothing is sent, and 0 is returned.
  unfoldable pub nsend : Fd → List ℕ → Stack rte → Run (Result × Stack rte)
  unfolding send_stream
  nsend fd buf st = send_info (get_hostinfo_fromfd rte fd st) buf st

  -- The bytes that a fragment holds; a NULL holds none.
  abbrev pub bytes_of : Fragment → List ℕ
  bytes_of f = elim f.payload [ none ↦ [] | some bytes ↦ bytes ]

  -- What is left of a fragment behind its first `n` bytes: the C loop moves them to the front.
  abbrev pub rest_of : ℕ → Fragment → Fragment
  rest_of n f = record f { payload = some (drop n (bytes_of f)); len = f.len - n }

  -- A fragment has been taken out of the receive buffer. A longer one is shortened and queued again,
  -- behind the others, and the length that is left is returned.
  unfoldable pub receive_fragment :
      ℕ → Fragment → Ring Fragment → Stream rte → Stack rte → (ℕ × List ℕ) × Stack rte
  receive_fragment n f ring s st =
      if ltb n f.len
      then (
        (f.len - n, take n (bytes_of f)),
        write_stream rte (record s { rcvbuf = some (enqueue ring (rest_of n f)) }) st,
      )
      else if f.len == 0
      then ((0, []), write_stream rte (record s { rcvbuf = some ring }) st)
      else ((f.len, take f.len (bytes_of f)), write_stream rte (record s { rcvbuf = some ring }) st)

  abbrev pub receive_next :
      ℕ
      → Option (Fragment × Ring Fragment)
      → Stream rte
      → Stack rte
      → Run (Option (ℕ × List ℕ) × Stack rte)
  receive_next n none s st = wait
  receive_next n (some (f, ring)) s st =
      let r = receive_fragment n f ring s st in done (some r.0, r.1)

  abbrev pub receive_stream :
      ℕ → Option (Ring Fragment) → Stream rte → Stack rte → Run (Option (ℕ × List ℕ) × Stack rte)
  receive_stream n none s st = crash
  receive_stream n (some ring) s st = receive_next n (dequeue ring) s st

  abbrev pub receive_info : ℕ → HostInfo rte → Stack rte → Run (Option (ℕ × List ℕ) × Stack rte)
  receive_info n missing st = done (none, st)
  receive_info n (udp h) st = done (some (0, []), st)
  receive_info n (tcp s) st = receive_stream n s.rcvbuf s st
  receive_info n (poll ep) st = crash

  -- The length that is returned, with the bytes that are copied; `none` is -1.
  unfoldable pub nrecv : Fd → ℕ → Stack rte → Run (Option (ℕ × List ℕ) × Stack rte)
  unfolding receive_fragment
  nrecv fd n st = receive_info n (get_hostinfo_fromfd rte fd st) st

  -- The datagram of `nsendto`, in the uncleared memory of the n-th allocation: `protocol` is not
  -- set.
  abbrev pub datagram : ℕ → Host rte → ℕ → ℕ → List ℕ → Offload
  datagram n h ip port buf = record {
    sip = h.localip;
    dip = ip;
    sport = h.localport;
    dport = port;
    protocol = junk n;
    payload = buf;
    len = length buf % 2 ^ 16;
  }

  -- For no bytes no memory is to be had: the size that is asked for is zero.
  unfoldable pub send_datagram : Host rte → ℕ → ℕ → List ℕ → Stack rte → Result × Stack rte
  send_datagram h ip port buf st =
      let st' = record st { clock = st.clock + 2 } in
      if alloc st.clock
      then (if alloc (st.clock + 1) && not (length buf == 0)
          then (
            sent (length buf),
            record st' {
              lhost =
                  put_host rte
                    (record h { sndbuf = enqueue h.sndbuf (datagram st.clock h ip port buf) })
                    st.lhost;
            },
          )
          else (failed, st'))
      else (failed, record st { clock = st.clock + 1 })

  abbrev pub sendto_info : HostInfo rte → ℕ → ℕ → List ℕ → Stack rte → Run (Result × Stack rte)
  sendto_info missing ip port buf st = done (failed, st)
  sendto_info (udp h) ip port buf st = done (send_datagram h ip port buf st)
  sendto_info (tcp s) ip port buf st = crash
  sendto_info (poll ep) ip port buf st = crash

  -- The code takes every descriptor for a UDP socket; of another the memory is not one.
  unfoldable pub nsendto : Fd → List ℕ → ℕ → ℕ → Stack rte → Run (Result × Stack rte)
  nsendto fd buf ip port st = sendto_info (get_hostinfo_fromfd rte fd st) ip port buf st

  -- What `nrecvfrom` returns: a length, the bytes copied, and the peer's port and address.
  pub record Received : Type 0 where
    pub length_returned : ℕ
    pub copied : List ℕ
    pub peer_port : ℕ
    pub peer_ip : ℕ

  -- A datagram longer than the caller's buffer is shortened and queued again behind the others. The
  -- memory for the rest is taken without a test: where there is none the call is a fault.
  unfoldable pub receive_datagram :
      ℕ → Offload → Ring Offload → Host rte → Stack rte → Received × Stack rte
  receive_datagram n ol ring h st =
      if ltb n ol.len
      then (
        record {
          length_returned = n;
          copied = take n ol.payload;
          peer_port = ol.sport;
          peer_ip = ol.sip;
        },
        record st {
          lhost =
              put_host rte
                (record h {
                  rcvbuf =
                      enqueue ring (record ol { len = ol.len - n; payload = drop n ol.payload });
                })
                st.lhost;
        },
      )
      else (
        record {
          length_returned = ol.len;
          copied = take ol.len ol.payload;
          peer_port = ol.sport;
          peer_ip = ol.sip;
        },
        record st { lhost = put_host rte (record h { rcvbuf = ring }) st.lhost },
      )

  -- The code copies as many bytes as the length says: where it says more than there are, it reads past
  -- the end of their memory.
  abbrev pub recvfrom_next :
      ℕ → Option (Offload × Ring Offload) → Host rte → Stack rte → Run (Option Received × Stack rte)
  recvfrom_next n none h st = wait
  recvfrom_next n (some (ol, ring)) h st =
      let r = receive_datagram n ol ring h (record st { clock = st.clock + 1 }) in
      if ltb (length ol.payload) ol.len
      then crash
      else if ltb n ol.len && not (alloc st.clock)
      then crash
      else done (some r.0, r.1)

  abbrev pub recvfrom_info : ℕ → HostInfo rte → Stack rte → Run (Option Received × Stack rte)
  recvfrom_info n missing st = done (none, st)
  recvfrom_info n (udp h) st = recvfrom_next n (dequeue h.rcvbuf) h st
  recvfrom_info n (tcp s) st = crash
  recvfrom_info n (poll ep) st = crash

  unfoldable pub nrecvfrom : Fd → ℕ → Stack rte → Run (Option Received × Stack rte)
  unfolding receive_datagram
  nrecvfrom fd n st = recvfrom_info n (get_hostinfo_fromfd rte fd st) st
