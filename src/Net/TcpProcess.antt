-- ===== src/Net/TcpProcess.antt =====
-- dpdk-code/14_tcp_concurrency/tcp_concurrency.c: an open TCP connection and its end, from
-- ng_tcp_enqueue_recvbuffer to ng_tcp_process.
pub mod Payload
pub mod Writes
pub mod Steps
pub mod Handlers
pub mod Transitions
pub mod Received
pub mod Delivered
pub mod Open
pub mod Sound
pub mod Opening
pub mod Runs
use dpdk_learning.Base.{
  ℕ, zero, suc, ◌+◌, ◌-◌, ◌*◌, ◌/◌, ◌%◌, ◌^◌, ◌≡◌, Bool, true, false, not, ◌&&◌, Option, none, some,
  List, [], ◌∷◌, ◌==◌, leb, ltb, if◌then◌else◌, bit_and, bit_or, length, take, drop,
}
use dpdk_learning.Base.Int.{ℤ, pos, negsuc, sub_ℕ, minus, add_int32}
use dpdk_learning.Net.Rte.{Rte}
use dpdk_learning.Net.State.{
  Run, crash, exit, wait, done, ◌>>=◌, Status, closed, listen, syn_rcvd, syn_sent, established,
  fin_wait_1, fin_wait_2, closing, time_wait, close_wait, last_ack, status_eq, Fragment, Stream,
  Stack, remove_stream, write_stream,
}
use dpdk_learning.Net.Tcp.{
  TcpHdr, IpHdr, has_flag, fin_flag, psh_flag, ack_flag, tcp_initial_window, push, control_fragment,
  ng_tcp_stream_search, ng_tcp_handle_listen, ng_tcp_handle_syn_rcvd, notify,
}

abbrev pub header_bytes : TcpHdr → ℕ
header_bytes hdr = hdr.data_off / 2 ^ 4 % 16 * 4

abbrev pub payload_len : TcpHdr → ℤ → ℤ
payload_len hdr tcplen = minus tcplen (header_bytes hdr)

abbrev pub data_fragment : ℕ → ℕ → Option (List ℕ) → ℕ → Fragment
data_fragment sport dport bytes n = record {
  sport = sport;
  dport = dport;
  seqnum = 0;
  acknum = 0;
  hdrlen_off = 0;
  tcp_flags = 0;
  windows = 0;
  tcp_urp = 0;
  optlen = 0;
  payload = bytes;
  len = n;
}

-- The return codes of `ng_tcp_process`: 0, -1 and -2.
pub data Code : Type 0 where
  processed bad_checksum no_stream : Code

module _ (rte : Rte) where
  open rte use {Ring, alloc, ntohl, ntohs}

  -- A fragment is put into the receive buffer.
  abbrev pub receive : Stream rte → Fragment → Stack rte → Run (Stream rte × Stack rte)
  receive s frag st = push rte s.rcvbuf frag >>= λ ring.
      let s' = record s { rcvbuf = some ring } in done (s', write_stream rte s' st)

  -- A fragment is put into the send buffer.
  abbrev pub queue : Stream rte → Fragment → Stack rte → Run (Stream rte × Stack rte)
  queue s frag st = push rte s.sndbuf frag >>= λ ring.
      let s' = record s { sndbuf = some ring } in done (s', write_stream rte s' st)

  -- The payload of `suc k` bytes is copied out of the packet; the memory for it is the second
  -- allocation. A copy past the end of the packet's buffer is a fault.
  unfoldable pub receive_payload :
      ℕ → TcpHdr → Stream rte → Stack rte → Run (Stream rte × Stack rte)
  receive_payload k hdr s st =
      let st' = record st { clock = st.clock + 2 } in
      if alloc (st.clock + 1)
      then (if leb (header_bytes hdr + suc k) (length hdr.segment)
          then receive s
              (data_fragment (ntohs hdr.src_port) (ntohs hdr.dst_port)
                (some (take (suc k) (drop (header_bytes hdr) hdr.segment))) (suc k))
              st'
          else crash)
      else done (s, st')

  -- The branches on the sign of the payload length: of a negative length nothing is copied, and the
  -- cleared fragment is queued.
  unfoldable pub receive_len : ℤ → TcpHdr → Stream rte → Stack rte → Run (Stream rte × Stack rte)
  receive_len (pos zero) hdr s st =
      receive s (data_fragment (ntohs hdr.src_port) (ntohs hdr.dst_port) none 0)
        (record st { clock = st.clock + 1 })
  receive_len (pos (suc k)) hdr s st = receive_payload k hdr s st
  receive_len (negsuc k) hdr s st =
      receive s (data_fragment (ntohs hdr.src_port) (ntohs hdr.dst_port) none 0)
        (record st { clock = st.clock + 1 })

  -- The return code is dropped by every caller; the stream is returned as it is left.
  unfoldable pub ng_tcp_enqueue_recvbuffer :
      Stream rte → TcpHdr → ℤ → Stack rte → Run (Stream rte × Stack rte)
  unfolding receive_len
  ng_tcp_enqueue_recvbuffer s hdr tcplen st =
      if alloc st.clock
      then receive_len (payload_len hdr tcplen) hdr s st
      else done (s, record st { clock = st.clock + 1 })

  unfoldable pub ng_tcp_send_ackpkt : Stream rte → TcpHdr → Stack rte → Run (Stream rte × Stack rte)
  ng_tcp_send_ackpkt s hdr st =
      let st' = record st { clock = st.clock + 1 } in
      if alloc st.clock
      then queue s (control_fragment rte hdr.dst_port hdr.src_port s.snd_nxt s.rcv_nxt ack_flag) st'
      else done (s, st')

  -- The numbers of a stream after `n` more bytes, and the acknowledgement that is sent.
  abbrev pub advance : ℤ → TcpHdr → Stream rte → Stream rte
  advance n hdr s = record s { rcv_nxt = add_int32 s.rcv_nxt n; snd_nxt = ntohl hdr.recv_ack }

  abbrev pub acknowledge : ℤ → TcpHdr → Stream rte × Stack rte → Run (Stream rte × Stack rte)
  acknowledge n hdr (s, st) =
      let s' = advance n hdr s in ng_tcp_send_ackpkt s' hdr (write_stream rte s' st)

  abbrev pub notify_stream : Stream rte × Stack rte → Run (Stream rte × Stack rte)
  notify_stream (s, st) = notify rte s.fd st >>= λ st'. done (s, st')

  -- The branch for PSH.
  unfoldable pub handle_psh : TcpHdr → ℤ → Stream rte × Stack rte → Run (Stream rte × Stack rte)
  handle_psh hdr tcplen (s, st) =
      if has_flag hdr.tcp_flags psh_flag
      then ng_tcp_enqueue_recvbuffer s hdr tcplen st
        >>= notify_stream
        >>= acknowledge (payload_len hdr tcplen) hdr
      else done (s, st)

  -- The branch for FIN. The call passes the length of the header in words for the length of the
  -- segment, so no byte is copied.
  unfoldable pub handle_fin : TcpHdr → Stream rte × Stack rte → Run (Stream rte × Stack rte)
  handle_fin hdr (s, st) =
      if has_flag hdr.tcp_flags fin_flag
      then (let s' = record s { status = close_wait } in
          ng_tcp_enqueue_recvbuffer s' hdr (pos (hdr.data_off / 2 ^ 4 % 16))
            (write_stream rte s' st)
          >>= notify_stream
          >>= acknowledge (pos 1) hdr)
      else done (s, st)

  unfoldable pub ng_tcp_handle_established : Stream rte → TcpHdr → ℤ → Stack rte → Run (Stack rte)
  ng_tcp_handle_established s hdr tcplen st =
      handle_psh hdr tcplen (s, st) >>= handle_fin hdr >>= λ r. done r.1

  unfoldable pub ng_tcp_handle_close_wait : Stream rte → TcpHdr → Stack rte → Stack rte
  ng_tcp_handle_close_wait s hdr st = st

  unfoldable pub ng_tcp_handle_last_ack : Stream rte → TcpHdr → Stack rte → Stack rte
  ng_tcp_handle_last_ack s hdr st =
      if has_flag hdr.tcp_flags ack_flag
      then (if status_eq s.status last_ack
          then record st { tcb_set = remove_stream rte s.ptr st.tcb_set }
          else st)
      else st

  -- The switch of `ng_tcp_process`.
  unfoldable pub dispatch : Status → Stream rte → TcpHdr → IpHdr → Stack rte → Run (Stack rte)
  dispatch listen s hdr ip st = ng_tcp_handle_listen rte s hdr ip st
  dispatch syn_rcvd s hdr ip st = ng_tcp_handle_syn_rcvd rte s hdr st
  dispatch established s hdr ip st = ng_tcp_handle_established s hdr (sub_ℕ ip.total_length 20) st
  dispatch close_wait s hdr ip st = done (ng_tcp_handle_close_wait s hdr st)
  dispatch last_ack s hdr ip st = done (ng_tcp_handle_last_ack s hdr st)
  dispatch closed s hdr ip st = done st
  dispatch syn_sent s hdr ip st = done st
  dispatch fin_wait_1 s hdr ip st = done st
  dispatch fin_wait_2 s hdr ip st = done st
  dispatch closing s hdr ip st = done st
  dispatch time_wait s hdr ip st = done st

  unfoldable pub ng_tcp_process : TcpHdr → IpHdr → Stack rte → Run (Code × Stack rte)
  ng_tcp_process hdr ip st =
      if hdr.cksum_ok
      then elim (ng_tcp_stream_search rte ip.src_addr ip.dst_addr hdr.src_port hdr.dst_port
          st.tcb_set) [
            | none ↦ done (no_stream, st)
            | some s ↦ dispatch s.status s hdr ip st >>= λ st'. done (processed, st')
          ]
      else done (bad_checksum, st)
