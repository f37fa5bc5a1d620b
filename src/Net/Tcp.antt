-- ===== src/Net/Tcp.antt =====
-- dpdk-code/14_tcp_concurrency/tcp_concurrency.c: the TCP side of packet processing, from
-- ng_tcp_stream_search to ng_tcp_process. A handler takes the stream as its table holds it, and
-- writes it back at its address.
use dpdk_learning.Base.{
  ℕ, ◌+◌, ◌%◌, ◌^◌, Bool, not, ◌&&◌, Option, none, some, List, [], ◌∷◌, ◌==◌, if◌then◌else◌,
  bit_and, bit_or,
}
use dpdk_learning.Net.Rte.{Rte, Fd}
use dpdk_learning.Net.State.{
  Run, crash, exit, done, ◌>>=◌, listen, syn_rcvd, established, status_eq, ipproto_tcp, Fragment,
  Stream, Stack, write_stream,
}
use dpdk_learning.Net.Epoll.{epoll_event_callback, epollin}

abbrev pub fin_flag : ℕ
fin_flag = 0x01

abbrev pub syn_flag : ℕ
syn_flag = 0x02

abbrev pub psh_flag : ℕ
psh_flag = 0x08

abbrev pub ack_flag : ℕ
ack_flag = 0x10

abbrev pub tcp_max_seq : ℕ
tcp_max_seq = 4294967295

abbrev pub tcp_initial_window : ℕ
tcp_initial_window = 14600

-- The part of `struct rte_tcp_hdr` that the handlers read. `segment` is the packet from the TCP
-- header on, to the end of the buffer. Words are as stored; `cksum_ok` says whether the checksum
-- computed by DPDK agrees with the one in the header.
pub record TcpHdr : Type 0 where
  pub src_port : ℕ
  pub dst_port : ℕ
  pub sent_seq : ℕ
  pub recv_ack : ℕ
  pub data_off : ℕ
  pub tcp_flags : ℕ
  pub cksum_ok : Bool
  pub segment : List ℕ

-- The part of `struct rte_ipv4_hdr` that is read: `total_length` is in host order here.
pub record IpHdr : Type 0 where
  pub src_addr : ℕ
  pub dst_addr : ℕ
  pub total_length : ℕ

abbrev pub has_flag : ℕ → ℕ → Bool
has_flag flags f = not (bit_and flags f == 0)

module _ (rte : Rte) where
  open rte use {Ring, ring_new, enqueue, alloc, ring_create, junk, rand, ntohl, ntohs}

  abbrev pub matches : ℕ → ℕ → ℕ → ℕ → Stream rte → Bool
  matches sip dip sport dport s =
      (s.sip == sip) && ((s.dip == dip) && ((s.sport == sport) && (s.dport == dport)))

  abbrev pub listens : ℕ → Stream rte → Bool
  listens dport s = (s.dport == dport) && status_eq s.status listen

  -- A walk along the table to the first stream that passes a test.
  abbrev pub first : (Stream rte → Bool) → List (Stream rte) → Option (Stream rte)
  first test [] = none
  first test (s ∷ ss) = if test s then some s else first test ss

  abbrev pub or_else : Option (Stream rte) → Option (Stream rte) → Option (Stream rte)
  or_else none b = b
  or_else (some s) b = some s

  -- The stream of the four addresses, or else the listener of the port.
  unfoldable pub ng_tcp_stream_search : ℕ → ℕ → ℕ → ℕ → List (Stream rte) → Option (Stream rte)
  ng_tcp_stream_search sip dip sport dport ss =
      or_else (first (matches sip dip sport dport) ss) (first (listens dport) ss)

  abbrev pub new_ring : ℕ → Option (Ring Fragment)
  new_ring n = if ring_create n then some ring_new else none

  -- The stream that `ng_tcp_stream_create` makes at address `n` when memory is to be had; its
  -- `rcv_nxt` is not set. The three calls of an allocator are the n-th and the next two.
  unfoldable pub ng_tcp_stream_create : ℕ → ℕ → ℕ → ℕ → ℕ → List ℕ → Option (Stream rte)
  ng_tcp_stream_create n sip dip sport dport mac =
      if alloc n
      then some (record {
        ptr = n;
        fd = none;
        dip = dip;
        localmac = mac;
        dport = dport;
        protocol = ipproto_tcp;
        sport = sport;
        sip = sip;
        snd_nxt = rand n % tcp_max_seq;
        rcv_nxt = junk n;
        status = listen;
        sndbuf = new_ring (n + 1);
        rcvbuf = new_ring (n + 2);
      })
      else none

  -- `rte_ring_mp_enqueue` on a ring that may be NULL.
  abbrev pub push : Option (Ring Fragment) → Fragment → Run (Ring Fragment)
  push none f = crash
  push (some r) f = done (enqueue r f)

  abbrev pub control_fragment : ℕ → ℕ → ℕ → ℕ → ℕ → Fragment
  control_fragment sport dport seq ack flags = record {
    sport = sport;
    dport = dport;
    seqnum = seq;
    acknum = ack;
    hdrlen_off = 0x50;
    tcp_flags = flags;
    windows = tcp_initial_window;
    tcp_urp = 0;
    optlen = 0;
    payload = none;
    len = 0;
  }

  -- The answer to a SYN: SYN and ACK, sent from the new stream.
  unfoldable pub answer_syn : TcpHdr → Stack rte → Stream rte → Run (Stack rte)
  answer_syn hdr st syn =
      let ack = (ntohl hdr.sent_seq + 1) % 2 ^ 32 in
      let frag =
        control_fragment hdr.dst_port hdr.src_port syn.snd_nxt ack (bit_or syn_flag ack_flag) in
      push syn.sndbuf frag >>= λ ring.
      done
        (write_stream rte (record syn { rcv_nxt = ack; sndbuf = some ring; status = syn_rcvd }) st)

  -- The new stream joins the table in front; the fragment is the fourth allocation. `LL_ADD`
  -- writes through the stream, so a NULL is a fault.
  unfoldable pub open_stream : TcpHdr → Stack rte → Option (Stream rte) → Run (Stack rte)
  open_stream hdr st none = crash
  open_stream hdr st (some syn) =
      let st' = record st { tcb_set = syn ∷ st.tcb_set; clock = st.clock + 4 } in
      if alloc (st.clock + 3) then answer_syn hdr st' syn else done st'

  unfoldable pub ng_tcp_handle_listen : Stream rte → TcpHdr → IpHdr → Stack rte → Run (Stack rte)
  ng_tcp_handle_listen stream hdr ip st =
      if has_flag hdr.tcp_flags syn_flag
      then (if status_eq stream.status listen
          then open_stream hdr st (
              ng_tcp_stream_create st.clock ip.src_addr ip.dst_addr hdr.src_port hdr.dst_port
                st.src_mac)
          else done st)
      else done st

  -- `epoll_event_callback(table->ep, …)`, where the event poll may be NULL. Its code is dropped.
  unfoldable pub notify : Fd → Stack rte → Run (Stack rte)
  notify fd st = elim st.ep [
    | none ↦ crash
    | some ep ↦ epoll_event_callback rte ep fd epollin >>= λ r. done (record st { ep = some r.1 })
  ]

  -- The listener of an established stream becomes readable. The search is by port alone: the
  -- other three keys are zero.
  unfoldable pub wake_listener : ℕ → Stack rte → Run (Stack rte)
  wake_listener dport st = elim (ng_tcp_stream_search 0 0 0 dport st.tcb_set) [
    | none ↦ exit
    | some listener ↦ notify listener.fd st
  ]

  -- The acknowledged number is compared, but nothing depends on the outcome.
  unfoldable pub ng_tcp_handle_syn_rcvd : Stream rte → TcpHdr → Stack rte → Run (Stack rte)
  ng_tcp_handle_syn_rcvd stream hdr st =
      if has_flag hdr.tcp_flags ack_flag
      then (if status_eq stream.status syn_rcvd
          then wake_listener stream.dport
              (write_stream rte (record stream { status = established }) st)
          else done st)
      else done st
