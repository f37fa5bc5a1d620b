-- ===== src/Net/TcpProcess/Received.antt =====
-- dpdk-code/14_tcp_concurrency/tcp_concurrency.c: a segment with data through ng_tcp_process, to the
-- receive buffer, the ready list and the acknowledgement.
use dpdk_learning.Base.{
  leb-true, ℕ, suc, ◌+◌, ◌%◌, ◌^◌, ◌≤◌, ◌<◌, ◌≡◌, refl, true, false, Option, some, take, drop,
  length,
}
use dpdk_learning.Base.Int.{pos, sub_ℕ, ℤ}
use dpdk_learning.Net.Rte.{Rte}
use dpdk_learning.Net.State.{
  done, Status, established, EpItem, EventPoll, Fragment, Stream, Stack, put_stream, write_stream,
}
use dpdk_learning.Net.Epoll.{epoll_event_callback, epollin}
use dpdk_learning.Net.Epoll.Ready.{IsValid}
use dpdk_learning.Net.Tcp.{
  TcpHdr, IpHdr, has_flag, psh_flag, fin_flag, ack_flag, control_fragment, ng_tcp_stream_search,
  notify,
}
use dpdk_learning.Net.TcpProcess.{
  header_bytes, payload_len, data_fragment, processed, receive_len, receive_payload,
  ng_tcp_enqueue_recvbuffer, ng_tcp_send_ackpkt, acknowledge, notify_stream, handle_psh, handle_fin,
  ng_tcp_handle_established, dispatch, ng_tcp_process,
}

module _ (rte : Rte) where
  -- The fragment that holds the payload of a segment.
  abbrev pub payload_of : TcpHdr → ℕ → Fragment
  payload_of hdr k =
      data_fragment (rte.ntohs hdr.src_port) (rte.ntohs hdr.dst_port)
        (some (take (suc k) (drop (header_bytes hdr) hdr.segment))) (suc k)

  -- The acknowledgement of a stream with these numbers.
  abbrev pub ack_of : TcpHdr → ℕ → ℕ → Fragment
  ack_of hdr snd rcv = control_fragment rte hdr.dst_port hdr.src_port snd rcv ack_flag

  abbrev pub stored_stream : rte.Ring Fragment → TcpHdr → ℕ → Stream rte → Stream rte
  stored_stream r hdr k s = record s { rcvbuf = some (rte.enqueue r (payload_of hdr k)) }

  enqueue-payload :
      (s : Stream rte) (hdr : TcpHdr) (tcplen : ℤ) (k : ℕ) (r : rte.Ring Fragment) (st : Stack rte)
      → payload_len hdr tcplen ≡ pos (suc k)
      → header_bytes hdr + suc k ≤ length hdr.segment
      → s.rcvbuf ≡ some r
      → rte.alloc st.clock ≡ true
      → rte.alloc (st.clock + 1) ≡ true
      → ng_tcp_enqueue_recvbuffer rte s hdr tcplen st
        ≡ done (
          stored_stream r hdr k s,
          write_stream rte (stored_stream r hdr k s) (record st { clock = st.clock + 2 }),
        )
  unfolding ng_tcp_enqueue_recvbuffer receive_len receive_payload
  enqueue-payload s hdr tcplen k r st p within b a a' =
      rw
        (
          a,
          p,
          receive_len,
          receive_payload,
          a',
          leb-true (header_bytes hdr + suc k) (length hdr.segment) within,
          b,
        )
        refl

  notify_stream-done :
      (s : Stream rte) (st : Stack rte) (ep ep' : EventPoll rte) (code : Option ℕ)
      → st.ep ≡ some ep
      → epoll_event_callback rte ep s.fd epollin ≡ done (code, ep')
      → notify_stream rte (s, st) ≡ done (s, record st { ep = some ep' })
  unfolding notify
  notify_stream-done s st ep ep' code e c = rw (e, notify, c) refl

  -- The stream with its numbers moved, and its acknowledgement queued.
  abbrev pub acked_stream : rte.Ring Fragment → TcpHdr → ℕ → Stream rte → Stream rte
  acked_stream q hdr n s = record s {
    rcv_nxt = (s.rcv_nxt + n) % 2 ^ 32;
    snd_nxt = rte.ntohl hdr.recv_ack;
    sndbuf = some (rte.enqueue q (ack_of hdr (rte.ntohl hdr.recv_ack) ((s.rcv_nxt + n) % 2 ^ 32)));
  }

  abbrev pub moved_stream : TcpHdr → ℕ → Stream rte → Stream rte
  moved_stream hdr n s = record s {
    rcv_nxt = (s.rcv_nxt + n) % 2 ^ 32;
    snd_nxt = rte.ntohl hdr.recv_ack;
  }

  acknowledge-done :
      (s : Stream rte) (hdr : TcpHdr) (n : ℕ) (q : rte.Ring Fragment) (st : Stack rte)
      → s.sndbuf ≡ some q
      → rte.alloc st.clock ≡ true
      → acknowledge rte (pos n) hdr (s, st)
        ≡ done (
          acked_stream q hdr n s,
          write_stream rte
              (acked_stream q hdr n s)
              (record (write_stream rte (moved_stream hdr n s) st) { clock = st.clock + 1 }),
        )
  unfolding ng_tcp_send_ackpkt
  acknowledge-done s hdr n q st b a = rw (a, b) refl

  -- A stream that a segment for it finds, with its two buffers and its item in the event poll.
  pub record IsWatched (s : Stream rte) (st : Stack rte) (r q : rte.Ring Fragment)
      (ep : EventPoll rte) (p : ℕ) : Type 0 where
    pub receives : s.rcvbuf ≡ some r
    pub sends : s.sndbuf ≡ some q
    pub room_left : length (rte.items r) < rte.room
    pub room_to_send : length (rte.items q) < rte.room
    pub polled : st.ep ≡ some ep
    pub valid : IsValid rte ep
    pub found : rte.rb_find ep.rbr s.fd ≡ some p
    pub held : (epi : EpItem) × (ep.items p ≡ some epi)

  -- A segment with `suc k` bytes of data, which lie within the packet, and no FIN.
  pub record IsData (hdr : TcpHdr) (ip : IpHdr) (k : ℕ) : Type 0 where
    pub sound : hdr.cksum_ok ≡ true
    pub pushed : has_flag hdr.tcp_flags psh_flag ≡ true
    pub goes_on : has_flag hdr.tcp_flags fin_flag ≡ false
    pub measured : payload_len hdr (sub_ℕ ip.total_length 20) ≡ pos (suc k)
    pub within : header_bytes hdr + suc k ≤ length hdr.segment

  -- The stream afterwards, with these buffers.
  abbrev pub received_stream :
      rte.Ring Fragment → rte.Ring Fragment → TcpHdr → ℕ → Stream rte → Stream rte
  received_stream r q hdr k s = record s {
    rcvbuf = some r;
    sndbuf = some q;
    rcv_nxt = (s.rcv_nxt + suc k) % 2 ^ 32;
    snd_nxt = rte.ntohl hdr.recv_ack;
  }

  -- The state after the three writes of a stream, and the callback.
  abbrev pub after_segment :
      Stream rte → Stream rte → Stream rte → EventPoll rte → Stack rte → Stack rte
  after_segment stored acked moved ep' st = record st {
    tcb_set = put_stream rte acked (put_stream rte moved (put_stream rte stored st.tcb_set));
    ep = some ep';
    clock = st.clock + 2 + 1;
  }

  established-done :
      (hdr : TcpHdr) (ip : IpHdr) (k : ℕ) (s : Stream rte) (r q : rte.Ring Fragment)
      (ep ep' : EventPoll rte) (code : Option ℕ) (p : ℕ) (st : Stack rte)
      → IsData hdr ip k
      → IsWatched s st r q ep p
      → epoll_event_callback rte ep s.fd epollin ≡ done (code, ep')
      → rte.alloc st.clock ≡ true
      → rte.alloc (st.clock + 1) ≡ true
      → rte.alloc (st.clock + 2) ≡ true
      → ng_tcp_handle_established rte s hdr (sub_ℕ ip.total_length 20) st
        ≡ done (
            after_segment
              (stored_stream r hdr k s)
              (acked_stream q hdr (suc k) (stored_stream r hdr k s))
              (moved_stream hdr (suc k) (stored_stream r hdr k s))
              ep'
              st)
  unfolding ng_tcp_handle_established handle_psh handle_fin
  established-done hdr ip k s r q ep ep' code p st d w c a a' a'' =
      let s1 : Stream rte = stored_stream r hdr k s in
      let st1 : Stack rte = write_stream rte s1 (record st { clock = st.clock + 2 }) in
      rw
        (
          handle_psh,
          d.pushed,
          d.measured,
          enqueue-payload s hdr (sub_ℕ ip.total_length 20) k r st d.measured d.within w.receives a
              a',
          notify_stream-done s1 st1 ep ep' code w.polled c,
          acknowledge-done s1 hdr (suc k) q (record st1 { ep = some ep' }) w.sends a'',
          handle_fin,
          d.goes_on,
        )
        refl

  dispatch-established :
      (status : Status) (s : Stream rte) (hdr : TcpHdr) (ip : IpHdr) (st : Stack rte)
      → status ≡ established
      → dispatch rte status s hdr ip st
        ≡ ng_tcp_handle_established rte s hdr (sub_ℕ ip.total_length 20) st
  unfolding dispatch
  dispatch-established status s hdr ip st e = rw (e, dispatch) refl

  pub ng_tcp_process-done :
      (hdr : TcpHdr) (ip : IpHdr) (k : ℕ) (s : Stream rte) (r q : rte.Ring Fragment)
      (ep ep' : EventPoll rte) (code : Option ℕ) (p : ℕ) (st : Stack rte)
      → ng_tcp_stream_search rte ip.src_addr ip.dst_addr hdr.src_port hdr.dst_port st.tcb_set
        ≡ some s
      → s.status ≡ established
      → IsData hdr ip k
      → IsWatched s st r q ep p
      → epoll_event_callback rte ep s.fd epollin ≡ done (code, ep')
      → rte.alloc st.clock ≡ true
      → rte.alloc (st.clock + 1) ≡ true
      → rte.alloc (st.clock + 2) ≡ true
      → ng_tcp_process rte hdr ip st
        ≡ done (
          processed,
          after_segment
              (stored_stream r hdr k s)
              (acked_stream q hdr (suc k) (stored_stream r hdr k s))
              (moved_stream hdr (suc k) (stored_stream r hdr k s))
              ep'
              st,
        )
  unfolding ng_tcp_process
  ng_tcp_process-done hdr ip k s r q ep ep' code p st found e d w c a a' a'' =
      rw
        (
          d.sound,
          found,
          dispatch-established s.status s hdr ip st e,
          established-done hdr ip k s r q ep ep' code p st d w c a a' a'',
        )
        refl
