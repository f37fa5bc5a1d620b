-- ===== src/Net/TcpProcess/Transitions.antt =====
-- dpdk-code/14_tcp_concurrency/tcp_concurrency.c: the state machine of the TCP streams, as
-- ng_tcp_process drives it.
use dpdk_learning.Base.{
  ◌≡◌, refl, Bool, true, false, Option, none, some, List, Option-cases, Bool-cases, inl, inr,
}
use dpdk_learning.Net.Rte.{Rte}
use dpdk_learning.Net.State.{
  Run, crash, exit, wait, done, ◌>>=◌, Status, closed, listen, syn_rcvd, syn_sent, established,
  fin_wait_1, fin_wait_2, closing, time_wait, close_wait, last_ack, Stream, Stack,
}
use dpdk_learning.Net.Tcp.{TcpHdr, IpHdr, ng_tcp_stream_search}
use dpdk_learning.Net.TcpProcess.{
  ng_tcp_handle_close_wait, dispatch, ng_tcp_process, Code, processed, bad_checksum, no_stream,
}
use dpdk_learning.Net.Streams.{vacant, distinct, Found, ng_tcp_stream_search-Searched}
use dpdk_learning.Net.TcpProcess.Handlers.{
  Evolved, listen-Evolved, syn_rcvd-Evolved, established-Evolved, last_ack-Evolved,
}
use dpdk_learning.Net.TcpProcess.Steps.{Steps, Steps-refl}

module _ (rte : Rte) where
  dispatch-Evolved :
      (a : Status) (s : Stream rte) (hdr : TcpHdr) (ip : IpHdr) (st : Stack rte)
      → s.status ≡ a
      → distinct rte st.tcb_set ≡ true
      → vacant rte st.clock st.tcb_set ≡ true
      → Found rte s st.tcb_set
      → Evolved rte st.tcb_set (dispatch rte a s hdr ip st)
  unfolding dispatch ng_tcp_handle_close_wait
  dispatch-Evolved listen s hdr ip st e d v f = listen-Evolved rte s hdr ip st d v
  dispatch-Evolved syn_rcvd s hdr ip st e d v f = syn_rcvd-Evolved rte s hdr st d f
  dispatch-Evolved established s hdr ip st e d v f = established-Evolved rte s hdr _ st d f e
  dispatch-Evolved last_ack s hdr ip st e d v f = last_ack-Evolved rte s hdr st d f
  dispatch-Evolved close_wait s hdr ip st e d v f = Steps-refl rte st.tcb_set d
  dispatch-Evolved closed s hdr ip st e d v f = Steps-refl rte st.tcb_set d
  dispatch-Evolved syn_sent s hdr ip st e d v f = Steps-refl rte st.tcb_set d
  dispatch-Evolved fin_wait_1 s hdr ip st e d v f = Steps-refl rte st.tcb_set d
  dispatch-Evolved fin_wait_2 s hdr ip st e d v f = Steps-refl rte st.tcb_set d
  dispatch-Evolved closing s hdr ip st e d v f = Steps-refl rte st.tcb_set d
  dispatch-Evolved time_wait s hdr ip st e d v f = Steps-refl rte st.tcb_set d

  -- A segment that finds a stream and returns was processed, and leaves the table in step.
  abbrev pub Stepped : List (Stream rte) → Run (Code × Stack rte) → Type 0
  Stepped ss (done (processed, st)) = Steps rte ss st.tcb_set
  Stepped ss (done (bad_checksum, st)) = ⊥
  Stepped ss (done (no_stream, st)) = ⊥
  Stepped ss crash = Unit
  Stepped ss exit = Unit
  Stepped ss wait = Unit

  -- What a segment comes to, as its checksum is right or not, and its stream is there or not.
  abbrev pub Processed : Bool → Option (Stream rte) → Stack rte → Run (Code × Stack rte) → Type 0
  Processed false o st run = run ≡ done (bad_checksum, st)
  Processed true none st run = run ≡ done (no_stream, st)
  Processed true (some s) st run = Stepped st.tcb_set run

  -- In a table of streams at different addresses, where the next fresh address is vacant: a segment
  -- with a bad checksum, or for which there is no stream, returns with the code that says so and
  -- changes nothing. After any other segment whose processing returns, every address has the status it
  -- had, or took the step from SYN_RCVD to ESTABLISHED or from ESTABLISHED to CLOSE_WAIT, or has a new
  -- stream in LISTEN or SYN_RCVD, or lost one in LAST_ACK; the addresses are different again.
  pub ng_tcp_process-Processed :
      (hdr : TcpHdr) (ip : IpHdr) (st : Stack rte)
      → distinct rte st.tcb_set ≡ true
      → vacant rte st.clock st.tcb_set ≡ true
      → Processed hdr.cksum_ok
          (ng_tcp_stream_search rte ip.src_addr ip.dst_addr hdr.src_port hdr.dst_port st.tcb_set)
          st
          (ng_tcp_process rte hdr ip st)
  unfolding ng_tcp_process
  ng_tcp_process-Processed hdr ip st d v = elim (Bool-cases hdr.cksum_ok) [
    | inr e ↦ rw e refl
    | inl e ↦
        rw e
          (elim (Option-cases (
            ng_tcp_stream_search rte ip.src_addr ip.dst_addr hdr.src_port hdr.dst_port
              st.tcb_set)) [
                | inl f ↦ rw f refl
                | inr (s, f) ↦
                    let all =
                      ng_tcp_stream_search-Searched rte ip.src_addr ip.dst_addr hdr.src_port
                        hdr.dst_port st.tcb_set d in
                    let found = rw f at all in
                    rw f (
                      finish (dispatch rte s.status s hdr ip st)
                        (dispatch-Evolved s.status s hdr ip st refl d v found.0))
              ])
  ]
    where
      finish :
          (r : Run (Stack rte))
          → Evolved rte st.tcb_set r
          → Stepped st.tcb_set (r >>= λ st'. done (processed, st'))
      finish (done st') e = e
      finish crash e = tt
      finish exit e = tt
      finish wait e = tt
