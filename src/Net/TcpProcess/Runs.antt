-- ===== src/Net/TcpProcess/Runs.antt =====
-- dpdk-code/14_tcp_concurrency/tcp_concurrency.c: ng_tcp_process on every sequence of segments.
use dpdk_learning.Base.{
  ℕ, ◌≡◌, refl, sym, ap, true, List, [], ◌∷◌, All, arith, Bool-cases, Option-cases, inl, inr,
}
use dpdk_learning.Base.Int.{sub_ℕ}
use dpdk_learning.Net.Rte.{Rte}
use dpdk_learning.Net.State.{
  Run, done, ◌>>=◌, Status, closed, listen, syn_rcvd, syn_sent, established, fin_wait_1, fin_wait_2,
  closing, time_wait, close_wait, last_ack, status_eq, Stream, Stack,
}
use dpdk_learning.Net.Returns.{Returns, Returns-bind, Returns-map}
use dpdk_learning.Net.Tcp.{TcpHdr, IpHdr, has_flag, ack_flag, ng_tcp_stream_search}
use dpdk_learning.Net.TcpProcess.{
  ng_tcp_handle_close_wait, ng_tcp_handle_last_ack, dispatch, Code, ng_tcp_process, processed,
}
use dpdk_learning.Net.TcpProcess.Open.{IsWithin, IsHeld, ng_tcp_handle_established-Holds}
use dpdk_learning.Net.TcpProcess.Sound.{
  IsSound, put-IsSound, remove-IsSound, Searched, search-Searched,
}
use dpdk_learning.Net.TcpProcess.Opening.{listen-Sound, syn_rcvd-Sound}
use dpdk_learning.Net.Streams.{Found}

module _ (rte : Rte) where
  -- The segments one after the other; the return codes are dropped.
  unfoldable pub process_all : List (TcpHdr × IpHdr) → Stack rte → Run (Stack rte)
  process_all [] st = done st
  process_all ((hdr, ip) ∷ segments) st =
      ng_tcp_process rte hdr ip st >>= λ x. process_all segments x.1

module _ (rte : Rte) (memory : (n : ℕ) → rte.alloc n ≡ true)
    (rings : (n : ℕ) → rte.ring_create n ≡ true) where
  established-Sound :
      (hdr : TcpHdr) (ip : IpHdr) (s : Stream rte) (st : Stack rte)
      → IsSound rte st
      → Searched rte hdr.dst_port st s
      → s.status ≡ established
      → IsWithin hdr (sub_ℕ ip.total_length 20)
      → Returns (IsSound rte) (dispatch rte established s hdr ip st)
  unfolding dispatch
  established-Sound hdr ip s st i (f, (p, r, q, a), d, l) e w =
      Returns-map (λ st'. (s' : Stream rte) × IsHeld rte st.tcb_set s.ptr st.clock (s', st'))
        (IsSound rte) _
        (ng_tcp_handle_established-Holds rte st.tcb_set s.ptr st.clock memory hdr
          (sub_ℕ ip.total_length 20) s st w
          (record {
            at = refl;
            connection = (r, q, rw e refl, rw e refl);
            table = sym f.same;
            later = omega arith;
            polled = i.polled;
          }))
        (λ st' (s', h).
          put-IsSound rte s s' st st' i f h.at p h.connection (rw e refl) h.table h.later h.polled)

  last_ack-Sound :
      (hdr : TcpHdr) (s : Stream rte) (st : Stack rte)
      → IsSound rte st
      → Found rte s st.tcb_set
      → s.status ≡ last_ack
      → IsSound rte (ng_tcp_handle_last_ack rte s hdr st)
  unfolding ng_tcp_handle_last_ack
  last_ack-Sound hdr s st i f e = elim (Bool-cases (has_flag hdr.tcp_flags ack_flag)) [
    | inr g ↦ rw g i
    | inl g ↦
        rw (g, ap (λ x. status_eq x last_ack) e)
          (remove-IsSound rte s st i f (ap (λ x. status_eq x listen) e))
  ]

  dispatch-Sound :
      (a : Status) (hdr : TcpHdr) (ip : IpHdr) (s : Stream rte) (st : Stack rte)
      → s.status ≡ a
      → IsSound rte st
      → Searched rte hdr.dst_port st s
      → IsWithin hdr (sub_ℕ ip.total_length 20)
      → Returns (IsSound rte) (dispatch rte a s hdr ip st)
  unfolding dispatch ng_tcp_handle_close_wait
  dispatch-Sound listen hdr ip s st e i f w = listen-Sound rte memory rings hdr ip s st i f e
  dispatch-Sound syn_rcvd hdr ip s st e i f w = syn_rcvd-Sound rte memory rings hdr s st i f e
  dispatch-Sound established hdr ip s st e i f w = established-Sound hdr ip s st i f e w
  dispatch-Sound last_ack hdr ip s st e i f w = last_ack-Sound hdr s st i f.0 e
  dispatch-Sound close_wait hdr ip s st e i f w = i
  dispatch-Sound closed hdr ip s st e i f w = i
  dispatch-Sound syn_sent hdr ip s st e i f w = i
  dispatch-Sound fin_wait_1 hdr ip s st e i f w = i
  dispatch-Sound fin_wait_2 hdr ip s st e i f w = i
  dispatch-Sound closing hdr ip s st e i f w = i
  dispatch-Sound time_wait hdr ip s st e i f w = i

  abbrev SoundAfter : Code × Stack rte → Type 0
  SoundAfter x = IsSound rte x.1

  ng_tcp_process-Sound :
      (hdr : TcpHdr) (ip : IpHdr) (st : Stack rte)
      → IsSound rte st
      → IsWithin hdr (sub_ℕ ip.total_length 20)
      → Returns SoundAfter (ng_tcp_process rte hdr ip st)
  unfolding ng_tcp_process
  ng_tcp_process-Sound hdr ip st i w = elim (Bool-cases hdr.cksum_ok) [
    | inr c ↦ rw c i
    | inl c ↦
        elim (Option-cases
          (ng_tcp_stream_search rte ip.src_addr ip.dst_addr hdr.src_port hdr.dst_port st.tcb_set)) [
            | inl f ↦ rw (c, f) i
            | inr (s, f) ↦
                rw (c, f)
                  (Returns-bind (IsSound rte) SoundAfter (dispatch rte s.status s hdr ip st)
                    (λ st'. done (processed, st'))
                    (dispatch-Sound s.status hdr ip s st refl i
                      (search-Searched rte ip.src_addr ip.dst_addr hdr.src_port hdr.dst_port s st i
                        f)
                      w)
                    (λ st' j. j))
          ]
  ]

  -- If every allocation succeeds, the table has streams at different addresses, each with its two
  -- buffers and, if it has received a SYN, a listener, and the event poll is sound: every sequence of
  -- segments whose data lie within their packets, for any streams and with any flags, is processed
  -- without a fault and without the end of the process, and leaves all of this as it was.
  pub process_all-Sound :
      (segments : List (TcpHdr × IpHdr)) (st : Stack rte)
      → IsSound rte st
      → All (λ (x : TcpHdr × IpHdr). IsWithin x.0 (sub_ℕ x.1.total_length 20)) segments
      → Returns (IsSound rte) (process_all rte segments st)
  unfolding process_all
  process_all-Sound [] st i w = i
  process_all-Sound ((hdr, ip) ∷ segments) st i w =
      Returns-bind SoundAfter (IsSound rte) (ng_tcp_process rte hdr ip st)
        (λ x. process_all rte segments x.1) (ng_tcp_process-Sound hdr ip st i w.0)
        (λ x j. process_all-Sound segments x.1 j w.1)
