-- ===== src/Net/Main/Rounds.antt =====
-- dpdk-code/14_tcp_concurrency/tcp_concurrency.c: what a round of main moves, and the order of the
-- packets between main and the packet thread.
use dpdk_learning.Base.{
  ℕ, ◌+◌, ◌≤◌, ◌≡◌, ◌∙◌, refl, sym, ap, Bool, true, false, ◌&&◌, List, [], ◌∷◌, ◌++◌, ltb, take,
  drop, length, append-nil, Bool-cases, inl, inr,
}
use dpdk_learning.Net.Rte.{Rte}
use dpdk_learning.Net.State.{Run, crash, exit, wait, done, ◌>>=◌}
use dpdk_learning.Net.Returns.{Returns, Returns-bind, Returns-map}
use dpdk_learning.Net.Arp.{ArpTable}
use dpdk_learning.Net.Output.{World}
use dpdk_learning.Net.Output.Timer.{requests, Requested, arp_request_timer_cb-Requested}
use dpdk_learning.Ddos.Detect.{Double, Detector}
use dpdk_learning.Net.Main.{
  burst_size, g_local_ip, Mbuf, Node, detect_all, receive_some, receive_burst, transmit_burst,
  is_due, timer_manage, manage_timer, main_round,
}

done_injective {ℓ} : {A : Type ℓ} (a b : A) → done a ≡ done b → a ≡ b
done_injective a b e = ap (λ r. elim r [ crash ↦ a | exit ↦ a | wait ↦ a | done x ↦ x ]) e

module _ (rte : Rte) (double : Double) where
  -- The frames of the timer, if its period has ended when it is looked at.
  abbrev pub timed : Bool → ArpTable → List ℕ → List (List ℕ)
  timed false arpt src = []
  timed true arpt src = requests rte arpt src g_local_ip 254 1

  -- What a round moves.
  pub record IsMoved (rx : List Mbuf) (accepted : ℕ) (due : Bool) (d : Detector double)
      (n n' : Node rte double) : Type 0 where
    pub received : rte.items n'.inq ≡ rte.items n.inq ++ rx
    pub detected : n'.detector ≡ d
    pub transmitted : n'.sent ≡ n.sent ++ take accepted (take burst_size (rte.items n.world.out))
    pub left_over :
        rte.items n'.world.out
        ≡ drop burst_size (rte.items n.world.out) ++ timed due n.world.arpt n.world.stack.src_mac
    pub arp_kept : n'.world.arpt ≡ n.world.arpt
    pub streams_kept : n'.world.stack.tcb_set ≡ n.world.stack.tcb_set
    pub hosts_kept : n'.world.stack.lhost ≡ n.world.stack.lhost

  receive_some-done :
      (rx : List Mbuf) (d : Detector double) (n : Node rte double)
      → length (rte.items n.inq) + length rx ≤ rte.room
      → detect_all rte double rx n.detector ≡ done d
      → (q : rte.Ring Mbuf) × (rte.items q ≡ rte.items n.inq ++ rx)
        × (receive_some rte double rx n ≡ done (record n { detector = d; inq = q }))
  unfolding detect_all
  receive_some-done [] d n h e = (
    n.inq,
    sym (append-nil _),
    ap (λ x. done (record n { detector = x })) (done_injective n.detector d e),
  )
  receive_some-done (m ∷ ms) d n h e =
      (rte.enqueue_burst n.inq (m ∷ ms), rte.items-enqueue_burst n.inq (m ∷ ms) h, rw e refl)

  receive_some-crash :
      (rx : List Mbuf) (n : Node rte double)
      → detect_all rte double rx n.detector ≡ crash
      → receive_some rte double rx n ≡ crash
  unfolding detect_all
  receive_some-crash [] n e = cc
  receive_some-crash (m ∷ ms) n e = rw e refl

  receive_some-exit :
      (rx : List Mbuf) (n : Node rte double)
      → detect_all rte double rx n.detector ≡ exit
      → receive_some rte double rx n ≡ exit
  unfolding detect_all
  receive_some-exit [] n e = cc
  receive_some-exit (m ∷ ms) n e = rw e refl

  receive_some-wait :
      (rx : List Mbuf) (n : Node rte double)
      → detect_all rte double rx n.detector ≡ wait
      → receive_some rte double rx n ≡ wait
  unfolding detect_all
  receive_some-wait [] n e = cc
  receive_some-wait (m ∷ ms) n e = rw e refl

  -- What the timer changes.
  record IsTimed (due : Bool) (n n' : Node rte double) : Type 0 where
    inq_kept : n'.inq ≡ n.inq
    detector_kept : n'.detector ≡ n.detector
    sent_kept : n'.sent ≡ n.sent
    requested :
        rte.items n'.world.out
        ≡ rte.items n.world.out ++ timed due n.world.arpt n.world.stack.src_mac
    arp_kept : n'.world.arpt ≡ n.world.arpt
    streams_kept : n'.world.stack.tcb_set ≡ n.world.stack.tcb_set
    hosts_kept : n'.world.stack.lhost ≡ n.world.stack.lhost

  Returns-Requested :
      (w : World rte) (frames : List (List ℕ)) (r : Run (World rte))
      → Requested rte w frames r
      → Returns (λ w'. Requested rte w frames (done w')) r
  Returns-Requested w frames (done w') h = h
  Returns-Requested w frames crash h = h
  Returns-Requested w frames exit h = h
  Returns-Requested w frames wait h = h

  manage_timer-Returns :
      (cur_tsc : ℕ) (expired : Bool) (n : Node rte double)
      → ((k : ℕ) → rte.alloc k ≡ true)
      → length (rte.items n.world.out) + 254 ≤ rte.room
      → Returns
          (IsTimed (is_due rte double n.prev_tsc cur_tsc && expired) n)
          (manage_timer rte double cur_tsc expired n)
  unfolding manage_timer
  manage_timer-Returns cur_tsc expired n memory h =
      elim (Bool-cases (is_due rte double n.prev_tsc cur_tsc)) [
        | inr e ↦ rw e (unchanged n)
        | inl e ↦ rw e (looked expired)
      ]
    where
      unchanged : (n' : Node rte double) → IsTimed false n' n'
      unchanged n' = record {
        inq_kept = refl;
        detector_kept = refl;
        sent_kept = refl;
        requested = sym (append-nil _);
        arp_kept = refl;
        streams_kept = refl;
        hosts_kept = refl;
      }

      looked :
          (b : Bool)
          → Returns (IsTimed b n) (
              timer_manage rte double b n.world >>= λ w.
              done (record n { world = w; prev_tsc = cur_tsc }))
      looked false = record {
        inq_kept = refl;
        detector_kept = refl;
        sent_kept = refl;
        requested = sym (append-nil _);
        arp_kept = refl;
        streams_kept = refl;
        hosts_kept = refl;
      }
      looked true =
          Returns-bind
            (λ w. Requested rte n.world (timed true n.world.arpt n.world.stack.src_mac) (done w))
            (IsTimed true n) _ _
            (Returns-Requested n.world (timed true n.world.arpt n.world.stack.src_mac) _
              (arp_request_timer_cb-Requested rte memory g_local_ip n.world h))
            (λ w (o, a, t, l). record {
              inq_kept = refl;
              detector_kept = refl;
              sent_kept = refl;
              requested = o;
              arp_kept = a;
              streams_kept = t;
              hosts_kept = l;
            })

  -- What a round comes to, as the detector goes on, ends the process, or reads past the end of the
  -- memory.
  abbrev pub Rounded :
      List Mbuf
      → ℕ
      → Bool
      → Node rte double
      → Run (Detector double)
      → Run (Node rte double)
      → Type 0
  Rounded rx accepted due n (done d) r = Returns (IsMoved rx accepted due d n) r
  Rounded rx accepted due n crash r = r ≡ crash
  Rounded rx accepted due n exit r = r ≡ exit
  Rounded rx accepted due n wait r = r ≡ wait

  -- Of a burst of at most 32 packets for which the ring `in` has room, with memory to be had and room
  -- in the ring `out` for 254 frames behind its first 32: if the detector goes on, a round of main
  -- returns. The packets stand behind those that were in the ring `in`, in their order; the first 32
  -- frames of the ring `out` leave it, and the port gets of them as many as it takes; behind the
  -- others stand the requests of the timer, if it is looked at and its period has ended; and the
  -- tables of the stack stay. Otherwise the round faults or exits as the detector does.
  pub main_round-Rounded :
      (rx : List Mbuf) (accepted cur_tsc : ℕ) (expired : Bool) (n : Node rte double)
      → ((k : ℕ) → rte.alloc k ≡ true)
      → ltb burst_size (length rx) ≡ false
      → length (rte.items n.inq) + length rx ≤ rte.room
      → length (drop burst_size (rte.items n.world.out)) + 254 ≤ rte.room
      → Rounded rx accepted
          (is_due rte double n.prev_tsc cur_tsc && expired)
          n
          (detect_all rte double rx n.detector)
          (main_round rte double rx accepted cur_tsc expired n)
  unfolding main_round receive_burst transmit_burst
  main_round-Rounded rx accepted cur_tsc expired n memory small room h =
      go (detect_all rte double rx n.detector) refl
    where
      go :
          (o : Run (Detector double))
          → detect_all rte double rx n.detector ≡ o
          → Rounded rx accepted
              (is_due rte double n.prev_tsc cur_tsc && expired)
              n
              o
              (main_round rte double rx accepted cur_tsc expired n)
      go crash e = rw (small, receive_some-crash rx n e) refl
      go exit e = rw (small, receive_some-exit rx n e) refl
      go wait e = rw (small, receive_some-wait rx n e) refl
      go (done d) e =
          let (q, i, eq) = receive_some-done rx d n room e in
          let n1 : Node rte double = record n { detector = d; inq = q } in
          let n2 : Node rte double = transmit_burst rte double accepted n1 in
          let left = rte.items-dequeue_burst n.world.out burst_size in
          rw (small, eq)
            (Returns-map (IsTimed (is_due rte double n.prev_tsc cur_tsc && expired) n2)
              (IsMoved rx accepted (is_due rte double n.prev_tsc cur_tsc && expired) d n) _
              (manage_timer-Returns cur_tsc expired n2 memory (rw left h))
              (λ n' t. record {
                received = ap (λ x. rte.items x) t.inq_kept ∙ i;
                detected = t.detector_kept;
                transmitted =
                    t.sent_kept
                    ∙ ap (λ l. n.sent ++ take accepted l)
                        (rte.dequeue_burst-take n.world.out burst_size);
                left_over =
                    t.requested
                    ∙ ap
                        (λ l.
                          l
                          ++ timed (is_due rte double n.prev_tsc cur_tsc && expired) n.world.arpt
                              n.world.stack.src_mac)
                        left;
                arp_kept = t.arp_kept;
                streams_kept = t.streams_kept;
                hosts_kept = t.hosts_kept;
              }))
