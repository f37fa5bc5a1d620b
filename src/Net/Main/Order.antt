-- ===== src/Net/Main/Order.antt =====
-- dpdk-code/14_tcp_concurrency/tcp_concurrency.c: the order of the packets between main and the packet
-- thread, over any interleaving of their rounds.
use dpdk_learning.Base.{
  ℕ, ◌+◌, ◌≤◌, ◌≡◌, ◌∙◌, refl, sym, ap, Bool, List, [], ◌∷◌, ◌++◌, ltb, take, drop, length, map,
  append_assoc, append-nil, take-append-drop, Bool-cases, inl, inr, subst,
}
use dpdk_learning.Net.Rte.{Rte}
use dpdk_learning.Net.State.{Run, crash, exit, wait, done, ◌>>=◌}
use dpdk_learning.Net.Output.{pkt_process}
use dpdk_learning.Ddos.Detect.{Double, Detector}
use dpdk_learning.Net.Main.{
  burst_size, Mbuf, Node, detect_all, receive_some, receive_burst, transmit_burst, is_due,
  timer_manage, manage_timer, main_round, pkt_round,
}

module _ (rte : Rte) (double : Double) where
  -- The ring `in` of a node that a run returns, if it returns.
  abbrev HasIn : List Mbuf → Run (Node rte double) → Type 0
  HasIn ms (done n) = rte.items n.inq ≡ ms
  HasIn ms crash = Unit
  HasIn ms exit = Unit
  HasIn ms wait = Unit

  HasIn-bind {ℓ} :
      {A : Type ℓ} (ms : List Mbuf) (r : Run A) (f : A → Run (Node rte double))
      → ((a : A) → HasIn ms (f a))
      → HasIn ms (r >>= f)
  HasIn-bind ms (done a) f h = h a
  HasIn-bind ms crash f h = tt
  HasIn-bind ms exit f h = tt
  HasIn-bind ms wait f h = tt

  HasIn-bind_bind {ℓ κ} :
      {A : Type ℓ} {B : Type κ} (ms : List Mbuf) (r : Run A) (f : A → Run B)
      (g : B → Run (Node rte double))
      → ((a : A) → HasIn ms (f a >>= g))
      → HasIn ms (r >>= f >>= g)
  HasIn-bind_bind ms (done a) f g h = h a
  HasIn-bind_bind ms crash f g h = tt
  HasIn-bind_bind ms exit f g h = tt
  HasIn-bind_bind ms wait f g h = tt

  manage_timer-HasIn :
      (cur_tsc : ℕ) (expired : Bool) (n : Node rte double)
      → HasIn (rte.items n.inq) (manage_timer rte double cur_tsc expired n)
  unfolding manage_timer
  manage_timer-HasIn cur_tsc expired n = elim (Bool-cases (is_due rte double n.prev_tsc cur_tsc)) [
    | inr e ↦ rw e refl
    | inl e ↦
        rw e (HasIn-bind (rte.items n.inq) (timer_manage rte double expired n.world) _ (λ w. refl))
  ]

  main_round-HasIn :
      (rx : List Mbuf) (accepted cur_tsc : ℕ) (expired : Bool) (n : Node rte double)
      → length (rte.items n.inq) + length rx ≤ rte.room
      → HasIn (rte.items n.inq ++ rx) (main_round rte double rx accepted cur_tsc expired n)
  unfolding main_round receive_burst transmit_burst
  main_round-HasIn rx accepted cur_tsc expired n h =
      elim (Bool-cases (ltb burst_size (length rx))) [
        | inl e ↦ rw e tt
        | inr e ↦ rw e (received rx h)
      ]
    where
      rest : Node rte double → Run (Node rte double)
      rest n' = manage_timer rte double cur_tsc expired (transmit_burst rte double accepted n')

      queued : Detector double → List Mbuf → Node rte double
      queued d ms = record n { detector = d; inq = rte.enqueue_burst n.inq ms }

      received :
          (rx : List Mbuf)
          → length (rte.items n.inq) + length rx ≤ rte.room
          → HasIn (rte.items n.inq ++ rx) (receive_some rte double rx n >>= rest)
      received [] h =
          subst (λ l. HasIn l (rest n)) (sym (append-nil (rte.items n.inq)))
            (manage_timer-HasIn cur_tsc expired (transmit_burst rte double accepted n))
      received (m ∷ ms) h =
          HasIn-bind_bind (rte.items n.inq ++ (m ∷ ms)) (detect_all rte double (m ∷ ms) n.detector)
            (λ d. done (queued d (m ∷ ms))) rest
            (λ d.
              subst (λ l. HasIn l (rest (queued d (m ∷ ms))))
                (rte.items-enqueue_burst n.inq (m ∷ ms) h)
                (manage_timer-HasIn cur_tsc expired
                  (transmit_burst rte double accepted (queued d (m ∷ ms)))))

  pkt_round-HasIn :
      (n : Node rte double) → HasIn (drop burst_size (rte.items n.inq)) (pkt_round rte double n)
  unfolding pkt_round
  pkt_round-HasIn n =
      HasIn-bind (drop burst_size (rte.items n.inq))
        (pkt_process rte (map (λ (m : Mbuf). m.frame) (rte.dequeue_burst n.inq burst_size).0)
          n.world)
        (λ w. done (record n { world = w; inq = (rte.dequeue_burst n.inq burst_size).1 }))
        (λ w. rte.items-dequeue_burst n.inq burst_size)

  -- A node, the packets that main has received and those that the packet thread has taken, oldest
  -- first, after rounds of both in any order: main has room for each burst.
  pub data Reachable : Node rte double → List Mbuf → List Mbuf → Type 0 where
    start : (n : Node rte double) → rte.items n.inq ≡ [] → Reachable n [] []
    main_turn :
        (rx : List Mbuf) (accepted cur_tsc : ℕ) (expired : Bool) (n n' : Node rte double)
        (received taken : List Mbuf)
        → Reachable n received taken
        → length (rte.items n.inq) + length rx ≤ rte.room
        → main_round rte double rx accepted cur_tsc expired n ≡ done n'
        → Reachable n' (received ++ rx) taken
    pkt_turn :
        (n n' : Node rte double) (received taken : List Mbuf)
        → Reachable n received taken
        → pkt_round rte double n ≡ done n'
        → Reachable n' received (taken ++ take burst_size (rte.items n.inq))

  -- After any interleaving of rounds of main and of the packet thread from an empty ring `in` on, with
  -- room in it for each burst: the packets that the packet thread has taken, and then those in the ring,
  -- are the ones that main has received, in this order, none of them lost and none twice.
  pub Reachable-in_order :
      (n : Node rte double) (received taken : List Mbuf)
      → Reachable n received taken
      → received ≡ taken ++ rte.items n.inq
  Reachable-in_order _ _ _ (start n e) = sym e
  Reachable-in_order _ _ _ (main_turn rx accepted cur_tsc expired n n' received taken r h e) =
      let i : rte.items n'.inq ≡ rte.items n.inq ++ rx =
        subst (HasIn (rte.items n.inq ++ rx)) e
          (main_round-HasIn rx accepted cur_tsc expired n h) in
      ap (λ l. l ++ rx) (Reachable-in_order n received taken r)
      ∙ append_assoc taken (rte.items n.inq) rx
      ∙ ap (λ l. taken ++ l) (sym i)
  Reachable-in_order _ _ _ (pkt_turn n n' received taken r e) =
      let i : rte.items n'.inq ≡ drop burst_size (rte.items n.inq) =
        subst (HasIn (drop burst_size (rte.items n.inq))) e (pkt_round-HasIn n) in
      Reachable-in_order n received taken r
      ∙ ap (λ l. taken ++ l) (sym (take-append-drop burst_size (rte.items n.inq)))
      ∙ sym (
          append_assoc taken (take burst_size (rte.items n.inq))
            (drop burst_size (rte.items n.inq)))
      ∙ ap (λ l. taken ++ take burst_size (rte.items n.inq) ++ l) (sym i)
