-- ===== src/Net/TcpProcess/Sound.antt =====
-- dpdk-code/14_tcp_concurrency/tcp_concurrency.c: what the table of streams and the event poll need so
-- that every segment is processed, under each write to the table.
use dpdk_learning.Base.{
  ℕ, ◌<◌, ◌≤◌, ◌≡◌, ◌∙◌, refl, sym, ap, Bool, true, false, ◌&&◌, ◌||◌, some, List, ◌∷◌, ◌==◌, All,
  arith, Option-cases, inl, inr, and_parts,
}
use dpdk_learning.Net.Rte.{Rte}
use dpdk_learning.Net.State.{listen, status_eq, Stream, Stack, put_stream, remove_stream}
use dpdk_learning.Net.Tcp.{first, matches, listens, ng_tcp_stream_search}
use dpdk_learning.Net.TcpProcess.Open.{IsPolled, IsNotified, IsConnection}
use dpdk_learning.Net.Streams.{
  vacant, distinct, Found, distinct-put_stream, distinct-remove_stream, first-Found,
}
use dpdk_learning.Net.Streams.Fine.{
  All-map, HasRing, has_listener, is_answered, Fine, Fine-later, All-put_stream, All-remove_stream,
  All-first, has_listener-put_stream, has_listener-remove_stream, has_listener_of_first,
  vacant_of_below,
}

last_part : (a b c d : Bool) → (a && (b && (c && d))) ≡ true → d ≡ true
last_part a b c d h = (and_parts c d (and_parts b (c && d) (and_parts a (b && (c && d)) h).1).1).1

module _ (rte : Rte) where
  -- The streams stand at different addresses below the clock, each has its two buffers, and one that
  -- has received a SYN has a listener; the event poll is sound.
  pub record IsSound (st : Stack rte) : Type 0 where
    pub different : distinct rte st.tcb_set ≡ true
    pub fine : All (Fine rte st.clock st.tcb_set) st.tcb_set
    pub polled : IsPolled rte st.ep

  quiet-listens :
      (d : ℕ) (s : Stream rte) → status_eq s.status listen ≡ false → listens rte d s ≡ false
  quiet-listens d s e = rw e (and_false (s.dport == d))
    where
      and_false : (b : Bool) → (b && false) ≡ false
      and_false true = refl
      and_false false = refl

  -- A connection is written in place of a stream that does not listen.
  pub kept_listeners :
      (d : ℕ) (s s' : Stream rte) (ss : List (Stream rte))
      → Found rte s ss
      → s'.ptr ≡ s.ptr
      → IsConnection rte s'
      → status_eq s.status listen ≡ false
      → has_listener rte d (put_stream rte s' ss) ≡ has_listener rte d ss
  kept_listeners d s s' ss f e c q =
      has_listener-put_stream rte d s s' ss e (quiet-listens d s' c.2 ∙ sym (quiet-listens d s q))
      ∙ ap (has_listener rte d) f.same

  pub put-IsSound :
      (s s' : Stream rte) (st st' : Stack rte)
      → IsSound st
      → Found rte s st.tcb_set
      → s'.ptr ≡ s.ptr
      → s.ptr < st.clock
      → IsConnection rte s'
      → status_eq s.status listen ≡ false
      → st'.tcb_set ≡ put_stream rte s' st.tcb_set
      → st.clock ≤ st'.clock
      → IsPolled rte st'.ep
      → IsSound st'
  put-IsSound s s' st st' i f e b c q t l p = record {
    different = rw t (distinct-put_stream rte s' st.tcb_set ∙ i.different);
    fine = rw t (
        All-put_stream rte (Fine rte st'.clock (put_stream rte s' st.tcb_set)) s' st.tcb_set
          (omega (arith, e, b, l), c.0, c.1, rw c.3 refl)
          (All-map (Fine rte st.clock st.tcb_set)
            (Fine rte st'.clock (put_stream rte s' st.tcb_set)) st.tcb_set
            (λ x.
              Fine-later rte st.clock st'.clock st.tcb_set (put_stream rte s' st.tcb_set) x l
                (λ h. kept_listeners x.dport s s' st.tcb_set f e c q ∙ h))
            i.fine));
    polled = p;
  }

  -- A stream that has received a SYN joins the table.
  pub cons-IsSound :
      (s : Stream rte) (st st' : Stack rte)
      → IsSound st
      → s.ptr ≡ st.clock
      → HasRing rte s.rcvbuf
      → HasRing rte s.sndbuf
      → has_listener rte s.dport st.tcb_set ≡ true
      → st'.tcb_set ≡ s ∷ st.tcb_set
      → st.clock < st'.clock
      → IsPolled rte st'.ep
      → IsSound st'
  cons-IsSound s st st' i e r q h t l p = record {
    different = rw (t, apart, i.different) refl;
    fine = rw t (
      (omega (arith, e, l), r, q, joined (s ∷ st.tcb_set) (more s.dport h)),
      All-map (Fine rte st.clock st.tcb_set) (Fine rte st'.clock (s ∷ st.tcb_set)) st.tcb_set
          (λ x.
            Fine-later rte st.clock st'.clock st.tcb_set (s ∷ st.tcb_set) x (omega (arith, l))
              (more x.dport))
          i.fine,
    );
    polled = p;
  }
    where
      apart : vacant rte s.ptr st.tcb_set ≡ true
      apart =
          ap (λ n. vacant rte n st.tcb_set) e
          ∙ vacant_of_below rte st.clock st.tcb_set st.tcb_set i.fine

      or_true : (b : Bool) → (b || true) ≡ true
      or_true true = refl
      or_true false = refl

      more :
          (d : ℕ)
          → has_listener rte d st.tcb_set ≡ true
          → has_listener rte d (s ∷ st.tcb_set) ≡ true
      more d a = rw a (or_true (listens rte d s))

      joined :
          (ss : List (Stream rte))
          → has_listener rte s.dport ss ≡ true
          → is_answered rte ss s ≡ true
      joined ss a = rw a (or_true _)

  pub notified-IsSound : (st st' : Stack rte) → IsSound st → IsNotified rte st st' → IsSound st'
  notified-IsSound st st' i (t, c, p) = record {
    different = rw t i.different;
    fine = rw (t, c) i.fine;
    polled = p;
  }

  pub remove-IsSound :
      (s : Stream rte) (st : Stack rte)
      → IsSound st
      → Found rte s st.tcb_set
      → status_eq s.status listen ≡ false
      → IsSound (record st { tcb_set = remove_stream rte s.ptr st.tcb_set })
  remove-IsSound s st i f q = record {
    different = distinct-remove_stream rte s.ptr st.tcb_set i.different;
    fine =
        All-remove_stream rte (Fine rte st.clock (remove_stream rte s.ptr st.tcb_set)) s.ptr
          st.tcb_set
          (All-map (Fine rte st.clock st.tcb_set)
            (Fine rte st.clock (remove_stream rte s.ptr st.tcb_set)) st.tcb_set
            (λ x.
              Fine-later rte st.clock st.clock st.tcb_set (remove_stream rte s.ptr st.tcb_set) x
                (omega arith)
                (λ h. has_listener-remove_stream rte x.dport s.ptr st.tcb_set s f.status q ∙ h))
            i.fine);
    polled = i.polled;
  }

  -- A stream that a search finds, with what the invariant says of it.
  abbrev pub Searched : ℕ → Stack rte → Stream rte → Type 0
  Searched dport st s =
      Found rte s st.tcb_set
      × Fine rte st.clock st.tcb_set s
      × ((s.dport == dport) ≡ true)
      × ((status_eq s.status listen ≡ true) → has_listener rte dport st.tcb_set ≡ true)

  first-Searched :
      (test : Stream rte → Bool) (dport : ℕ) (s : Stream rte) (st : Stack rte)
      → IsSound st
      → first rte test st.tcb_set ≡ some s
      → (test s ≡ true → (s.dport == dport) ≡ true)
      → Searched dport st s
  first-Searched test dport s st i e d =
      let (f, t) = first-Found rte test st.tcb_set e i.different in
      (
        f,
        All-first rte (Fine rte st.clock st.tcb_set) test st.tcb_set s e i.fine,
        d t,
        λ l. has_listener_of_first rte dport test st.tcb_set s e (rw (d t, l) refl),
      )

  pub search-Searched :
      (sip dip sport dport : ℕ) (s : Stream rte) (st : Stack rte)
      → IsSound st
      → ng_tcp_stream_search rte sip dip sport dport st.tcb_set ≡ some s
      → Searched dport st s
  unfolding ng_tcp_stream_search
  search-Searched sip dip sport dport s st i e =
      elim (Option-cases (first rte (matches rte sip dip sport dport) st.tcb_set)) [
        | inr (x, m) ↦
            let e' : some x ≡ some s = rw m at e in
            first-Searched (matches rte sip dip sport dport) dport s st i (m ∙ e')
              (λ t. last_part (s.sip == sip) (s.dip == dip) (s.sport == sport) (s.dport == dport) t)
        | inl m ↦
            let e' : first rte (listens rte dport) st.tcb_set ≡ some s = rw m at e in
            first-Searched (listens rte dport) dport s st i e' (λ t. (and_parts _ _ t).0)
      ]
