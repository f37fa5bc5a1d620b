-- ===== src/Net/TcpProcess/Steps.antt =====
-- dpdk-code/14_tcp_concurrency/tcp_concurrency.c: the steps of the TCP state machine, and the writes
-- to the table of streams that are such steps.
use dpdk_learning.Base.{
  ℕ, ◌≡◌, ◌∙◌, sym, Bool, true, not, ◌&&◌, ◌||◌, Option, none, some, List, ◌∷◌, ◌==◌, ==_iff, arith,
  Bool-cases, inl, inr, and_parts,
}
use dpdk_learning.Net.Rte.{Rte}
use dpdk_learning.Net.State.{
  Status, listen, syn_rcvd, established, close_wait, last_ack, status_eq, Stream, put_stream,
  remove_stream, status_at,
}
use dpdk_learning.Net.Streams.{
  vacant, distinct, Found, distinct-put_stream, status_at-put_stream, distinct-remove_stream,
  status_at-remove_stream, status_at-vacant,
}

-- The steps that one segment may make a stream take.
abbrev pub allowed : Status → Status → Bool
allowed a b =
    status_eq a b
    || ((status_eq a syn_rcvd && status_eq b established)
        || (status_eq a established && status_eq b close_wait))

-- The status at an address before and after a segment: a new stream listens or has received a SYN,
-- a stream takes an allowed step, and a stream that goes awaited the last acknowledgement.
abbrev pub Evolves : Option Status → Option Status → Type 0
Evolves none none = Unit
Evolves none (some b) = (status_eq b listen || status_eq b syn_rcvd) ≡ true
Evolves (some a) (some b) = allowed a b ≡ true
Evolves (some a) none = status_eq a last_ack ≡ true

Evolves-refl : (o : Option Status) → Evolves o o
Evolves-refl none = tt
Evolves-refl (some a) = ground arith

module _ (rte : Rte) where
  -- The table after a segment, against the table before it.
  abbrev pub Steps : List (Stream rte) → List (Stream rte) → Type 0
  Steps ss ss' =
      ((p : ℕ) → Evolves (status_at rte p ss) (status_at rte p ss')) × (distinct rte ss' ≡ true)

  pub Steps-refl : (ss : List (Stream rte)) → distinct rte ss ≡ true → Steps ss ss
  Steps-refl ss d = (λ p. Evolves-refl _, d)

  pub Steps-put :
      (ss : List (Stream rte)) (s s' : Stream rte)
      → distinct rte ss ≡ true
      → Found rte s ss
      → s'.ptr ≡ s.ptr
      → allowed s.status s'.status ≡ true
      → Steps ss (put_stream rte s' ss)
  Steps-put ss s s' d f e a = (evolve, distinct-put_stream rte s' ss ∙ d)
    where
      evolve : (p : ℕ) → Evolves (status_at rte p ss) (status_at rte p (put_stream rte s' ss))
      evolve p = elim (Bool-cases (s'.ptr == p && not (vacant rte p ss))) [
        | inr c ↦ rw (status_at-put_stream rte p s' ss, c) (Evolves-refl _)
        | inl c ↦
            let q : s.ptr ≡ p = sym e ∙ (==_iff s'.ptr p).0 (and_parts (s'.ptr == p) _ c).0 in
            let g : status_at rte p ss ≡ some s.status = rw q at f.status in
            rw (status_at-put_stream rte p s' ss, c, g) a
      ]

  pub Steps-remove :
      (ss : List (Stream rte)) (s : Stream rte)
      → distinct rte ss ≡ true
      → Found rte s ss
      → status_eq s.status last_ack ≡ true
      → Steps ss (remove_stream rte s.ptr ss)
  Steps-remove ss s d f a = (evolve, distinct-remove_stream rte s.ptr ss d)
    where
      evolve : (p : ℕ) → Evolves (status_at rte p ss) (status_at rte p (remove_stream rte s.ptr ss))
      evolve p = elim (Bool-cases (s.ptr == p)) [
        | inr c ↦ rw (status_at-remove_stream rte s.ptr p ss d, c) (Evolves-refl _)
        | inl c ↦
            let g : status_at rte p ss ≡ some s.status = rw ((==_iff s.ptr p).0 c) at f.status in
            rw (status_at-remove_stream rte s.ptr p ss d, c, g) a
      ]

  pub Steps-cons :
      (ss : List (Stream rte)) (s : Stream rte)
      → distinct rte ss ≡ true
      → vacant rte s.ptr ss ≡ true
      → (status_eq s.status listen || status_eq s.status syn_rcvd) ≡ true
      → Steps ss (s ∷ ss)
  Steps-cons ss s d v a = (evolve, rw (v, d))
    where
      evolve : (p : ℕ) → Evolves (status_at rte p ss) (status_at rte p (s ∷ ss))
      evolve p = elim (Bool-cases (s.ptr == p)) [
        | inr c ↦ rw c (Evolves-refl _)
        | inl c ↦
            let g : status_at rte p ss ≡ none =
              status_at-vacant rte p ss (rw ((==_iff s.ptr p).0 c) at v) in
            rw (c, g) a
      ]
