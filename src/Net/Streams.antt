-- ===== src/Net/Streams.antt =====
-- dpdk-code/14_tcp_concurrency/tcp_concurrency.c: the table of streams under a write through a
-- stream's pointer, LL_REMOVE and the searches.
pub mod Fine
use dpdk_learning.Base.{
  ℕ, ◌≡◌, ◌∙◌, ◌⊎◌, refl, sym, Bool, true, false, not, ◌&&◌, Option, none, some, List, [], ◌∷◌,
  ◌==◌, ==_iff, if◌then◌else◌, All, arith, Option-cases, Bool-cases, inl, inr, and_parts, subst,
  some-injective, false≢true,
}
use dpdk_learning.Net.Rte.{Rte}
use dpdk_learning.Net.State.{Stream, put_stream, remove_stream, status_at}
use dpdk_learning.Net.Tcp.{first, matches, listens, ng_tcp_stream_search}

module _ (rte : Rte) where
  -- No stream of the list stands at the address.
  abbrev pub vacant : ℕ → List (Stream rte) → Bool
  vacant p [] = true
  vacant p (s ∷ ss) = if s.ptr == p then false else vacant p ss

  -- Different streams have different addresses.
  abbrev pub distinct : List (Stream rte) → Bool
  distinct [] = true
  distinct (s ∷ ss) = vacant s.ptr ss && distinct ss

  pub put_stream-vacant :
      (s : Stream rte) (ss : List (Stream rte)) → vacant s.ptr ss ≡ true → put_stream rte s ss ≡ ss
  put_stream-vacant s [] v = refl
  put_stream-vacant s (x ∷ ss) v = ground (arith, put_stream-vacant s ss)

  pub put_stream-put_stream :
      (s s' : Stream rte) (ss : List (Stream rte))
      → s.ptr ≡ s'.ptr
      → put_stream rte s' (put_stream rte s ss) ≡ put_stream rte s' ss
  put_stream-put_stream s s' [] e = refl
  put_stream-put_stream s s' (x ∷ ss) e = ground (arith, put_stream-put_stream s s' ss e)

  pub status_at-vacant :
      (p : ℕ) (ss : List (Stream rte)) → vacant p ss ≡ true → status_at rte p ss ≡ none
  status_at-vacant p [] v = refl
  status_at-vacant p (x ∷ ss) v = ground (arith, status_at-vacant p ss)

  vacant-put_stream :
      (p : ℕ) (s : Stream rte) (ss : List (Stream rte))
      → vacant p (put_stream rte s ss) ≡ vacant p ss
  vacant-put_stream p s [] = refl
  vacant-put_stream p s (x ∷ ss) = ground (arith, vacant-put_stream p s ss)

  pub distinct-put_stream :
      (s : Stream rte) (ss : List (Stream rte)) → distinct (put_stream rte s ss) ≡ distinct ss
  distinct-put_stream s [] = refl
  distinct-put_stream s (x ∷ ss) =
      ground (
        arith,
        distinct-put_stream s ss,
        vacant-put_stream x.ptr s ss,
        vacant-put_stream s.ptr s ss,
      )

  -- A write changes the status at one address, if a stream stands there.
  pub status_at-put_stream :
      (p : ℕ) (s : Stream rte) (ss : List (Stream rte))
      → status_at rte p (put_stream rte s ss)
        ≡ (if s.ptr == p && not (vacant p ss) then some s.status else status_at rte p ss)
  status_at-put_stream p s [] = ground arith
  status_at-put_stream p s (x ∷ ss) = ground (arith, status_at-put_stream p s ss)

  vacant-remove_stream :
      (p q : ℕ) (ss : List (Stream rte))
      → vacant q ss ≡ true
      → vacant q (remove_stream rte p ss) ≡ true
  vacant-remove_stream p q [] v = refl
  vacant-remove_stream p q (x ∷ ss) v = ground (arith, vacant-remove_stream p q ss)

  pub distinct-remove_stream :
      (p : ℕ) (ss : List (Stream rte))
      → distinct ss ≡ true
      → distinct (remove_stream rte p ss) ≡ true
  distinct-remove_stream p [] d = refl
  distinct-remove_stream p (x ∷ ss) d =
      ground (arith, distinct-remove_stream p ss, vacant-remove_stream p x.ptr ss)

  -- A removal empties one address and leaves the others alone.
  pub status_at-remove_stream :
      (p q : ℕ) (ss : List (Stream rte))
      → distinct ss ≡ true
      → status_at rte q (remove_stream rte p ss) ≡ (if p == q then none else status_at rte q ss)
  status_at-remove_stream p q [] d = ground arith
  status_at-remove_stream p q (x ∷ ss) d =
      ground (arith, status_at-remove_stream p q ss, status_at-vacant x.ptr ss)

  -- A stream that a search returns.
  pub record Found (s : Stream rte) (ss : List (Stream rte)) : Type 0 where
    pub here : vacant s.ptr ss ≡ false
    pub status : status_at rte s.ptr ss ≡ some s.status
    pub same : put_stream rte s ss ≡ ss

  head-Found : (s : Stream rte) (ss : List (Stream rte)) → vacant s.ptr ss ≡ true → Found s (s ∷ ss)
  head-Found s ss v = record {
    here = ground arith;
    status = ground arith;
    same = ground (arith, put_stream-vacant s ss);
  }

  tail-Found :
      (x s : Stream rte) (ss : List (Stream rte))
      → vacant x.ptr ss ≡ true
      → Found s ss
      → Found s (x ∷ ss)
  tail-Found x s ss v f = elim (Bool-cases (x.ptr == s.ptr)) [
    | inl e ↦ let v' = rw ((==_iff x.ptr s.ptr).0 e) at v in absurd (false≢true (sym f.here ∙ v'))
    | inr e ↦ record { here = rw e f.here; status = rw e f.status; same = rw (e, f.same) }
  ]

  -- A search in a table of different streams returns one that passes the test.
  pub first-Found :
      (test : Stream rte → Bool) (ss : List (Stream rte)) {s : Stream rte}
      → first rte test ss ≡ some s
      → distinct ss ≡ true
      → Found s ss × (test s ≡ true)
  first-Found test [] e d = ground arith
  first-Found test (x ∷ ss) {s} e d =
      let (v, d') = and_parts (vacant x.ptr ss) (distinct ss) d in
      elim (Bool-cases (test x)) [
        | inl t ↦
            let e' : some x ≡ some s = rw t at e in
            subst (λ y. Found y (x ∷ ss) × (test y ≡ true)) (some-injective x s e')
              (head-Found x ss v, t)
        | inr t ↦
            let e' : first rte test ss ≡ some s = rw t at e in
            let (f, h) = first-Found test ss e' d' in (tail-Found x s ss v f, h)
      ]

  first-none :
      (test : Stream rte → Bool) (ss : List (Stream rte))
      → first rte test ss ≡ none
      → All (λ s. test s ≡ false) ss
  first-none test [] e = tt
  first-none test (x ∷ ss) e = (ground arith, first-none test ss (ground arith))

  -- What a search for four addresses comes to.
  abbrev pub Searched : ℕ → ℕ → ℕ → ℕ → List (Stream rte) → Option (Stream rte) → Type 0
  Searched sip dip sport dport ss none =
      All (λ s. matches rte sip dip sport dport s ≡ false) ss
      × All (λ s. listens rte dport s ≡ false) ss
  Searched sip dip sport dport ss (some s) =
      Found s ss
      × ((matches rte sip dip sport dport s ≡ true)
          ⊎ ((listens rte dport s ≡ true)
              × All (λ x. matches rte sip dip sport dport x ≡ false) ss))

  -- In a table of different streams the search returns a stream of the table that has the four
  -- addresses; a listener of the port only if no stream has them; and nothing only if neither is
  -- there.
  pub ng_tcp_stream_search-Searched :
      (sip dip sport dport : ℕ) (ss : List (Stream rte))
      → distinct ss ≡ true
      → Searched sip dip sport dport ss (ng_tcp_stream_search rte sip dip sport dport ss)
  unfolding ng_tcp_stream_search
  ng_tcp_stream_search-Searched sip dip sport dport ss d =
      elim (Option-cases (first rte (matches rte sip dip sport dport) ss)) [
        | inr (s, e) ↦
            rw e (let r = first-Found (matches rte sip dip sport dport) ss e d in (r.0, inl r.1))
        | inl e ↦ rw e (
            fallback sip dip sport dport ss (first-none (matches rte sip dip sport dport) ss e) d
              (Option-cases (first rte (listens rte dport) ss)))
      ]
    where
      fallback :
          (sip dip sport dport : ℕ) (ss : List (Stream rte))
          → All (λ x. matches rte sip dip sport dport x ≡ false) ss
          → distinct ss ≡ true
          → (first rte (listens rte dport) ss ≡ none)
            ⊎ ((s : Stream rte) × (first rte (listens rte dport) ss ≡ some s))
          → Searched sip dip sport dport ss (first rte (listens rte dport) ss)
      fallback sip dip sport dport ss n d (inl e) = rw e (n, first-none (listens rte dport) ss e)
      fallback sip dip sport dport ss n d (inr (s, e)) =
          rw e (let r = first-Found (listens rte dport) ss e d in (r.0, inr (r.1, n)))
