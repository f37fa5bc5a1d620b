-- ===== src/Net/SocketData/Delivery.antt =====
-- dpdk-code/14_tcp_concurrency/tcp_concurrency.c: what nrecv copies to its caller, and what it
-- leaves in the receive buffer.
use dpdk_learning.Base.{
  ℕ, zero, suc, ◌-◌, ◌<◌, ◌≡◌, ◌∙◌, refl, sym, ap, true, false, Option, none, some, List, [], ◌∷◌,
  ◌++◌, ◌==◌, ==_iff, ltb, if◌then◌else◌, take, length, arith, Bool-cases, inl, inr,
}
use dpdk_learning.Net.Rte.{Rte, Fd}
use dpdk_learning.Net.State.{Run, crash, exit, wait, done, Fragment, Stream, Stack, write_stream}
use dpdk_learning.Net.Socket.{tcp, get_hostinfo_fromfd}
use dpdk_learning.Net.SocketData.{bytes_of, rest_of, receive_fragment, nrecv}

take_all : (n : ℕ) (xs : List ℕ) → ltb n (length xs) ≡ false → take n xs ≡ xs
take_all zero [] h = refl
take_all zero (x ∷ xs) h = ground arith
take_all (suc n) [] h = refl
take_all (suc n) (x ∷ xs) h = ap (λ ys. x ∷ ys) (take_all n xs (ground arith))

take_none : (n : ℕ) (xs : List ℕ) → (length xs == 0) ≡ true → [] ≡ take n xs
take_none zero xs h = refl
take_none (suc n) [] h = refl
take_none (suc n) (x ∷ xs) h = ground arith

take_whole : (n : ℕ) (xs : List ℕ) → ltb n (length xs) ≡ false → take (length xs) xs ≡ take n xs
take_whole n xs h = take_all (length xs) xs (ground arith) ∙ sym (take_all n xs h)

module _ (rte : Rte) where
  -- The ring after a call with room for `n` bytes on a ring whose first fragment is `f`.
  abbrev pub left_over : ℕ → Fragment → List Fragment → List Fragment
  left_over n f fs = if ltb n f.len then fs ++ (rest_of rte n f ∷ []) else fs

  abbrev pub Delivered :
      ℕ
      → Fragment
      → List ℕ
      → List Fragment
      → Stream rte
      → Stack rte
      → (ℕ × List ℕ) × Stack rte
      → Type 0
  Delivered n f bytes fs s st ((k, copied), st') =
      (copied ≡ take n bytes)
      × (k ≡ (if ltb n (length bytes) then length bytes - n else length bytes))
      × ((ring : rte.Ring Fragment) × (rte.items ring ≡ left_over n f fs)
          × (st' ≡ write_stream rte (record s { rcvbuf = some ring }) st))

  receive_fragment-Delivered :
      (n : ℕ) (f : Fragment) (bytes : List ℕ) (ring : rte.Ring Fragment) (s : Stream rte)
      (st : Stack rte)
      → bytes_of rte f ≡ bytes
      → f.len ≡ length bytes
      → length (rte.items ring) < rte.room
      → Delivered n f bytes (rte.items ring) s st (receive_fragment rte n f ring s st)
  unfolding receive_fragment
  receive_fragment-Delivered n f bytes ring s st b l h = elim (Bool-cases (ltb n (length bytes))) [
    | inl e ↦ rw (l, e, b) (refl, refl, (rte.enqueue ring _, rte.items-enqueue ring _ h, refl))
    | inr e ↦ elim (Bool-cases (length bytes == 0)) [
      | inl z ↦
          rw (l, e, z)
            (take_none n bytes z, sym ((==_iff (length bytes) 0).0 z), (ring, refl, refl))
      | inr z ↦ rw (l, e, z, b) (take_whole n bytes e, refl, (ring, refl, refl))
    ]
  ]

  -- A call that returns.
  abbrev pub Delivers :
      ℕ
      → Fragment
      → List ℕ
      → List Fragment
      → Stream rte
      → Stack rte
      → Run (Option (ℕ × List ℕ) × Stack rte)
      → Type 0
  Delivers n f bytes fs s st (done (some r, st')) = Delivered n f bytes fs s st (r, st')
  Delivers n f bytes fs s st (done (none, st')) = ⊥
  Delivers n f bytes fs s st crash = ⊥
  Delivers n f bytes fs s st exit = ⊥
  Delivers n f bytes fs s st wait = ⊥

  -- For a descriptor of a TCP stream in whose receive buffer a fragment of these bytes is the first:
  -- `nrecv` with room for `n` bytes returns, copies the first `n` bytes of the fragment, all of them
  -- if there are no more, and takes the fragment out. A longer one is put back, behind the others and
  -- without these bytes, and then the call returns the length that is left, not the length copied.
  pub nrecv-Delivers :
      (fd : Fd) (n : ℕ) (f : Fragment) (fs : List Fragment) (bytes : List ℕ)
      (ring : rte.Ring Fragment) (s : Stream rte) (st : Stack rte)
      → get_hostinfo_fromfd rte fd st ≡ tcp s
      → s.rcvbuf ≡ some ring
      → rte.items ring ≡ f ∷ fs
      → bytes_of rte f ≡ bytes
      → f.len ≡ length bytes
      → length fs < rte.room
      → Delivers n f bytes fs s st (nrecv rte fd n st)
  unfolding nrecv
  nrecv-Delivers fd n f fs bytes ring s st h b i e l room =
      let (ring', deq, i') = rte.dequeue_cons ring f fs i in
      let r : Delivered n f bytes (rte.items ring') s st (receive_fragment rte n f ring' s st) =
        receive_fragment-Delivered n f bytes ring' s st e l (rw (← i') at room) in
      rw (h, b, deq) (rw i' at r)
