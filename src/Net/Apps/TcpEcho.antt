-- ===== src/Net/Apps/TcpEcho.antt =====
-- dpdk-code/14_tcp_concurrency/tcp_concurrency.c: a segment through a round of tcp_server_entry at a
-- connection.
use dpdk_learning.Base.{
  take-length, ℕ, zero, suc, ◌+◌, ◌%◌, ◌≤◌, ◌<◌, ◌^◌, ◌≡◌, refl, sym, true, false, some, List, [],
  ◌∷◌, ◌++◌, ◌==◌, ltb, drop, length, arith, take-append, append_assoc, length-append, length-drop,
  Bool-cases, inl, inr,
}
use dpdk_learning.Net.Rte.{Rte, Fd}
use dpdk_learning.Net.State.{Run, crash, exit, wait, done, Fragment, Stream, Stack, write_stream}
use dpdk_learning.Net.Socket.Lookup.{
  TcpSocket, get_hostinfo_fromfd-TcpSocket, write_stream-TcpSocket,
}
use dpdk_learning.Net.SocketData.{receive_fragment, nrecv, data_segment, sent, send_stream, nsend}
use dpdk_learning.Net.Apps.{buffer_size, overlay, text_of, serve_client}

-- A buffer of `n` bytes with a zero behind them.
abbrev pub IsEnded : ℕ → List ℕ → Type 0
IsEnded n buff = (pre : List ℕ) × (buff ≡ pre ++ (0 ∷ [])) × (length pre ≡ n)

text_of-ended : (pre : List ℕ) → (text : List ℕ) × (text_of (pre ++ (0 ∷ [])) ≡ some text)
text_of-ended [] = ([], refl)
text_of-ended (x ∷ xs) =
    let (text, e) = text_of-ended xs in
    elim (Bool-cases (x == 0)) [ inl z ↦ ([], rw z refl) | inr z ↦ (x ∷ text, rw (z, e) refl) ]

drop-append_le : (n : ℕ) (xs ys : List ℕ) → n ≤ length xs → drop n (xs ++ ys) ≡ drop n xs ++ ys
drop-append_le zero xs ys h = refl
drop-append_le (suc n) [] ys h = ground arith
drop-append_le (suc n) (x ∷ xs) ys h = drop-append_le n xs ys (omega arith)

overlay-IsEnded :
    (n : ℕ) (bytes buff : List ℕ)
    → length bytes ≤ n
    → IsEnded n buff
    → IsEnded n (overlay bytes buff)
overlay-IsEnded n bytes buff h (pre, e, l) = (
  bytes ++ drop (length bytes) pre,
  rw (e, drop-append_le (length bytes) pre (0 ∷ []) (rw l h)) (sym (append_assoc bytes _ _)),
  rw (length-append bytes (drop (length bytes) pre), length-drop (length bytes) pre, l)
      (omega arith),
)

text_of-IsEnded :
    (n : ℕ) (buff : List ℕ) → IsEnded n buff → (text : List ℕ) × (text_of buff ≡ some text)
text_of-IsEnded n buff (pre, e, l) = rw e (text_of-ended pre)

module _ (rte : Rte) where
  nrecv-fragment :
      (fd : Fd) (f : Fragment) (bytes : List ℕ) (s : Stream rte) (ring ring' : rte.Ring Fragment)
      (st : Stack rte)
      → TcpSocket rte fd s st
      → s.rcvbuf ≡ some ring
      → rte.dequeue ring ≡ some (f, ring')
      → f.payload ≡ some bytes
      → f.len ≡ length bytes
      → ltb buffer_size (length bytes) ≡ false
      → (length bytes == 0) ≡ false
      → nrecv rte fd buffer_size st
        ≡ done (some (length bytes, bytes), write_stream rte (record s { rcvbuf = some ring' }) st)
  unfolding nrecv receive_fragment
  nrecv-fragment fd f bytes s ring ring' st t r d p l small z =
      rw (get_hostinfo_fromfd-TcpSocket rte fd s st t, r, d, l, small, z, p, take-length bytes) refl

  -- The stream after `nsend` of these bytes.
  abbrev sent_stream : rte.Ring Fragment → List ℕ → Stream rte → Stream rte
  sent_stream ring bytes s = record s {
    sndbuf = some (rte.enqueue ring (data_segment rte s bytes));
  }

  nsend-stream :
      (fd : Fd) (bytes : List ℕ) (s : Stream rte) (ring : rte.Ring Fragment) (st : Stack rte)
      → TcpSocket rte fd s st
      → s.sndbuf ≡ some ring
      → rte.alloc st.clock ≡ true
      → rte.alloc (st.clock + 1) ≡ true
      → nsend rte fd bytes st
        ≡ done (
          sent (length bytes % 2 ^ 32),
          write_stream rte (sent_stream ring bytes s) (record st { clock = st.clock + 2 }),
        )
  unfolding nsend send_stream
  nsend-stream fd bytes s ring st t b a a' =
      rw (get_hostinfo_fromfd-TcpSocket rte fd s st t, a, a', b) refl

  -- The connection keeps its place and has these fragments to be read, and the answer behind those
  -- to be sent. The buffer still ends with a zero.
  abbrev pub Returned :
      Fd → Stream rte → List ℕ → List Fragment → List Fragment → Run (List ℕ × Stack rte) → Type 0
  Returned fd s bytes fs queued (done (buff', st')) =
      IsEnded 1023 buff'
      × ((r : rte.Ring Fragment) × (q : rte.Ring Fragment) × TcpSocket rte fd
            (record s { rcvbuf = some r; sndbuf = some q }) st'
          × (rte.items r ≡ fs)
          × (rte.items q ≡ queued ++ (data_segment rte s bytes ∷ [])))
  Returned fd s bytes fs queued crash = ⊥
  Returned fd s bytes fs queued exit = ⊥
  Returned fd s bytes fs queued wait = ⊥

  -- For a descriptor of a TCP stream whose first fragment to be read has from 1 to 1023 bytes, a
  -- buffer of 1024 bytes that ends with a zero, room in the send buffer, and memory to be had: a round
  -- of tcp_server_entry at this connection returns, takes the fragment out, and queues one segment
  -- with the same bytes, and the numbers of the stream, behind those to be sent. Nothing else of the
  -- stream changes, and the buffer ends with a zero again.
  pub serve_client-Echoed :
      (epfd fd : Fd) (s : Stream rte) (f : Fragment) (fs : List Fragment) (bytes buff : List ℕ)
      (r q : rte.Ring Fragment) (st : Stack rte)
      → TcpSocket rte fd s st
      → s.rcvbuf ≡ some r
      → s.sndbuf ≡ some q
      → rte.items r ≡ f ∷ fs
      → f.payload ≡ some bytes
      → f.len ≡ length bytes
      → (length bytes == 0) ≡ false
      → length bytes ≤ 1023
      → IsEnded 1023 buff
      → length (rte.items q) < rte.room
      → rte.alloc st.clock ≡ true
      → rte.alloc (st.clock + 1) ≡ true
      → Returned fd s bytes fs (rte.items q) (serve_client rte epfd fd buff st)
  unfolding serve_client
  serve_client-Echoed epfd fd s f fs bytes buff r q st t b b' i p l z small ended room a a' =
      let (r', deq, i') = rte.dequeue_cons r f fs i in
      let s1 : Stream rte = record s { rcvbuf = some r' } in
      let t1 : TcpSocket rte fd s1 (write_stream rte s1 st) =
        write_stream-TcpSocket rte fd s s1 st t refl refl in
      let ended' = overlay-IsEnded 1023 bytes buff small ended in
      let (text, e) = text_of-IsEnded 1023 (overlay bytes buff) ended' in
      rw
        (
          nrecv-fragment fd f bytes s r r' st t b deq p l (ground arith) z,
          z,
          e,
          fits bytes (drop (length bytes) buff),
          take-append bytes (drop (length bytes) buff),
          nsend-stream fd bytes s1 q (write_stream rte s1 st) t1 b' a a',
        )
        (
          ended',
          (
            r',
            rte.enqueue q (data_segment rte s bytes),
            write_stream-TcpSocket rte fd s1 (sent_stream q bytes s1)
                (record (write_stream rte s1 st) { clock = st.clock + 2 }) t1 refl refl,
            i',
            rte.items-enqueue q _ room,
          ),
        )
    where
      fits : (xs ys : List ℕ) → ltb (length (xs ++ ys)) (length xs) ≡ false
      fits xs ys = rw (length-append xs ys) (ground arith)
