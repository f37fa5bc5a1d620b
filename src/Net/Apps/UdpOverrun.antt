-- ===== src/Net/Apps/UdpOverrun.antt =====
-- dpdk-code/14_tcp_concurrency/tcp_concurrency.c: a datagram through udp_process and a round of
-- udp_server_entry.
use dpdk_learning.Base.{
  ℕ, length-take, ◌+◌, ◌-◌, ◌<◌, ◌≤◌, ◌≡◌, ◌∙◌, refl, ap, Bool, true, false, ◌&&◌, some, List, [],
  ◌∷◌, ◌++◌, ◌==◌, leb, ltb, take, length, arith, All, Bool-cases, inl, inr,
}
use dpdk_learning.Net.Rte.{Rte, Fd}
use dpdk_learning.Net.State.{crash, done, Offload, Host, Stack, ipproto_udp}
use dpdk_learning.Net.Socket.{put_host, first_host, get_hostinfo_fromip_port}
use dpdk_learning.Net.Socket.Lookup.{UdpSocket, get_hostinfo_fromfd-UdpSocket, put_host-UdpSocket}
use dpdk_learning.Net.SocketData.{nrecvfrom}
use dpdk_learning.Net.Output.{UdpHdr, queued, udp_found, receive_udp, udp_process}
use dpdk_learning.Net.Apps.{udp_server_round}

module _ (rte : Rte) where
  -- The socket is bound to the address, the port and the protocol.
  abbrev pub IsBound : ℕ → ℕ → ℕ → Host rte → Type 0
  IsBound ip port proto h = (h.localip ≡ ip) × (h.localport ≡ port) × (h.protocol ≡ proto)

  abbrev bound : ℕ → ℕ → ℕ → Host rte → Bool
  bound ip port proto h = (ip == h.localip) && ((port == h.localport) && (proto == h.protocol))

  bound-false :
      (ip port proto : ℕ) (h : Host rte) → ¬ IsBound ip port proto h → bound ip port proto h ≡ false
  bound-false ip port proto h n = elim (Bool-cases (bound ip port proto h)) [
    | inr e ↦ e
    | inl e ↦ absurd (n (ground (arith, e), ground (arith, e), ground (arith, e)))
  ]

  bound-true :
      (ip port proto : ℕ) (h : Host rte) → IsBound ip port proto h → bound ip port proto h ≡ true
  bound-true ip port proto h (a, b, c) = ground (arith, a, b, c)

  -- The first socket that is bound there is found.
  first_host-bound :
      (ip port proto : ℕ) (pre post : List (Host rte)) (h : Host rte)
      → All (λ x. ¬ IsBound ip port proto x) pre
      → IsBound ip port proto h
      → first_host rte (bound ip port proto) (pre ++ (h ∷ post)) ≡ some h
  first_host-bound ip port proto [] post h n b = rw (bound-true ip port proto h b) refl
  first_host-bound ip port proto (x ∷ pre) post h (n, ns) b =
      rw (bound-false ip port proto x n) (first_host-bound ip port proto pre post h ns b)

  -- The datagram as the socket holds it: its length counts the header of eight bytes.
  abbrev pub datagram_of : ℕ → ℕ → UdpHdr → Offload
  datagram_of sip dip hdr = record {
    sip = sip;
    dip = dip;
    sport = hdr.src_port;
    dport = hdr.dst_port;
    protocol = ipproto_udp;
    payload = take (hdr.dgram_len - 8) hdr.body;
    len = hdr.dgram_len;
  }

  abbrev pub received_host : ℕ → ℕ → UdpHdr → Host rte → Host rte
  received_host sip dip hdr h = record h { rcvbuf = rte.enqueue h.rcvbuf (datagram_of sip dip hdr) }

  abbrev stored_stack : ℕ → ℕ → UdpHdr → Host rte → Stack rte → Stack rte
  stored_stack sip dip hdr h st = record st {
    lhost = put_host rte (received_host sip dip hdr h) st.lhost;
    clock = st.clock + 2;
  }

  udp_process-stored :
      (sip dip proto : ℕ) (hdr : UdpHdr) (h : Host rte) (st : Stack rte)
      → get_hostinfo_fromip_port rte dip hdr.dst_port proto st ≡ some h
      → 8 < hdr.dgram_len
      → hdr.dgram_len - 8 ≤ length hdr.body
      → rte.alloc st.clock ≡ true
      → rte.alloc (st.clock + 1) ≡ true
      → udp_process rte sip dip proto hdr st ≡ done (queued, stored_stack sip dip hdr h st)
  unfolding udp_process udp_found receive_udp
  udp_process-stored sip dip proto hdr h st f long within a a' =
      let e : leb hdr.dgram_len 8 ≡ false = ground (arith, long) in
      let w : leb (hdr.dgram_len - 8) (length hdr.body) ≡ true = ground (arith, within) in
      rw (f, udp_found, a, receive_udp, e, a', w) refl

  -- A datagram whose length is more than its bytes is read past its end.
  udp_server_round-long :
      (fd : Fd) (h : Host rte) (ol : Offload) (ols : List Offload) (buffer : List ℕ)
      (st : Stack rte)
      → UdpSocket rte fd h st
      → rte.items h.rcvbuf ≡ ol ∷ ols
      → ltb (length ol.payload) ol.len ≡ true
      → udp_server_round rte fd buffer st ≡ crash
  unfolding udp_server_round nrecvfrom
  udp_server_round-long fd h ol ols buffer st u i e =
      let (ring, deq, i') = rte.dequeue_cons h.rcvbuf ol ols i in
      rw (get_hostinfo_fromfd-UdpSocket rte fd h st u, deq, e) refl

  -- A datagram with data that lie within the packet, for which the first socket bound to its address,
  -- port and protocol has nothing to be read yet, with memory to be had: `udp_process` returns 0, and
  -- the socket, which its descriptor leads to, then has the data to be read, as many bytes as the
  -- header says, with the addresses and the ports, and with a length that counts the header. A round of
  -- udp_server_entry at the descriptor, whatever its buffer holds, then reads past the end of the data.
  pub udp_server_round-overrun :
      (sip dip proto : ℕ) (hdr : UdpHdr) (pre post : List (Host rte)) (h : Host rte)
      (buffer : List ℕ) (st : Stack rte)
      → st.lhost ≡ pre ++ (h ∷ post)
      → All (λ x. ¬ IsBound dip hdr.dst_port proto x) pre
      → IsBound dip hdr.dst_port proto h
      → UdpSocket rte h.fd h st
      → rte.items h.rcvbuf ≡ []
      → 0 < rte.room
      → 8 < hdr.dgram_len
      → hdr.dgram_len - 8 ≤ length hdr.body
      → rte.alloc st.clock ≡ true
      → rte.alloc (st.clock + 1) ≡ true
      → (st' : Stack rte) × (h' : Host rte) × (udp_process rte sip dip proto hdr st
          ≡ done (queued, st'))
        × UdpSocket rte h.fd h' st'
        × (rte.items h'.rcvbuf ≡ datagram_of sip dip hdr ∷ [])
        × (udp_server_round rte h.fd buffer st' ≡ crash)
  unfolding get_hostinfo_fromip_port
  udp_server_round-overrun sip dip proto hdr pre post h buffer st e n b u i room long within a a' =
      let f : get_hostinfo_fromip_port rte dip hdr.dst_port proto st ≡ some h =
        rw e (first_host-bound dip hdr.dst_port proto pre post h n b) in
      let h' : Host rte = received_host sip dip hdr h in
      let st' : Stack rte = stored_stack sip dip hdr h st in
      let u' : UdpSocket rte h.fd h' st' =
        put_host-UdpSocket rte h.fd h h' st (st.clock + 2) u refl refl in
      let i' : rte.items h'.rcvbuf ≡ datagram_of sip dip hdr ∷ [] =
        rte.items-enqueue h.rcvbuf _ (omega (arith, ap length i, room))
        ∙ ap (λ l. l ++ (datagram_of sip dip hdr ∷ [])) i in
      let size = length-take (hdr.dgram_len - 8) hdr.body within in
      let more : ltb (length (take (hdr.dgram_len - 8) hdr.body)) hdr.dgram_len ≡ true =
        rw size (ground (arith, long)) in
      (
        st',
        h',
        udp_process-stored sip dip proto hdr h st f long within a a',
        u',
        i',
        udp_server_round-long h.fd h' (datagram_of sip dip hdr) [] buffer st' u' i' more,
      )
