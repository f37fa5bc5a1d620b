-- ===== src/Net/Output/Timer.antt =====
-- dpdk-code/14_tcp_concurrency/tcp_concurrency.c: the frames of arp_request_timer_cb.
use dpdk_learning.Base.{
  ◌<◌, bytes_eq, Option, none, some, if◌then◌else◌, take, drop, Bool-cases, inl, inr, ℕ, zero, suc,
  ◌+◌, ◌*◌, ◌%◌, ◌^◌, ◌≤◌, ◌≡◌, ◌∙◌, refl, sym, ap, true, List, [], ◌∷◌, ◌++◌, append_assoc,
  append-nil, length, length-append, arith,
}
use dpdk_learning.Net.Rte.{Rte}
use dpdk_learning.Net.State.{Run, crash, exit, wait, done}
use dpdk_learning.Net.Arp.{ArpTable, ng_get_dst_macaddr}
use dpdk_learning.Net.Frame.{
  load16, load32, mac6, default_arp_mac, ether_type_arp, ether_type_ipv4, ng_encode_arp_pkt,
  ng_send_arp,
}
use dpdk_learning.Net.Frame.RoundTrip.{loaded16, loaded32}
use dpdk_learning.Net.Output.{
  arp_op_request, else_default, World, request_addresses, arp_request_timer_cb,
}

-- The address of the network of `local` with the last byte given, which is the highest one of the
-- word.
abbrev pub address : ℕ → ℕ → ℕ
address local i = local % 2 ^ 24 + i * 2 ^ 24

module _ (rte : Rte) where
  -- The request of `local` for an address, with what the table has for it.
  abbrev pub request : ArpTable → List ℕ → ℕ → ℕ → List ℕ
  request arpt src local dst =
      ng_encode_arp_pkt rte arp_op_request src (else_default (ng_get_dst_macaddr arpt dst)) local
        dst

  -- The requests for `n` addresses in a row.
  unfoldable pub requests : ArpTable → List ℕ → ℕ → ℕ → ℕ → List (List ℕ)
  requests arpt src local zero i = []
  requests arpt src local (suc n) i =
      request arpt src local (address local i) ∷ requests arpt src local n (i + 1)

  -- The run returns, the frames are in the ring `out` behind those before, and the tables stay.
  abbrev pub Requested : World rte → List (List ℕ) → Run (World rte) → Type 0
  Requested w frames (done w') =
      (rte.items w'.out ≡ rte.items w.out ++ frames)
      × (w'.arpt ≡ w.arpt)
      × (w'.stack.tcb_set ≡ w.stack.tcb_set)
      × (w'.stack.lhost ≡ w.stack.lhost)
  Requested w frames crash = ⊥
  Requested w frames exit = ⊥
  Requested w frames wait = ⊥

  -- One more frame in front.
  Requested-cons :
      (w w1 : World rte) (f : List ℕ) (frames : List (List ℕ)) (r : Run (World rte))
      → rte.items w1.out ≡ rte.items w.out ++ (f ∷ [])
      → w1.arpt ≡ w.arpt
      → w1.stack.tcb_set ≡ w.stack.tcb_set
      → w1.stack.lhost ≡ w.stack.lhost
      → Requested w1 frames r
      → Requested w (f ∷ frames) r
  Requested-cons w w1 f frames (done w') e a t l (e', a', t', l') = (
    e' ∙ ap (λ xs. xs ++ frames) e ∙ append_assoc (rte.items w.out) (f ∷ []) frames,
    a' ∙ a,
    t' ∙ t,
    l' ∙ l,
  )
  Requested-cons w w1 f frames crash e a t l h = h
  Requested-cons w w1 f frames exit e a t l h = h
  Requested-cons w w1 f frames wait e a t l h = h

  module _ (memory : (n : ℕ) → rte.alloc n ≡ true) (local : ℕ) where
    request_addresses-Requested :
        (n i : ℕ) (w : World rte)
        → length (rte.items w.out) + n ≤ rte.room
        → Requested w
            (requests w.arpt w.stack.src_mac local n i)
            (request_addresses rte n i local w)
    unfolding request_addresses requests ng_send_arp
    request_addresses-Requested zero i w h = (sym (append-nil _), refl, refl, refl)
    request_addresses-Requested (suc n) i w h =
        let f = request w.arpt w.stack.src_mac local (address local i) in
        let w1 : World rte = record w {
          out = rte.enqueue w.out f;
          stack = record w.stack { clock = w.stack.clock + 1 };
        } in
        let e = rte.items-enqueue w.out f (omega (arith, h)) in
        let room : length (rte.items w1.out) + n ≤ rte.room =
          omega (arith, ap length e, length-append (rte.items w.out) (f ∷ []), h) in
        rw (memory w.stack.clock) (
          Requested-cons w w1 f _ _ e refl refl refl
            (request_addresses-Requested n (i + 1) w1 room))

    -- With memory to be had and room for 254 frames in the ring `out`, the timer's callback returns and
    -- puts the requests for the last bytes from 1 to 254 behind what is there; the tables stay.
    pub arp_request_timer_cb-Requested :
        (w : World rte)
        → length (rte.items w.out) + 254 ≤ rte.room
        → Requested w
            (requests w.arpt w.stack.src_mac local 254 1)
            (arp_request_timer_cb rte local w)
    unfolding arp_request_timer_cb
    arp_request_timer_cb-Requested w h = request_addresses-Requested 254 1 w h

-- Where a request for an address goes, by what the table has for it: an address that is not known, and
-- the one for all, become zeros.
abbrev pub frame_target : Option (List ℕ) → List ℕ
frame_target none = 0 ∷ 0 ∷ 0 ∷ 0 ∷ 0 ∷ 0 ∷ []
frame_target (some mac) =
    if bytes_eq (mac6 mac) default_arp_mac then (0 ∷ 0 ∷ 0 ∷ 0 ∷ 0 ∷ 0 ∷ []) else mac6 mac

module _ (rte : Rte) (arpt : ArpTable) (src : List ℕ) (local : ℕ) where
  -- An ARP request of `local` with the address `src`, for the address `dst`.
  pub record IsRequest (dst : ℕ) (frame : List ℕ) : Type 0 where
    pub to_mac : take 6 frame ≡ frame_target (ng_get_dst_macaddr arpt dst)
    pub from_mac : take 6 (drop 6 frame) ≡ mac6 src
    pub ether_type : load16 frame 12 ≡ rte.ntohs ether_type_arp
    pub hardware : load16 frame 14 ≡ rte.ntohs 1
    pub protocol : load16 frame 16 ≡ rte.ntohs ether_type_ipv4
    pub opcode : load16 frame 20 ≡ rte.ntohs 1
    pub sender_mac : take 6 (drop 22 frame) ≡ mac6 src
    pub sender_ip : load32 frame 28 ≡ local
    pub target_mac : take 6 (drop 32 frame) ≡ mac6 (else_default (ng_get_dst_macaddr arpt dst))
    pub target_ip : load32 frame 38 ≡ dst

  -- The frames are requests for `n` addresses in a row, from last byte `i` on, and no others.
  abbrev pub AreRequests : ℕ → ℕ → List (List ℕ) → Type 0
  AreRequests zero i [] = Unit
  AreRequests zero i (f ∷ fs) = ⊥
  AreRequests (suc n) i [] = ⊥
  AreRequests (suc n) i (f ∷ fs) = IsRequest (address local i) f × AreRequests n (i + 1) fs

  mac-target :
      (o : Option (List ℕ))
      → mac6 (if bytes_eq (mac6 (else_default o)) default_arp_mac then [] else else_default o)
        ≡ frame_target o
  mac-target none = refl
  mac-target (some mac) = elim (Bool-cases (bytes_eq (mac6 mac) default_arp_mac)) [
    | inl e ↦ rw e refl
    | inr e ↦ rw e refl
  ]

  module _ (fits : local < 2 ^ 32) where
    request-IsRequest :
        (i : ℕ)
        → i < 256
        → IsRequest (address local i) (request rte arpt src local (address local i))
    unfolding ng_encode_arp_pkt
    request-IsRequest i h = record {
      to_mac = mac-target (ng_get_dst_macaddr arpt (address local i));
      from_mac = refl;
      ether_type = loaded16 (rte.ntohs ether_type_arp) (rte.ntohs-lt ether_type_arp (omega arith));
      hardware = loaded16 (rte.ntohs 1) (rte.ntohs-lt 1 (omega arith));
      protocol = loaded16 (rte.ntohs ether_type_ipv4) (rte.ntohs-lt ether_type_ipv4 (omega arith));
      opcode = loaded16 (rte.ntohs 1) (rte.ntohs-lt 1 (omega arith));
      sender_mac = refl;
      sender_ip = loaded32 local fits;
      target_mac = refl;
      target_ip = loaded32 (address local i) (omega (arith, h));
    }

    requests-AreRequests :
        (n i : ℕ) → i + n ≤ 256 → AreRequests n i (requests rte arpt src local n i)
    unfolding requests
    requests-AreRequests zero i h = tt
    requests-AreRequests (suc n) i h =
        (request-IsRequest i (omega (arith, h)), requests-AreRequests n (i + 1) (omega (arith, h)))

-- With memory to be had and room for 254 frames in the ring `out`, the timer's callback returns and
-- puts behind what is there one ARP request for each address of the host's network, from last byte 1
-- to 254, in this order. Each asks from the host's two addresses, and is for the address that the ARP
-- table has; for one that it does not have the frame goes to the address of zeros, and asks for the
-- one of all ones. The tables stay.
pub arp_request_timer_cb-AreRequests :
    (rte : Rte) (local : ℕ) (w : World rte)
    → ((n : ℕ) → rte.alloc n ≡ true)
    → local < 2 ^ 32
    → length (rte.items w.out) + 254 ≤ rte.room
    → (frames : List (List ℕ)) × AreRequests rte w.arpt w.stack.src_mac local 254 1 frames
      × Requested rte w frames (arp_request_timer_cb rte local w)
arp_request_timer_cb-AreRequests rte local w memory fits h = (
  requests rte w.arpt w.stack.src_mac local 254 1,
  requests-AreRequests rte w.arpt w.stack.src_mac local fits 254 1 (omega arith),
  arp_request_timer_cb-Requested rte memory local w h,
)
