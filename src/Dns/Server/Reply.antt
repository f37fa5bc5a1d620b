-- ===== src/Dns/Server/Reply.antt =====
-- dpdk-code/dns/dpdk_kni.c: what becomes of a frame, on every branch.
use dpdk_learning.Base.{
  ℕ, ◌+◌, ◌-◌, ◌/◌, ◌%◌, ◌^◌, ◌<◌, ◌≤◌, ◌≡◌, ◌∙◌, refl, ap, min, true, false, List, [], ◌∷◌, ◌==◌,
  take, drop, length, arith, ◌⊎◌,
}
use dpdk_learning.Dns.Wire.{Outcome, fault, Status, Message}
use dpdk_learning.Dns.Wire
use dpdk_learning.Dns.Query.{decode_msg}
use dpdk_learning.Dns.Response.{encode_msg}
use dpdk_learning.Dns.Resolve.Answers.{response_spec}
use dpdk_learning.Dns.Server.{
  udp_port, cleared, Handled, to_kni, ignored, replied, create_eth_ip_udp_pkt, data_length, is_udp,
}
use dpdk_learning.Net.Rte.{Rte}
use dpdk_learning.Net.State.{Run, crash, exit, wait, done}
use dpdk_learning.Net.Frame.{load16, load32, mac6, mbuf_room, read_ip}
use dpdk_learning.Net.Frame.RoundTrip.{loaded16, loaded32}
use dpdk_learning.Net.Output.{read_udp}
use dpdk_learning.Ddos.CountBit.Loop.{IsMemory}
use dpdk_learning.Icmp.Responder.Echo.{load16-lt, load32-lt}

-- What `decode_msg` makes of the data of a frame.
abbrev pub decoded : Rte → List ℕ → Outcome (Status × Message)
decoded rte frame = decode_msg cleared (drop 42 frame) (data_length rte frame)

-- The bytes of the response to a message.
abbrev pub response : Message → List ℕ
response msg = (encode_msg (response_spec msg)).1

module _ (rte : Rte) (src_mac : List ℕ) where
  open rte use {ntohs}

  -- A datagram that carries `out` back to where a frame came from: the addresses and the ports are
  -- exchanged, at every level.
  pub record Carries (frame out reply : List ℕ) : Type 0 where
    pub to_mac : take 6 reply ≡ mac6 (take 6 (drop 6 frame))
    pub from_mac : take 6 (drop 6 reply) ≡ mac6 src_mac
    pub from_ip : (read_ip rte reply).src_addr ≡ (read_ip rte frame).dst_addr
    pub to_ip : (read_ip rte reply).dst_addr ≡ (read_ip rte frame).src_addr
    pub ip_length : (read_ip rte reply).total_length ≡ length out + 28
    pub from_port : (read_udp rte reply).src_port ≡ (read_udp rte frame).dst_port
    pub to_port : (read_udp rte reply).dst_port ≡ (read_udp rte frame).src_port
    pub udp_length : (read_udp rte reply).dgram_len ≡ length out + 8
    pub body : (read_udp rte reply).body ≡ out

  -- The two bytes of a number that was stored in the order of the wire.
  stored16 : (w : ℕ) → w < 2 ^ 16 → ntohs (load16 (ntohs w % 256 ∷ ntohs w / 256 % 256 ∷ []) 0) ≡ w
  stored16 w h = ap ntohs (loaded16 (ntohs w) (rte.ntohs-lt w h)) ∙ rte.ntohs-ntohs w h

  port_back :
      (w : ℕ) → w < 2 ^ 16 → load16 (ntohs (ntohs w) % 256 ∷ ntohs (ntohs w) / 256 % 256 ∷ []) 0 ≡ w
  port_back w h =
      loaded16 (ntohs (ntohs w)) (rte.ntohs-lt (ntohs w) (rte.ntohs-lt w h)) ∙ rte.ntohs-ntohs w h

  abbrev pub reply_to : List ℕ → List ℕ → List ℕ
  reply_to frame out =
      create_eth_ip_udp_pkt rte src_mac (length out + 42) (take 6 (drop 6 frame)) (load32 frame 30)
        (load32 frame 26) (ntohs (load16 frame 36)) (ntohs (load16 frame 34)) out

  pub reply_to-Carries :
      (frame out : List ℕ)
      → IsMemory frame
      → length out + 42 < 2 ^ 16
      → Carries frame out (reply_to frame out)
  unfolding create_eth_ip_udp_pkt read_ip read_udp
  reply_to-Carries frame out m short = record {
    to_mac = refl;
    from_mac = refl;
    from_ip = loaded32 (load32 frame 30) (load32-lt frame 30 m);
    to_ip = loaded32 (load32 frame 26) (load32-lt frame 26 m);
    ip_length = stored16 ((length out + 42 - 14) % 2 ^ 16) (omega arith) ∙ omega (arith, short);
    from_port = port_back (load16 frame 36) (load16-lt frame 36 m);
    to_port = port_back (load16 frame 34) (load16-lt frame 34 m);
    udp_length = stored16 ((length out + 8) % 2 ^ 16) (omega arith) ∙ omega (arith, short);
    body = refl;
  }

  -- What each outcome says of the frame.
  abbrev pub Served : ℕ → List ℕ → Run Handled → Type 0
  Served n frame (done to_kni) = is_udp rte frame ≡ false
  Served n frame (done ignored) =
      (is_udp rte frame ≡ true) × ((udp_port == ntohs (load16 frame 36)) ≡ false)
  Served n frame (done (replied reply)) =
      (is_udp rte frame ≡ true)
      × ((udp_port == ntohs (load16 frame 36)) ≡ true)
      × (r : Status × Message) × (decoded rte frame ≡ Wire.done r)
      × Carries frame (response r.1) reply
  Served n frame crash =
      (is_udp rte frame ≡ true)
      × ((udp_port == ntohs (load16 frame 36)) ≡ true)
      × ((decoded rte frame ≡ fault)
          ⊎ ((r : Status × Message) × (decoded rte frame ≡ Wire.done r)
              × (min (length frame) mbuf_room < 42 + length (response r.1))))
  Served n frame exit =
      (is_udp rte frame ≡ true)
      × ((udp_port == ntohs (load16 frame 36)) ≡ true)
      × (rte.alloc n ≡ false)
      × (r : Status × Message) × (decoded rte frame ≡ Wire.done r)
      × (42 + length (response r.1) ≤ length frame)
  Served n frame wait = ⊥
