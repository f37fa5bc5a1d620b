-- ===== src/Net/Frame.antt =====
-- dpdk-code/14_tcp_concurrency/tcp_concurrency.c: the frames that the stack sends, and the headers
-- of a frame that it receives. A frame is the list of its bytes; the machine stores a word with its
-- low byte first.
pub mod RoundTrip
use dpdk_learning.Base.{
  ℕ, zero, suc, ◌+◌, ◌-◌, ◌*◌, ◌/◌, ◌%◌, ◌^◌, ◌≡◌, Bool, true, false, Option, none, some, List, [],
  ◌∷◌, ◌++◌, ◌==◌, leb, if◌then◌else◌, get_or, take, drop, length, bytes_eq,
}
use dpdk_learning.Net.Rte.{Rte}
use dpdk_learning.Net.State.{Run, crash, exit, wait, done, Fragment, ipproto_tcp, ipproto_udp}
use dpdk_learning.Net.Tcp.{TcpHdr, IpHdr}

-- A word in memory, and the word that is loaded from an offset.
abbrev pub store16 : ℕ → List ℕ
store16 w = (w % 256) ∷ (w / 256 % 256) ∷ []

abbrev pub store32 : ℕ → List ℕ
store32 w = (w % 256) ∷ (w / 256 % 256) ∷ (w / 65536 % 256) ∷ (w / 16777216 % 256) ∷ []

abbrev pub load16 : List ℕ → ℕ → ℕ
load16 bs i = get_or bs i 0 + 256 * get_or bs (i + 1) 0

abbrev pub load32 : List ℕ → ℕ → ℕ
load32 bs i =
    get_or bs i 0
    + 256 * get_or bs (i + 1) 0
    + 65536 * get_or bs (i + 2) 0
    + 16777216 * get_or bs (i + 3) 0

-- The six bytes of an address; the short list of a cleared one stands for zeros.
abbrev pub mac6 : List ℕ → List ℕ
mac6 m =
    get_or m 0 0 ∷ get_or m 1 0 ∷ get_or m 2 0 ∷ get_or m 3 0 ∷ get_or m 4 0 ∷ get_or m 5 0 ∷ []

abbrev pub default_arp_mac : List ℕ
default_arp_mac = 0xff ∷ 0xff ∷ 0xff ∷ 0xff ∷ 0xff ∷ 0xff ∷ []

abbrev pub ether_type_ipv4 : ℕ
ether_type_ipv4 = 0x0800

abbrev pub ether_type_arp : ℕ
ether_type_arp = 0x0806

-- The room for data in a packet's buffer, RTE_MBUF_DEFAULT_BUF_SIZE without its headroom.
abbrev pub mbuf_room : ℕ
mbuf_room = 2048

-- The length of a frame.
abbrev pub tcp_total : Fragment → ℕ
tcp_total f = f.len + 14 + 20 + 20 + f.optlen * 4

-- The IP header of a frame.
abbrev pub ip_of : List ℕ → List ℕ
ip_of frame = take 20 (drop 14 frame)

-- A segment with the checksum field of TCP set to zero.
abbrev pub uncheck : List ℕ → List ℕ
uncheck seg = take 16 seg ++ (0 ∷ 0 ∷ drop 18 seg)

module _ (rte : Rte) where
  open rte use {ntohs, ntohl, ip_cksum, l4_cksum, mbuf_byte}

  -- `k` bytes of the n-th allocation from an offset on, as they were found.
  abbrev pub found_bytes : ℕ → ℕ → ℕ → List ℕ
  found_bytes n i zero = []
  found_bytes n i (suc k) = mbuf_byte n i ∷ found_bytes n (i + 1) k

  abbrev pub eth_header : List ℕ → List ℕ → ℕ → List ℕ
  eth_header dst src type = mac6 dst ++ (mac6 src ++ store16 (ntohs type))

  -- The IPv4 header with the checksum given.
  abbrev pub ip_fields : ℕ → ℕ → ℕ → ℕ → ℕ → List ℕ
  ip_fields total proto sip dip sum =
      0x45
      ∷ 0
      ∷ (store16 (ntohs total)
          ++ (0 ∷ 0 ∷ 0 ∷ 0 ∷ 64 ∷ proto ∷ (store16 sum ++ (store32 sip ++ store32 dip))))

  -- The checksum is that of the header with a zero in its place.
  abbrev pub ip_header : ℕ → ℕ → ℕ → ℕ → List ℕ
  ip_header total proto sip dip =
      ip_fields total proto sip dip (ip_cksum (ip_fields total proto sip dip 0))

  abbrev pub tcp_fields : Fragment → ℕ → List ℕ
  tcp_fields f sum =
      store16 f.sport
      ++ (store16 f.dport
          ++ (store32 (ntohl f.seqnum)
              ++ (store32 (ntohl f.acknum)
                  ++ (f.hdrlen_off
                      ∷ f.tcp_flags
                      ∷ (store16 f.windows ++ (store16 sum ++ store16 f.tcp_urp))))))

  -- What stands behind the TCP header: `optlen` words that are not written, and the payload, which is
  -- not written either where it is NULL.
  abbrev pub tcp_body : ℕ → Fragment → List ℕ
  tcp_body n f = found_bytes n 54 (f.optlen * 4) ++ elim f.payload [
    | none ↦ found_bytes n (54 + f.optlen * 4) f.len
    | some bytes ↦ take f.len bytes
  ]

  abbrev pub tcp_segment : ℕ → List ℕ → Fragment → List ℕ
  tcp_segment n ip f = tcp_fields f (l4_cksum ip (tcp_fields f 0 ++ tcp_body n f)) ++ tcp_body n f

  -- The frame written into the n-th allocation.
  unfoldable pub ng_encode_tcp_apppkt : ℕ → ℕ → ℕ → List ℕ → List ℕ → Fragment → List ℕ
  ng_encode_tcp_apppkt n sip dip srcmac dstmac f =
      let ip = ip_header ((tcp_total f - 14) % 2 ^ 16) ipproto_tcp sip dip in
      eth_header dstmac srcmac ether_type_ipv4 ++ (ip ++ tcp_segment n ip f)

  -- The n-th allocation is the buffer. The code does not compare the length with its room, and a
  -- write past the end is a fault here.
  unfoldable pub ng_tcp_pkt : ℕ → ℕ → ℕ → List ℕ → List ℕ → Fragment → Run (List ℕ)
  ng_tcp_pkt n sip dip srcmac dstmac f =
      if rte.alloc n
      then (if leb (tcp_total f) mbuf_room
          then done (ng_encode_tcp_apppkt n sip dip srcmac dstmac f)
          else crash)
      else exit

  abbrev pub udp_fields : ℕ → ℕ → ℕ → ℕ → List ℕ
  udp_fields sport dport len sum =
      store16 sport ++ (store16 dport ++ (store16 (ntohs len) ++ store16 sum))

  -- The frame of `total` bytes. The code copies `udplen` bytes of data, eight more than belong into
  -- the frame; they lie behind its end.
  unfoldable pub ng_encode_udp_apppkt : ℕ → ℕ → ℕ → ℕ → List ℕ → List ℕ → List ℕ → ℕ → List ℕ
  ng_encode_udp_apppkt sip dip sport dport srcmac dstmac bytes total =
      let ip = ip_header (total - 14) ipproto_udp sip dip in
      let udplen = total - 34 in
      let body = take (udplen - 8) bytes in
      let sum = l4_cksum ip (udp_fields sport dport udplen 0 ++ body) in
      eth_header dstmac srcmac ether_type_ipv4
      ++ (ip ++ (udp_fields sport dport udplen sum ++ body))

  -- The bytes written are those of the frame and eight more.
  unfoldable pub ng_udp_pkt : ℕ → ℕ → ℕ → ℕ → ℕ → List ℕ → List ℕ → List ℕ → ℕ → Run (List ℕ)
  ng_udp_pkt n sip dip sport dport srcmac dstmac bytes len =
      if rte.alloc n
      then (if leb (len + 42 + 8) mbuf_room
          then done (ng_encode_udp_apppkt sip dip sport dport srcmac dstmac bytes (len + 42))
          else crash)
      else exit

  -- The target's address of a request without one is zero in the Ethernet header, and all ones in
  -- the ARP part.
  unfoldable pub ng_encode_arp_pkt : ℕ → List ℕ → List ℕ → ℕ → ℕ → List ℕ
  ng_encode_arp_pkt opcode src_mac dst_mac sip dip =
      let eth_mac = if bytes_eq (mac6 dst_mac) default_arp_mac then [] else dst_mac in
      eth_header eth_mac src_mac ether_type_arp
      ++ (store16 (ntohs 1)
          ++ (store16 (ntohs ether_type_ipv4)
              ++ (6
                  ∷ 4
                  ∷ (store16 (ntohs opcode)
                      ++ (mac6 src_mac ++ (store32 sip ++ (mac6 dst_mac ++ store32 dip)))))))

  unfoldable pub ng_send_arp : ℕ → ℕ → List ℕ → List ℕ → ℕ → ℕ → Run (List ℕ)
  ng_send_arp n opcode src_mac dst_mac sip dip =
      if rte.alloc n then done (ng_encode_arp_pkt opcode src_mac dst_mac sip dip) else exit

  -- The headers of a received frame, where the handlers look for them. The frame is the packet's
  -- buffer to its end.
  unfoldable pub read_ip : List ℕ → IpHdr
  read_ip frame = record {
    src_addr = load32 frame 26;
    dst_addr = load32 frame 30;
    total_length = ntohs (load16 frame 16);
  }

  -- The checksum is that of the bytes that the total length counts.
  unfoldable pub read_tcp : List ℕ → TcpHdr
  read_tcp frame =
      let seg = drop 34 frame in
      let len = ntohs (load16 frame 16) - 20 in
      record {
        src_port = load16 seg 0;
        dst_port = load16 seg 2;
        sent_seq = load32 seg 4;
        recv_ack = load32 seg 8;
        data_off = get_or seg 12 0;
        tcp_flags = get_or seg 13 0;
        cksum_ok = l4_cksum (ip_of frame) (uncheck (take len seg)) == load16 seg 16;
        segment = seg;
      }
