-- ===== src/Net/Frame/RoundTrip.antt =====
-- dpdk-code/14_tcp_concurrency/tcp_concurrency.c: the headers of a frame of ng_encode_tcp_apppkt, as
-- the handlers of a receiver read them.
use dpdk_learning.Base.{
  ℕ, zero, suc, ◌+◌, ◌-◌, ◌*◌, ◌/◌, ◌%◌, ◌^◌, ◌<◌, ◌≡◌, ◌∙◌, refl, sym, ap, true, some, List, [],
  ◌∷◌, ◌++◌, ◌==◌, ==_refl, take, length, length-append, take-append, arith,
}
use dpdk_learning.Net.Rte.{Rte}
use dpdk_learning.Net.State.{Fragment, ipproto_tcp}
use dpdk_learning.Net.Frame.{
  store16, load16, found_bytes, ip_header, tcp_fields, tcp_body, tcp_total, tcp_segment,
  ng_encode_tcp_apppkt, read_ip, uncheck, read_tcp,
}

pub loaded16 : (w : ℕ) → w < 2 ^ 16 → w % 256 + 256 * (w / 256 % 256) ≡ w
loaded16 w h = omega arith

pub loaded32 :
    (w : ℕ)
    → w < 2 ^ 32
    → w % 256 + 256 * (w / 256 % 256) + 65536 * (w / 65536 % 256) + 16777216 * (w / 16777216 % 256)
      ≡ w
loaded32 w h = omega arith

pub take_exactly : (n : ℕ) (xs ys : List ℕ) → length xs ≡ n → take n (xs ++ ys) ≡ xs
take_exactly n xs ys e = ap (λ k. take k (xs ++ ys)) (sym e) ∙ take-append xs ys

pub take_whole : (xs : List ℕ) → take (length xs) xs ≡ xs
take_whole [] = refl
take_whole (x ∷ xs) = ap (λ l. x ∷ l) (take_whole xs)

module _ (rte : Rte) where
  open rte use {ntohs, ntohl, l4_cksum}

  -- A fragment whose fields fit the header, and whose length is that of its payload.
  pub record FragmentFits (f : Fragment) (bytes : List ℕ) : Type 0 where
    pub sport_fits : f.sport < 2 ^ 16
    pub dport_fits : f.dport < 2 ^ 16
    pub seqnum_fits : f.seqnum < 2 ^ 32
    pub acknum_fits : f.acknum < 2 ^ 32
    pub total_fits : f.len + 40 + f.optlen * 4 < 2 ^ 16
    pub held : f.payload ≡ some bytes
    pub measured : f.len ≡ length bytes

  length-found_bytes : (n i k : ℕ) → length (found_bytes rte n i k) ≡ k
  length-found_bytes n i zero = refl
  length-found_bytes n i (suc k) = ap suc (length-found_bytes n (i + 1) k)

  -- Behind the header stand the options, and then the payload.
  pub tcp_body-eq :
      (n : ℕ) (f : Fragment) (bytes : List ℕ)
      → FragmentFits f bytes
      → tcp_body rte n f ≡ found_bytes rte n 54 (f.optlen * 4) ++ bytes
  tcp_body-eq n f bytes fits =
      rw (fits.held, fits.measured)
        (ap (λ l. found_bytes rte n 54 (f.optlen * 4) ++ l) (take_whole bytes))

  length-tcp_body :
      (n : ℕ) (f : Fragment) (bytes : List ℕ)
      → FragmentFits f bytes
      → length (tcp_body rte n f) ≡ f.optlen * 4 + f.len
  length-tcp_body n f bytes fits =
      ap length (tcp_body-eq n f bytes fits)
      ∙ omega (
        arith,
        length-append (found_bytes rte n 54 (f.optlen * 4)) bytes,
        length-found_bytes n 54 (f.optlen * 4),
        fits.measured,
      )

  -- The length that is stored, in the byte order of the wire, is read back.
  total_length_lem :
      (f : Fragment) (bytes : List ℕ)
      → FragmentFits f bytes
      → ntohs (load16 (store16 (ntohs ((tcp_total f - 14) % 2 ^ 16))) 0) ≡ f.len + 40 + f.optlen * 4
  total_length_lem f bytes fits =
      let t = (tcp_total f - 14) % 2 ^ 16 in
      let h : t < 2 ^ 16 = omega arith in
      ap ntohs (loaded16 (ntohs t) (rte.ntohs-lt t h))
      ∙ rte.ntohs-ntohs t h
      ∙ omega (arith, fits.total_fits)

  module _ (n sip dip : ℕ) (srcmac dstmac : List ℕ) (f : Fragment) (bytes rest : List ℕ)
      (hs : sip < 2 ^ 32) (hd : dip < 2 ^ 32) (fits : FragmentFits f bytes) where
    abbrev sent_ip : List ℕ
    sent_ip = ip_header rte ((tcp_total f - 14) % 2 ^ 16) ipproto_tcp sip dip

    -- A frame of a fragment that fits, whatever follows it in the buffer: the addresses and the
    -- length are read back from it.
    pub read_ip-ng_encode_tcp_apppkt :
        read_ip rte (ng_encode_tcp_apppkt rte n sip dip srcmac dstmac f ++ rest)
        ≡ record { src_addr = sip; dst_addr = dip; total_length = f.len + 40 + f.optlen * 4 }
    unfolding read_ip ng_encode_tcp_apppkt
    read_ip-ng_encode_tcp_apppkt = λ i. record {
      src_addr = loaded32 sip hs i;
      dst_addr = loaded32 dip hd i;
      total_length = total_length_lem f bytes fits i;
    }

    abbrev summed : ℕ
    summed = l4_cksum sent_ip (tcp_fields rte f 0 ++ tcp_body rte n f)

    length-tcp_segment : length (tcp_segment rte n sent_ip f) ≡ f.len + 40 + f.optlen * 4 - 20
    length-tcp_segment = omega (arith, length-tcp_body n f bytes fits)

    -- The checksum that a receiver computes is the one that stands in the frame.
    checksum_agrees :
        (l4_cksum sent_ip (
            uncheck (
              take
                (ntohs (load16 (store16 (ntohs ((tcp_total f - 14) % 2 ^ 16))) 0) - 20)
                (tcp_segment rte n sent_ip f ++ rest)))
          == load16 (store16 summed) 0)
        ≡ true
    checksum_agrees =
        ap
          (λ k.
            l4_cksum sent_ip (uncheck (take (k - 20) (tcp_segment rte n sent_ip f ++ rest)))
            == load16 (store16 summed) 0)
          (total_length_lem f bytes fits)
        ∙ ap (λ l. l4_cksum sent_ip (uncheck l) == load16 (store16 summed) 0)
            (take_exactly (f.len + 40 + f.optlen * 4 - 20) (tcp_segment rte n sent_ip f) rest
              length-tcp_segment)
        ∙ ap (λ w. summed == w)
            (loaded16 summed (rte.l4_cksum-lt sent_ip (tcp_fields rte f 0 ++ tcp_body rte n f)))
        ∙ ==_refl summed

    -- In a frame to addresses of 32 bits, whatever follows the frame in the buffer: the TCP header
    -- that a receiver reads has the fragment's ports, its numbers in the byte order of the wire,
    -- its flags and its data offset, and the checksum is right.
    pub read_tcp-ng_encode_tcp_apppkt :
        read_tcp rte (ng_encode_tcp_apppkt rte n sip dip srcmac dstmac f ++ rest) ≡ record {
          src_port = f.sport;
          dst_port = f.dport;
          sent_seq = ntohl f.seqnum;
          recv_ack = ntohl f.acknum;
          data_off = f.hdrlen_off;
          tcp_flags = f.tcp_flags;
          cksum_ok = true;
          segment = tcp_segment rte n sent_ip f ++ rest;
        }
    unfolding read_tcp ng_encode_tcp_apppkt
    read_tcp-ng_encode_tcp_apppkt = λ i. record {
      src_port = loaded16 f.sport fits.sport_fits i;
      dst_port = loaded16 f.dport fits.dport_fits i;
      sent_seq = loaded32 (ntohl f.seqnum) (rte.ntohl-lt f.seqnum fits.seqnum_fits) i;
      recv_ack = loaded32 (ntohl f.acknum) (rte.ntohl-lt f.acknum fits.acknum_fits) i;
      data_off = f.hdrlen_off;
      tcp_flags = f.tcp_flags;
      cksum_ok = checksum_agrees i;
      segment = tcp_segment rte n sent_ip f ++ rest;
    }
