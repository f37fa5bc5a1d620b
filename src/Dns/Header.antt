-- ===== src/Dns/Header.antt =====
-- dpdk-code/dns/dns.c: decode_header and encode_header.
use dpdk_learning.Base.{
  ℕ, ◌+◌, ◌*◌, ◌/◌, ◌%◌, ◌^◌, ◌<◌, ◌≡◌, refl, bit_and, bit_or, List, ◌++◌, arith, append_assoc,
  true, ◌==◌, ==_iff,
}
use dpdk_learning.Base.Bits.{
  bit_and-shift, pow2, halve, bit_and-one, bit_and-fifteen, every_below, every_below_at,
}
use dpdk_learning.Dns.Wire.{Outcome, done, ◌>>=◌, Message, get16bits, put16bits, get16bits_then}

abbrev pub qr_mask : ℕ
qr_mask = 0x8000

abbrev pub opcode_mask : ℕ
opcode_mask = 0x7800

abbrev pub aa_mask : ℕ
aa_mask = 0x0400

abbrev pub tc_mask : ℕ
tc_mask = 0x0200

abbrev pub rd_mask : ℕ
rd_mask = 0x0100

abbrev pub ra_mask : ℕ
ra_mask = 0x8000

abbrev pub rcode_mask : ℕ
rcode_mask = 0x000f

-- The flags of the second word of the header, put into the message.
unfoldable pub decode_fields : Message → ℕ → Message
decode_fields msg fields = record msg {
  qr = bit_and fields qr_mask / 2 ^ 15;
  opcode = bit_and fields opcode_mask / 2 ^ 11;
  aa = bit_and fields aa_mask / 2 ^ 10;
  tc = bit_and fields tc_mask / 2 ^ 9;
  rd = bit_and fields rd_mask / 2 ^ 8;
  ra = bit_and fields ra_mask / 2 ^ 7;
  rcode = bit_and fields rcode_mask;
}

unfoldable pub decode_header : Message → List ℕ → Outcome (Message × List ℕ)
decode_header msg buf = do
  (id, b1) ← get16bits buf
  (fields, b2) ← get16bits b1
  (qd, b3) ← get16bits b2
  (an, b4) ← get16bits b3
  (ns, b5) ← get16bits b4
  (ar, b6) ← get16bits b5
  done (
    record (decode_fields (record msg { id = id }) fields) {
      qd_count = qd;
      an_count = an;
      ns_count = ns;
      ar_count = ar;
    },
    b6,
  )

-- The word that `encode_header` writes for the flags: QR and RCODE alone.
unfoldable pub encode_fields : Message → ℕ
encode_fields msg = bit_or (bit_and (msg.qr * 2 ^ 15) qr_mask) (bit_and msg.rcode rcode_mask)

unfoldable pub encode_header : Message → List ℕ
encode_header msg =
    put16bits msg.id
    ++ (put16bits (encode_fields msg)
        ++ (put16bits msg.qd_count
            ++ (put16bits msg.an_count ++ (put16bits msg.ns_count ++ put16bits msg.ar_count))))

-- The flag words that a response can carry.
abbrev fields_word : ℕ → ℕ → ℕ
fields_word q r = bit_or (bit_and (q * 2 ^ 15) qr_mask) (bit_and r rcode_mask)

fields_table : every_below 2 (λ q. every_below 16 (λ r. fields_word q r == q * 32768 + r)) ≡ true
unfolding every_below
fields_table = refl

fields_sum : (q r : ℕ) → q < 2 → r < 16 → fields_word q r ≡ q * 32768 + r
fields_sum q r hq hr = (==_iff _ _).0 (
    every_below_at 16 r (λ r. fields_word q r == q * 32768 + r) hr
      (every_below_at 2 q (λ q. every_below 16 (λ r. fields_word q r == q * 32768 + r)) hq
        fields_table))

-- Each mask and shift of `decode_header` selects one bit field of the word.
one_bit : (k a : ℕ) → bit_and a (pow2 k * 1) ≡ pow2 k * (halve k a % 2)
one_bit k a = rw (bit_and-shift k a 1, bit_and-one)

opcode_bits : (a : ℕ) → bit_and a opcode_mask ≡ 2048 * (halve 11 a % 16)
opcode_bits a = rw (bit_and-shift 11 a 15, bit_and-fifteen)

-- What `decode_fields` puts into a message, as bit fields of the word.
pub decode_fields_lem :
    (msg : Message) (f : ℕ)
    → decode_fields msg f ≡ record msg {
      qr = f / 32768 % 2;
      opcode = f / 2048 % 16;
      aa = f / 1024 % 2;
      tc = f / 512 % 2;
      rd = f / 256 % 2;
      ra = 256 * (f / 32768 % 2);
      rcode = f % 16;
    }
unfolding decode_fields
decode_fields_lem msg f =
    ground (
      arith,
      one_bit 15 f,
      opcode_bits f,
      one_bit 10 f,
      one_bit 9 f,
      one_bit 8 f,
      bit_and-fifteen f,
    )

-- The numbers of a header that a response carries.
pub record HeaderFits (msg : Message) : Type 0 where
  pub id_fits : msg.id < 65536
  pub qr_fits : msg.qr < 2
  pub rcode_fits : msg.rcode < 16
  pub qd_fits : msg.qd_count < 65536
  pub an_fits : msg.an_count < 65536
  pub ns_fits : msg.ns_count < 65536
  pub ar_fits : msg.ar_count < 65536

-- The header of `msg`, as a decoder that writes into `dest` reads it back.
abbrev pub read_back : Message → Message → Message
read_back dest msg = record dest {
  id = msg.id;
  qr = msg.qr;
  opcode = 0;
  aa = 0;
  tc = 0;
  rd = 0;
  ra = 256 * msg.qr;
  rcode = msg.rcode;
  qd_count = msg.qd_count;
  an_count = msg.an_count;
  ns_count = msg.ns_count;
  ar_count = msg.ar_count;
}

decode_fields-encode_fields :
    (dest msg : Message)
    → msg.qr < 2
    → msg.rcode < 16
    → decode_fields dest (encode_fields msg) ≡ record dest {
      qr = msg.qr;
      opcode = 0;
      aa = 0;
      tc = 0;
      rd = 0;
      ra = 256 * msg.qr;
      rcode = msg.rcode;
    }
unfolding encode_fields
decode_fields-encode_fields dest msg hq hr =
    rw (decode_fields_lem, fields_sum msg.qr msg.rcode hq hr) (ground arith)

encode_fields-lt : (msg : Message) → HeaderFits msg → encode_fields msg < 65536
unfolding encode_fields
encode_fields-lt msg fits = omega (arith, fields_sum msg.qr msg.rcode fits.qr_fits fits.rcode_fits)

-- A header that is encoded is decoded to the same identifier, QR, RCODE and counts, and the
-- decoder stops behind it. The flags that the encoder leaves out come back as zero, and RA as
-- 256 times QR.
pub decode_header-encode_header :
    (dest msg : Message) (rest : List ℕ)
    → HeaderFits msg
    → decode_header dest (encode_header msg ++ rest) ≡ done (read_back dest msg, rest)
unfolding decode_header encode_header
decode_header-encode_header dest msg rest fits =
    rw
      (
        append_assoc,
        get16bits_then msg.id fits.id_fits,
        append_assoc,
        get16bits_then (encode_fields msg) (encode_fields-lt msg fits),
        append_assoc,
        get16bits_then msg.qd_count fits.qd_fits,
        append_assoc,
        get16bits_then msg.an_count fits.an_fits,
        append_assoc,
        get16bits_then msg.ns_count fits.ns_fits,
        get16bits_then msg.ar_count fits.ar_fits,
      )
      (rw (
        decode_fields-encode_fields (record dest { id = msg.id }) msg fits.qr_fits fits.rcode_fits))
