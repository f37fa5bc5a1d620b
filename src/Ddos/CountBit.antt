-- ===== src/Ddos/CountBit.antt =====
-- dpdk-code/14_tcp_concurrency/tcp_concurrency.c: count_bit, 64 bits at a time.
pub mod Digits
pub mod Words
pub mod Loop
use dpdk_learning.Base.{
  ℕ, zero, suc, ◌+◌, ◌-◌, ◌*◌, ◌/◌, ◌%◌, ◌^◌, ◌<◌, ◌≤◌, ◌≡◌, ◌∙◌, refl, sym, ap, Bool, true, List,
  [], ◌∷◌, ltb, bit_and, if◌then◌else◌, get_or, Option, none, some,
}
use dpdk_learning.Base.Bits.{bit_and_step, every_below, every_below_at}

abbrev pub word : ℕ
word = 2 ^ 64

-- The three rounds on a word and the product, with the masks of 64 bits.
abbrev pub pairs : ℕ → ℕ
pairs v = (v + word - bit_and (v / 2) 0x5555555555555555) % word

abbrev pub nibbles : ℕ → ℕ
nibbles v = (bit_and v 0x3333333333333333 + bit_and (v / 2 ^ 2) 0x3333333333333333) % word

abbrev pub bytes : ℕ → ℕ
bytes v = bit_and ((v + v / 2 ^ 4) % word) 0x0F0F0F0F0F0F0F0F

-- The number of ones of a word, as a round of the loop computes it.
unfoldable pub count_word : ℕ → ℕ
count_word v = bytes (nibbles (pairs v)) * 0x0101010101010101 % word / 2 ^ 56

-- The word of eight bytes in memory, low byte first.
abbrev pub word_at : List ℕ → ℕ → ℕ
word_at msg i =
    get_or msg i 0
    + 256
      * (get_or msg (i + 1) 0
          + 256
            * (get_or msg (i + 2) 0
                + 256
                  * (get_or msg (i + 3) 0
                      + 256
                        * (get_or msg (i + 4) 0
                            + 256
                              * (get_or msg (i + 5) 0
                                  + 256 * (get_or msg (i + 6) 0 + 256 * get_or msg (i + 7) 0))))))

-- The loop, a do-while: a round is made before its condition is tested. `i` is how far `ptr` has come
-- from `msg`; `none` is a lack of fuel.
unfoldable pub count_loop : ℕ → List ℕ → ℕ → ℕ → ℕ → Option ℕ
count_loop zero msg i length set_bits = none
count_loop (suc fuel) msg i length set_bits =
    let set_bits' = (set_bits + count_word (word_at msg i)) % word in
    let rest = count_loop fuel msg (i + 8) length set_bits' in
    if ltb (i + 8) length then rest else some set_bits'

abbrev pub as_uint32 : Option ℕ → Option ℕ
as_uint32 none = none
as_uint32 (some n) = some (n % 2 ^ 32)

-- `msg` is the memory from the pointer on. A round takes eight bytes, so that `length + 1` of them are
-- enough. The count is returned as a `uint32_t`.
unfoldable pub count_bit : List ℕ → ℕ → Option ℕ
unfolding count_loop
count_bit msg length = as_uint32 (count_loop (length + 1) msg 0 length 0)

-- The ones of a byte, one by one.
abbrev pub ones : ℕ → ℕ
ones b =
    b % 2 + b / 2 % 2 + b / 4 % 2 + b / 8 % 2 + b / 16 % 2 + b / 32 % 2 + b / 64 % 2 + b / 128 % 2
