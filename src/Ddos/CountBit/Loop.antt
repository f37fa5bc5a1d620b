-- ===== src/Ddos/CountBit/Loop.antt =====
-- dpdk-code/14_tcp_concurrency/tcp_concurrency.c: the loop of count_bit.
use dpdk_learning.Base.{
  Bool-cases, inl, inr, ℕ, zero, suc, ◌+◌, ◌-◌, ◌*◌, ◌/◌, ◌%◌, ◌^◌, ◌<◌, ◌≤◌, ◌≡◌, ◌∙◌, refl, ap,
  true, false, List, [], ◌∷◌, ◌==◌, ltb, ◌||◌, arith, get_or, some,
}
use native.Mathlib.Nat.{zero-add}
use dpdk_learning.Ddos.CountBit.{word, count_word, word_at, count_loop, as_uint32, count_bit, ones}
use dpdk_learning.Ddos.CountBit.Digits.{val}
use dpdk_learning.Ddos.CountBit.Words.{count_word-ones}

-- The memory holds bytes.
abbrev pub IsMemory : List ℕ → Type 0
IsMemory msg = (i : ℕ) → get_or msg i 0 < 256

-- The ones of `n` bytes from an offset on, bit by bit.
unfoldable pub ones_from : ℕ → List ℕ → ℕ → ℕ
ones_from zero msg i = 0
ones_from (suc n) msg i = ones (get_or msg i 0) + ones_from n msg (i + 1)

word_at-val :
    (msg : List ℕ) (i : ℕ)
    → word_at msg i
      ≡ val (
          get_or msg i 0
          ∷ get_or msg (i + 1) 0
          ∷ get_or msg (i + 2) 0
          ∷ get_or msg (i + 3) 0
          ∷ get_or msg (i + 4) 0
          ∷ get_or msg (i + 5) 0
          ∷ get_or msg (i + 6) 0
          ∷ get_or msg (i + 7) 0
          ∷ [])
word_at-val msg i = omega arith

count_word-word_at :
    (msg : List ℕ) (i : ℕ) → IsMemory msg → count_word (word_at msg i) ≡ ones_from 8 msg i
unfolding ones_from
count_word-word_at msg i m =
    ap count_word (word_at-val msg i)
    ∙ count_word-ones (get_or msg i 0) (get_or msg (i + 1) 0) (get_or msg (i + 2) 0)
        (get_or msg (i + 3) 0) (get_or msg (i + 4) 0) (get_or msg (i + 5) 0) (get_or msg (i + 6) 0)
        (get_or msg (i + 7) 0)
        (
          m i,
          (
            m (i + 1),
            (m (i + 2), (m (i + 3), (m (i + 4), (m (i + 5), (m (i + 6), (m (i + 7), tt)))))),
          ),
        )
    ∙ (let e2 : i + 1 + 1 ≡ i + 2 = omega arith in
        let e3 : i + 2 + 1 ≡ i + 3 = omega arith in
        let e4 : i + 3 + 1 ≡ i + 4 = omega arith in
        let e5 : i + 4 + 1 ≡ i + 5 = omega arith in
        let e6 : i + 5 + 1 ≡ i + 6 = omega arith in
        let e7 : i + 6 + 1 ≡ i + 7 = omega arith in rw (e2, e3, e4, e5, e6, e7) (omega arith))

ones_from-add :
    (n k : ℕ) (msg : List ℕ) (i : ℕ)
    → ones_from (n + k) msg i ≡ ones_from n msg i + ones_from k msg (i + n)
unfolding ones_from
ones_from-add zero k msg i = let e : i + 0 ≡ i = omega arith in rw (zero-add, zero-add, e) refl
ones_from-add (suc n) k msg i =
    let e : suc n + k ≡ suc (n + k) = omega arith in
    let f : i + suc n ≡ i + 1 + n = omega arith in
    rw (e, f, ones_from-add n k msg (i + 1)) (omega arith)

-- `suc m` rounds are made, if they cover the length and the last one is needed.
count_loop_lem :
    (m fuel : ℕ) (msg : List ℕ) (i length acc : ℕ)
    → IsMemory msg
    → m < fuel
    → length ≤ i + 8 * (m + 1)
    → (m == 0 || ltb (i + 8 * m) length) ≡ true
    → count_loop fuel msg i length acc ≡ some ((acc + ones_from (8 * (m + 1)) msg i) % word)
unfolding count_loop
count_loop_lem m zero msg i length acc mem f c d = absurd (omega arith)
count_loop_lem zero (suc fuel) msg i length acc mem f c d =
    let s : ltb (i + 8) length ≡ false = ground arith in rw (s, count_word-word_at msg i mem) refl
count_loop_lem (suc m) (suc fuel) msg i length acc mem f c d =
    let s : ltb (i + 8) length ≡ true = ground arith in
    let e : 8 * (suc m + 1) ≡ 8 + 8 * (m + 1) = omega arith in
    let ih =
      count_loop_lem m fuel msg (i + 8) length ((acc + count_word (word_at msg i)) % word) mem
        (omega arith) (omega arith) (ground arith) in
    rw (s, ih, e, ones_from-add 8 (8 * (m + 1)) msg i, count_word-word_at msg i mem)
      (ap some (omega arith))

count_loop-ends :
    (fuel : ℕ) (msg : List ℕ) (i length acc : ℕ)
    → i ≤ length
    → length < i + fuel
    → (n : ℕ) × (count_loop fuel msg i length acc ≡ some n)
unfolding count_loop
count_loop-ends zero msg i length acc h f = absurd (omega (arith, h, f))
count_loop-ends (suc fuel) msg i length acc h f = elim (Bool-cases (ltb (i + 8) length)) [
  | inr s ↦ ((acc + count_word (word_at msg i)) % word, rw s refl)
  | inl s ↦
      let (n, e) =
        count_loop-ends fuel msg (i + 8) length ((acc + count_word (word_at msg i)) % word)
          (ground (arith, s)) (ground (arith, s, f)) in
      (n, rw s e)
]

-- The loop of `count_bit` ends within its fuel, whatever the memory holds.
pub count_bit-ends : (msg : List ℕ) (length : ℕ) → (n : ℕ) × (count_bit msg length ≡ some n)
unfolding count_bit
count_bit-ends msg length =
    let (n, e) = count_loop-ends (length + 1) msg 0 length 0 (omega arith) (omega arith) in
    (n % 2 ^ 32, rw e refl)

-- On memory of bytes `count_bit` ends within its fuel, and returns the number of the ones in the
-- bytes that it reads: the length rounded up to a multiple of eight, and eight for the length zero.
pub count_bit-ones_from :
    (msg : List ℕ) (length : ℕ)
    → IsMemory msg
    → count_bit msg length ≡ some (ones_from (8 * ((length - 1) / 8 + 1)) msg 0 % 2 ^ 32)
unfolding count_bit
count_bit-ones_from msg length mem =
    let n = (length - 1) / 8 in
    let run =
      count_loop_lem n (length + 1) msg 0 length 0 mem (omega arith) (omega arith) (ground arith) in
    ap as_uint32 run ∙ ap some (omega arith)
