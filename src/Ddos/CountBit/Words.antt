-- ===== src/Ddos/CountBit/Words.antt =====
-- dpdk-code/14_tcp_concurrency/tcp_concurrency.c: one round of count_bit counts the ones of a word.
use dpdk_learning.Base.{
  ℕ, ◌+◌, ◌-◌, ◌*◌, ◌/◌, ◌%◌, ◌^◌, ◌<◌, ◌≤◌, ◌≡◌, ◌∙◌, refl, sym, ap, Bool, true, List, [], ◌∷◌,
  ◌==◌, ==_iff, leb, ◌&&◌, bit_and, arith, and_parts, All, map,
}
use dpdk_learning.Base.Bits.{every_below, every_below_at}
use dpdk_learning.Ddos.CountBit.{word, pairs, nibbles, bytes, count_word, ones}
use dpdk_learning.Ddos.CountBit.Digits.{
  val, rep, Bytes, odd_ones, upper_pairs, lower_pairs, mask_odd, mask_upper, mask_lower, Halves,
  mask-Halves,
}

-- A byte after the first round, the second, and the third.
abbrev in_pairs : ℕ → ℕ
in_pairs a = a - odd_ones a

abbrev in_nibbles : ℕ → ℕ
in_nibbles a = lower_pairs a + upper_pairs a

abbrev in_byte : ℕ → ℕ
in_byte a = (a + a / 16) % 16

-- What the rounds come to on each of the 256 bytes.
abbrev byte_rounds : ℕ → Bool
byte_rounds a =
    leb (odd_ones a) a
    && (leb (in_nibbles (in_pairs a) % 16) 4
        && (leb (in_nibbles (in_pairs a) / 16) 4 && (in_byte (in_nibbles (in_pairs a)) == ones a)))

rounds_table : every_below 256 byte_rounds ≡ true
unfolding every_below
rounds_table = refl

rounds_lem :
    (a : ℕ)
    → a < 256
    → (odd_ones a ≤ a)
      × (in_nibbles (in_pairs a) % 16 ≤ 4)
      × (in_nibbles (in_pairs a) / 16 ≤ 4)
      × (in_byte (in_nibbles (in_pairs a)) ≡ ones a)
rounds_lem a h =
    let all = every_below_at 256 a byte_rounds h rounds_table in
    let (p, q) = and_parts (leb (odd_ones a) a) _ all in
    let (q, r) = and_parts (leb (in_nibbles (in_pairs a) % 16) 4) _ q in
    let (r, s) = and_parts (leb (in_nibbles (in_pairs a) / 16) 4) _ r in
    (leb→le _ _ p, leb→le _ _ q, leb→le _ _ r, (==_iff _ _).0 s)
  where
    leb→le : (m n : ℕ) → leb m n ≡ true → m ≤ n
    leb→le m n h = ground arith

val-sub :
    (f : ℕ → ℕ) (xs : List ℕ)
    → All (λ a. f a ≤ a) xs
    → val (map (λ a. a - f a) xs) + val (map f xs) ≡ val xs
val-sub f [] h = refl
val-sub f (a ∷ xs) h = omega (arith, h.0, val-sub f xs h.1)

val-add :
    (f g : ℕ → ℕ) (xs : List ℕ) → val (map f xs) + val (map g xs) ≡ val (map (λ a. f a + g a) xs)
val-add f g [] = refl
val-add f g (a ∷ xs) = omega (arith, val-add f g xs)

abbrev cap : List ℕ → ℕ
cap [] = 1
cap (a ∷ xs) = 256 * cap xs

val-lt : (xs : List ℕ) → Bytes xs → val xs < cap xs
val-lt [] b = omega arith
val-lt (a ∷ xs) b = omega (arith, b.0, val-lt xs b.1)

Halves-lt : (xs : List ℕ) → Halves xs → 3 * val xs < cap xs
Halves-lt [] h = omega arith
Halves-lt (a ∷ xs) h = omega (arith, h.0.0, h.0.1, Halves-lt xs h.1)

pairs-val :
    (xs : List ℕ)
    → rep 0x55 xs ≡ 0x5555555555555555
    → cap xs ≡ word
    → Bytes xs
    → All (λ a. odd_ones a ≤ a) xs
    → pairs (val xs) ≡ val (map in_pairs xs)
pairs-val xs m c b h =
    let e : bit_and (val xs / 2) 0x5555555555555555 ≡ val (map odd_ones xs) =
      ap (λ k. bit_and (val xs / 2) k) (sym m) ∙ mask_odd xs b in
    omega (arith, e, val-sub odd_ones xs h, val-lt xs b, c)

nibbles-val :
    (xs : List ℕ)
    → rep 0x33 xs ≡ 0x3333333333333333
    → cap (map in_nibbles xs) ≡ word
    → Bytes xs
    → Halves (map in_nibbles xs)
    → nibbles (val xs) ≡ val (map in_nibbles xs)
nibbles-val xs m c b h =
    let e : bit_and (val xs) 0x3333333333333333 ≡ val (map lower_pairs xs) =
      ap (λ k. bit_and (val xs) k) (sym m) ∙ mask_lower xs b in
    let f : bit_and (val xs / 4) 0x3333333333333333 ≡ val (map upper_pairs xs) =
      ap (λ k. bit_and (val xs / 4) k) (sym m) ∙ mask_upper xs b in
    omega (arith, e, f, val-add lower_pairs upper_pairs xs, Halves-lt (map in_nibbles xs) h, c)

bytes-val :
    (xs : List ℕ)
    → rep 0x0F xs ≡ 0x0F0F0F0F0F0F0F0F
    → cap xs ≡ word
    → Halves xs
    → bytes (val xs) ≡ val (map in_byte xs)
bytes-val xs m c h =
    let e : (val xs + val xs / 2 ^ 4) % word ≡ val xs + val xs / 16 =
      omega (arith, Halves-lt xs h, c) in
    ap (λ k. bit_and k 0x0F0F0F0F0F0F0F0F) e
    ∙ ap (λ k. bit_and (val xs + val xs / 16) k) (sym m)
    ∙ mask-Halves xs h

rounds_sub : (xs : List ℕ) → Bytes xs → All (λ a. odd_ones a ≤ a) xs
rounds_sub [] b = tt
rounds_sub (a ∷ xs) b = ((rounds_lem a b.0).0, rounds_sub xs b.1)

rounds-Bytes : (xs : List ℕ) → Bytes xs → Bytes (map in_pairs xs)
rounds-Bytes [] b = tt
rounds-Bytes (a ∷ xs) b = (omega (arith, b.0), rounds-Bytes xs b.1)

rounds-Halves : (xs : List ℕ) → Bytes xs → Halves (map in_nibbles (map in_pairs xs))
rounds-Halves [] b = tt
rounds-Halves (a ∷ xs) b = (((rounds_lem a b.0).1, (rounds_lem a b.0).2), rounds-Halves xs b.1)

rounds_ones :
    (xs : List ℕ)
    → Bytes xs
    → val (map in_byte (map in_nibbles (map in_pairs xs))) ≡ val (map ones xs)
rounds_ones [] b = refl
rounds_ones (a ∷ xs) b = omega (arith, (rounds_lem a b.0).3, rounds_ones xs b.1)

-- The product with the mask of ones adds the eight bytes up in the highest one.
product_lem :
    (c0 c1 c2 c3 c4 c5 c6 c7 : ℕ)
    → All (λ c. c ≤ 8) (c0 ∷ c1 ∷ c2 ∷ c3 ∷ c4 ∷ c5 ∷ c6 ∷ c7 ∷ [])
    → val (c0 ∷ c1 ∷ c2 ∷ c3 ∷ c4 ∷ c5 ∷ c6 ∷ c7 ∷ []) * 0x0101010101010101 % word / 2 ^ 56
      ≡ c0 + c1 + c2 + c3 + c4 + c5 + c6 + c7
product_lem c0 c1 c2 c3 c4 c5 c6 c7 h = omega arith

ones-le : (b : ℕ) → ones b ≤ 8
ones-le b = omega arith

All-ones : (xs : List ℕ) → All (λ c. c ≤ 8) (map ones xs)
All-ones [] = tt
All-ones (a ∷ xs) = (ones-le a, All-ones xs)

-- A round of the loop counts the ones of the eight bytes of its word.
pub count_word-ones :
    (b0 b1 b2 b3 b4 b5 b6 b7 : ℕ)
    → Bytes (b0 ∷ b1 ∷ b2 ∷ b3 ∷ b4 ∷ b5 ∷ b6 ∷ b7 ∷ [])
    → count_word (val (b0 ∷ b1 ∷ b2 ∷ b3 ∷ b4 ∷ b5 ∷ b6 ∷ b7 ∷ []))
      ≡ ones b0 + ones b1 + ones b2 + ones b3 + ones b4 + ones b5 + ones b6 + ones b7
unfolding count_word
count_word-ones b0 b1 b2 b3 b4 b5 b6 b7 b =
    ap (λ v. bytes (nibbles v) * 0x0101010101010101 % word / 2 ^ 56)
      (pairs-val xs refl refl b (rounds_sub xs b))
    ∙ ap (λ v. bytes v * 0x0101010101010101 % word / 2 ^ 56)
        (nibbles-val (map in_pairs xs) refl refl (rounds-Bytes xs b) (rounds-Halves xs b))
    ∙ ap (λ v. v * 0x0101010101010101 % word / 2 ^ 56)
        (bytes-val (map in_nibbles (map in_pairs xs)) refl refl (rounds-Halves xs b)
          ∙ rounds_ones xs b)
    ∙ product_lem (ones b0) (ones b1) (ones b2) (ones b3) (ones b4) (ones b5) (ones b6) (ones b7)
        (All-ones xs)
  where
    xs : List ℕ
    xs = b0 ∷ b1 ∷ b2 ∷ b3 ∷ b4 ∷ b5 ∷ b6 ∷ b7 ∷ []
