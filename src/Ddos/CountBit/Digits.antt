-- ===== src/Ddos/CountBit/Digits.antt =====
-- dpdk-code/14_tcp_concurrency/tcp_concurrency.c: a word as its bytes, and the masks and shifts of
-- count_bit on each byte.
use dpdk_learning.Base.{
  ℕ, zero, suc, ◌+◌, ◌*◌, ◌/◌, ◌%◌, ◌<◌, ◌≤◌, ◌≡◌, refl, Bool, true, List, [], ◌∷◌, ◌==◌, ==_iff,
  ◌&&◌, bit_and, arith, and_parts, All, map,
}
use native.Mathlib.Nat.{mul_assoc, zero-add, one-mul}
use dpdk_learning.Base.Bits.{pow2, bit_and_step, bit_and-fifteen, every_below, every_below_at}

-- Numbers in two parts, the lower one of `k` digits.
bit_and-parts :
    (k a b m n : ℕ)
    → a < pow2 k
    → m < pow2 k
    → bit_and (a + pow2 k * b) (m + pow2 k * n) ≡ bit_and a m + pow2 k * bit_and b n
bit_and-parts zero a b m n ha hm =
    let ea : a ≡ 0 = omega arith in
    let em : m ≡ 0 = omega arith in
    rw (ea, em, one-mul, one-mul, one-mul, zero-add, zero-add, zero-add) refl
bit_and-parts (suc k) a b m n ha hm =
    let p = pow2 k * b in
    let q = pow2 k * n in
    let e : (a + 2 * p) / 2 ≡ a / 2 + p = omega arith in
    let f : (m + 2 * q) / 2 ≡ m / 2 + q = omega arith in
    let st = bit_and_step (a + 2 * p) (m + 2 * q) in
    let st' = rw (e, f) at st in
    let ih = bit_and-parts k (a / 2) b (m / 2) n (omega arith) (omega arith) in
    rw (mul_assoc 2 (pow2 k) b, mul_assoc 2 (pow2 k) n, mul_assoc 2 (pow2 k) (bit_and b n))
      (omega (arith, st', ih, bit_and_step a m))

-- The number of the bytes, low byte first, and the mask that repeats one byte.
abbrev pub val : List ℕ → ℕ
val [] = 0
val (a ∷ xs) = a + 256 * val xs

abbrev pub rep : ℕ → List ℕ → ℕ
rep c [] = 0
rep c (a ∷ xs) = c + 256 * rep c xs

abbrev pub Bytes : List ℕ → Type 0
Bytes xs = All (λ a. a < 256) xs

bit_and-low :
    (a b m n : ℕ)
    → a < 256
    → m < 256
    → bit_and (a + 256 * b) (m + 256 * n) ≡ bit_and a m + 256 * bit_and b n
bit_and-low a b m n ha hm = bit_and-parts 8 a b m n ha hm

-- The bytes of a value that is moved down by one place, and by two, under a mask.
abbrev pub odd_ones : ℕ → ℕ
odd_ones a = bit_and (a / 2) 0x55

abbrev pub upper_pairs : ℕ → ℕ
upper_pairs a = bit_and (a / 4) 0x33

abbrev pub lower_pairs : ℕ → ℕ
lower_pairs a = bit_and a 0x33

abbrev shift_law : ℕ → ℕ → Bool
shift_law a c =
    (bit_and (a / 2 + 128 * (c % 2)) 0x55 == odd_ones a)
    && (bit_and (a / 4 + 64 * c) 0x33 == upper_pairs a)

shift_table : every_below 256 (λ a. every_below 4 (λ c. shift_law a c)) ≡ true
unfolding every_below
shift_table = refl

shift_laws :
    (a c : ℕ)
    → a < 256
    → c < 4
    → (bit_and (a / 2 + 128 * (c % 2)) 0x55 ≡ odd_ones a)
      × (bit_and (a / 4 + 64 * c) 0x33 ≡ upper_pairs a)
shift_laws a c ha hc =
    let both =
      every_below_at 4 c (λ c. shift_law a c) hc
        (every_below_at 256 a (λ a. every_below 4 (λ c. shift_law a c)) ha shift_table) in
    let (p, q) = and_parts (bit_and (a / 2 + 128 * (c % 2)) 0x55 == odd_ones a) _ both in
    ((==_iff _ _).0 p, (==_iff _ _).0 q)

pub mask_odd : (xs : List ℕ) → Bytes xs → bit_and (val xs / 2) (rep 0x55 xs) ≡ val (map odd_ones xs)
mask_odd [] b = refl
mask_odd (a ∷ xs) b =
    let v = val xs in
    let e : (a + 256 * v) / 2 ≡ a / 2 + 128 * (v % 4 % 2) + 256 * (v / 2) = omega arith in
    rw
      (
        e,
        bit_and-low (a / 2 + 128 * (v % 4 % 2)) (v / 2) 0x55 (rep 0x55 xs) (omega (arith, b.0))
            (omega arith),
      )
      (omega (arith, mask_odd xs b.1, (shift_laws a (v % 4) b.0 (omega arith)).0))

pub mask_upper :
    (xs : List ℕ) → Bytes xs → bit_and (val xs / 4) (rep 0x33 xs) ≡ val (map upper_pairs xs)
mask_upper [] b = refl
mask_upper (a ∷ xs) b =
    let v = val xs in
    let e : (a + 256 * v) / 4 ≡ a / 4 + 64 * (v % 4) + 256 * (v / 4) = omega arith in
    rw
      (
        e,
        bit_and-low (a / 4 + 64 * (v % 4)) (v / 4) 0x33 (rep 0x33 xs) (omega (arith, b.0))
            (omega arith),
      )
      (omega (arith, mask_upper xs b.1, (shift_laws a (v % 4) b.0 (omega arith)).1))

pub mask_lower :
    (xs : List ℕ) → Bytes xs → bit_and (val xs) (rep 0x33 xs) ≡ val (map lower_pairs xs)
mask_lower [] b = refl
mask_lower (a ∷ xs) b =
    rw (bit_and-low a (val xs) 0x33 (rep 0x33 xs) b.0 (omega arith))
      (omega (arith, mask_lower xs b.1))

-- Bytes in each of which both halves are at most four.
abbrev pub Halves : List ℕ → Type 0
Halves xs = All (λ a. (a % 16 ≤ 4) × (a / 16 ≤ 4)) xs

low_half : (xs : List ℕ) → Halves xs → val xs % 16 ≤ 4
low_half [] h = omega arith
low_half (a ∷ xs) h = omega (arith, h.0.0)

pub mask-Halves :
    (xs : List ℕ)
    → Halves xs
    → bit_and (val xs + val xs / 16) (rep 0x0F xs) ≡ val (map (λ a. (a + a / 16) % 16) xs)
mask-Halves [] h = refl
mask-Halves (a ∷ xs) h =
    let v = val xs in
    let low = a + a / 16 + 16 * (v % 16) in
    let e : a + 256 * v + (a + 256 * v) / 16 ≡ low + 256 * (v + v / 16) = omega arith in
    let small : low < 256 = omega (arith, h.0.0, h.0.1, low_half xs h.1) in
    rw (e, bit_and-low low (v + v / 16) 0x0F (rep 0x0F xs) small (omega arith))
      (omega (arith, mask-Halves xs h.1, bit_and-fifteen low))
