-- ===== src/Base/Bits.antt =====
-- Masks and single bits at variables: the laws of `bit_and` that the components use.
use Prim.Native.Nat.{
  ℕ, zero, suc, ◌+◌, ◌*◌, ◌/◌, ◌%◌, ◌≤◌, ◌<◌, min, bit_and, digits, bit_and-bitwise,
}
use mathlib.Core.Path.{◌≡◌, refl}
use native.Mathlib.Nat.{one-mul, mul_assoc}
use mathlib.Core.Bool.{Bool, true, ◌&&◌}
use native.Mathlib.Omega.{arith}
use native.Mathlib.Decide.{ℕ_discrete}
use dpdk_learning.Base.Tests.{and_parts}

-- A test holds at every number below a bound, the largest one tested last.
unfoldable pub every_below : ℕ → (ℕ → Bool) → Bool
every_below zero test = true
every_below (suc bound) test = every_below bound test && test bound

pub every_below_at :
    (bound k : ℕ) (test : ℕ → Bool) → k < bound → every_below bound test ≡ true → test k ≡ true
unfolding every_below
every_below_at zero k test small all = absurd (omega arith)
every_below_at (suc bound) k test small all = elim (ℕ_discrete k bound) [
  | yes e ↦ rw (e, (and_parts (every_below bound test) (test bound) all).1)
  | no e ↦
      every_below_at bound k test (omega (arith, e)) (and_parts (every_below bound test) _ all).0
]

-- The recursion that `bit_and` stands for, with its fuel in sight.
abbrev conj : ℕ → ℕ → ℕ → ℕ
conj fuel x y = digits (λ _. zero) min fuel x y

-- Any fuel that covers the first word gives the same digits.
conj_stable : (k l x y : ℕ) → x ≤ k → x ≤ l → conj k x y ≡ conj l x y
conj_stable zero zero x y kx lx = refl
conj_stable zero (suc l) zero y kx lx = refl
conj_stable zero (suc l) (suc x) y kx lx = absurd (omega arith)
conj_stable (suc k) zero zero y kx lx = refl
conj_stable (suc k) zero (suc x) y kx lx = absurd (omega arith)
conj_stable (suc k) (suc l) zero y kx lx = refl
conj_stable (suc k) (suc l) (suc x) y kx lx =
    let half = conj_stable k l (suc x / 2) (y / 2) (omega arith) (omega arith) in
    omega (arith, half)

zero-bit_and : (y : ℕ) → bit_and 0 y ≡ 0
zero-bit_and = bit_and-bitwise 0

-- The law for the lowest digit.
pub bit_and_step : (x y : ℕ) → bit_and x y ≡ bit_and (x / 2) (y / 2) * 2 + min (x % 2) (y % 2)
bit_and_step zero y = omega (arith, zero-bit_and (y / 2), zero-bit_and y)
bit_and_step (suc x) y =
    let h = suc x / 2 in
    let stable = conj_stable x h h (y / 2) (omega arith) (omega arith) in
    omega (arith, stable, bit_and-bitwise (suc x) y, bit_and-bitwise h (y / 2))

zero_mask_below : (k x : ℕ) → x ≤ k → bit_and x 0 ≡ 0
zero_mask_below k zero kx = refl
zero_mask_below zero (suc x) kx = absurd (omega arith)
zero_mask_below (suc k) (suc x) kx =
    let half = zero_mask_below k (suc x / 2) (omega arith) in
    omega (arith, half, bit_and_step (suc x) 0)

pub bit_and-zero : (x : ℕ) → bit_and x 0 ≡ 0
bit_and-zero x = zero_mask_below x x (omega arith)

pub bit_and-one : (x : ℕ) → bit_and x 1 ≡ x % 2
bit_and-one x = omega (arith, bit_and-zero (x / 2), bit_and_step x 1)

-- A mask that is moved up one place.
pub bit_and-double : (a m : ℕ) → bit_and a (2 * m) ≡ 2 * bit_and (a / 2) m
bit_and-double a m =
    let e : 2 * m / 2 ≡ m = omega arith in omega (arith, rw e at (bit_and_step a (2 * m)))

-- A mask of four ones selects the last four digits.
pub bit_and-fifteen : (a : ℕ) → bit_and a 15 ≡ a % 16
bit_and-fifteen a =
    let b = a / 2 in
    let c = b / 2 in
    let d = c / 2 in
    omega (arith, bit_and_step a 15, bit_and_step b 7, bit_and_step c 3, bit_and-one d)

abbrev pub pow2 : ℕ → ℕ
pow2 zero = 1
pow2 (suc k) = 2 * pow2 k

-- A number moved down by `k` places.
abbrev pub halve : ℕ → ℕ → ℕ
halve zero a = a
halve (suc k) a = halve k (a / 2)

-- A mask that is moved up `k` places selects from the number moved down by as many.
pub bit_and-shift : (k a m : ℕ) → bit_and a (pow2 k * m) ≡ pow2 k * bit_and (halve k a) m
bit_and-shift zero a m = rw (one-mul m, one-mul)
bit_and-shift (suc k) a m =
    rw (mul_assoc 2 (pow2 k) m, bit_and-double, bit_and-shift k (a / 2) m) (omega arith)
