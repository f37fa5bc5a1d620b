-- ===== src/Base/Int.antt =====
-- Signed lengths over the native numbers, and their addition to a 32-bit word.
use Prim.Native.Nat.{ℕ, ◌+◌, ◌-◌, ◌%◌, ◌^◌}
use dpdk_learning.Base.Tests.{leb, if◌then◌else◌}

-- `negsuc n` is -(n + 1).
pub data ℤ : Type 0 where
  pos : ℕ → ℤ
  negsuc : ℕ → ℤ

-- a - b, as an integer.
abbrev pub sub_ℕ : ℕ → ℕ → ℤ
sub_ℕ a b = if leb b a then pos (a - b) else negsuc (b - a - 1)

-- An integer less a number.
abbrev pub minus : ℤ → ℕ → ℤ
minus (pos a) b = sub_ℕ a b
minus (negsuc a) b = negsuc (a + b)

-- A `uint32_t` plus an `int`, which wraps.
abbrev pub add_int32 : ℕ → ℤ → ℕ
add_int32 w (pos n) = (w + n) % 2 ^ 32
add_int32 w (negsuc n) = (w + (2 ^ 32 - (n + 1) % 2 ^ 32)) % 2 ^ 32
