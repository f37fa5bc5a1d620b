-- ===== src/Icmp/Checksum.antt =====
-- dpdk-code/04_icmp/icmp.c: ng_checksum.
pub mod Sums
use dpdk_learning.Base.{ℕ, zero, suc, ◌+◌, ◌-◌, ◌/◌, ◌%◌, ◌^◌, ◌==◌, if◌then◌else◌, List, get_or}
use dpdk_learning.Net.Frame.{load16}

-- The first loop and the odd byte behind it, from offset `i` on, with `count` bytes left. The sum, a
-- `long`, does not wrap around for a count that is an `int`.
unfoldable pub add_words : ℕ → List ℕ → ℕ → ℕ → ℕ
add_words zero bs i sum = sum
add_words (suc zero) bs i sum = sum + get_or bs i 0
add_words (suc (suc count)) bs i sum = add_words count bs (i + 2) (sum + load16 bs i)

-- The second loop, with the rounds that are left; without one the sum is returned as it is.
unfoldable pub fold_carry : ℕ → ℕ → ℕ
fold_carry zero sum = sum
fold_carry (suc rounds) sum =
    let rest = fold_carry rounds (sum % 2 ^ 16 + sum / 2 ^ 16) in
    if sum / 2 ^ 16 == 0 then sum else rest

-- A round makes the sum smaller, so that as many of them are enough.
abbrev pub folded : ℕ → ℕ
folded sum = fold_carry sum sum

-- `~sum` as a `uint16_t`.
unfoldable pub ng_checksum : List ℕ → ℕ → ℕ
unfolding add_words fold_carry
ng_checksum bs count = 65535 - folded (add_words count bs 0 0) % 2 ^ 16
