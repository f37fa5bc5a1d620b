-- ===== src/Icmp/Checksum/Sums.antt =====
-- dpdk-code/04_icmp/icmp.c: ng_checksum against the sum of the words modulo 65535.
use dpdk_learning.Base.{
  ℕ, zero, suc, ◌+◌, ◌-◌, ◌*◌, ◌/◌, ◌%◌, ◌^◌, ◌<◌, ◌≤◌, ◌≡◌, refl, subst, ◌==◌, if◌then◌else◌, List,
  get_or, arith, Bool-cases, inl, inr,
}
use dpdk_learning.Net.Frame.{load16}
use dpdk_learning.Icmp.Checksum.{add_words, fold_carry, folded, ng_checksum}

-- The sum of `n` bytes from an offset on, those at odd offsets 256-fold.
unfoldable pub sum_of : ℕ → List ℕ → ℕ → ℕ
sum_of zero bs i = 0
sum_of (suc n) bs i = (if i % 2 == 0 then 1 else 256) * get_or bs i 0 + sum_of n bs (i + 1)

add_words-sum_of :
    (n : ℕ) (bs : List ℕ) (i s : ℕ) → i % 2 ≡ 0 → add_words n bs i s ≡ s + sum_of n bs i
unfolding add_words sum_of
add_words-sum_of zero bs i s e = omega arith
add_words-sum_of (suc zero) bs i s e = rw e (omega arith)
add_words-sum_of (suc (suc n)) bs i s e =
    let o : (i + 1) % 2 ≡ 1 = omega (arith, e) in
    let f : i + 1 + 1 ≡ i + 2 = omega arith in
    rw (e, o, f, add_words-sum_of n bs (i + 2) (s + load16 bs i) (omega (arith, e))) (omega arith)

-- What the second loop comes to: its condition is false, the sum is the same modulo 65535, and it is
-- zero only for zero.
pub record Folded (s r : ℕ) : Type 0 where
  pub ended : r / 2 ^ 16 ≡ 0
  pub carried : (q : ℕ) × (s ≡ r + 65535 * q)
  pub positive : 0 < s → 0 < r

pub fold_carry-Folded : (rounds s : ℕ) → s ≤ rounds → Folded s (fold_carry rounds s)
unfolding fold_carry
fold_carry-Folded zero s h = record {
  ended = omega arith;
  carried = (0, omega arith);
  positive = λ p. p;
}
fold_carry-Folded (suc rounds) s h = elim (Bool-cases (s / 2 ^ 16 == 0)) [
  | inl e ↦
      rw e (record { ended = ground (arith, e); carried = (0, omega arith); positive = λ p. p })
  | inr e ↦
      let big : 0 < s / 2 ^ 16 = ground (arith, e) in
      let ih = fold_carry-Folded rounds (s % 2 ^ 16 + s / 2 ^ 16) (omega arith) in
      rw e (record {
        ended = ih.ended;
        carried = (ih.carried.0 + s / 2 ^ 16, omega (arith, ih.carried.1));
        positive = λ p. ih.positive (omega arith);
      })
]

-- A checksum for a sum: a number of 16 bits that makes it a positive multiple of 65535, and is 65535 only for
-- the sum zero.
pub record Checks (s c : ℕ) : Type 0 where
  pub short : c < 2 ^ 16
  pub multiple : (q : ℕ) × (s + c ≡ 65535 * (q + 1))
  pub full : c ≡ 65535 → s ≡ 0

Folded-Checks : (s r : ℕ) → Folded s r → Checks s (65535 - r % 2 ^ 16)
Folded-Checks s r f = record {
  short = omega arith;
  multiple = (f.carried.0, omega (arith, f.ended, f.carried.1));
  full = λ e. ground (arith, f.ended, f.positive, e);
}

pub ng_checksum-add_words :
    (bs : List ℕ) (count : ℕ) → Checks (add_words count bs 0 0) (ng_checksum bs count)
unfolding ng_checksum
ng_checksum-add_words bs count =
    Folded-Checks _ _
      (fold_carry-Folded (add_words count bs 0 0) (add_words count bs 0 0) (omega arith))

-- The loop that adds the carries ends within its rounds, and for any bytes and any count
-- `ng_checksum` is a number of 16 bits that makes the sum of the words, the odd byte behind them
-- included, a positive multiple of 65535; it is 65535 only for the sum zero.
pub ng_checksum-Checks :
    (bs : List ℕ) (count : ℕ)
    → (folded (add_words count bs 0 0) / 2 ^ 16 ≡ 0)
      × Checks (sum_of count bs 0) (ng_checksum bs count)
ng_checksum-Checks bs count =
    let f = fold_carry-Folded (add_words count bs 0 0) (add_words count bs 0 0) (omega arith) in
    let e : add_words count bs 0 0 ≡ sum_of count bs 0 =
      omega (arith, add_words-sum_of count bs 0 0 refl) in
    (f.ended, subst (λ s. Checks s (ng_checksum bs count)) e (ng_checksum-add_words bs count))

-- A sum that its checksum has been added to has the checksum zero.
pub Checks-zero : (s c : ℕ) → Checks s c → 65535 - folded (s + c) % 2 ^ 16 ≡ 0
Checks-zero s c h =
    let f = fold_carry-Folded (s + c) (s + c) (omega arith) in
    let (q, e) = h.multiple in
    let (p, e') = f.carried in omega (arith, f.ended, f.positive (omega (arith, e)), e, e')
