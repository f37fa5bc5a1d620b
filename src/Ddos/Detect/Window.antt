-- ===== src/Ddos/Detect/Window.antt =====
-- dpdk-code/14_tcp_concurrency/tcp_concurrency.c: the window of ddos_detect, as the packets that it
-- stands for.
use dpdk_learning.Base.{
  ℕ, zero, suc, ◌+◌, ◌-◌, ◌%◌, ◌<◌, ◌≤◌, ◌≡◌, ◌≢◌, ◌∙◌, refl, sym, ap, Bool, true, false, Option,
  none, some, List, [], ◌∷◌, leb, set, get_or, take, length, length-set, get_or-set_self,
  get_or-set_ne, replicate, arith, map, Bool-cases, inl, inr,
}
use dpdk_learning.Ddos.Detect.{
  Double, capture_windows, sum, Detector, initial, capture, attacked, decide, observe,
}

sum-set : (xs : List ℕ) (i v : ℕ) → i < length xs → sum (set xs i v) + get_or xs i 0 ≡ sum xs + v
sum-set [] i v h = absurd (omega arith)
sum-set (x ∷ xs) zero v h = omega arith
sum-set (x ∷ xs) (suc i) v h = omega (arith, sum-set xs i v (omega arith))

-- The sum of `n + 1` items, and of the first `n`.
sum-take-suc : (n : ℕ) (xs : List ℕ) → sum (take (suc n) xs) ≡ sum (take n xs) + get_or xs n 0
sum-take-suc zero [] = refl
sum-take-suc zero (x ∷ xs) = omega arith
sum-take-suc (suc n) [] = refl
sum-take-suc (suc n) (x ∷ xs) = omega (arith, sum-take-suc n xs)

-- An array that holds the last 256 numbers of a history, most recent first: the one before `k` others
-- stands `k` slots behind the last, and the sum is that of these numbers.
pub record Holds (xs hist : List ℕ) : Type 0 where
  pub size : length xs ≡ 256
  pub slots : (k : ℕ) → k < 256 → get_or xs ((length hist + 255 - k) % 256) 0 ≡ get_or hist k 0
  pub summed : sum xs ≡ sum (take 256 hist)

Holds-set :
    (xs hist : List ℕ) (i v : ℕ)
    → i % 256 ≡ length hist % 256
    → Holds xs hist
    → Holds (set xs (i % 256) v) (v ∷ hist)
Holds-set xs hist i v e h = record {
  size = length-set xs (i % 256) v ∙ h.size;
  slots = slots;
  summed = summed;
}
  where
    slots :
        (k : ℕ)
        → k < 256
        → get_or (set xs (i % 256) v) ((suc (length hist) + 255 - k) % 256) 0
          ≡ get_or (v ∷ hist) k 0
    slots zero b =
        let s : (suc (length hist) + 255 - 0) % 256 ≡ i % 256 = omega (arith, e) in
        rw s (get_or-set_self xs (i % 256) v 0 (omega (arith, h.size)))
    slots (suc k) b =
        let s : (suc (length hist) + 255 - suc k) % 256 ≡ (length hist + 255 - k) % 256 =
          omega arith in
        let n : i % 256 ≢ (length hist + 255 - k) % 256 = λ q. omega (arith, e, q) in
        rw (s, get_or-set_ne xs (i % 256) ((length hist + 255 - k) % 256) v 0 n)
          (h.slots k (omega arith))

    oldest : get_or xs (i % 256) 0 ≡ get_or hist 255 0
    oldest =
        let s : i % 256 ≡ (length hist + 255 - 255) % 256 = omega (arith, e) in
        ap (λ j. get_or xs j 0) s ∙ h.slots 255 (omega arith)

    summed : sum (set xs (i % 256) v) ≡ sum (take 256 (v ∷ hist))
    summed = omega (
      arith,
      sum-set xs (i % 256) v (omega (arith, h.size)),
      oldest,
      h.summed,
      sum-take-suc 255 hist,
    )

-- The cleared array holds the empty history.
zeros_slot : (n k : ℕ) → ◌≡◌ {A = ℕ} (get_or (replicate n 0) k 0) 0
zeros_slot zero k = refl
zeros_slot (suc n) zero = refl
zeros_slot (suc n) (suc k) = zeros_slot n k

Holds-nil : Holds (replicate capture_windows 0) []
Holds-nil = record {
  size = refl;
  slots = λ k h. zeros_slot 256 ((0 + 255 - k) % 256);
  summed = refl;
}

module _ (double : Double) where
  -- The detector after the packets of a history, most recent first, each with the number of its ones
  -- and of its bits.
  unfoldable pub replay : List (ℕ × ℕ) → Option (Detector double)
  replay [] = some (initial double)
  replay ((set_bits, tot_bits) ∷ hist) = elim (replay hist) [
    | none ↦ none
    | some d ↦ observe double set_bits tot_bits d
  ]

  -- The window stands for the last 256 packets, `pkt_idx` stays below 512 and tells where the next one
  -- goes and whether the window is full, and the flag is off.
  pub record Window (hist : List (ℕ × ℕ)) (d : Detector double) : Type 0 where
    pub sets : Holds d.p_setbits (map (λ (p : ℕ × ℕ). p.0) hist)
    pub tots : Holds d.p_totbits (map (λ (p : ℕ × ℕ). p.1) hist)
    pub placed : d.pkt_idx % 256 ≡ length hist % 256
    pub below : d.pkt_idx < 512
    pub filled : leb 256 d.pkt_idx ≡ leb 256 (length hist)
    pub calm : d.flag ≡ false

  -- An exit happens only on a full window.
  abbrev pub Follows : List (ℕ × ℕ) → Option (Detector double) → Type 0
  Follows hist none = 256 < length hist
  Follows hist (some d) = Window hist d

  length-map : (f : ℕ × ℕ → ℕ) (hist : List (ℕ × ℕ)) → length (map f hist) ≡ length hist
  length-map f [] = refl
  length-map f (p ∷ hist) = ap suc (length-map f hist)

  -- The detector after one more packet, with its index moved on.
  Window-next :
      (s t n : ℕ) (fl : Bool) (hist : List (ℕ × ℕ)) (d : Detector double)
      → Window hist d
      → fl ≡ false
      → n % 256 ≡ suc (length hist) % 256
      → n < 512
      → leb 256 n ≡ leb 256 (suc (length hist))
      → Window ((s, t) ∷ hist) (record (capture double s t d) { pkt_idx = n; flag = fl })
  Window-next s t n fl hist d w c e b f = record {
    sets =
        Holds-set d.p_setbits (map (λ (p : ℕ × ℕ). p.0) hist) d.pkt_idx s
          (w.placed ∙ ap (λ l. l % 256) (sym (length-map (λ p. p.0) hist))) w.sets;
    tots =
        Holds-set d.p_totbits (map (λ (p : ℕ × ℕ). p.1) hist) d.pkt_idx t
          (w.placed ∙ ap (λ l. l % 256) (sym (length-map (λ p. p.1) hist))) w.tots;
    placed = e;
    below = b;
    filled = f;
    calm = c;
  }

  full : (m n : ℕ) → leb 256 m ≡ true → leb 256 m ≡ leb 256 n → 256 ≤ n
  full m n e f = ground arith

  not_full : (m n : ℕ) → leb 256 m ≡ false → leb 256 m ≡ leb 256 n → m % 256 ≡ n % 256 → m ≡ n
  not_full m n e f p = ground arith

  detect-Follows :
      (s t : ℕ) (hist : List (ℕ × ℕ)) (d : Detector double)
      → Window hist d
      → Follows ((s, t) ∷ hist) (observe double s t d)
  unfolding observe decide
  detect-Follows s t hist d w = elim (Bool-cases (leb 256 d.pkt_idx)) [
    | inr e ↦
        let n = not_full d.pkt_idx (length hist) e w.filled w.placed in
        rw e (
          Window-next s t (d.pkt_idx + 1) d.flag hist d w w.calm (omega (arith, n)) (ground arith)
            (ap (λ k. leb 256 k) (omega (arith, n))))
    | inl e ↦
        let n = full d.pkt_idx (length hist) e w.filled in
        let next =
          Window-next s t ((d.pkt_idx + 1) % 256 + 256) false hist d w refl
            (omega (arith, w.placed)) (omega arith) (ground (arith, n)) in
        elim (Bool-cases (attacked double (capture double s t d))) [
          | inr a ↦ rw (e, a) next
          | inl a ↦ rw (e, a, w.calm) (omega (arith, n))
        ]
  ]

  pub replay-Follows : (hist : List (ℕ × ℕ)) → Follows hist (replay hist)
  unfolding replay
  replay-Follows [] = record {
    sets = Holds-nil;
    tots = Holds-nil;
    placed = refl;
    below = omega arith;
    filled = refl;
    calm = refl;
  }
  replay-Follows ((s, t) ∷ hist) = next (replay hist) (replay-Follows hist)
    where
      next :
          (o : Option (Detector double))
          → Follows hist o
          → Follows ((s, t) ∷ hist) (elim o [ none ↦ none | some d ↦ observe double s t d ])
      next none f = omega (arith, f)
      next (some d) w = detect-Follows s t hist d w
