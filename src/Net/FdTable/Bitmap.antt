-- ===== src/Net/FdTable/Bitmap.antt =====
-- dpdk-code/14_tcp_concurrency/tcp_concurrency.c: the descriptor bitmap as a set of descriptors.
use dpdk_learning.Base.{
  ℕ, zero, suc, ◌+◌, ◌/◌, ◌%◌, ◌≤◌, ◌<◌, ◌≡◌, ◌≢◌, inl, inr, refl, sym, ap, Option, none, some,
  List, [], ◌∷◌, Bool, true, false, not, ◌&&◌, ◌||◌, ◌==◌, leb, ltb, get_or, set, bit_and, length,
  length-set, get_or-set_self, get_or-set_ne, Bool-cases, arith, and_parts,
}
use native.Mathlib.Decide.{ℕ_discrete}
use dpdk_learning.Base.Bits.{every_below, every_below_at}
use dpdk_learning.Net.FdTable.{
  bit, set_bit, clear_bit, byte_of, scan_fd, get_fd_frombitmap, set_fd_frombitmap,
}

-- Whether a descriptor is taken.
abbrev pub taken : List ℕ → ℕ → Bool
taken table fd = not (bit_and (byte_of table fd) (bit (fd % 8)) == 0)

-- The table covers every descriptor, and holds bytes.
pub record IsTable (table : List ℕ) : Type 0 where
  pub covers : 128 ≤ length table
  pub bytes : (i : ℕ) → get_or table i 0 < 256

abbrev bool_eq : Bool → Bool → Bool
bool_eq true b = b
bool_eq false b = not b

eq_of_bool_eq : (a b : Bool) → bool_eq a b ≡ true → a ≡ b
eq_of_bool_eq true b h = sym h
eq_of_bool_eq false b h = ground arith

-- The laws of one byte, checked at every byte and every two places.
abbrev byte_law : ℕ → ℕ → ℕ → Bool
byte_law b k j =
    bool_eq (not (bit_and (set_bit b k) (bit j) == 0)) (k == j || not (bit_and b (bit j) == 0))
    && (bool_eq (not (bit_and (clear_bit b k) (bit j) == 0))
          (not (k == j) && not (bit_and b (bit j) == 0))
        && (ltb (set_bit b k) 256 && ltb (clear_bit b k) 256))

byte_table : every_below 256 (λ b. every_below 8 (λ k. every_below 8 (λ j. byte_law b k j))) ≡ true
unfolding every_below
byte_table = refl

byte_law_holds : (b k j : ℕ) → b < 256 → k < 8 → j < 8 → byte_law b k j ≡ true
byte_law_holds b k j hb hk hj =
    every_below_at 8 j (λ j. byte_law b k j) hj
      (every_below_at 8 k (λ k. every_below 8 (λ j. byte_law b k j)) hk
        (every_below_at 256 b (λ b. every_below 8 (λ k. every_below 8 (λ j. byte_law b k j))) hb
          byte_table))

module _ (b k j : ℕ) (hb : b < 256) (hk : k < 8) (hj : j < 8) where
  byte_law_parts :
      (bool_eq (not (bit_and (set_bit b k) (bit j) == 0)) (k == j || not (bit_and b (bit j) == 0))
        ≡ true)
      × (bool_eq
            (not (bit_and (clear_bit b k) (bit j) == 0))
            (not (k == j) && not (bit_and b (bit j) == 0))
          ≡ true)
      × (set_bit b k < 256)
      × (clear_bit b k < 256)
  byte_law_parts =
      let (p, q) = and_parts _ _ (byte_law_holds b k j hb hk hj) in
      let (q', r) = and_parts _ _ q in
      let (s, t) = and_parts (ltb (set_bit b k) 256) (ltb (clear_bit b k) 256) r in
      (p, q', ground (arith, s), ground (arith, t))

  set_bit-taken :
      not (bit_and (set_bit b k) (bit j) == 0) ≡ (k == j || not (bit_and b (bit j) == 0))
  set_bit-taken = eq_of_bool_eq _ _ byte_law_parts.0

  clear_bit-taken :
      not (bit_and (clear_bit b k) (bit j) == 0) ≡ (not (k == j) && not (bit_and b (bit j) == 0))
  clear_bit-taken = eq_of_bool_eq _ _ byte_law_parts.1

-- Two descriptors share a byte and a place only if they are one.
same_place : (fd j : ℕ) → fd / 8 ≡ j / 8 → (fd % 8 == j % 8) ≡ (fd == j)
same_place fd j e = ground arith

other_place : (fd j : ℕ) → fd / 8 ≢ j / 8 → (fd == j) ≡ false
other_place fd j e = ground (arith, ap (λ (n : ℕ). n / 8))

get_or-set-lt :
    (xs : List ℕ) (i v j n : ℕ) → v < n → get_or xs j 0 < n → get_or (set xs i v) j 0 < n
get_or-set-lt [] i v j n hv h = h
get_or-set-lt (x ∷ xs) zero v zero n hv h = hv
get_or-set-lt (x ∷ xs) zero v (suc j) n hv h = h
get_or-set-lt (x ∷ xs) (suc i) v zero n hv h = h
get_or-set-lt (x ∷ xs) (suc i) v (suc j) n hv h = get_or-set-lt xs i v j n hv h

set-IsTable : (table : List ℕ) (i b : ℕ) → IsTable table → b < 256 → IsTable (set table i b)
set-IsTable table i b t hb = record {
  covers = omega (arith, length-set table i b, t.covers);
  bytes = λ j. get_or-set-lt table i b j 256 hb (t.bytes j);
}

module _ (table : List ℕ) (t : IsTable table) (fd j : ℕ) (hfd : fd < 1024) where
  -- The descriptor joins the taken ones.
  taken-set_bit :
      taken (set table (fd / 8) (set_bit (byte_of table fd) (fd % 8))) j
      ≡ (fd == j || taken table j)
  taken-set_bit = elim (ℕ_discrete (fd / 8) (j / 8)) [
    | yes e ↦ rw (
      ← e,
      get_or-set_self table (fd / 8) _ 0 (omega (arith, t.covers)),
      set_bit-taken (byte_of table fd) (fd % 8) (j % 8) (t.bytes (fd / 8)) (omega arith)
          (omega arith),
      same_place fd j e,
    )
    | no e ↦ rw (get_or-set_ne table (fd / 8) (j / 8) _ 0 e, other_place fd j e)
  ]

  taken-clear_bit :
      taken (set table (fd / 8) (clear_bit (byte_of table fd) (fd % 8))) j
      ≡ (not (fd == j) && taken table j)
  taken-clear_bit = elim (ℕ_discrete (fd / 8) (j / 8)) [
    | yes e ↦ rw (
      ← e,
      get_or-set_self table (fd / 8) _ 0 (omega (arith, t.covers)),
      clear_bit-taken (byte_of table fd) (fd % 8) (j % 8) (t.bytes (fd / 8)) (omega arith)
          (omega arith),
      same_place fd j e,
    )
    | no e ↦ rw (get_or-set_ne table (fd / 8) (j / 8) _ 0 e, other_place fd j e)
  ]

  -- On a table, `set_fd_frombitmap` takes a descriptor below 1024, and no other, off the taken ones.
  pub taken-set_fd_frombitmap :
      taken (set_fd_frombitmap fd table) j ≡ (not (fd == j) && taken table j)
  unfolding set_fd_frombitmap
  taken-set_fd_frombitmap =
      let small : leb 1024 fd ≡ false = ground arith in rw small taken-clear_bit

-- `set_fd_frombitmap` keeps the table a table.
pub set_fd_frombitmap-IsTable :
    (table : List ℕ) (fd : ℕ) → IsTable table → IsTable (set_fd_frombitmap fd table)
unfolding set_fd_frombitmap
set_fd_frombitmap-IsTable table fd t = elim (Bool-cases (leb 1024 fd)) [
  | inl e ↦ rw e t
  | inr e ↦ rw e (
      set-IsTable table (fd / 8) _ t
        (byte_law_parts (byte_of table fd) (fd % 8) 0 (t.bytes (fd / 8)) (omega arith)
          (omega arith)).3)
]

-- What a call of `get_fd_frombitmap` on a table comes to.
abbrev pub Got : List ℕ → ℕ → ℕ → Option ℕ × List ℕ → Type 0
Got table lo hi (none, table') =
    (table' ≡ table) × ((j : ℕ) → lo ≤ j → j < hi → taken table j ≡ true)
Got table lo hi (some fd, table') =
    (lo ≤ fd)
    × (fd < hi)
    × (taken table fd ≡ false)
    × ((j : ℕ) → lo ≤ j → j < fd → taken table j ≡ true)
    × ((j : ℕ) → taken table' j ≡ (fd == j || taken table j))
    × IsTable table'

Got-next :
    (table : List ℕ) (lo hi : ℕ) (out : Option ℕ × List ℕ)
    → taken table lo ≡ true
    → Got table (lo + 1) hi out
    → Got table lo hi out
Got-next table lo hi (none, table') h g = (g.0, λ j a b. below j a (ℕ_discrete lo j) b)
  where
    below : (j : ℕ) → lo ≤ j → Dec (lo ≡ j) → j < hi → taken table j ≡ true
    below j a (yes e) b = rw e at h
    below j a (no e) b = g.1 j (omega arith) b
Got-next table lo hi (some fd, table') h g =
    (omega (arith, g.0), g.1, g.2, λ j a b. below j a (ℕ_discrete lo j) b, g.4, g.5)
  where
    below : (j : ℕ) → lo ≤ j → Dec (lo ≡ j) → j < fd → taken table j ≡ true
    below j a (yes e) b = rw e at h
    below j a (no e) b = g.3 j (omega arith) b

scan_fd-Got :
    (rounds fd : ℕ) (table : List ℕ)
    → IsTable table
    → fd + rounds ≤ 1024
    → Got table fd (fd + rounds) (scan_fd rounds fd table)
unfolding scan_fd
scan_fd-Got zero fd table t fits = (refl, λ j a b. absurd (omega arith))
scan_fd-Got (suc rounds) fd table t fits =
    elim (Bool-cases (bit_and (byte_of table fd) (bit (fd % 8)) == 0)) [
      | inl e ↦ rw e (
        omega arith,
        omega arith,
        rw e,
        λ j a b. absurd (omega arith),
        λ j. taken-set_bit table t fd j (omega arith),
        set-IsTable table (fd / 8) _ t
            (byte_law_parts (byte_of table fd) (fd % 8) 0 (t.bytes (fd / 8)) (omega arith)
              (omega arith)).2,
      )
      | inr e ↦
          let e' : fd + suc rounds ≡ fd + 1 + rounds = omega arith in
          rw (e, e')
            (Got-next table fd (fd + 1 + rounds) (scan_fd rounds (fd + 1) table) (rw e)
              (scan_fd-Got rounds (fd + 1) table t (omega arith)))
    ]

-- On a table, `get_fd_frombitmap` takes the lowest free descriptor from 3 to 1023 and marks that one
-- alone; if all of these are taken it returns -1 and changes nothing.
pub get_fd_frombitmap-Got :
    (table : List ℕ) → IsTable table → Got table 3 1024 (get_fd_frombitmap table)
unfolding get_fd_frombitmap
get_fd_frombitmap-Got table t = scan_fd-Got 1021 3 table t (omega arith)
