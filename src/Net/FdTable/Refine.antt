-- ===== src/Net/FdTable/Refine.antt =====
-- dpdk-code/14_tcp_concurrency/tcp_concurrency.c: the descriptor bitmap against a set of descriptors,
-- over any sequence of calls.
use dpdk_learning.Base.{
  ℕ, zero, suc, ◌+◌, ◌-◌, ◌/◌, ◌%◌, set, ◌≤◌, ◌<◌, ◌≡◌, ◌∙◌, refl, sym, ap, subst, Option, none,
  some, List, [], ◌∷◌, Bool, true, false, not, ◌&&◌, ◌||◌, ◌==◌, ==_iff, leb, if◌then◌else◌,
  Bool-cases, inl, inr, arith,
}
use dpdk_learning.Net.FdTable.{
  byte_of, clear_bit, default_fd_num, max_fd_count, get_fd_frombitmap, set_fd_frombitmap,
}
use dpdk_learning.Net.FdTable.Bitmap.{
  IsTable, taken, Got, get_fd_frombitmap-Got, taken-set_fd_frombitmap, set_fd_frombitmap-IsTable,
}

pub data Op : Type 0 where
  get_fd : Op
  set_fd : ℕ → Op

-- What the calls return, in their order; the call that gives a descriptor back returns nothing.
unfoldable pub run : List Op → List ℕ → List (Option ℕ)
run [] table = []
run (get_fd ∷ ops) table = let (fd, table') = get_fd_frombitmap table in fd ∷ run ops table'
run (set_fd fd ∷ ops) table = run ops (set_fd_frombitmap fd table)

-- The set of the descriptors that are taken.
abbrev pub Fds : Type 0
Fds = ℕ → Bool

-- The first of some numbers that is not in the set.
unfoldable pub lowest : ℕ → ℕ → Fds → Option ℕ
lowest zero fd fds = none
lowest (suc rounds) fd fds =
    let rest = lowest rounds (fd + 1) fds in if fds fd then rest else some fd

abbrev pub with_fd : Option ℕ → Fds → Fds
with_fd none fds j = fds j
with_fd (some fd) fds j = fd == j || fds j

abbrev pub without : ℕ → Fds → Fds
without fd fds j = if leb max_fd_count fd then fds j else not (fd == j) && fds j

-- The same calls on the set: the lowest free number from 3 to 1023 is handed out.
unfoldable pub run_set : List Op → Fds → List (Option ℕ)
run_set [] fds = []
run_set (get_fd ∷ ops) fds =
    let fd = lowest (max_fd_count - default_fd_num) default_fd_num fds in
    fd ∷ run_set ops (with_fd fd fds)
run_set (set_fd fd ∷ ops) fds = run_set ops (without fd fds)

lowest_full :
    (rounds lo : ℕ) (fds : Fds)
    → ((j : ℕ) → lo ≤ j → j < lo + rounds → fds j ≡ true)
    → lowest rounds lo fds ≡ none
unfolding lowest
lowest_full zero lo fds h = refl
lowest_full (suc rounds) lo fds h =
    rw (h lo (omega arith) (omega arith))
      (lowest_full rounds (lo + 1) fds (λ j a b. h j (omega arith) (omega arith)))

lowest_free :
    (rounds lo fd : ℕ) (fds : Fds)
    → lo ≤ fd
    → fd < lo + rounds
    → fds fd ≡ false
    → ((j : ℕ) → lo ≤ j → j < fd → fds j ≡ true)
    → lowest rounds lo fds ≡ some fd
unfolding lowest
lowest_free zero lo fd fds a b f h = absurd (omega arith)
lowest_free (suc rounds) lo fd fds a b f h = elim (Bool-cases (lo == fd)) [
  | inl e ↦ let e' : lo ≡ fd = (==_iff lo fd).0 e in rw (e', f) refl
  | inr e ↦ rw (h lo (omega arith) (ground (arith, e))) (
      lowest_free rounds (lo + 1) fd fds (ground (arith, e)) (omega arith) f
        (λ j c d. h j (omega arith) d))
]

-- The bitmap stands for the set.
abbrev pub Stands : List ℕ → Fds → Type 0
Stands table fds = IsTable table × ((j : ℕ) → taken table j ≡ fds j)

Stands-get :
    (table : List ℕ) (fds : Fds) (out : Option ℕ × List ℕ)
    → Stands table fds
    → Got table 3 1024 out
    → (lowest (max_fd_count - default_fd_num) default_fd_num fds ≡ out.0)
      × Stands out.1 (with_fd out.0 fds)
Stands-get table fds (none, table') (t, s) (e, h) = (
  lowest_full 1021 3 fds (λ j a b. sym (s j) ∙ h j a (omega arith)),
  (subst IsTable (sym e) t, λ j. ap (λ l. taken l j) e ∙ s j),
)
Stands-get table fds (some fd, table') (t, s) (a, b, f, h, n, t') = (
  lowest_free 1021 3 fd fds a (omega arith) (sym (s fd) ∙ f) (λ j c d. sym (s j) ∙ h j c d),
  (t', λ j. n j ∙ ap (λ x. fd == j || x) (s j)),
)

taken-clear :
    (table : List ℕ) (fd j : ℕ)
    → IsTable table
    → fd < 1024
    → leb 1024 fd ≡ false
    → taken (set table (fd / 8) (clear_bit (byte_of table fd) (fd % 8))) j
      ≡ (not (fd == j) && taken table j)
unfolding set_fd_frombitmap
taken-clear table fd j t h e = let freed = taken-set_fd_frombitmap table t fd j h in rw e at freed

taken-without :
    (table : List ℕ) (fds : Fds) (fd j : ℕ)
    → Stands table fds
    → taken (set_fd_frombitmap fd table) j ≡ without fd fds j
unfolding set_fd_frombitmap
taken-without table fds fd j (t, s) = elim (Bool-cases (leb 1024 fd)) [
  | inl e ↦ rw e (s j)
  | inr e ↦
      rw e (taken-clear table fd j t (ground (arith, e)) e ∙ ap (λ b. not (fd == j) && b) (s j))
]

Stands-set :
    (table : List ℕ) (fds : Fds) (fd : ℕ)
    → Stands table fds
    → Stands (set_fd_frombitmap fd table) (without fd fds)
Stands-set table fds fd (t, s) =
    (set_fd_frombitmap-IsTable table fd t, λ j. taken-without table fds fd j (t, s))

-- On a table that stands for a set, any sequence of calls of `get_fd_frombitmap` and
-- `set_fd_frombitmap` returns what the same calls on the set return.
pub run-refines-run_set :
    (ops : List Op) (table : List ℕ) (fds : Fds)
    → Stands table fds
    → run ops table ≡ run_set ops fds
unfolding run run_set
run-refines-run_set [] table fds s = refl
run-refines-run_set (get_fd ∷ ops) table fds s =
    let (e, s') =
      Stands-get table fds (get_fd_frombitmap table) s (get_fd_frombitmap-Got table s.0) in
    rw e (ap (λ l. (get_fd_frombitmap table).0 ∷ l) (run-refines-run_set ops _ _ s'))
run-refines-run_set (set_fd fd ∷ ops) table fds s =
    run-refines-run_set ops (set_fd_frombitmap fd table) (without fd fds)
      (Stands-set table fds fd s)
