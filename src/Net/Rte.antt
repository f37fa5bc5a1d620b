-- ===== src/Net/Rte.antt =====
-- What dpdk-code/14_tcp_concurrency/tcp_concurrency.c takes from outside: the rings, the memory,
-- the random numbers and the checksum of DPDK, and the generated red-black tree of nty_tree.h.
use dpdk_learning.Base.{
  ℕ, ◌+◌, ◌^◌, ◌<◌, ◌≤◌, take, drop, ◌≡◌, Bool, true, false, Option, none, some, List, [], ◌∷◌,
  ◌++◌, length, if◌then◌else◌, ◌==◌,
}

-- A file descriptor; `none` is -1.
abbrev pub Fd : Type 0
Fd = Option ℕ

abbrev pub fd_eq : Fd → Fd → Bool
fd_eq none none = true
fd_eq none (some b) = false
fd_eq (some a) none = false
fd_eq (some a) (some b) = a == b

pub record Rte : Type 1 where
  -- `rte_ring`: a FIFO queue of bounded size. Every caller drops the return code of an enqueue.
  pub Ring : Type 0 → Type 0
  pub room : ℕ
  pub items : {A : Type 0} → Ring A → List A
  pub ring_new : {A : Type 0} → Ring A
  pub enqueue : {A : Type 0} → Ring A → A → Ring A
  pub dequeue : {A : Type 0} → Ring A → Option (A × Ring A)
  pub items-ring_new : {A : Type 0} → items (ring_new {A = A}) ≡ []
  pub items-enqueue :
      {A : Type 0} (r : Ring A) (x : A)
      → length (items r) < room
      → items (enqueue r x) ≡ items r ++ (x ∷ [])
  pub dequeue_nil : {A : Type 0} (r : Ring A) → items r ≡ [] → dequeue r ≡ none
  pub dequeue_cons :
      {A : Type 0} (r : Ring A) (x : A) (xs : List A)
      → items r ≡ x ∷ xs
      → (r' : Ring A) × (dequeue r ≡ some (x, r')) × (items r' ≡ xs)
  -- `rte_ring_enqueue_burst` and `rte_ring_dequeue_burst`: as many as there is room for, or as there
  -- are and were asked for.
  pub enqueue_burst : {A : Type 0} → Ring A → List A → Ring A
  pub dequeue_burst : {A : Type 0} → Ring A → ℕ → List A × Ring A
  pub items-enqueue_burst :
      {A : Type 0} (r : Ring A) (xs : List A)
      → length (items r) + length xs ≤ room
      → items (enqueue_burst r xs) ≡ items r ++ xs
  pub dequeue_burst-take :
      {A : Type 0} (r : Ring A) (n : ℕ) → (dequeue_burst r n).0 ≡ take n (items r)
  pub items-dequeue_burst :
      {A : Type 0} (r : Ring A) (n : ℕ) → items (dequeue_burst r n).1 ≡ drop n (items r)
  -- The red-black tree from descriptors to items, through RB_FIND, RB_INSERT and RB_REMOVE.
  pub Tree : Type 0
  pub rb_init : Tree
  pub rb_find : Tree → Fd → Option ℕ
  pub rb_insert : Tree → Fd → ℕ → Tree
  pub rb_find-init : (k : Fd) → rb_find rb_init k ≡ none
  pub rb_find-insert :
      (t : Tree) (k j : Fd) (p : ℕ)
      → rb_find t k ≡ none
      → rb_find (rb_insert t k p) j ≡ (if fd_eq k j then some p else rb_find t j)
  -- The n-th call of an allocator: whether it succeeds, and what the memory holds that
  -- `rte_malloc` returns uncleared.
  pub alloc : ℕ → Bool
  pub ring_create : ℕ → Bool
  pub junk : ℕ → ℕ
  -- `rand_r` seeded with the time, at the n-th step.
  pub rand : ℕ → ℕ
  -- The byte order of the machine: `htonl` and `ntohl` are one function, which undoes itself, and so
  -- are `htons` and `ntohs`.
  pub ntohl : ℕ → ℕ
  pub ntohs : ℕ → ℕ
  pub ntohl-ntohl : (w : ℕ) → w < 2 ^ 32 → ntohl (ntohl w) ≡ w
  pub ntohs-ntohs : (w : ℕ) → w < 2 ^ 16 → ntohs (ntohs w) ≡ w
  pub ntohl-lt : (w : ℕ) → w < 2 ^ 32 → ntohl w < 2 ^ 32
  pub ntohs-lt : (w : ℕ) → w < 2 ^ 16 → ntohs w < 2 ^ 16
  -- `rte_ipv4_cksum` of a header, and `rte_ipv4_udptcp_cksum` of a header and the bytes behind it
  -- that its total length counts.
  pub ip_cksum : List ℕ → ℕ
  pub l4_cksum : List ℕ → List ℕ → ℕ
  pub ip_cksum-lt : (h : List ℕ) → ip_cksum h < 2 ^ 16
  pub l4_cksum-lt : (h l : List ℕ) → l4_cksum h l < 2 ^ 16
  -- What the n-th allocation holds at an offset, where it is the buffer of a packet: the bytes are
  -- not cleared.
  pub mbuf_byte : ℕ → ℕ → ℕ
