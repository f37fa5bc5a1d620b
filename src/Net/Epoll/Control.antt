-- ===== src/Net/Epoll/Control.antt =====
-- dpdk-code/14_tcp_concurrency/tcp_concurrency.c: nepoll_ctl on a valid poll.
use dpdk_learning.Base.{
  ℕ, ◌≡◌, false, Option, none, some, List, [], ◌∷◌, ◌==◌, ==_iff, arith, Option-cases, Bool-cases,
  inl, inr,
}
use dpdk_learning.Net.Rte.{Rte, Fd}
use dpdk_learning.Net.State.{EpItem}
use dpdk_learning.Net.Epoll.{Event, update, Poll, new_item, ctl_add_item}
use dpdk_learning.Net.Epoll.Ready.{Heap, IsPoll, IsValid, is_ready, ReadyList}

idle_update :
    (h : Heap) (p : ℕ) (v : Option EpItem) (ps : List ℕ)
    → is_ready (h p) ≡ false
    → ReadyList h ps
    → ReadyList (update h p v) ps
idle_update h p v [] e r = tt
idle_update h p v (q ∷ qs) e r = elim (Bool-cases (q == p)) [
  | inl s ↦ let e' = rw (← (==_iff q p).0 s) at e in ground (arith, r.0)
  | inr s ↦ (rw s r.0, r.1, idle_update h p v qs e r.2)
]

-- A write to an item that is not ready, of an item that is not ready, keeps the poll in order.
pub IsPoll-idle :
    {h : Heap} {rd : List ℕ} {n : ℕ} (p : ℕ) (v : Option EpItem)
    → is_ready (h p) ≡ false
    → is_ready v ≡ false
    → IsPoll h rd n
    → IsPoll (update h p v) rd n
IsPoll-idle {h} {rd} p v e f i = record {
  counted = i.counted;
  listed = idle_update h p v rd e i.listed;
  complete = λ q r. ground (arith, i.complete q);
}

module _ (rte : Rte) where
  -- Adding an item keeps a valid poll valid, if the memory that it is given is unused and cleared.
  pub ctl_add_item-IsValid :
      (n : ℕ) (sockid : Fd) (ev : Event) (ep : Poll rte)
      → ep.items n ≡ none
      → rte.junk n ≡ 0
      → IsValid rte ep
      → IsValid rte (ctl_add_item rte n sockid ev ep).1
  unfolding ctl_add_item
  ctl_add_item-IsValid n sockid ev ep free clear i =
      let idle : is_ready (some (new_item rte n sockid ev)) ≡ false = rw clear in
      let e : is_ready (ep.items n) ≡ false = rw free in
      elim (Option-cases (rte.rb_find ep.rbr sockid)) [
        | inr (p, f) ↦ rw (f, ctl_add_item) i
        | inl f ↦
            rw (f, ctl_add_item)
              (elim (Bool-cases (rte.alloc n)) [
                | inl a ↦ rw a (IsPoll-idle n (some (new_item rte n sockid ev)) e idle i)
                | inr a ↦ rw a i
              ])
      ]
