-- ===== src/Net/Epoll/Calls.antt =====
-- dpdk-code/14_tcp_concurrency/tcp_concurrency.c: the items that the tree of the event poll leads to,
-- under each call.
use dpdk_learning.Base.{
  ℕ, zero, suc, ◌-◌, ◌≡◌, ◌≢◌, ◌∙◌, refl, sym, ap, Bool, true, false, Option, none, some, List, [],
  ◌∷◌, ◌==◌, ==_iff, arith, ◌&&◌, false≢true, Option-cases, Bool-cases, inl, inr,
}
use dpdk_learning.Net.Rte.{Rte, Fd, fd_eq}
use dpdk_learning.Net.State.{Run, crash, exit, wait, done, ◌>>=◌, EpItem}
use dpdk_learning.Net.Epoll.{
  Event, update, Poll, make_ready, epoll_event_callback, new_item, ctl_add_item, ctl_del_item,
  modify_item, ctl_mod_item, take_item, collect, nepoll_wait,
}
use dpdk_learning.Net.Epoll.Ready.{Heap}

pub fd_eq_iff : (a b : Fd) → fd_eq a b ≡ true → a ≡ b
fd_eq_iff none none e = refl
fd_eq_iff none (some b) e = ground arith
fd_eq_iff (some a) none e = ground arith
fd_eq_iff (some a) (some b) e = ap some ((==_iff a b).0 e)

fd_eq_refl : (a : Fd) → fd_eq a a ≡ true
fd_eq_refl none = refl
fd_eq_refl (some a) = ground arith

other_fd : (a b : Fd) → fd_eq a b ≡ false → a ≢ b
other_fd a b e h = false≢true (sym e ∙ ap (λ x. fd_eq a x) (sym h) ∙ fd_eq_refl a)

same_some {ℓ} : {A : Type ℓ} {a b : A} → some a ≡ some b → a ≡ b
same_some {a} h = ap (λ o. elim o [ none ↦ a | some x ↦ x ]) h

pub no_owner : (fd : Fd) → ◌≢◌ {A = Option Fd} none (some fd)
no_owner fd h = cc

pub none_some : (p : ℕ) → ◌≢◌ {A = Option ℕ} none (some p)
none_some p h = cc

-- The descriptor of the item at an address.
abbrev pub owner : Option EpItem → Option Fd
owner none = none
owner (some epi) = some epi.sockfd

-- A write of an item that keeps its descriptor.
pub owner-update :
    (h : Heap) (p q : ℕ) (epi v : EpItem)
    → h p ≡ some epi
    → v.sockfd ≡ epi.sockfd
    → owner (update h p (some v) q) ≡ owner (h q)
owner-update h p q epi v e s = elim (Bool-cases (q == p)) [
  | inl y ↦ let e' = rw (← (==_iff q p).0 y) at e in rw (y, e') (ap some s)
  | inr y ↦ rw y refl
]

module _ (rte : Rte) where
  -- Every descriptor in the tree leads to an item in memory, which is its own.
  abbrev pub Linked : Poll rte → Type 0
  Linked ep = (fd : Fd) (p : ℕ) → rte.rb_find ep.rbr fd ≡ some p → owner (ep.items p) ≡ some fd

  -- What a call leaves of the tree and of the items' descriptors, if it returns.
  abbrev pub Kept {ℓ} : {A : Type ℓ} → Poll rte → Run (A × Poll rte) → Type 0
  Kept ep (done (a, ep')) =
      (ep'.rbr ≡ ep.rbr) × ((p : ℕ) → owner (ep'.items p) ≡ owner (ep.items p))
  Kept ep crash = Unit
  Kept ep exit = Unit
  Kept ep wait = Unit

  pub Kept-bind {ℓ κ} :
      {A : Type ℓ} {B : Type κ} (ep : Poll rte) (r : Run (A × Poll rte)) (f : A → B)
      → Kept ep r
      → Kept ep (r >>= λ x. done (f x.0, x.1))
  Kept-bind ep (done (a, ep')) f k = k
  Kept-bind ep crash f k = tt
  Kept-bind ep exit f k = tt
  Kept-bind ep wait f k = tt

  pub Linked-Kept :
      (ep ep' : Poll rte)
      → Linked ep
      → (ep'.rbr ≡ ep.rbr) × ((p : ℕ) → owner (ep'.items p) ≡ owner (ep.items p))
      → Linked ep'
  Linked-Kept ep ep' l (t, k) fd p f = k p ∙ l fd p (ap (λ x. rte.rb_find x fd) (sym t) ∙ f)

  make_ready-Kept :
      (p event : ℕ) (ep : Poll rte) (o : Option EpItem)
      → ep.items p ≡ o
      → Kept ep (make_ready rte p event ep o)
  unfolding make_ready
  make_ready-Kept p event ep none e = tt
  make_ready-Kept p event ep (some epi) e = elim (Bool-cases epi.rdy) [
    | inl y ↦ rw y (refl, λ q. owner-update ep.items p q epi _ e refl)
    | inr y ↦ rw y (refl, λ q. owner-update ep.items p q epi _ e refl)
  ]

  pub epoll_event_callback-Kept :
      (ep : Poll rte) (sockid : Fd) (event : ℕ) → Kept ep (epoll_event_callback rte ep sockid event)
  unfolding epoll_event_callback
  epoll_event_callback-Kept ep sockid event = elim (Option-cases (rte.rb_find ep.rbr sockid)) [
    | inl f ↦ rw (f, epoll_event_callback) (refl, λ q. refl)
    | inr (p, f) ↦
        rw (f, epoll_event_callback)
          (Kept-bind ep (make_ready rte p event ep (ep.items p)) some
            (make_ready-Kept p event ep (ep.items p) refl))
  ]

  modify_item-Kept :
      (p : ℕ) (ev : Event) (ep : Poll rte) (o : Option EpItem)
      → ep.items p ≡ o
      → Kept ep (modify_item rte p ev ep o)
  unfolding modify_item
  modify_item-Kept p ev ep none e = tt
  modify_item-Kept p ev ep (some epi) e = (refl, λ q. owner-update ep.items p q epi _ e refl)

  pub ctl_mod_item-Kept :
      (sockid : Fd) (ev : Event) (ep : Poll rte) → Kept ep (ctl_mod_item rte sockid ev ep)
  unfolding ctl_mod_item
  ctl_mod_item-Kept sockid ev ep = elim (Option-cases (rte.rb_find ep.rbr sockid)) [
    | inl f ↦ rw (f, ctl_mod_item) (refl, λ q. refl)
    | inr (p, f) ↦ rw (f, ctl_mod_item) (modify_item-Kept p ev ep (ep.items p) refl)
  ]

  -- Behind the first item.
  Kept-next :
      (p : ℕ) (rd : List ℕ) (ep : Poll rte) (epi : EpItem) (ev : Event)
      (r : Run (List Event × Poll rte))
      → ep.items p ≡ some epi
      → Kept
          (record ep {
            rdlist = rd;
            rdnum = ep.rdnum - 1;
            items = update ep.items p (some (record epi { rdy = false }));
          })
          r
      → Kept ep (r >>= λ x. done (ev ∷ x.0, x.1))
  Kept-next p rd ep epi ev (done (evs, ep')) e (t, k) =
      (t, λ q. k q ∙ owner-update ep.items p q epi (record epi { rdy = false }) e refl)
  Kept-next p rd ep epi ev crash e k = tt
  Kept-next p rd ep epi ev exit e k = tt
  Kept-next p rd ep epi ev wait e k = tt

  collect-Kept : (num : ℕ) (rd : List ℕ) (ep : Poll rte) → Kept ep (collect rte num rd ep)
  unfolding collect take_item
  collect-Kept zero rd ep = (refl, λ q. refl)
  collect-Kept (suc num) [] ep = (refl, λ q. refl)
  collect-Kept (suc num) (p ∷ rd) ep = elim (Option-cases (ep.items p)) [
    | inl e ↦ rw (e, take_item, collect) tt
    | inr (epi, e) ↦
        rw (e, take_item, collect) (Kept-next p rd ep epi _ _ e (collect-Kept num rd _))
  ]

  pub nepoll_wait-Kept :
      (maxevents : ℕ) (forever : Bool) (ep : Poll rte)
      → Kept ep (nepoll_wait rte maxevents forever ep)
  unfolding nepoll_wait
  nepoll_wait-Kept maxevents forever ep = elim (Bool-cases (maxevents == 0)) [
    | inl z ↦ rw z (refl, λ q. refl)
    | inr z ↦ elim (Bool-cases (forever && (ep.rdnum == 0))) [
      | inl w ↦ rw (z, w) tt
      | inr w ↦ rw (z, w) (Kept-bind ep (collect rte _ ep.rdlist ep) some (collect-Kept _ _ ep))
    ]
  ]

  inserted :
      (n : ℕ) (sockid : Fd) (v : EpItem) (ep : Poll rte)
      → rte.rb_find ep.rbr sockid ≡ none
      → ep.items n ≡ none
      → v.sockfd ≡ sockid
      → Linked ep
      → (fd : Fd) (p : ℕ) → rte.rb_find (rte.rb_insert ep.rbr sockid n) fd ≡ some p
      → owner (update ep.items n (some v) p) ≡ some fd
  inserted n sockid v ep absent free own l fd p g =
      let law = rte.rb_find-insert ep.rbr sockid fd n absent in
      elim (Bool-cases (fd_eq sockid fd)) [
        | inl e ↦
            let at_n = rw e at law in
            let h : n ≡ p = same_some (sym at_n ∙ g) in
            let y : (p == n) ≡ true = ground (arith, h) in
            rw y (ap some (own ∙ fd_eq_iff sockid fd e))
        | inr e ↦
            let elsewhere = rw e at law in
            let old = l fd p (sym elsewhere ∙ g) in
            elim (Bool-cases (p == n)) [
              | inl y ↦
                  let missing = rw (← (==_iff p n).0 y) at free in
                  absurd (no_owner fd (sym (ap owner missing) ∙ old))
              | inr y ↦ rw y old
            ]
      ]

  pub ctl_add_item-Linked :
      (n : ℕ) (sockid : Fd) (ev : Event) (ep : Poll rte)
      → ep.items n ≡ none
      → Linked ep
      → Linked (ctl_add_item rte n sockid ev ep).1
  unfolding ctl_add_item
  ctl_add_item-Linked n sockid ev ep free l = elim (Option-cases (rte.rb_find ep.rbr sockid)) [
    | inr (p, f) ↦ rw (f, ctl_add_item) l
    | inl f ↦
        rw (f, ctl_add_item)
          (elim (Bool-cases (rte.alloc n)) [
            | inr a ↦ rw a l
            | inl a ↦ rw a (inserted n sockid (new_item rte n sockid ev) ep f free refl l)
          ])
  ]

  pub ctl_del_item-Kept : (sockid : Fd) (ep : Poll rte) → Kept ep (ctl_del_item rte sockid ep)
  unfolding ctl_del_item
  ctl_del_item-Kept sockid ep = elim (Option-cases (rte.rb_find ep.rbr sockid)) [
    | inl f ↦ rw (f, ctl_del_item) (refl, λ q. refl)
    | inr (p, f) ↦ rw (f, ctl_del_item) tt
  ]
