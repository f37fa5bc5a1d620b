-- ===== src/Net/Epoll/Ready.antt =====
-- dpdk-code/14_tcp_concurrency/tcp_concurrency.c: the ready list of the event poll, under
-- epoll_event_callback and nepoll_wait.
use dpdk_learning.Base.{
  ℕ, zero, suc, ◌+◌, ◌-◌, ◌≡◌, ◌∙◌, refl, ap, min, Bool, true, false, Option, none, some, List, [],
  ◌∷◌, ◌==◌, ==_iff, if◌then◌else◌, bit_or, take, drop, length, arith, Option-cases, Bool-cases,
  inl, inr,
}
use dpdk_learning.Net.Rte.{Rte, Fd}
use dpdk_learning.Net.State.{Run, crash, exit, wait, done, ◌>>=◌, EpItem}
use dpdk_learning.Net.Epoll.{
  Event, update, Poll, make_ready, epoll_event_callback, event_of, take_item, collect,
}

abbrev pub Heap : Type 0
Heap = ℕ → Option EpItem

abbrev pub is_ready : Option EpItem → Bool
is_ready none = false
is_ready (some e) = e.rdy

abbrev pub absent : ℕ → List ℕ → Bool
absent p [] = true
absent p (q ∷ qs) = if p == q then false else absent p qs

-- Every address of the list holds an item that is marked ready, and none stands twice.
abbrev pub ReadyList : Heap → List ℕ → Type 0
ReadyList h [] = Unit
ReadyList h (p ∷ ps) = (is_ready (h p) ≡ true) × (absent p ps ≡ true) × ReadyList h ps

-- The ready list of a poll is in order, it is as long as its counter says, and every item that is
-- marked ready stands in it.
pub record IsPoll (items : Heap) (rdlist : List ℕ) (rdnum : ℕ) : Type 0 where
  pub counted : rdnum ≡ length rdlist
  pub listed : ReadyList items rdlist
  pub complete : (p : ℕ) → is_ready (items p) ≡ true → absent p rdlist ≡ false

ReadyList-update :
    (h : Heap) (p : ℕ) (v : Option EpItem) (ps : List ℕ)
    → absent p ps ≡ true
    → ReadyList h ps
    → ReadyList (update h p v) ps
ReadyList-update h p v [] a r = tt
ReadyList-update h p v (q ∷ qs) a r = elim (Bool-cases (p == q)) [
  | inl e ↦ ground arith
  | inr e ↦ (ground (arith, r.0), r.1, ReadyList-update h p v qs (ground arith) r.2)
]

-- A write that leaves an item ready keeps every list.
ReadyList-mark :
    (h : Heap) (p : ℕ) (v : EpItem) (ps : List ℕ)
    → v.rdy ≡ true
    → ReadyList h ps
    → ReadyList (update h p (some v)) ps
ReadyList-mark h p v [] e r = tt
ReadyList-mark h p v (q ∷ qs) e r = (ground (arith, r.0), r.1, ReadyList-mark h p v qs e r.2)

-- An item that is not ready is not in the list.
absent_of_idle :
    (h : Heap) (p : ℕ) (ps : List ℕ) → is_ready (h p) ≡ false → ReadyList h ps → absent p ps ≡ true
absent_of_idle h p [] e r = refl
absent_of_idle h p (q ∷ qs) e r = elim (Bool-cases (p == q)) [
  | inl s ↦ let r' = rw (← (==_iff p q).0 s) at r.0 in ground arith
  | inr s ↦ rw s (absent_of_idle h p qs e r.2)
]

module _ {h : Heap} {rd : List ℕ} {n : ℕ} (p : ℕ) (v : EpItem) where
  pub IsPoll-mark :
      is_ready (h p) ≡ true → v.rdy ≡ true → IsPoll h rd n → IsPoll (update h p (some v)) rd n
  IsPoll-mark was e i = record {
    counted = i.counted;
    listed = ReadyList-mark h p v rd e i.listed;
    complete = λ q r. ground (arith, i.complete q);
  }

  IsPoll-push :
      is_ready (h p) ≡ false
      → v.rdy ≡ true
      → IsPoll h rd n
      → IsPoll (update h p (some v)) (p ∷ rd) (n + 1)
  IsPoll-push was e i = record {
    counted = omega (arith, i.counted);
    listed = (ground arith, absent_of_idle h p rd was i.listed, ReadyList-mark h p v rd e i.listed);
    complete = λ q r. ground (arith, i.complete q);
  }

  IsPoll-pop : v.rdy ≡ false → IsPoll h (p ∷ rd) n → IsPoll (update h p (some v)) rd (n - 1)
  IsPoll-pop e i = record {
    counted = omega (arith, i.counted);
    listed = ReadyList-update h p (some v) rd i.listed.1 i.listed.2;
    complete = λ q r. ground (arith, i.complete q);
  }

-- The events of the items at some addresses, in order.
abbrev pub add_event : Option EpItem → List Event → List Event
add_event none evs = evs
add_event (some e) evs = record { events = e.events; ev_fd = e.ev_fd } ∷ evs

abbrev pub events_at : Heap → List ℕ → List Event
events_at h [] = []
events_at h (p ∷ ps) = add_event (h p) (events_at h ps)

absent-take : (p num : ℕ) (ps : List ℕ) → absent p ps ≡ true → absent p (take num ps) ≡ true
absent-take p zero ps a = refl
absent-take p (suc num) [] a = refl
absent-take p (suc num) (q ∷ qs) a = ground (arith, absent-take p num qs)

events_at-update :
    (h : Heap) (p : ℕ) (v : Option EpItem) (ps : List ℕ)
    → absent p ps ≡ true
    → events_at (update h p v) ps ≡ events_at h ps
events_at-update h p v [] a = refl
events_at-update h p v (q ∷ qs) a =
    let e : (q == p) ≡ false = ground arith in
    rw e (ap (add_event (h q)) (events_at-update h p v qs (ground arith)))

pub length-events_at :
    (h : Heap) (num : ℕ) (ps : List ℕ)
    → ReadyList h ps
    → length (events_at h (take num ps)) ≡ min num (length ps)
length-events_at h zero ps r = omega arith
length-events_at h (suc num) [] r = omega arith
length-events_at h (suc num) (p ∷ ps) r = elim (Option-cases (h p)) [
  | inl e ↦ ground (arith, r.0)
  | inr (epi, e) ↦ rw e (omega (arith, length-events_at h num ps r.2))
]

module _ (rte : Rte) where
  -- The well-formedness of the poll's fields.
  abbrev pub IsValid : Poll rte → Type 0
  IsValid ep = IsPoll ep.items ep.rdlist ep.rdnum

  -- What the callback leaves behind for the item at `p`.
  abbrev pub MadeReady : ℕ → Run (ℕ × Poll rte) → Type 0
  MadeReady p (done (code, ep)) = IsValid ep × (absent p ep.rdlist ≡ false)
  MadeReady p crash = ⊥
  MadeReady p exit = ⊥
  MadeReady p wait = ⊥

  make_ready-MadeReady :
      (p event : ℕ) (ep : Poll rte) (epi : EpItem)
      → ep.items p ≡ some epi
      → IsValid ep
      → MadeReady p (make_ready rte p event ep (some epi))
  unfolding make_ready
  make_ready-MadeReady p event ep epi found i = elim (Bool-cases epi.rdy) [
    | inl e ↦
        let was : is_ready (ep.items p) ≡ true = rw found e in
        rw e (
          IsPoll-mark p (record epi { rdy = true; events = bit_or epi.events event }) was refl i,
          i.complete p was,
        )
    | inr e ↦
        let was : is_ready (ep.items p) ≡ false = rw found e in
        rw e (IsPoll-push p (record epi { rdy = true }) was refl i, ground arith)
  ]

  abbrev pub Called : ℕ → Run (Option ℕ × Poll rte) → Type 0
  Called p (done (code, ep)) = IsValid ep × (absent p ep.rdlist ≡ false)
  Called p crash = ⊥
  Called p exit = ⊥
  Called p wait = ⊥

  Called-MadeReady :
      (p : ℕ) (r : Run (ℕ × Poll rte)) → MadeReady p r → Called p (r >>= λ x. done (some x.0, x.1))
  Called-MadeReady p (done (code, ep)) m = m
  Called-MadeReady p crash m = m
  Called-MadeReady p exit m = m
  Called-MadeReady p wait m = m

  -- On a valid poll the callback for a descriptor whose item is in the tree and in memory returns,
  -- keeps the poll valid, and leaves the item in the ready list.
  pub epoll_event_callback-Called :
      (ep : Poll rte) (sockid : Fd) (event p : ℕ) (epi : EpItem)
      → rte.rb_find ep.rbr sockid ≡ some p
      → ep.items p ≡ some epi
      → IsValid ep
      → Called p (epoll_event_callback rte ep sockid event)
  unfolding epoll_event_callback
  epoll_event_callback-Called ep sockid event p epi f found i =
      rw (f, epoll_event_callback, found)
        (Called-MadeReady p _ (make_ready-MadeReady p event ep epi found i))

  -- What the loop of `nepoll_wait` comes to: the events of the first `num` items, which leave the
  -- list.
  abbrev pub Collected : ℕ → Poll rte → Run (List Event × Poll rte) → Type 0
  Collected num ep (done (evs, ep')) =
      (evs ≡ events_at ep.items (take num ep.rdlist))
      × (ep'.rdlist ≡ drop num ep.rdlist)
      × IsValid ep'
  Collected num ep crash = ⊥
  Collected num ep exit = ⊥
  Collected num ep wait = ⊥

  Collected-next :
      (num p : ℕ) (rd : List ℕ) (ep : Poll rte) (epi : EpItem)
      → absent p rd ≡ true
      → ep.items p ≡ some epi
      → (r : Run (List Event × Poll rte))
      → Collected num
          (record ep {
            rdlist = rd;
            rdnum = ep.rdnum - 1;
            items = update ep.items p (some (record epi { rdy = false }));
          })
          r
      → Collected
          (suc num)
          (record ep { rdlist = p ∷ rd })
          (r >>= λ x. done (event_of rte epi ∷ x.0, x.1))
  Collected-next num p rd ep epi a found (done (evs, ep')) c =
      let e =
        events_at-update ep.items p (some (record epi { rdy = false })) (take num rd)
          (absent-take p num rd a) in
      (rw found (ap (λ l. event_of rte epi ∷ l) (c.0 ∙ e)), c.1, c.2)
  Collected-next num p rd ep epi a found crash c = c
  Collected-next num p rd ep epi a found exit c = c
  Collected-next num p rd ep epi a found wait c = c

  pub collect-cons :
      (num p : ℕ) (rd : List ℕ) (ep : Poll rte) (epi : EpItem)
      → ep.items p ≡ some epi
      → collect rte (suc num) (p ∷ rd) ep ≡ (
          collect rte num rd (record ep {
            rdlist = rd;
            rdnum = ep.rdnum - 1;
            items = update ep.items p (some (record epi { rdy = false }));
          })
          >>= λ x. done (event_of rte epi ∷ x.0, x.1))
  unfolding collect take_item
  collect-cons num p rd ep epi e = rw (e, take_item, collect)

  pub collect-Collected :
      (num : ℕ) (rd : List ℕ) (ep : Poll rte)
      → IsPoll ep.items rd ep.rdnum
      → Collected num (record ep { rdlist = rd }) (collect rte num rd (record ep { rdlist = rd }))
  unfolding collect take_item
  collect-Collected zero rd ep i = (refl, refl, i)
  collect-Collected (suc num) [] ep i = (refl, refl, i)
  collect-Collected (suc num) (p ∷ rd) ep i = elim (Option-cases (ep.items p)) [
    | inl e ↦ ground (arith, i.listed.0)
    | inr (epi, e) ↦ rw (collect-cons num p rd (record ep { rdlist = p ∷ rd }) epi e) (
        Collected-next num p rd ep epi i.listed.1 e _ (
          collect-Collected num rd
            (record ep {
              rdnum = ep.rdnum - 1;
              items = update ep.items p (some (record epi { rdy = false }));
            })
            (IsPoll-pop p (record epi { rdy = false }) refl i)))
  ]
