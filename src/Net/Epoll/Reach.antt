-- ===== src/Net/Epoll/Reach.antt =====
-- dpdk-code/14_tcp_concurrency/tcp_concurrency.c: the event poll under any sequence of calls, of the
-- protocol stack and of the application.
use dpdk_learning.Base.{
  ℕ, ◌≡◌, ◌∙◌, sym, ap, subst, Bool, Option, none, some, List, false≢true, Option-cases, Bool-cases,
  inl, inr,
}
use dpdk_learning.Net.Rte.{Rte, Fd}
use dpdk_learning.Net.State.{Run, crash, exit, wait, done, ◌>>=◌, EpItem}
use dpdk_learning.Net.Returns.{Returns}
use dpdk_learning.Net.Epoll.{
  Event, CtlOp, ctl_add, ctl_del, ctl_mod, ctl_other, Poll, new_poll, epoll_event_callback,
  ctl_del_item, ctl_mod_item, modify_item, nepoll_ctl, nepoll_wait,
}
use dpdk_learning.Net.Epoll.Ready.{IsPoll-mark, IsValid, Called, epoll_event_callback-Called}
use dpdk_learning.Net.Epoll.Wait.{Waited, nepoll_wait-Waited}
use dpdk_learning.Net.Epoll.Control.{IsPoll-idle, ctl_add_item-IsValid}
use dpdk_learning.Net.Epoll.Calls.{
  owner, Linked, Kept, Linked-Kept, epoll_event_callback-Kept, ctl_mod_item-Kept, nepoll_wait-Kept,
  ctl_add_item-Linked, no_owner, none_some,
}

-- A call on the event poll; the callback is that of the protocol stack.
pub data Call : Type 0 where
  callback : Fd → ℕ → Call
  ctl : ℕ → CtlOp → Fd → Option Event → Call
  wait_for : ℕ → Bool → Call

module _ (rte : Rte) where
  abbrev state_of {ℓ} : {A : Type ℓ} → Run (A × Poll rte) → Run (Poll rte)
  state_of r = r >>= λ x. done x.1

  -- A call, without what it returns.
  unfoldable pub run_call : Call → Poll rte → Run (Poll rte)
  run_call (callback fd event) ep = state_of (epoll_event_callback rte ep fd event)
  run_call (ctl n op fd ev) ep = state_of (nepoll_ctl rte n op fd ev ep)
  run_call (wait_for maxevents forever) ep = state_of (nepoll_wait rte maxevents forever ep)

  -- An item is added in memory that is not in use and happens to be cleared, and a descriptor is
  -- deleted only if the poll does not know it.
  abbrev pub Allowed : Call → Poll rte → Type 0
  Allowed (callback fd event) ep = Unit
  Allowed (ctl n ctl_add fd ev) ep = (ep.items n ≡ none) × (rte.junk n ≡ 0)
  Allowed (ctl n ctl_del fd ev) ep = rte.rb_find ep.rbr fd ≡ none
  Allowed (ctl n ctl_mod fd ev) ep = Unit
  Allowed (ctl n ctl_other fd ev) ep = Unit
  Allowed (wait_for maxevents forever) ep = Unit

  -- The polls that calls lead to from one that `nepoll_create` made in cleared memory.
  pub data Reachable : Poll rte → Type 0 where
    created : (fd : Fd) (n : ℕ) → rte.junk n ≡ 0 → Reachable (new_poll rte fd n)
    called :
        (c : Call) (ep ep' : Poll rte)
        → Reachable ep
        → Allowed c ep
        → run_call c ep ≡ done ep'
        → Reachable ep'

  pub record IsSound (ep : Poll rte) : Type 0 where
    pub valid : IsValid rte ep
    pub linked : Linked rte ep

  -- The call returns with a sound poll, or waits for something to become ready.
  abbrev pub Safe : Run (Poll rte) → Type 0
  Safe (done ep) = IsSound ep
  Safe wait = Unit
  Safe crash = ⊥
  Safe exit = ⊥

  -- A run that returns a valid poll, or waits.
  abbrev ReturnsValid {ℓ} : {A : Type ℓ} → Run (A × Poll rte) → Type 0
  ReturnsValid (done (a, ep)) = IsValid rte ep
  ReturnsValid wait = Unit
  ReturnsValid crash = ⊥
  ReturnsValid exit = ⊥

  Safe-Kept {ℓ} :
      {A : Type ℓ} (ep : Poll rte) (r : Run (A × Poll rte))
      → Linked rte ep
      → Kept rte ep r
      → ReturnsValid r
      → Safe (state_of r)
  Safe-Kept ep (done (a, ep')) l k v = record { valid = v; linked = Linked-Kept rte ep ep' l k }
  Safe-Kept ep wait l k v = tt
  Safe-Kept ep crash l k v = v
  Safe-Kept ep exit l k v = v

  -- The item that the tree leads to is in memory.
  held :
      (ep : Poll rte) (fd : Fd) (p : ℕ)
      → Linked rte ep
      → rte.rb_find ep.rbr fd ≡ some p
      → (epi : EpItem) × (ep.items p ≡ some epi)
  held ep fd p l f = elim (Option-cases (ep.items p)) [
    | inr h ↦ h
    | inl e ↦ absurd (no_owner fd (sym (ap owner e) ∙ l fd p f))
  ]

  ReturnsValid-Called : (p : ℕ) (r : Run (Option ℕ × Poll rte)) → Called rte p r → ReturnsValid r
  ReturnsValid-Called p (done (code, ep)) c = c.0
  ReturnsValid-Called p crash c = c
  ReturnsValid-Called p exit c = c
  ReturnsValid-Called p wait c = tt

  callback-Valid :
      (ep : Poll rte) (fd : Fd) (event : ℕ)
      → IsSound ep
      → ReturnsValid (epoll_event_callback rte ep fd event)
  unfolding epoll_event_callback
  callback-Valid ep fd event s = elim (Option-cases (rte.rb_find ep.rbr fd)) [
    | inl f ↦ rw (f, epoll_event_callback) s.valid
    | inr (p, f) ↦
        let (epi, e) = held ep fd p s.linked f in
        ReturnsValid-Called p _ (epoll_event_callback-Called rte ep fd event p epi f e s.valid)
  ]

  ctl_mod_item-Valid :
      (ep : Poll rte) (fd : Fd) (ev : Event) → IsSound ep → ReturnsValid (ctl_mod_item rte fd ev ep)
  unfolding ctl_mod_item modify_item
  ctl_mod_item-Valid ep fd ev s = elim (Option-cases (rte.rb_find ep.rbr fd)) [
    | inl f ↦ rw (f, ctl_mod_item) s.valid
    | inr (p, f) ↦
        let (epi, e) = held ep fd p s.linked f in
        rw (f, ctl_mod_item, e)
          (elim (Bool-cases epi.rdy) [
            | inl y ↦ IsPoll-mark p _ (rw e y) y s.valid
            | inr y ↦ IsPoll-idle p _ (rw e y) y s.valid
          ])
  ]

  ReturnsValid-Waited :
      (maxevents : ℕ) (forever : Bool) (ep : Poll rte) (r : Run (Option (List Event) × Poll rte))
      → IsValid rte ep
      → Waited rte maxevents forever ep r
      → ReturnsValid r
  ReturnsValid-Waited maxevents forever ep (done (none, ep')) i w = subst (IsValid rte) (sym w.1) i
  ReturnsValid-Waited maxevents forever ep (done (some evs, ep')) i w = w.5
  ReturnsValid-Waited maxevents forever ep wait i w = tt
  ReturnsValid-Waited maxevents forever ep crash i w = w
  ReturnsValid-Waited maxevents forever ep exit i w = w

  ctl_del-Safe :
      (ep : Poll rte) (fd : Fd)
      → IsSound ep
      → rte.rb_find ep.rbr fd ≡ none
      → Safe (state_of (ctl_del_item rte fd ep))
  unfolding ctl_del_item
  ctl_del-Safe ep fd s f = rw (f, ctl_del_item) s

  sound_call-Safe : (c : Call) (ep : Poll rte) → IsSound ep → Allowed c ep → Safe (run_call c ep)
  unfolding run_call nepoll_ctl
  sound_call-Safe (callback fd event) ep s a =
      Safe-Kept ep _ s.linked (epoll_event_callback-Kept rte ep fd event)
        (callback-Valid ep fd event s)
  sound_call-Safe (ctl n ctl_add fd none) ep s a = s
  sound_call-Safe (ctl n ctl_add fd (some ev)) ep s a = record {
    valid = ctl_add_item-IsValid rte n fd ev ep a.0 a.1 s.valid;
    linked = ctl_add_item-Linked rte n fd ev ep a.0 s.linked;
  }
  sound_call-Safe (ctl n ctl_del fd ev) ep s a = ctl_del-Safe ep fd s a
  sound_call-Safe (ctl n ctl_mod fd none) ep s a = s
  sound_call-Safe (ctl n ctl_mod fd (some ev)) ep s a =
      Safe-Kept ep _ s.linked (ctl_mod_item-Kept rte fd ev ep) (ctl_mod_item-Valid ep fd ev s)
  sound_call-Safe (ctl n ctl_other fd none) ep s a = s
  sound_call-Safe (ctl n ctl_other fd (some ev)) ep s a = s
  sound_call-Safe (wait_for maxevents forever) ep s a =
      Safe-Kept ep _ s.linked (nepoll_wait-Kept rte maxevents forever ep) (
        ReturnsValid-Waited maxevents forever ep _ s.valid
          (nepoll_wait-Waited rte maxevents forever ep s.valid))

  new_poll-IsSound : (fd : Fd) (n : ℕ) → rte.junk n ≡ 0 → IsSound (new_poll rte fd n)
  new_poll-IsSound fd n e = record {
    valid = record { counted = e; listed = tt; complete = λ p r. absurd (false≢true r) };
    linked = λ fd' p f. absurd (none_some p (sym (rte.rb_find-init fd') ∙ f));
  }

  Reachable-IsSound : (ep : Poll rte) → Reachable ep → IsSound ep
  Reachable-IsSound _ (created fd n e) = new_poll-IsSound fd n e
  Reachable-IsSound _ (called c ep ep' r a e) =
      subst Safe e (sound_call-Safe c ep (Reachable-IsSound ep r) a)

  -- On every poll that `nepoll_create` in cleared memory and calls of the callback, `nepoll_ctl` and
  -- `nepoll_wait` lead to, in any order, where an item is added only in memory that is not in use and
  -- is cleared, and only a descriptor that the poll does not know is deleted: the next such call does
  -- not fault, and leaves a poll whose ready list is in order, and whose tree leads from each
  -- descriptor to an item in memory that is its own.
  pub run_call-Safe :
      (c : Call) (ep : Poll rte) → Reachable ep → Allowed c ep → Safe (run_call c ep)
  run_call-Safe c ep r a = sound_call-Safe c ep (Reachable-IsSound ep r) a

  both :
      (p : ℕ) (ep : Poll rte) (r : Run (Option ℕ × Poll rte))
      → Linked rte ep
      → Kept rte ep r
      → Called rte p r
      → Returns (λ x. IsSound x.1) r
  both p ep (done (code, ep')) l k c = record { valid = c.0; linked = Linked-Kept rte ep ep' l k }
  both p ep crash l k c = c
  both p ep exit l k c = c
  both p ep wait l k c = c

  -- On a sound poll the callback returns, for every descriptor.
  pub epoll_event_callback-Returns :
      (ep : Poll rte) (fd : Fd) (event : ℕ)
      → IsSound ep
      → Returns (λ x. IsSound x.1) (epoll_event_callback rte ep fd event)
  unfolding epoll_event_callback
  epoll_event_callback-Returns ep fd event s = elim (Option-cases (rte.rb_find ep.rbr fd)) [
    | inl f ↦ rw (f, epoll_event_callback) s
    | inr (p, f) ↦
        let (epi, e) = held ep fd p s.linked f in
        both p ep _ s.linked (epoll_event_callback-Kept rte ep fd event)
          (epoll_event_callback-Called rte ep fd event p epi f e s.valid)
  ]
