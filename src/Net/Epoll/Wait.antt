-- ===== src/Net/Epoll/Wait.antt =====
-- dpdk-code/14_tcp_concurrency/tcp_concurrency.c: nepoll_wait on a valid poll.
use dpdk_learning.Base.{
  ℕ, ◌≡◌, ◌∙◌, refl, sym, ap, min, Bool, true, false, ◌&&◌, Option, none, some, List, ◌==◌, ==_iff,
  ltb, if◌then◌else◌, take, drop, length, arith, Bool-cases, inl, inr, and_parts,
}
use dpdk_learning.Net.Rte.{Rte}
use dpdk_learning.Net.State.{Run, crash, exit, wait, done, ◌>>=◌}
use dpdk_learning.Net.Epoll.{Event, Poll, nepoll_wait}
use dpdk_learning.Net.Epoll.Ready.{
  IsValid, events_at, length-events_at, Collected, collect-Collected,
}

module _ (rte : Rte) where
  -- What a call of `nepoll_wait` comes to: -1 exactly for no room; a wait exactly if there is room, it
  -- may wait for ever and nothing is ready; else the events of the first items of the ready list, as
  -- many as there are and there is room for, which leave the list. It never comes to a fault.
  abbrev pub Waited : ℕ → Bool → Poll rte → Run (Option (List Event) × Poll rte) → Type 0
  Waited maxevents forever ep (done (none, ep')) = (maxevents ≡ 0) × (ep' ≡ ep)
  Waited maxevents forever ep (done (some evs, ep')) =
      ((maxevents == 0) ≡ false)
      × ((forever && (length ep.rdlist == 0)) ≡ false)
      × (evs ≡ events_at ep.items (take (min maxevents (length ep.rdlist)) ep.rdlist))
      × (length evs ≡ min maxevents (length ep.rdlist))
      × (ep'.rdlist ≡ drop (min maxevents (length ep.rdlist)) ep.rdlist)
      × IsValid rte ep'
  Waited maxevents forever ep wait =
      ((maxevents == 0) ≡ false) × (forever ≡ true) × (length ep.rdlist ≡ 0)
  Waited maxevents forever ep crash = ⊥
  Waited maxevents forever ep exit = ⊥

  Waited-Collected :
      (maxevents : ℕ) (forever : Bool) (ep : Poll rte) (r : Run (List Event × Poll rte))
      → IsValid rte ep
      → (maxevents == 0) ≡ false
      → (forever && (length ep.rdlist == 0)) ≡ false
      → Collected rte (min maxevents (length ep.rdlist)) ep r
      → Waited maxevents forever ep (r >>= λ x. done (some x.0, x.1))
  Waited-Collected maxevents forever ep (done (evs, ep')) i z w c =
      let n = length-events_at ep.items (min maxevents (length ep.rdlist)) ep.rdlist i.listed in
      (z, w, c.0, ap length c.0 ∙ n ∙ omega arith, c.1, c.2)
  Waited-Collected maxevents forever ep crash i z w c = c
  Waited-Collected maxevents forever ep exit i z w c = absurd c
  Waited-Collected maxevents forever ep wait i z w c = absurd c

  -- On a valid poll `nepoll_wait` never faults. It returns -1 exactly if there is no room for an
  -- event, and then changes nothing; it waits exactly if there is room, it may wait for ever and
  -- nothing is ready. Else it returns the events of the first items of the ready list, in their
  -- order, as many as there are and there is room for, takes them out, and leaves a valid poll.
  pub nepoll_wait-Waited :
      (maxevents : ℕ) (forever : Bool) (ep : Poll rte)
      → IsValid rte ep
      → Waited maxevents forever ep (nepoll_wait rte maxevents forever ep)
  unfolding nepoll_wait
  nepoll_wait-Waited maxevents forever ep i =
      let e : (if ltb maxevents ep.rdnum then maxevents else ep.rdnum)
          ≡ min maxevents (length ep.rdlist) =
        ground (arith, i.counted) in
      elim (Bool-cases (maxevents == 0)) [
        | inl z ↦ rw z ((==_iff maxevents 0).0 z, refl)
        | inr z ↦ elim (Bool-cases (forever && (ep.rdnum == 0))) [
          | inl w ↦
              rw (z, w)
                (let a = and_parts forever (ep.rdnum == 0) w in
                  (z, a.0, ground (arith, a.1, i.counted)))
          | inr w ↦
              rw (z, w, e)
                (Waited-Collected maxevents forever ep _ i z
                  (ap (λ n. forever && (n == 0)) (sym i.counted) ∙ w)
                  (collect-Collected rte (min maxevents (length ep.rdlist)) ep.rdlist ep i))
        ]
      ]
