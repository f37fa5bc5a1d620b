-- ===== src/Net/Epoll/OneReady.antt =====
-- dpdk-code/14_tcp_concurrency/tcp_concurrency.c: the event poll when one item becomes ready and is
-- waited for.
use dpdk_learning.Base.{
  ℕ, ◌≡◌, refl, true, false, some, [], ◌∷◌, ==_refl, arith, Bool-cases, inl, inr,
}
use dpdk_learning.Net.Rte.{Rte, Fd}
use dpdk_learning.Net.State.{done, EpItem, EventPoll}
use dpdk_learning.Net.Epoll.{
  update, make_ready, epoll_event_callback, event_of, collect, nepoll_wait,
}
use dpdk_learning.Net.Epoll.Ready.{collect-cons, IsValid}

module _ (rte : Rte) where
  -- The poll in which the item at `p` alone is ready.
  abbrev pub one_ready : ℕ → EpItem → EventPoll rte → EventPoll rte
  one_ready p epi ep = record ep {
    items = update ep.items p (some (record epi { rdy = true }));
    rdlist = p ∷ [];
    rdnum = 1;
  }

  abbrev pub none_ready : ℕ → EpItem → EventPoll rte → EventPoll rte
  none_ready p epi ep = record ep {
    items =
        update (update ep.items p (some (record epi { rdy = true }))) p
          (some (record epi { rdy = false }));
    rdlist = [];
    rdnum = 0;
  }

  pub callback-one_ready :
      (ep : EventPoll rte) (fd : Fd) (event p : ℕ) (epi : EpItem)
      → rte.rb_find ep.rbr fd ≡ some p
      → ep.items p ≡ some epi
      → epi.rdy ≡ false
      → ep.rdlist ≡ []
      → ep.rdnum ≡ 0
      → epoll_event_callback rte ep fd event ≡ done (some 0, one_ready p epi ep)
  unfolding epoll_event_callback make_ready
  callback-one_ready ep fd event p epi f h idle l n =
      rw (f, epoll_event_callback, h, make_ready, idle, l, n) refl

  pub nepoll_wait-one_ready :
      (ep : EventPoll rte) (p : ℕ) (epi : EpItem)
      → nepoll_wait rte 128 false (one_ready p epi ep)
        ≡ done (some (event_of rte epi ∷ []), none_ready p epi ep)
  unfolding nepoll_wait collect
  nepoll_wait-one_ready ep p epi =
      rw (collect-cons rte 0 p [] (one_ready p epi ep) (record epi { rdy = true }) there, collect)
        refl
    where
      there : (one_ready p epi ep).items p ≡ some (record epi { rdy = true })
      there = rw (==_refl p) refl

  pub idle :
      (ep : EventPoll rte) (p : ℕ) (epi : EpItem)
      → IsValid rte ep
      → ep.items p ≡ some epi
      → ep.rdlist ≡ []
      → epi.rdy ≡ false
  idle ep p epi v h l = elim (Bool-cases epi.rdy) [
    | inr e ↦ e
    | inl e ↦ let a = v.complete p (rw h e) in let b = rw l at a in ground (arith, b)
  ]
