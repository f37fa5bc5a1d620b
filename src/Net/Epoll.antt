-- ===== src/Net/Epoll.antt =====
-- dpdk-code/14_tcp_concurrency/tcp_concurrency.c: epoll_event_callback, nepoll_create, nepoll_ctl
-- and nepoll_wait. The locks are not modelled: each call is one step of the state, and a call that
-- waits for a signal is repeated when it comes.
pub mod Ready
pub mod Wait
pub mod OneReady
pub mod Control
pub mod Calls
pub mod Reach
use dpdk_learning.Base.{
  ℕ, zero, suc, ◌+◌, ◌-◌, ◌≤◌, ◌<◌, ◌≡◌, Bool, true, false, not, ◌&&◌, Option, none, some, List, [],
  ◌∷◌, ◌==◌, leb, ltb, if◌then◌else◌, bit_or,
}
use dpdk_learning.Net.Rte.{Rte, Fd}
use dpdk_learning.Net.State.{Run, crash, exit, wait, done, ◌>>=◌, EpItem, EventPoll, Stack}
use dpdk_learning.Net.FdTable.{get_fd_frombitmap, set_fd_frombitmap}

abbrev pub epollin : ℕ
epollin = 1

abbrev pub epollerr : ℕ
epollerr = 8

abbrev pub epollhup : ℕ
epollhup = 16

-- `struct epoll_event`, with the descriptor of its union.
pub record Event : Type 0 where
  pub events : ℕ
  pub ev_fd : Fd

pub data CtlOp : Type 0 where
  ctl_add ctl_del ctl_mod ctl_other : CtlOp

-- The memory of the items with one address written.
abbrev pub update : (ℕ → Option EpItem) → ℕ → Option EpItem → ℕ → Option EpItem
update heap p v a = if a == p then v else heap a

module _ (rte : Rte) where
  open rte use {Tree, rb_init, rb_find, rb_insert, alloc, junk}

  abbrev pub Poll : Type 0
  Poll = EventPoll rte

  -- The part of the callback behind RB_FIND, at the address of an item.
  unfoldable pub make_ready : ℕ → ℕ → Poll → Option EpItem → Run (ℕ × Poll)
  make_ready p event ep none = crash
  make_ready p event ep (some epi) =
      if epi.rdy
      then done (
        1,
        record ep {
          items = update ep.items p (some (record epi { events = bit_or epi.events event }));
        },
      )
      else done (
        0,
        record ep {
          items = update ep.items p (some (record epi { rdy = true }));
          rdlist = p ∷ ep.rdlist;
          rdnum = ep.rdnum + 1;
        },
      )

  -- What the callback returns: 1 where the item was ready, `failed` for -1. Where the item is put
  -- into the ready list the C function ends without a return, and no caller reads the value: it
  -- is 0 here.
  unfoldable pub epoll_event_callback : Poll → Fd → ℕ → Run (Option ℕ × Poll)
  epoll_event_callback ep sockid event = elim (rb_find ep.rbr sockid) [
    | none ↦ done (none, ep)
    | some p ↦ make_ready p event ep (ep.items p) >>= λ r. done (some r.0, r.1)
  ]

  -- The event poll that `nepoll_create` sets up in uncleared memory: `rdnum` is not set.
  abbrev pub new_poll : Fd → ℕ → Poll
  new_poll fd n = record {
    fd = fd;
    rbr = rb_init;
    rbcnt = 0;
    rdlist = [];
    rdnum = junk n;
    items = λ a. none;
  }

  -- `set_fd_frombitmap` of a descriptor that may be -1, which the C code shifts by a negative count.
  abbrev pub release_fd : Fd → List ℕ → List ℕ
  release_fd none table = table
  release_fd (some fd) table = set_fd_frombitmap fd table

  -- `nepoll_create` with a positive size; the initialisation of the locks is taken to succeed.
  unfoldable pub nepoll_create : ℕ → Stack rte → Fd × Stack rte
  nepoll_create zero st = (none, st)
  nepoll_create (suc size) st =
      let (fd, table) = get_fd_frombitmap st.fd_table in
      let st' = record st { fd_table = table; clock = st.clock + 1 } in
      if alloc st.clock
      then (fd, record st' { ep = some (new_poll fd st.clock) })
      else (none, record st' { fd_table = release_fd fd table })

  -- The new item in uncleared memory: `rdy` is not set.
  abbrev pub new_item : ℕ → Fd → Event → EpItem
  new_item n sockid ev = record {
    rdy = not (junk n == 0);
    sockfd = sockid;
    events = ev.events;
    ev_fd = ev.ev_fd;
  }

  unfoldable pub ctl_add_item : ℕ → Fd → Event → Poll → Bool × Poll
  ctl_add_item n sockid ev ep = elim (rb_find ep.rbr sockid) [
    | some p ↦ (false, ep)
    | none ↦
        if alloc n
        then (
          true,
          record ep {
            rbr = rb_insert ep.rbr sockid n;
            rbcnt = ep.rbcnt + 1;
            items = update ep.items n (some (new_item n sockid ev));
          },
        )
        else (false, ep)
  ]

  -- An item that is found leaves the tree, and then its memory is passed to `free`. It is memory of
  -- `rte_malloc`, so that the process faults there.
  unfoldable pub ctl_del_item : Fd → Poll → Run (Bool × Poll)
  ctl_del_item sockid ep = elim (rb_find ep.rbr sockid) [ none ↦ done (false, ep) | some p ↦ crash ]

  unfoldable pub modify_item : ℕ → Event → Poll → Option EpItem → Run (Bool × Poll)
  modify_item p ev ep none = crash
  modify_item p ev ep (some epi) = done (
    true,
    record ep {
      items =
          update ep.items p
            (some (record epi { events = bit_or ev.events (bit_or epollerr epollhup) }));
    },
  )

  unfoldable pub ctl_mod_item : Fd → Event → Poll → Run (Bool × Poll)
  ctl_mod_item sockid ev ep = elim (rb_find ep.rbr sockid) [
    | none ↦ done (false, ep)
    | some p ↦ modify_item p ev ep (ep.items p)
  ]

  -- `nepoll_ctl` at its event poll: the flag is the return code, 0 or -1, and `n` the number of the
  -- next allocation. The event is NULL only for a deletion.
  unfoldable pub nepoll_ctl : ℕ → CtlOp → Fd → Option Event → Poll → Run (Bool × Poll)
  nepoll_ctl n ctl_del sockid ev ep = ctl_del_item sockid ep
  nepoll_ctl n ctl_add sockid none ep = done (false, ep)
  nepoll_ctl n ctl_add sockid (some ev) ep = done (ctl_add_item n sockid ev ep)
  nepoll_ctl n ctl_mod sockid none ep = done (false, ep)
  nepoll_ctl n ctl_mod sockid (some ev) ep = ctl_mod_item sockid ev ep
  nepoll_ctl n ctl_other sockid none ep = done (false, ep)
  nepoll_ctl n ctl_other sockid (some ev) ep = done (true, ep)

  abbrev pub event_of : EpItem → Event
  event_of epi = record { events = epi.events; ev_fd = epi.ev_fd }

  -- One round of the loop of `nepoll_wait`: the first item of the ready list is taken out.
  unfoldable pub take_item : ℕ → List ℕ → Poll → Option EpItem → Run (Event × Poll)
  take_item p rest ep none = crash
  take_item p rest ep (some epi) = done (
    event_of epi,
    record ep {
      rdlist = rest;
      rdnum = ep.rdnum - 1;
      items = update ep.items p (some (record epi { rdy = false }));
    },
  )

  -- The loop of `nepoll_wait` over `num` and the ready list; the events are in the order in which
  -- they are stored.
  unfoldable pub collect : ℕ → List ℕ → Poll → Run (List Event × Poll)
  collect zero rd ep = done ([], ep)
  collect (suc num) [] ep = done ([], ep)
  collect (suc num) (p ∷ rd) ep = elim (take_item p rd ep (ep.items p)) [
    | crash ↦ crash
    | exit ↦ exit
    | wait ↦ wait
    | done (ev, ep') ↦ collect num rd ep' >>= λ r. done (ev ∷ r.0, r.1)
  ]

  -- `nepoll_wait` with room for `maxevents` events, at the state in which its waiting ended;
  -- `forever` is a negative timeout, with which it waits while nothing is ready.
  unfoldable pub nepoll_wait : ℕ → Bool → Poll → Run (Option (List Event) × Poll)
  nepoll_wait maxevents forever ep =
      let num = if ltb maxevents ep.rdnum then maxevents else ep.rdnum in
      if maxevents == 0
      then done (none, ep)
      else if forever && (ep.rdnum == 0)
      then wait
      else collect num ep.rdlist ep >>= λ r. done (some r.0, r.1)
