-- ===== src/Net/EpollTests.antt =====
-- dpdk-code/14_tcp_concurrency: a sequence of calls on an event poll.
use dpdk_learning.Base.{refl, some}
use dpdk_learning.Net.Epoll.{Event, epollin, ctl_add, Poll, new_poll, nepoll_ctl, ctl_add_item}
use dpdk_learning.Net.Epoll.Reach.{
  callback, ctl, run_call, Reachable, created, called, Safe, run_call-Safe,
}
use dpdk_learning.Net.Tests.{list_rte}

abbrev reading : Event
reading = record { events = epollin; ev_fd = some 4 }

-- The event poll of descriptor 3, in which descriptor 4 was added.
abbrev poll_of_4 : Poll list_rte
poll_of_4 = (ctl_add_item list_rte 40 (some 4) reading (new_poll list_rte (some 3) 0)).1

poll_of_4-Reachable : Reachable list_rte poll_of_4
unfolding run_call nepoll_ctl
poll_of_4-Reachable =
    called (ctl 40 ctl_add (some 4) (some reading)) (new_poll list_rte (some 3) 0) poll_of_4
      (created (some 3) 0 refl) (refl, refl) refl

run_call-Safe_example : Safe list_rte (run_call list_rte (callback (some 4) epollin) poll_of_4)
run_call-Safe_example =
    run_call-Safe list_rte (callback (some 4) epollin) poll_of_4 poll_of_4-Reachable tt
