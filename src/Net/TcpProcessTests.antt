-- ===== src/Net/TcpProcessTests.antt =====
-- dpdk-code/14_tcp_concurrency: segments through ng_tcp_process, over rings that are lists.
use dpdk_learning.Base.{ℕ, ap, refl, none, some, List, [], ◌∷◌, arith}
use dpdk_learning.Base.Int.{pos}
use dpdk_learning.Net.State.{EventPoll, Stack}
use dpdk_learning.Net.Returns.{Returns}
use dpdk_learning.Net.Epoll.Calls.{none_some}
use dpdk_learning.Net.Tcp.{TcpHdr, IpHdr}
use dpdk_learning.Net.TcpProcess.Open.{IsWithin, magnitude}
use dpdk_learning.Net.TcpProcess.Sound.{IsSound}
use dpdk_learning.Net.TcpProcess.Runs.{process_all, process_all-Sound}
use dpdk_learning.Net.Tests.{list_rte, segment, ip_header, stack}

-- An event poll without items, and the stack of a listener and a connection with it.
abbrev empty_poll : EventPoll list_rte
empty_poll = record {
  fd = some 6;
  rbr = λ k. none;
  rbcnt = 0;
  rdlist = [];
  rdnum = 0;
  items = λ p. none;
}

abbrev sound_stack : Stack list_rte
sound_stack = record stack { ep = some empty_poll }

sound_stack-IsSound : IsSound list_rte sound_stack
sound_stack-IsSound = record {
  different = refl;
  fine = ((omega arith, tt, tt, refl), ((omega arith, tt, tt, refl), tt));
  polled = record {
    valid = record { counted = refl; listed = tt; complete = λ p r. ground (arith, r) };
    linked = λ fd p f. absurd (none_some p f);
  };
}

-- Three bytes of data behind a header of twenty lie within the packet.
data-IsWithin : (flags : ℕ) → IsWithin (segment 5000 flags) (pos 23)
data-IsWithin flags k e = omega (arith, ap magnitude e)

-- A SYN of a new peer, and data with a FIN for the connection.
abbrev segments : List (TcpHdr × IpHdr)
segments = (segment 5001 0x02, ip_header) ∷ (segment 5000 0x19, ip_header) ∷ []

process_all-Sound_example : Returns (IsSound list_rte) (process_all list_rte segments sound_stack)
process_all-Sound_example =
    process_all-Sound list_rte (λ n. refl) (λ n. refl) segments sound_stack sound_stack-IsSound
      (data-IsWithin 0x02, (data-IsWithin 0x19, tt))
