-- ===== src/LoadBalancer/Tests.antt =====
-- dpdk-code/flowtable_plugin/flowtable: runs of the load balancer and of its command.
use dpdk_learning.Base.{
  ℕ, ◌+◌, ◌≡◌, refl, some, List, [], ◌∷◌, ◌==◌, if◌then◌else◌, map, length, arith,
}
use dpdk_learning.LoadBalancer.{
  Runtime, Buffer, Flows, load_balance, to, interface, Code, ok, unimplemented, reply_of,
  set_lb_target_command_fn,
}
use dpdk_learning.LoadBalancer.Robin.{Balanced, assigned, load_balance-Balanced}
use dpdk_learning.LoadBalancer.Command.{set_on, last_of, set_lb_target_command_fn-last_of}

-- Source 1, and targets 2 and 3.
abbrev runtime : Runtime
runtime = record { sw_if_index_source = 1; sw_if_target = 2 ∷ 3 ∷ []; last_target_index = 1 }

-- Flow 10 comes from the source, every other one from interface 7.
abbrev flows : Flows
flows = λ p. some (record {
  cached_next_node = 0;
  offloaded = 0;
  sw_if_index_dst = 0;
  sw_if_index_rev = 0;
  sw_if_index_current = if p == 10 then 1 else 7;
})

abbrev buffer : ℕ → Buffer
buffer p = record { flow = p; rx = 0; tx = 0 }

abbrev buffers : List Buffer
buffers = buffer 11 ∷ buffer 10 ∷ buffer 12 ∷ []

load_balance-Balanced_example :
    Balanced runtime flows
      (runtime.last_target_index + length buffers)
      (assigned 1 (2 ∷ 3 ∷ []) flows (runtime.last_target_index + 1) buffers)
      (load_balance runtime flows buffers)
load_balance-Balanced_example =
    load_balance-Balanced runtime flows buffers (omega arith) (omega arith)
      ((7, refl), ((1, refl), ((7, refl), tt)))

-- The source cannot be redirected.
abbrev enable : ℕ → Code
enable = λ i. if i == 1 then unimplemented else ok

set_lb_target_command_fn-last_of_example :
    set_lb_target_command_fn enable (interface 1 ∷ to ∷ map interface (4 ∷ 5 ∷ [])) runtime ≡ (
      1 ∷ 4 ∷ 5 ∷ [],
      reply_of (enable (last_of 4 (5 ∷ []))),
      set_on (enable (last_of 4 (5 ∷ []))) 1 (4 ∷ 5 ∷ []) runtime,
    )
set_lb_target_command_fn-last_of_example =
    set_lb_target_command_fn-last_of enable 1 4 (5 ∷ []) runtime (omega arith, (omega arith, tt))
