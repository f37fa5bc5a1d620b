-- ===== src/LoadBalancer.antt =====
-- dpdk-code/flowtable_plugin/flowtable: the load balancer, loadbalancer_node.c and loadbalancer.c. The
-- vectors of VPP are lists, and a flow is looked up by its address. The frames of the next node are
-- filled in the order of the packets.
pub mod Robin
pub mod Command
pub mod Tests
use dpdk_learning.Base.{
  ℕ, zero, suc, ◌+◌, ◌-◌, ◌%◌, ◌^◌, Bool, true, false, Option, none, some, List, [], ◌∷◌, ◌++◌,
  ◌==◌, leb, if◌then◌else◌, get_or, length,
}
use dpdk_learning.Net.State.{Run, crash, exit, wait, done, ◌>>=◌}

abbrev pub ft_next_interface_output : ℕ
ft_next_interface_output = 4

-- `~0` as a `u32`.
abbrev pub no_interface : ℕ
no_interface = 2 ^ 32 - 1

-- The part of `flow_info_t` that the node reads or writes.
pub record Flow : Type 0 where
  pub cached_next_node : ℕ
  pub offloaded : ℕ
  pub sw_if_index_dst : ℕ
  pub sw_if_index_rev : ℕ
  pub sw_if_index_current : ℕ

-- `loadbalancer_runtime_t`.
pub record Runtime : Type 0 where
  pub sw_if_index_source : ℕ
  pub sw_if_target : List ℕ
  pub last_target_index : ℕ

-- A buffer: the address of its flow, in `opaque`, and its two interfaces.
pub record Buffer : Type 0 where
  pub flow : ℕ
  pub rx : ℕ
  pub tx : ℕ

abbrev pub Flows : Type 0
Flows = ℕ → Option Flow

abbrev pub put_flow : Flows → ℕ → Flow → Flows
put_flow flows p v a = if a == p then some v else flows a

-- `last_target_index ++` on a `u32`, and back to the first target behind the last one.
abbrev pub next_index : Runtime → ℕ
next_index rt =
    if leb (length rt.sw_if_target) ((rt.last_target_index + 1) % 2 ^ 32)
    then 0
    else (rt.last_target_index + 1) % 2 ^ 32

-- The flow of the buffer was found. Without a target the vector is NULL, and a read of it a fault.
unfoldable pub balance_flow :
    Runtime → Flows → Buffer → Option Flow → Run (Runtime × Flows × Buffer)
balance_flow rt flows b none = crash
balance_flow rt flows b (some fi) =
    let i = next_index rt in
    let dst = get_or rt.sw_if_target i 0 in
    let fi' = record fi {
      offloaded = 1;
      cached_next_node = ft_next_interface_output;
      sw_if_index_rev = rt.sw_if_index_source;
      sw_if_index_dst = dst;
    } in
    let tx = if fi.sw_if_index_current == rt.sw_if_index_source then fi'.sw_if_index_rev else dst in
    if length rt.sw_if_target == 0
    then crash
    else done (
      record rt { last_target_index = i },
      put_flow flows b.flow fi',
      record b { rx = fi.sw_if_index_current; tx = tx },
    )

-- The loop of `load_balance` over the buffers of a frame.
unfoldable pub load_balance : Runtime → Flows → List Buffer → Run (Runtime × Flows × List Buffer)
load_balance rt flows [] = done (rt, flows, [])
load_balance rt flows (b ∷ bs) = balance_flow rt flows b (flows b.flow) >>= λ r.
    load_balance r.0 r.1 bs >>= λ q. done (q.0, q.1, r.2 ∷ q.2)

-- The new targets come behind those of earlier calls.
unfoldable pub loadbalancer_set_targets : ℕ → List ℕ → Runtime → Runtime
loadbalancer_set_targets source targets rt = record rt {
  sw_if_index_source = source;
  sw_if_target = rt.sw_if_target ++ targets;
}

-- A word of the command: `to`, the name of an interface, or anything else, which ends the loop.
pub data Token : Type 0 where
  to : Token
  interface : ℕ → Token
  unknown : Token

-- The variables of the loop: whether the source is still read, `sw_if_index_source`, `sw_if_index` and
-- the targets.
pub record Parsed : Type 0 where
  pub source : Bool
  pub sw_if_index_source : ℕ
  pub sw_if_index : ℕ
  pub targets : List ℕ

unfoldable pub parse_token : Token → Parsed → Option Parsed
parse_token to p = some (record p { source = false })
parse_token (interface i) p = some (
    if p.source
    then record p { sw_if_index = i; sw_if_index_source = i }
    else record p { sw_if_index = i; targets = p.targets ++ (i ∷ []) })
parse_token unknown p = none

unfoldable pub parse_tokens : List Token → Parsed → Parsed
parse_tokens [] p = p
parse_tokens (t ∷ ts) p = elim (parse_token t p) [ none ↦ p | some p' ↦ parse_tokens ts p' ]

abbrev pub unparsed : Parsed
unparsed = record {
  source = true;
  sw_if_index_source = no_interface;
  sw_if_index = no_interface;
  targets = [];
}

-- The return codes of `vnet_hw_interface_rx_redirect_to_node`, and what the command returns.
pub data Code : Type 0 where
  ok invalid_sw_if_index unimplemented : Code
  other : ℕ → Code

pub data Reply : Type 0 where
  success no_source no_target invalid_interface no_redirection : Reply
  enable_failed : ℕ → Reply

abbrev pub reply_of : Code → Reply
reply_of ok = success
reply_of invalid_sw_if_index = invalid_interface
reply_of unimplemented = no_redirection
reply_of (other n) = enable_failed n

-- The loop over the targets, with `rv` and the interfaces that `flowtable_enable` was called for,
-- oldest first.
unfoldable pub enable_targets : (ℕ → Code) → List ℕ → Code × List ℕ → Code × List ℕ
enable_targets enable [] (rv, called) = (rv, called)
enable_targets enable (t ∷ ts) (rv, called) =
    enable_targets enable ts (enable t, called ++ (t ∷ []))

-- The source, and then the targets.
unfoldable pub enable_all : (ℕ → Code) → ℕ → List ℕ → Code × List ℕ
enable_all enable source targets = enable_targets enable targets (enable source, source ∷ [])

abbrev pub set_after : Code → Parsed → Runtime → Reply × Runtime
set_after ok p rt = (success, loadbalancer_set_targets p.sw_if_index_source p.targets rt)
set_after invalid_sw_if_index p rt = (invalid_interface, rt)
set_after unimplemented p rt = (no_redirection, rt)
set_after (other n) p rt = (enable_failed n, rt)

-- The command `set interface loadbalanced`, with the calls of `flowtable_enable` that it makes;
-- `enable` is the outcome of such a call.
unfoldable pub set_lb_target_command_fn :
    (ℕ → Code) → List Token → Runtime → List ℕ × Reply × Runtime
unfolding parse_tokens loadbalancer_set_targets enable_all
set_lb_target_command_fn enable tokens rt =
    let p = parse_tokens tokens unparsed in
    if p.sw_if_index == no_interface
    then ([], no_source, rt)
    else if length p.targets == 0
    then ([], no_target, rt)
    else (let r = enable_all enable p.sw_if_index_source p.targets in
        let s = set_after r.0 p rt in (r.1, s.0, s.1))
