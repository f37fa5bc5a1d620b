-- ===== src/LoadBalancer/Command.antt =====
-- dpdk-code/flowtable_plugin/flowtable/loadbalancer.c: the command that sets the source and the
-- targets.
use dpdk_learning.Base.{
  ℕ, ◌<◌, ◌≡◌, ◌∙◌, refl, sym, ap, false, List, [], ◌∷◌, ◌++◌, ◌==◌, map, All, append_assoc,
  append-nil, length, arith,
}
use dpdk_learning.LoadBalancer.{
  no_interface, Runtime, to, interface, Parsed, parse_token, parse_tokens, Code, Reply, ok,
  invalid_sw_if_index, unimplemented, other, enable_targets, enable_all, reply_of, set_after,
  loadbalancer_set_targets, set_lb_target_command_fn,
}

-- The interface that was read last.
abbrev pub last_of : ℕ → List ℕ → ℕ
last_of i [] = i
last_of i (j ∷ js) = last_of j js

-- The loop behind `to`.
abbrev to_targets : ℕ → ℕ → List ℕ → Parsed
to_targets source i ts = record {
  source = false;
  sw_if_index_source = source;
  sw_if_index = i;
  targets = ts;
}

parse_targets :
    (ts : List ℕ) (source i : ℕ) (acc : List ℕ)
    → parse_tokens (map interface ts) (to_targets source i acc)
      ≡ to_targets source (last_of i ts) (acc ++ ts)
unfolding parse_tokens parse_token
parse_targets [] source i acc = ap (to_targets source i) (sym (append-nil acc))
parse_targets (t ∷ ts) source i acc =
    parse_targets ts source t (acc ++ (t ∷ []))
    ∙ ap (to_targets source (last_of t ts)) (append_assoc acc (t ∷ []) ts)

last_of-lt : (i n : ℕ) (ts : List ℕ) → i < n → All (λ t. t < n) ts → last_of i ts < n
last_of-lt i n [] h a = h
last_of-lt i n (t ∷ ts) h a = last_of-lt t n ts a.0 a.1

-- The runtime behind a command with a source and targets.
abbrev pub set_on : Code → ℕ → List ℕ → Runtime → Runtime
set_on ok source targets rt = record rt {
  sw_if_index_source = source;
  sw_if_target = rt.sw_if_target ++ targets;
}
set_on invalid_sw_if_index source targets rt = rt
set_on unimplemented source targets rt = rt
set_on (other n) source targets rt = rt

set_after-on :
    (c : Code) (p : Parsed) (rt : Runtime)
    → set_after c p rt ≡ (reply_of c, set_on c p.sw_if_index_source p.targets rt)
unfolding loadbalancer_set_targets
set_after-on ok p rt = refl
set_after-on invalid_sw_if_index p rt = refl
set_after-on unimplemented p rt = refl
set_after-on (other n) p rt = refl

enable_targets-last_of :
    (enable : ℕ → Code) (ts : List ℕ) (i : ℕ) (called : List ℕ)
    → enable_targets enable ts (enable i, called) ≡ (enable (last_of i ts), called ++ ts)
unfolding enable_targets
enable_targets-last_of enable [] i called = ap (λ c. (enable i, c)) (sym (append-nil called))
enable_targets-last_of enable (t ∷ ts) i called =
    enable_targets-last_of enable ts t (called ++ (t ∷ []))
    ∙ ap (λ c. (enable (last_of t ts), c)) (append_assoc called (t ∷ []) ts)

-- The command of a source, `to` and one target or more: the redirection of the source, and then of
-- each target in their order, is asked for, whatever the others came to; what the command returns, and
-- whether the runtime changes, depends on that of the last target alone. On success the source is
-- set, and the targets stand behind those that earlier commands have set.
pub set_lb_target_command_fn-last_of :
    (enable : ℕ → Code) (source t : ℕ) (ts : List ℕ) (rt : Runtime)
    → All (λ i. i < no_interface) (t ∷ ts)
    → set_lb_target_command_fn enable (interface source ∷ to ∷ map interface (t ∷ ts)) rt ≡ (
      source ∷ t ∷ ts,
      reply_of (enable (last_of t ts)),
      set_on (enable (last_of t ts)) source (t ∷ ts) rt,
    )
unfolding set_lb_target_command_fn parse_tokens parse_token enable_all
set_lb_target_command_fn-last_of enable source t ts rt a =
    let named : (last_of t ts == no_interface) ≡ false =
      ground (arith, last_of-lt t no_interface ts a.0 a.1) in
    let counted : (length (t ∷ ts) == 0) ≡ false = ground arith in
    rw (parse_targets ts source t (t ∷ []), named, counted)
      (rw (enable_targets-last_of enable (t ∷ ts) source (source ∷ [])) (
        ap (λ (x : Reply × Runtime). (source ∷ t ∷ ts, x.0, x.1))
          (set_after-on (enable (last_of t ts)) (to_targets source (last_of t ts) (t ∷ ts)) rt)))
