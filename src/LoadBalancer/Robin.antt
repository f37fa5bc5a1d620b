-- ===== src/LoadBalancer/Robin.antt =====
-- dpdk-code/flowtable_plugin/flowtable/loadbalancer_node.c: the targets that the packets of a frame
-- get.
use native.Mathlib.Nat.{mod-eq_of_lt, mod_self, mod-add-mod, mod-lt}
use dpdk_learning.Base.{
  ℕ, suc, ◌+◌, ◌%◌, ◌^◌, ◌<◌, ◌≡◌, ◌∙◌, refl, sym, ap, subst, false, Option, none, some, List, [],
  ◌∷◌, ◌==◌, ==_iff, leb, if◌then◌else◌, get_or, length, All, arith, Bool-cases, Option-cases, inl,
  inr,
}
use dpdk_learning.Net.State.{Run, done, ◌>>=◌}
use dpdk_learning.LoadBalancer.{
  Flow, Runtime, Buffer, Flows, put_flow, next_index, balance_flow, load_balance,
}

-- The interface that a flow's packets come from; none where there is no flow.
abbrev pub current : Option Flow → Option ℕ
current none = none
current (some fi) = some fi.sw_if_index_current

abbrev pub from_flow : Option ℕ → ℕ
from_flow none = 0
from_flow (some i) = i

-- A buffer with the interface of its flow and the target of an index.
abbrev pub out_buffer : ℕ → List ℕ → Buffer → ℕ → ℕ → Buffer
out_buffer source targets b cur i = record b {
  rx = cur;
  tx = if cur == source then source else get_or targets i 0;
}

-- The buffers of a frame with their interfaces set: a packet from the source goes back to the source,
-- and the packet at place `j` from anywhere else to the target at `j` modulo their number.
unfoldable pub assigned : ℕ → List ℕ → Flows → ℕ → List Buffer → List Buffer
assigned source targets flows j [] = []
assigned source targets flows j (b ∷ bs) =
    out_buffer source targets b (from_flow (current (flows b.flow))) (j % length targets)
    ∷ assigned source targets flows (j + 1) bs

-- The run returns with these buffers, the index at `j` modulo the number of targets, and every flow
-- with the interface that it had.
abbrev pub Balanced :
    Runtime → Flows → ℕ → List Buffer → Run (Runtime × Flows × List Buffer) → Type 0
Balanced rt flows j outs (done (rt', flows', bs)) =
    (bs ≡ outs)
    × (rt' ≡ record rt { last_target_index = j % length rt.sw_if_target })
    × ((p : ℕ) → current (flows' p) ≡ current (flows p))
Balanced rt flows j outs _ = ⊥

-- Every buffer leads to a flow.
abbrev pub HaveFlows : Flows → List Buffer → Type 0
HaveFlows flows bs = All (λ (b : Buffer). (i : ℕ) × (current (flows b.flow) ≡ some i)) bs

current-put_flow :
    (flows : Flows) (p q : ℕ) (fi v : Flow)
    → flows p ≡ some fi
    → v.sw_if_index_current ≡ fi.sw_if_index_current
    → current (put_flow flows p v q) ≡ current (flows q)
current-put_flow flows p q fi v e s = elim (Bool-cases (q == p)) [
  | inl y ↦ let e' = rw (← (==_iff q p).0 y) at e in rw (y, e') (ap some s)
  | inr y ↦ rw y refl
]

HaveFlows-current :
    (f g : Flows) (bs : List Buffer)
    → ((p : ℕ) → current (g p) ≡ current (f p))
    → HaveFlows f bs
    → HaveFlows g bs
HaveFlows-current f g [] h a = tt
HaveFlows-current f g (b ∷ bs) h ((i, e), a) = ((i, h b.flow ∙ e), HaveFlows-current f g bs h a)

assigned-current :
    (source : ℕ) (targets : List ℕ) (f g : Flows) (j : ℕ) (bs : List Buffer)
    → ((p : ℕ) → current (g p) ≡ current (f p))
    → assigned source targets g j bs ≡ assigned source targets f j bs
unfolding assigned
assigned-current source targets f g j [] h = refl
assigned-current source targets f g j (b ∷ bs) h =
    rw (h b.flow, assigned-current source targets f g (j + 1) bs h) refl

next_index-mod :
    (rt : Runtime) (j : ℕ)
    → 0 < length rt.sw_if_target
    → length rt.sw_if_target < 2 ^ 32
    → rt.last_target_index ≡ j % length rt.sw_if_target
    → next_index rt ≡ (j + 1) % length rt.sw_if_target
next_index-mod rt j pos small e =
    let k = length rt.sw_if_target in
    let below : rt.last_target_index < k = subst (λ n. n < k) (sym e) (mod-lt j pos) in
    let wrapped : (rt.last_target_index + 1) % 2 ^ 32 ≡ rt.last_target_index + 1 = omega arith in
    let step : (rt.last_target_index + 1) % k ≡ (j + 1) % k =
      ap (λ n. (n + 1) % k) e ∙ mod-add-mod j k 1 in
    elim (Bool-cases (leb k (rt.last_target_index + 1))) [
      | inl y ↦
          let last : rt.last_target_index + 1 ≡ k = ground (arith, y) in
          rw (wrapped, y) (sym (mod_self k) ∙ ap (λ n. n % k) (sym last) ∙ step)
      | inr y ↦
          let more : rt.last_target_index + 1 < k = ground (arith, y) in
          rw (wrapped, y) (sym (mod-eq_of_lt more) ∙ step)
    ]

-- One buffer in front of a run.
Balanced-cons :
    (rt : Runtime) (i : ℕ) (f g : Flows) (j : ℕ) (b : Buffer) (outs : List Buffer)
    (r : Run (Runtime × Flows × List Buffer))
    → ((p : ℕ) → current (g p) ≡ current (f p))
    → Balanced (record rt { last_target_index = i }) g j outs r
    → Balanced rt f j (b ∷ outs) (r >>= λ q. done (q.0, q.1, b ∷ q.2))
Balanced-cons rt i f g j b outs (done (rt', f', bs)) h (o, t, c) =
    (ap (λ l. b ∷ l) o, t, λ p. c p ∙ h p)
Balanced-cons rt i f g j b outs _ h q = absurd q

flow_of : (flows : Flows) (p i : ℕ) → current (flows p) ≡ some i → (fi : Flow) × (flows p ≡ some fi)
flow_of flows p i e = elim (Option-cases (flows p)) [
  | inr h ↦ h
  | inl h ↦ absurd (let e' = rw h at e in cc)
]

balanced :
    (rt : Runtime) (flows : Flows) (j : ℕ) (bs : List Buffer)
    → 0 < length rt.sw_if_target
    → length rt.sw_if_target < 2 ^ 32
    → rt.last_target_index ≡ j % length rt.sw_if_target
    → HaveFlows flows bs
    → Balanced rt flows
        (j + length bs)
        (assigned rt.sw_if_index_source rt.sw_if_target flows (j + 1) bs)
        (load_balance rt flows bs)
unfolding assigned load_balance balance_flow
balanced rt flows j [] pos small e a =
    let j' : j + 0 ≡ j = omega arith in
    (
      refl,
      λ i. record rt { last_target_index = (e ∙ ap (λ n. n % length rt.sw_if_target) (sym j')) i },
      λ p. refl,
    )
balanced rt flows j (b ∷ bs) pos small e ((i, c), a) =
    let (fi, found) = flow_of flows b.flow i c in
    let v : Flow = record fi {
      offloaded = 1;
      cached_next_node = 4;
      sw_if_index_rev = rt.sw_if_index_source;
      sw_if_index_dst = get_or rt.sw_if_target (next_index rt) 0;
    } in
    let g = put_flow flows b.flow v in
    let same : (p : ℕ) → current (g p) ≡ current (flows p) =
      λ p. current-put_flow flows b.flow p fi v found refl in
    let n = next_index-mod rt j pos small e in
    let some_target : (length rt.sw_if_target == 0) ≡ false = ground (arith, pos) in
    let rt1 : Runtime = record rt { last_target_index = next_index rt } in
    let rest = balanced rt1 g (j + 1) bs pos small n (HaveFlows-current flows g bs same a) in
    let k = j + 1 + length bs in
    let cur = from_flow (current (flows b.flow)) in
    let src = rt.sw_if_index_source in
    let ts = rt.sw_if_target in
    let tail = assigned src ts g (j + 1 + 1) bs in
    let own : fi.sw_if_index_current ≡ cur = ap (λ o. from_flow (current o)) (sym found) in
    let outs : out_buffer src ts b fi.sw_if_index_current (next_index rt) ∷ tail
        ≡ assigned src ts flows (j + 1) (b ∷ bs) =
      ap (λ c. out_buffer src ts b c (next_index rt) ∷ tail) own
      ∙ ap (λ m. out_buffer src ts b cur m ∷ tail) n
      ∙ ap (λ l. out_buffer src ts b cur ((j + 1) % length ts) ∷ l)
          (assigned-current src ts flows g (j + 1 + 1) bs same) in
    let count : k ≡ j + suc (length bs) = omega arith in
    let run =
      Balanced-cons rt (next_index rt) flows g k
        (out_buffer src ts b fi.sw_if_index_current (next_index rt)) tail (load_balance rt1 g bs)
        same rest in
    subst
      (λ m.
        Balanced rt flows m (assigned src ts flows (j + 1) (b ∷ bs))
          (load_balance rt flows (b ∷ bs)))
      count
      (subst (λ o. Balanced rt flows k o (load_balance rt flows (b ∷ bs))) outs
        (rw (found, balance_flow, some_target) run))

-- A frame, with a target index that stands at one of the targets, fewer than 2 ^ 32, and with a flow
-- behind every buffer: the node returns, it gives every buffer that does not come from the source the
-- target next in turn, counted from the one behind the last, and sends those from the source back to
-- it; the index moves on by the number of buffers, modulo that of the targets, and no flow's own
-- interface changes.
pub load_balance-Balanced :
    (rt : Runtime) (flows : Flows) (bs : List Buffer)
    → rt.last_target_index < length rt.sw_if_target
    → length rt.sw_if_target < 2 ^ 32
    → HaveFlows flows bs
    → Balanced rt flows
        (rt.last_target_index + length bs)
        (assigned rt.sw_if_index_source rt.sw_if_target flows (rt.last_target_index + 1) bs)
        (load_balance rt flows bs)
load_balance-Balanced rt flows bs below small a =
    balanced rt flows rt.last_target_index bs (omega (arith, below)) small
      (sym (mod-eq_of_lt below)) a
