-- ===== src/Gates/Checks.antt =====
-- The admission checks, as statements about the held labels and the pending records of the agent.
use einsof.Prelude.{Bool, true, false, not, ◌&&◌, ◌||◌, ◌==◌, if◌then◌else◌, ◌≡◌, ◌↔◌, refl}
use einsof.Background.{BackgroundTheory, flow_allows, flow_inspects}
use einsof.Capability.{CapKind, cap_kind_eq}
use einsof.Collections.VecMap
use einsof.Collections.VecMap.Latches.{items_all, entries_all, entries_all_flat, latch}
use einsof.Collections.VecSet.{VecSet}
use einsof.Collections.VecSet
use einsof.Collections.VecSet.Loops.{for_items_lem}
use einsof.Invariants.{Pends, HoldsCap}
use einsof.State.{KernelState, speculative_taint, speculative_integ}
use einsof.Transitions.Checks.{check_capability, check_clearance, check_flow, check_integ}
use einsof.Types.{
  AgentId, InvocationId, PendingInvocation, ActionPolicySnapshot, ConfLevel, IntegLevel, EgressKind,
  conf_le, integ_le, vouched, agent_id_eq, invocation_id_eq, egress_kind_eq, conf_level_eq,
  integ_level_eq,
}

pub check_capability_iff :
    (s : KernelState) (a : AgentId) (snap : ActionPolicySnapshot)
    → (check_capability s a snap ≡ true)
      ↔ ((k : CapKind) → VecSet.contains snap.required_caps k ≡ true → HoldsCap s a k)
unfolding check_capability
check_capability_iff s a snap =
    let both = items_all (VecMap.set_contains s.agent_cap a) snap.required_caps true in
    (λ h. (both.0 h).1, λ h. both.1 (refl, h))

-- Three scans in turn, each with the flag that the one before leaves.
in_turn {ℓ κ ι} :
    {A : Type ℓ} {B : Type κ} {C : Type ι} {f g h : Bool}
    → (f ≡ true) ↔ ((true ≡ true) × A)
    → (g ≡ true) ↔ ((f ≡ true) × B)
    → (h ≡ true) ↔ ((g ≡ true) × C)
    → (h ≡ true) ↔ (A × B × C)
in_turn p q r = (
  λ t. let z = r.0 t in let y = q.0 z.0 in ((p.0 y.0).1, y.1, z.1),
  λ t. r.1 (q.1 (p.1 (refl, t.0), t.1), t.2),
)

-- A demand on every pending record of the agent.
abbrev pub EachPending {ℓ} : KernelState → AgentId → (PendingInvocation → Type ℓ) → Type ℓ
EachPending s a D =
    (inv : InvocationId) (j : PendingInvocation) → Pends s inv j → (j.agent == a) ≡ true → D j

abbrev pub Clears : KernelState → AgentId → ActionPolicySnapshot → Type 0
Clears s a snap =
    ((l : ConfLevel)
      → VecSet.contains (speculative_taint s a) l ≡ true
      → conf_le l snap.conf_clearance ≡ true)
    × EachPending s a (λ j. conf_le snap.output_conf j.policy.conf_clearance ≡ true)
    × (conf_le snap.output_conf snap.conf_clearance ≡ true)

-- The clearance check passes exactly when the agent's speculative taint and the output clear the
-- snapshot, and the output clears every pending record of the agent.
pub check_clearance_iff :
    (s : KernelState) (a : AgentId) (snap : ActionPolicySnapshot)
    → (check_clearance s a snap ≡ true) ↔ Clears s a snap
unfolding check_clearance
check_clearance_iff s a snap =
    let held =
      VecSet.for_items (speculative_taint s a)
        (λ l ok. if not (conf_le l snap.conf_clearance) then false else ok) true in
    let both =
      VecMap.for_entries s.pending
        (λ _ j ok.
          if j.agent == a && not (conf_le snap.output_conf j.policy.conf_clearance)
          then false
          else ok)
        held in
    in_turn (items_all (λ l. conf_le l snap.conf_clearance) (speculative_taint s a) true)
      (entries_all_flat s.pending (λ j. j.agent == a)
        (λ j. conf_le snap.output_conf j.policy.conf_clearance) held)
      (latch (conf_le snap.output_conf snap.conf_clearance) both)

-- The arms of the flow check, on the agent's own labels and on another pending record.
abbrev pub flow_arm : BackgroundTheory → Bool → ConfLevel → EgressKind → Bool
flow_arm bg strict l eg =
    if strict then flow_allows bg l eg else (flow_allows bg l eg || flow_inspects bg l eg)

abbrev pub flow_arm_of : BackgroundTheory → Bool → PendingInvocation → ConfLevel → EgressKind → Bool
flow_arm_of bg strict j l eg =
    if strict
    then flow_allows bg l eg
    else (flow_allows bg l eg || (flow_inspects bg l eg && vouched j))

abbrev pub integ_arm : Bool → ActionPolicySnapshot → IntegLevel → Bool
integ_arm strict policy l =
    if strict
    then integ_le policy.integ_floor l
    else (integ_le policy.integ_floor l || integ_le policy.integ_inspect l)

abbrev pub integ_arm_of : Bool → PendingInvocation → IntegLevel → Bool
integ_arm_of strict j l =
    if strict
    then integ_le j.policy.integ_floor l
    else (integ_le j.policy.integ_floor l || (integ_le j.policy.integ_inspect l && vouched j))

abbrev pub EachEgress : VecSet EgressKind → (EgressKind → Bool) → Type 0
EachEgress egr p = (e : EgressKind) → VecSet.contains egr e ≡ true → p e ≡ true

abbrev pub Flows :
    KernelState
    → BackgroundTheory
    → AgentId
    → ActionPolicySnapshot
    → VecSet EgressKind
    → Bool
    → Type 0
Flows s bg a snap egr strict =
    ((l : ConfLevel)
      → VecSet.contains (speculative_taint s a) l ≡ true
      → EachEgress egr (flow_arm bg strict l))
    × EachPending s a (λ j. EachEgress j.egress (flow_arm_of bg strict j snap.output_conf))
    × EachEgress egr (flow_arm bg strict snap.output_conf)

-- The flow check passes exactly when, on the chosen arm, the speculative taint and the output may
-- leave by every attested egress, and the output by every egress of every pending record of the
-- agent.
pub check_flow_iff :
    (s : KernelState) (bg : BackgroundTheory) (a : AgentId) (snap : ActionPolicySnapshot)
    (egr : VecSet EgressKind) (strict : Bool)
    → (check_flow s bg a snap egr strict ≡ true) ↔ Flows s bg a snap egr strict
unfolding check_flow
check_flow_iff s bg a snap egr strict =
    let held_body = λ (l : ConfLevel) (ok : Bool).
      VecSet.for_items egr (λ eg ok. if not (flow_arm bg strict l eg) then false else ok) ok in
    let held = VecSet.for_items (speculative_taint s a) held_body true in
    let pend_body = λ (j : PendingInvocation) (ok : Bool).
      VecSet.for_items j.egress
        (λ eg ok. if not (flow_arm_of bg strict j snap.output_conf eg) then false else ok) ok in
    let both =
      VecMap.for_entries s.pending (λ _ j ok. if j.agent == a then pend_body j ok else ok) held in
    in_turn
      (for_items_lem (λ ok. ok ≡ true) (λ l. EachEgress egr (flow_arm bg strict l)) held_body
        (λ l ok. items_all (flow_arm bg strict l) egr ok) (speculative_taint s a) true)
      (entries_all s.pending (λ j. j.agent == a)
        (λ j. EachEgress j.egress (flow_arm_of bg strict j snap.output_conf)) pend_body
        (λ j ok. items_all (flow_arm_of bg strict j snap.output_conf) j.egress ok) held)
      (items_all (flow_arm bg strict snap.output_conf) egr both)

abbrev pub Trusts : KernelState → AgentId → ActionPolicySnapshot → Bool → Type 0
Trusts s a snap strict =
    ((l : IntegLevel)
      → VecSet.contains (speculative_integ s a) l ≡ true
      → integ_arm strict snap l ≡ true)
    × EachPending s a (λ j. integ_arm_of strict j snap.output_integ ≡ true)
    × (integ_arm strict snap snap.output_integ ≡ true)

-- The integrity check passes exactly when, on the chosen arm, the speculative integrity and the
-- output meet the snapshot's floor, and the output meets the floor of every pending record of the
-- agent.
pub check_integ_iff :
    (s : KernelState) (a : AgentId) (snap : ActionPolicySnapshot) (strict : Bool)
    → (check_integ s a snap strict ≡ true) ↔ Trusts s a snap strict
unfolding check_integ
check_integ_iff s a snap strict =
    let held =
      VecSet.for_items (speculative_integ s a)
        (λ l ok. if not (integ_arm strict snap l) then false else ok) true in
    let pend_body = λ (j : PendingInvocation) (ok : Bool).
      if not (integ_arm_of strict j snap.output_integ) then false else ok in
    let both =
      VecMap.for_entries s.pending (λ _ j ok. if j.agent == a then pend_body j ok else ok) held in
    in_turn (items_all (integ_arm strict snap) (speculative_integ s a) true)
      (entries_all s.pending (λ j. j.agent == a)
        (λ j. integ_arm_of strict j snap.output_integ ≡ true) pend_body
        (λ j ok. latch (integ_arm_of strict j snap.output_integ) ok) held)
      (latch (integ_arm strict snap snap.output_integ) both)
