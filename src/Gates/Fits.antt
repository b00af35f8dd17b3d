-- ===== src/Gates/Fits.antt =====
-- What the admission gate promises of the record that it creates: the record fits beside the labels
-- and the pending records of its agent, both ways.
use einsof.Prelude.{Bool, true, false, ◌≡◌, ◌⊎◌, arith, beq_of_eq}
use einsof.Background.{BackgroundTheory, flow_allows, flow_inspects}
use einsof.Capability.{CapKind, cap_kind_eq}
use einsof.Collections.VecSet
use einsof.Gates.Checks.{
  check_capability_iff, check_clearance_iff, check_flow_iff, check_integ_iff, flow_arm, flow_arm_of,
  integ_arm, integ_arm_of,
}
use einsof.Invariants.{Pends, HoldsCap, HoldsConf, HoldsInteg, Accepts, AcceptsInteg}
use einsof.State.{KernelState, speculative_taint, speculative_integ}
use einsof.State.Views.{
  speculative_taint-held, speculative_integ-held, speculative_taint-pending,
  speculative_integ-pending,
}
use einsof.Transitions.Checks.{check_capability, check_clearance, check_flow, check_integ}
use einsof.Types.{
  InvocationId, PendingInvocation, ConfLevel, IntegLevel, EgressKind, vouched, agent_id_eq,
  invocation_id_eq, conf_level_eq, integ_level_eq, egress_kind_eq,
}

pub record Fits (bg : BackgroundTheory) (s : KernelState) (j : PendingInvocation) : Type 0 where
  pub authorized : j.authorized ≡ true
  pub caps : (k : CapKind) → VecSet.contains j.policy.required_caps k ≡ true → HoldsCap s j.agent k
  pub held_conf : (l : ConfLevel) → HoldsConf s j.agent l → Accepts bg j l
  pub held_integ : (l : IntegLevel) → HoldsInteg s j.agent l → AcceptsInteg j l
  pub takes :
      (i : InvocationId) (k : PendingInvocation)
      → Pends s i k
      → k.agent ≡ j.agent
      → Accepts bg j k.policy.output_conf × AcceptsInteg j k.policy.output_integ
  pub taken :
      (i : InvocationId) (k : PendingInvocation)
      → Pends s i k
      → k.agent ≡ j.agent
      → Accepts bg k j.policy.output_conf × AcceptsInteg k j.policy.output_integ
  pub self : Accepts bg j j.policy.output_conf × AcceptsInteg j j.policy.output_integ

-- The gate on the strict or the admissible arm.
pub record Gate (bg : BackgroundTheory) (s : KernelState) (j : PendingInvocation) (strict : Bool)
    : Type 0 where
  pub capability : check_capability s j.agent j.policy ≡ true
  pub authorized : j.authorized ≡ true
  pub clearance : check_clearance s j.agent j.policy ≡ true
  pub flow : check_flow s bg j.agent j.policy j.egress strict ≡ true
  pub integ : check_integ s j.agent j.policy strict ≡ true

module _ (bg : BackgroundTheory) (strict : Bool) (j : PendingInvocation)
    (lax : strict ≡ false → vouched j ≡ true) where
  arm_accepts :
      (l : ConfLevel) (e : EgressKind)
      → flow_arm bg strict l e ≡ true
      → (flow_allows bg l e ≡ true) ⊎ ((flow_inspects bg l e ≡ true) × (vouched j ≡ true))
  arm_accepts l e h = ground arith

  integ_arm_accepts : (l : IntegLevel) → integ_arm strict j.policy l ≡ true → AcceptsInteg j l
  integ_arm_accepts l h = ground arith

module _ (bg : BackgroundTheory) (strict : Bool) (k : PendingInvocation) where
  arm_of_accepts :
      (l : ConfLevel) (e : EgressKind)
      → flow_arm_of bg strict k l e ≡ true
      → (flow_allows bg l e ≡ true) ⊎ ((flow_inspects bg l e ≡ true) × (vouched k ≡ true))
  arm_of_accepts l e h = ground arith

  integ_arm_of_accepts : (l : IntegLevel) → integ_arm_of strict k l ≡ true → AcceptsInteg k l
  integ_arm_of_accepts l h = ground arith

module _ {bg : BackgroundTheory} {s : KernelState} {j : PendingInvocation} {strict : Bool}
    (lax : strict ≡ false → vouched j ≡ true) (g : Gate bg s j strict) where
  spec_conf :
      (l : ConfLevel) → VecSet.contains (speculative_taint s j.agent) l ≡ true → Accepts bg j l
  spec_conf l h = record {
    flows = λ e m.
        arm_accepts bg strict j lax l e
          (((check_flow_iff s bg j.agent j.policy j.egress strict).0 g.flow).0 l h e m);
    clears = ((check_clearance_iff s j.agent j.policy).0 g.clearance).0 l h;
  }

  spec_integ :
      (l : IntegLevel) → VecSet.contains (speculative_integ s j.agent) l ≡ true → AcceptsInteg j l
  spec_integ l h =
      integ_arm_accepts bg strict j lax l
        (((check_integ_iff s j.agent j.policy strict).0 g.integ).0 l h)

  -- A record that passes the gate, on the strict arm or vouched, fits: it accepts every label that
  -- its agent holds and every output of the agent's pending records, and they accept its outputs.
  pub Gate-Fits : Fits bg s j
  Gate-Fits =
      let clear = (check_clearance_iff s j.agent j.policy).0 g.clearance in
      let flow = (check_flow_iff s bg j.agent j.policy j.egress strict).0 g.flow in
      let integ = (check_integ_iff s j.agent j.policy strict).0 g.integ in
      record {
        authorized = g.authorized;
        caps = (check_capability_iff s j.agent j.policy).0 g.capability;
        held_conf = λ l h. spec_conf l (speculative_taint-held s j.agent l h);
        held_integ = λ l h. spec_integ l (speculative_integ-held s j.agent l h);
        takes = λ i k p mine. (
          spec_conf k.policy.output_conf (speculative_taint-pending s j.agent i k p mine),
          spec_integ k.policy.output_integ (speculative_integ-pending s j.agent i k p mine),
        );
        taken = λ i k p mine. (
          record {
            flows = λ e m.
                arm_of_accepts bg strict k j.policy.output_conf e
                  (flow.1 i k p (beq_of_eq mine) e m);
            clears = clear.1 i k p (beq_of_eq mine);
          },
          integ_arm_of_accepts bg strict k j.policy.output_integ (integ.1 i k p (beq_of_eq mine)),
        );
        self = (
          record {
            flows = λ e m. arm_accepts bg strict j lax j.policy.output_conf e (flow.2 e m);
            clears = clear.2;
          },
          integ_arm_accepts bg strict j lax j.policy.output_integ integ.2,
        );
      }
