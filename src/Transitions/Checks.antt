-- ===== src/Transitions/Checks.antt =====
-- The checks of the admission gate. `strict` selects the ALLOW arm, otherwise ALLOW or INSPECT.
use einsof.Prelude.{Bool, true, false, not, ◌&&◌, ◌||◌, ◌==◌, if◌then◌else◌}
use einsof.Background.{BackgroundTheory, flow_allows, flow_inspects}
use einsof.Capability.{cap_kind_eq}
use einsof.Collections.VecMap
use einsof.Collections.VecSet.{VecSet}
use einsof.Collections.VecSet
use einsof.State.{KernelState, speculative_taint, speculative_integ}
use einsof.Types.{
  AgentId, ActionPolicySnapshot, EgressKind, conf_le, integ_le, vouched, agent_id_eq,
  invocation_id_eq, egress_kind_eq,
}

-- CHECK 1.
unfoldable pub check_capability : KernelState → AgentId → ActionPolicySnapshot → Bool
check_capability s a snap =
    VecSet.for_items snap.required_caps
      (λ c ok. if not (VecMap.set_contains s.agent_cap a c) then false else ok) true

-- CHECK 2a, 2b, 2c.
unfoldable pub check_clearance : KernelState → AgentId → ActionPolicySnapshot → Bool
check_clearance s a snap =
    let held =
      VecSet.for_items (speculative_taint s a)
        (λ l ok. if not (conf_le l snap.conf_clearance) then false else ok) true in
    let both =
      VecMap.for_entries s.pending
        (λ _ j ok.
          if j.agent == a && not (conf_le snap.output_conf j.policy.conf_clearance)
          then false
          else ok)
        held in
    if not (conf_le snap.output_conf snap.conf_clearance) then false else both

-- CHECK 3a, 3b, 3c.
unfoldable pub check_flow :
    KernelState
    → BackgroundTheory
    → AgentId
    → ActionPolicySnapshot
    → VecSet EgressKind
    → Bool
    → Bool
check_flow s bg a snap egr strict =
    let held =
      VecSet.for_items (speculative_taint s a)
        (λ l ok.
          VecSet.for_items egr
            (λ eg ok.
              let pass =
                if strict
                then flow_allows bg l eg
                else (flow_allows bg l eg || flow_inspects bg l eg) in
              if not pass then false else ok)
            ok)
        true in
    let both =
      VecMap.for_entries s.pending
        (λ _ j ok.
          if j.agent == a
          then VecSet.for_items j.egress
              (λ eg ok.
                let pass =
                  if strict
                  then flow_allows bg snap.output_conf eg
                  else (flow_allows bg snap.output_conf eg
                      || (flow_inspects bg snap.output_conf eg && vouched j)) in
                if not pass then false else ok)
              ok
          else ok)
        held in
    VecSet.for_items egr
      (λ eg ok.
        let pass =
          if strict
          then flow_allows bg snap.output_conf eg
          else (flow_allows bg snap.output_conf eg || flow_inspects bg snap.output_conf eg) in
        if not pass then false else ok)
      both

-- CHECK 5a, 5b, 5c.
unfoldable pub check_integ : KernelState → AgentId → ActionPolicySnapshot → Bool → Bool
check_integ s a snap strict =
    let held =
      VecSet.for_items (speculative_integ s a)
        (λ l ok.
          let pass =
            if strict
            then integ_le snap.integ_floor l
            else (integ_le snap.integ_floor l || integ_le snap.integ_inspect l) in
          if not pass then false else ok)
        true in
    let both =
      VecMap.for_entries s.pending
        (λ _ j ok.
          if j.agent == a
          then (let pass =
                if strict
                then integ_le j.policy.integ_floor snap.output_integ
                else (integ_le j.policy.integ_floor snap.output_integ
                    || (integ_le j.policy.integ_inspect snap.output_integ && vouched j)) in
              if not pass then false else ok)
          else ok)
        held in
    let self_pass =
      if strict
      then integ_le snap.integ_floor snap.output_integ
      else (integ_le snap.integ_floor snap.output_integ
          || integ_le snap.integ_inspect snap.output_integ) in
    if not self_pass then false else both

unfoldable pub egress_narrows : VecSet EgressKind → VecSet EgressKind → Bool
egress_narrows egr declared =
    VecSet.for_items egr (λ eg ok. if not (VecSet.contains declared eg) then false else ok) true

unfoldable pub egress_covers : VecSet EgressKind → VecSet EgressKind → Bool
egress_covers declared egr = if VecSet.is_empty declared then true else not (VecSet.is_empty egr)

unfoldable pub begin_admissible :
    KernelState
    → BackgroundTheory
    → AgentId
    → ActionPolicySnapshot
    → VecSet EgressKind
    → Bool
    → Bool
begin_admissible s bg a snap egr authorized =
    check_capability s a snap
    && authorized
    && check_clearance s a snap
    && check_flow s bg a snap egr false
    && check_integ s a snap false
