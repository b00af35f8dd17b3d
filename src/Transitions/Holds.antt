-- ===== src/Transitions/Holds.antt =====
-- The three holds of `ingest` and `cross_output` over the pending records of one agent.
use einsof.Prelude.{Bool, true, false, not, ◌&&◌, ◌||◌, ◌==◌, if◌then◌else◌}
use einsof.Background.{BackgroundTheory, flow_allows, flow_inspects}
use einsof.Collections.VecMap
use einsof.Collections.VecSet
use einsof.State.{KernelState}
use einsof.Types.{
  AgentId, ConfLevel, IntegLevel, conf_le, integ_le, vouched, agent_id_eq, invocation_id_eq,
}

unfoldable pub ingest_conf_hold : KernelState → BackgroundTheory → AgentId → ConfLevel → Bool
ingest_conf_hold s bg a pconf =
    VecMap.for_entries s.pending
      (λ _ j ok.
        if j.agent == a
        then VecSet.for_items j.egress
            (λ eg ok.
              if not (flow_allows bg pconf eg || (flow_inspects bg pconf eg && vouched j))
              then false
              else ok)
            ok
        else ok)
      true

unfoldable pub ingest_clear_hold : KernelState → AgentId → ConfLevel → Bool
ingest_clear_hold s a pconf =
    VecMap.for_entries s.pending
      (λ _ j ok. if j.agent == a && not (conf_le pconf j.policy.conf_clearance) then false else ok)
      true

unfoldable pub ingest_integ_hold : KernelState → AgentId → IntegLevel → Bool
ingest_integ_hold s a pinteg =
    VecMap.for_entries s.pending
      (λ _ j ok.
        if j.agent == a
        then if not (
            integ_le j.policy.integ_floor pinteg
            || (integ_le j.policy.integ_inspect pinteg && vouched j))
          then false
          else ok
        else ok)
      true

unfoldable pub ingest_holds :
    KernelState → BackgroundTheory → AgentId → ConfLevel → IntegLevel → Bool
ingest_holds s bg a pconf pinteg =
    ingest_conf_hold s bg a pconf && ingest_clear_hold s a pconf && ingest_integ_hold s a pinteg
