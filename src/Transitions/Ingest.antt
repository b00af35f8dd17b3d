-- ===== src/Transitions/Ingest.antt =====
-- `ingest`.
use einsof.Prelude.{
  Bool, true, false, not, Option, none, some, ◌==◌, if◌then◌else◌, Result, ok, err, ◌>>=◌, ◌>>◌,
  require,
}
use einsof.Background.{BackgroundTheory}
use einsof.Collections.VecMap
use einsof.Collections.VecSet
use einsof.Error.{KernelError, agent_inactive, provenance_not_dominated, ingest_hold_failed}
use einsof.Event.{KernelAction}
use einsof.State.{KernelState, demote_all_of}
use einsof.Transitions.Holds.{ingest_holds}
use einsof.Types.{
  AgentId, ConfLevel, IntegLevel, Disposition, Mode, monitor, permitted, monitor_bypassed, conf_le,
  integ_le, agent_id_eq, conf_level_eq, integ_level_eq, mode_eq, disposition_eq,
}

-- The two scans over the source agent's held labels, with one latch.
unfoldable pub dominated : KernelState → AgentId → ConfLevel → IntegLevel → Bool
dominated s src_agent pconf pinteg =
    VecSet.for_items (VecMap.get_set_or_empty s.integ_levels src_agent)
      (λ l dominated. if not (integ_le pinteg l) then false else dominated)
      (VecSet.for_items (VecMap.get_set_or_empty s.taint_levels src_agent)
        (λ l dominated. if not (conf_le l pconf) then false else dominated) true)

unfoldable pub check_source :
    KernelState → Option AgentId → ConfLevel → IntegLevel → Result KernelError (Unit {0})
check_source s (some src_agent) pconf pinteg =
    require (dominated s src_agent pconf pinteg) provenance_not_dominated
check_source s none pconf pinteg = ok tt

-- The enforcement disposition: permitted if the holds pass, bypassed under monitor, else refused.
unfoldable pub dispose : Bool → Mode → KernelError → Result KernelError Disposition
dispose holds mode refusal =
    if holds then ok permitted else if mode == monitor then ok monitor_bypassed else err refusal

unfoldable pub ingested : KernelState → AgentId → ConfLevel → IntegLevel → Disposition → KernelState
ingested s a pconf pinteg disposition =
    let absorbed : KernelState = record s {
      taint_levels = VecMap.insert_into s.taint_levels a pconf;
      integ_levels = VecMap.insert_into s.integ_levels a pinteg;
    } in
    if disposition == monitor_bypassed then demote_all_of absorbed a else absorbed

unfoldable pub ingest :
    KernelState
    → BackgroundTheory
    → AgentId
    → Option AgentId
    → ConfLevel
    → IntegLevel
    → Result KernelError (KernelState × KernelAction)
ingest s bg a src pconf pinteg = do
  require (VecSet.contains s.agent_active a) agent_inactive
  check_source s src pconf pinteg
  disposition ← dispose (ingest_holds s bg a pconf pinteg) bg.mode ingest_hold_failed
  ok (ingested s a pconf pinteg disposition, KernelAction.ingest a src pconf pinteg disposition)
