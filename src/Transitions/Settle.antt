-- ===== src/Transitions/Settle.antt =====
-- `settle_invocation`.
use einsof.Prelude.{
  Bool, true, false, not, ◌&&◌, Option, none, some, ◌==◌, ◌!=◌, if◌then◌else◌, is_some, Result, ok,
  ◌>>=◌, ◌>>◌, require, or_err,
}
use einsof.Collections.VecMap
use einsof.Collections.VecSet
use einsof.Error.{
  KernelError, not_pending, agent_inactive, blocked_pending, quarantine_resolution_required,
  resolution_attestation_invalid, not_quarantined,
}
use einsof.Event.{KernelAction}
use einsof.State.{KernelState, demote_all_of}
use einsof.Types.{
  InvocationId, AttestationId, Outcome, PendingInvocation, ResolutionAttestation, ambiguous,
  blocked, permitted, agent_id_eq, invocation_id_eq, attestation_id_eq, outcome_eq, disposition_eq,
  conf_level_eq, integ_level_eq,
}

unfoldable pub resolution_valid :
    KernelState → InvocationId → Outcome → Option ResolutionAttestation → Bool
resolution_valid s inv outcome (some r) =
    r.inv == inv && r.outcome == outcome && not (VecSet.contains s.consumed_attestations r.id)
resolution_valid s inv outcome none = false

-- The checks on the resolution attestation.
unfoldable pub check_resolution :
    KernelState
    → InvocationId
    → PendingInvocation
    → Outcome
    → Option ResolutionAttestation
    → Result KernelError (Unit {0})
check_resolution s inv j outcome att =
    if j.quarantined
    then (do
      require (outcome != ambiguous) quarantine_resolution_required
      require (resolution_valid s inv outcome att) resolution_attestation_invalid)
    else require (not (is_some att)) not_quarantined

-- Quarantine on ambiguous, else close.
unfoldable pub settle_at : KernelState → InvocationId → PendingInvocation → Outcome → KernelState
settle_at s inv j outcome =
    if outcome == ambiguous
    then record s { pending = VecMap.insert s.pending inv (record j { quarantined = true }) }
    else record s { pending = VecMap.remove s.pending inv }

-- A record that is not contained demotes what its owner has left.
unfoldable pub settle_demote : KernelState → PendingInvocation → KernelState
settle_demote s j = if j.disposition != permitted then demote_all_of s j.agent else s

-- An ordinary outcome absorbs both frozen levels.
unfoldable pub settle_absorb : KernelState → PendingInvocation → Outcome → KernelState
settle_absorb s j outcome =
    if outcome != ambiguous
    then record s {
      taint_levels = VecMap.insert_into s.taint_levels j.agent j.policy.output_conf;
      integ_levels = VecMap.insert_into s.integ_levels j.agent j.policy.output_integ;
    }
    else s

unfoldable pub settle_consume : KernelState → Option ResolutionAttestation → KernelState
settle_consume s (some r) = record s {
  consumed_attestations = VecSet.insert s.consumed_attestations r.id;
}
settle_consume s none = s

abbrev pub resolution_id : Option ResolutionAttestation → Option AttestationId
resolution_id (some r) = some r.id
resolution_id none = none

unfoldable pub settled :
    KernelState
    → InvocationId
    → PendingInvocation
    → Outcome
    → Option ResolutionAttestation
    → KernelState
settled s inv j outcome att =
    settle_consume (settle_absorb (settle_demote (settle_at s inv j outcome) j) j outcome) att

unfoldable pub settle_invocation :
    KernelState
    → InvocationId
    → Outcome
    → Option ResolutionAttestation
    → Result KernelError (KernelState × KernelAction)
settle_invocation s inv outcome att = do
  j ← or_err (VecMap.get_cloned s.pending inv) not_pending
  require (VecSet.contains s.agent_active j.agent) agent_inactive
  require (j.disposition != blocked) blocked_pending
  check_resolution s inv j outcome att
  ok (
    settled s inv j outcome att,
    KernelAction.settle_invocation inv j.agent j.disposition outcome j.policy.output_conf
        j.policy.output_integ (resolution_id att),
  )
