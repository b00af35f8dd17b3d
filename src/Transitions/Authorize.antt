-- ===== src/Transitions/Authorize.antt =====
-- `authorize_inspected`.
use einsof.Prelude.{
  Bool, false, not, ◌&&◌, ◌==◌, ◌!=◌, if◌then◌else◌, Result, ok, ◌>>=◌, ◌>>◌, require, or_err,
}
use einsof.Background.{BackgroundTheory}
use einsof.Collections.VecMap
use einsof.Collections.VecSet
use einsof.Error.{KernelError, challenge_not_open, challenge_scope_mismatch, attestation_consumed}
use einsof.Event.{KernelAction}
use einsof.State.{KernelState}
use einsof.Transitions.Checks.{egress_narrows, egress_covers, begin_admissible}
use einsof.Types.{
  InvocationId, AttestationId, ChallengeScope, InspectionAttestation, PendingInvocation, inspected,
  permitted, integ_le, agent_id_eq, tool_id_eq, invocation_id_eq, challenge_id_eq, content_hash_eq,
  policy_digest_eq, attestation_id_eq,
}

unfoldable pub authorize_admits :
    KernelState → BackgroundTheory → InvocationId → ChallengeScope → Bool
authorize_admits s bg inv sc =
    VecSet.contains s.agent_active sc.agent
    && sc.agent != bg.root_agent
    && VecSet.contains s.tool_registered sc.policy.tool
    && integ_le sc.policy.integ_inspect sc.policy.integ_floor
    && not (VecMap.contains_key s.pending inv)
    && egress_narrows sc.egress sc.policy.declared_egress
    && egress_covers sc.policy.declared_egress sc.egress
    && begin_admissible s bg sc.agent sc.policy sc.egress sc.authorized

-- Exact scope equality.
unfoldable pub scope_matches : InvocationId → ChallengeScope → InspectionAttestation → Bool
scope_matches inv sc att =
    att.inv == inv
    && att.challenge == sc.challenge
    && att.args_hash == sc.args_hash
    && att.policy_digest == sc.policy.policy_digest

unfoldable pub inspected_record : ChallengeScope → AttestationId → PendingInvocation
inspected_record sc att = record {
  agent = sc.agent;
  policy = sc.policy;
  egress = sc.egress;
  admission = inspected att;
  disposition = permitted;
  authorized = sc.authorized;
  quarantined = false;
}

-- Both branches close the challenge and consume the attestation; an admission pends.
unfoldable pub resolved :
    KernelState → InvocationId → ChallengeScope → AttestationId → Bool → KernelState
resolved s inv sc att admit =
    let t : KernelState =
      if admit
      then record s { pending = VecMap.insert s.pending inv (inspected_record sc att) }
      else s in
    record t {
      challenges = VecMap.remove t.challenges inv;
      consumed_attestations = VecSet.insert t.consumed_attestations att;
    }

unfoldable pub authorize_inspected :
    KernelState
    → BackgroundTheory
    → InvocationId
    → InspectionAttestation
    → Result KernelError (KernelState × KernelAction)
authorize_inspected s bg inv att = do
  sc ← or_err (VecMap.get_cloned s.challenges inv) challenge_not_open
  require (scope_matches inv sc att) challenge_scope_mismatch
  require (not (VecSet.contains s.consumed_attestations att.id)) attestation_consumed
  let admit = att.positive && authorize_admits s bg inv sc
  ok (resolved s inv sc att.id admit, KernelAction.authorize_inspected inv att.id admit)
