-- ===== src/Transitions/Begin.antt =====
-- `begin_invocation`.
use einsof.Prelude.{
  Bool, true, false, not, ◌&&◌, ◌!=◌, if◌then◌else◌, Result, ok, err, ◌>>=◌, ◌>>◌, require,
}
use einsof.Background.{BackgroundTheory}
use einsof.Collections.VecMap
use einsof.Collections.VecSet.{VecSet}
use einsof.Collections.VecSet
use einsof.Error.{
  KernelError, agent_inactive, root_not_allowed, tool_not_registered, incoherent_policy,
  invocation_exists, invocation_replayed, challenge_already_open, egress_not_narrowing,
  egress_not_covering, capability_missing, authorizer_denied, clearance_denied, flow_gate_blocked,
  integrity_floor_denied,
}
use einsof.Event.{KernelAction}
use einsof.State.{KernelState}
use einsof.Transitions.Checks.{
  check_capability, check_clearance, check_flow, check_integ, egress_narrows, egress_covers,
}
use einsof.Types.{
  AgentId, InvocationId, ChallengeId, ContentHash, ActionPolicySnapshot, EgressKind, Verdict, Mode,
  Admission, Disposition, PendingInvocation, allow, inspection_required, deny, enforce, monitor,
  permitted, monitor_bypassed, plain, bypassed, integ_le, agent_id_eq, tool_id_eq, invocation_id_eq,
}

-- The inputs of a command, which the record or challenge that it creates freezes.
pub record BeginInput : Type 0 where
  pub agent : AgentId
  pub inv : InvocationId
  pub challenge : ChallengeId
  pub policy : ActionPolicySnapshot
  pub egress : VecSet EgressKind
  pub args_hash : ContentHash
  pub authorized : Bool

-- The structural guards, in order.
unfoldable pub begin_guards :
    KernelState → BackgroundTheory → BeginInput → Result KernelError (Unit {0})
begin_guards s bg q = do
  require (VecSet.contains s.agent_active q.agent) agent_inactive
  require (q.agent != bg.root_agent) root_not_allowed
  require (VecSet.contains s.tool_registered q.policy.tool) tool_not_registered
  require (integ_le q.policy.integ_inspect q.policy.integ_floor) incoherent_policy
  require (not (VecMap.contains_key s.pending q.inv)) invocation_exists
  require (not (VecSet.contains s.consumed_ids q.inv)) invocation_replayed
  require (not (VecMap.contains_key s.challenges q.inv)) challenge_already_open
  require (egress_narrows q.egress q.policy.declared_egress) egress_not_narrowing
  require (egress_covers q.policy.declared_egress q.egress) egress_not_covering

unfoldable pub begin_verdict : KernelState → BackgroundTheory → BeginInput → Verdict
begin_verdict s bg q =
    let cap = check_capability s q.agent q.policy in
    let clear = check_clearance s q.agent q.policy in
    let flow_strict = check_flow s bg q.agent q.policy q.egress true in
    let flow_adm = check_flow s bg q.agent q.policy q.egress false in
    let integ_strict = check_integ s q.agent q.policy true in
    let integ_adm = check_integ s q.agent q.policy false in
    if cap && q.authorized && clear && flow_strict && integ_strict
    then allow
    else if cap && q.authorized && clear && flow_adm && integ_adm
    then inspection_required
    else deny

unfoldable pub begin_record : BeginInput → Admission → Disposition → PendingInvocation
begin_record q admission disposition = record {
  agent = q.agent;
  policy = q.policy;
  egress = q.egress;
  admission = admission;
  disposition = disposition;
  authorized = q.authorized;
  quarantined = false;
}

unfoldable pub begin_pend : KernelState → BeginInput → Admission → Disposition → KernelState
begin_pend s q admission disposition = record s {
  pending = VecMap.insert s.pending q.inv (begin_record q admission disposition);
}

unfoldable pub begin_challenge : KernelState → BeginInput → KernelState
begin_challenge s q = record s {
  challenges = VecMap.insert s.challenges q.inv (record {
    challenge = q.challenge;
    agent = q.agent;
    policy = q.policy;
    egress = q.egress;
    args_hash = q.args_hash;
    authorized = q.authorized;
  });
}

-- The refusal of a denied command: the first admissible check that failed.
unfoldable pub deny_reason : KernelState → BackgroundTheory → BeginInput → KernelError
deny_reason s bg q =
    if not (check_capability s q.agent q.policy)
    then capability_missing
    else if not q.authorized
    then authorizer_denied
    else if not (check_clearance s q.agent q.policy)
    then clearance_denied
    else if not (check_flow s bg q.agent q.policy q.egress false)
    then flow_gate_blocked
    else integrity_floor_denied

-- The `match (verdict, mode)`.
unfoldable pub begin_effect :
    KernelState → BackgroundTheory → BeginInput → Verdict → Mode → Result KernelError KernelState
begin_effect s bg q allow mode = ok (begin_pend s q plain permitted)
begin_effect s bg q inspection_required enforce = ok (begin_challenge s q)
begin_effect s bg q inspection_required monitor = ok (begin_pend s q bypassed monitor_bypassed)
begin_effect s bg q deny monitor = ok (begin_pend s q bypassed monitor_bypassed)
begin_effect s bg q deny enforce = err (deny_reason s bg q)

unfoldable pub begin_consume : KernelState → InvocationId → KernelState
begin_consume s inv = record s { consumed_ids = VecSet.insert s.consumed_ids inv }

unfoldable pub begin_invocation :
    KernelState → BackgroundTheory → BeginInput → Result KernelError (KernelState × KernelAction)
begin_invocation s bg q = do
  begin_guards s bg q
  t ← begin_effect s bg q (begin_verdict s bg q) bg.mode
  ok (
    begin_consume t q.inv,
    KernelAction.begin_invocation q.agent q.inv q.policy.tool (begin_verdict s bg q) q.authorized,
  )
