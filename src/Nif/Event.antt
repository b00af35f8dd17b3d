-- ===== src/Nif/Event.antt =====
-- ex_argus/native/argus_nif/src/event.rs: the recorded actions, the kernel's errors and the adapter's errors.
pub mod Lossless
use mathlib.Core.Option
use einsof.Prelude.{ℕ}
use einsof.Error.{KernelError}
use einsof.Event.{KernelAction}
use einsof.Nif.Enums.{
  conf_level_from_kernel, integ_level_from_kernel, cap_kind_from_kernel, verdict_from_kernel,
  disposition_from_kernel, outcome_from_kernel, cross_branch_from_kernel,
}
use einsof.Nif.Wire.Actions.{
  RegisterToolActionN, UnregisterToolActionN, DelegateActionN, GrantCapabilityActionN,
  GrantCrossingActionN, RevokeActionN, CascadeRevokeActionN, IngestActionN, BeginInvocationActionN,
  AuthorizeInspectedActionN, SettleInvocationActionN, CrossOutputActionN,
}

pub data ActionN : Type 0 where
  register_tool : RegisterToolActionN → ActionN
  unregister_tool : UnregisterToolActionN → ActionN
  delegate : DelegateActionN → ActionN
  grant_capability : GrantCapabilityActionN → ActionN
  grant_crossing : GrantCrossingActionN → ActionN
  revoke : RevokeActionN → ActionN
  cascade_revoke : CascadeRevokeActionN → ActionN
  ingest : IngestActionN → ActionN
  begin_invocation : BeginInvocationActionN → ActionN
  authorize_inspected : AuthorizeInspectedActionN → ActionN
  settle_invocation : SettleInvocationActionN → ActionN
  cross_output : CrossOutputActionN → ActionN

unfoldable pub action_tag : ActionN → ℕ
action_tag (ActionN.register_tool _) = 0
action_tag (ActionN.unregister_tool _) = 1
action_tag (ActionN.delegate _) = 2
action_tag (ActionN.grant_capability _) = 3
action_tag (ActionN.grant_crossing _) = 4
action_tag (ActionN.revoke _) = 5
action_tag (ActionN.cascade_revoke _) = 6
action_tag (ActionN.ingest _) = 7
action_tag (ActionN.begin_invocation _) = 8
action_tag (ActionN.authorize_inspected _) = 9
action_tag (ActionN.settle_invocation _) = 10
action_tag (ActionN.cross_output _) = 11

unfoldable pub action_from_kernel : KernelAction → ActionN
action_from_kernel (KernelAction.register_tool tool) =
    ActionN.register_tool (record { tool = tool.text })
action_from_kernel (KernelAction.unregister_tool tool) =
    ActionN.unregister_tool (record { tool = tool.text })
action_from_kernel (KernelAction.delegate grantor grantee) =
    ActionN.delegate (record { grantor = grantor.text; grantee = grantee.text })
action_from_kernel (KernelAction.grant_capability parent child cap) =
    ActionN.grant_capability
      (record { parent = parent.text; child = child.text; cap = cap_kind_from_kernel cap })
action_from_kernel (KernelAction.grant_crossing grantor agent assignment n) =
    ActionN.grant_crossing
      (record { grantor = grantor.text; agent = agent.text; assignment = assignment.text; n = n })
action_from_kernel (KernelAction.revoke parent target) =
    ActionN.revoke (record { parent = parent.text; target = target.text })
action_from_kernel (KernelAction.cascade_revoke child parent) =
    ActionN.cascade_revoke (record { child = child.text; parent = parent.text })
action_from_kernel (KernelAction.ingest agent src pconf pinteg disposition) =
    ActionN.ingest (record {
      agent = agent.text;
      src = Option.map (λ i. i.text) src;
      pconf = conf_level_from_kernel pconf;
      pinteg = integ_level_from_kernel pinteg;
      disposition = disposition_from_kernel disposition;
    })
action_from_kernel (KernelAction.begin_invocation agent inv tool verdict authorized) =
    ActionN.begin_invocation (record {
      agent = agent.text;
      inv = inv.text;
      tool = tool.text;
      verdict = verdict_from_kernel verdict;
      authorized = authorized;
    })
action_from_kernel (KernelAction.authorize_inspected inv attestation admitted) =
    ActionN.authorize_inspected
      (record { inv = inv.text; attestation = attestation.text; admitted = admitted })
action_from_kernel
      (KernelAction.settle_invocation inv agent disposition outcome clvl ilvl resolution) =
    ActionN.settle_invocation (record {
      inv = inv.text;
      agent = agent.text;
      disposition = disposition_from_kernel disposition;
      outcome = outcome_from_kernel outcome;
      clvl = conf_level_from_kernel clvl;
      ilvl = integ_level_from_kernel ilvl;
      resolution = Option.map (λ i. i.text) resolution;
    })
action_from_kernel (KernelAction.cross_output src rcv crossing branch disposition) =
    ActionN.cross_output (record {
      src = src.text;
      rcv = rcv.text;
      crossing = crossing.text;
      branch = cross_branch_from_kernel branch;
      disposition = disposition_from_kernel disposition;
    })

pub data KernelErrorN : Type 0 where
  tool_already_registered tool_not_registered tool_in_use agent_inactive : KernelErrorN
  agent_already_active root_not_allowed not_direct_child parent_still_active : KernelErrorN
  agent_has_children capability_missing not_root invocation_exists : KernelErrorN
  invocation_replayed not_pending egress_not_narrowing egress_not_covering : KernelErrorN
  incoherent_policy challenge_already_open clearance_denied flow_gate_blocked : KernelErrorN
  authorizer_denied integrity_floor_denied pairwise_conflict challenge_not_open : KernelErrorN
  challenge_scope_mismatch attestation_consumed inspection_negative blocked_pending : KernelErrorN
  not_quarantined quarantine_resolution_required resolution_attestation_invalid ingest_hold_failed :
      KernelErrorN
  provenance_not_dominated crossing_replayed grant_missing grant_exhausted : KernelErrorN
  source_in_flight crossing_bound_violated crossing_hold_failed event_store : KernelErrorN

unfoldable pub kernel_error_from_kernel : KernelError → KernelErrorN
kernel_error_from_kernel KernelError.tool_already_registered = KernelErrorN.tool_already_registered
kernel_error_from_kernel KernelError.tool_not_registered = KernelErrorN.tool_not_registered
kernel_error_from_kernel KernelError.tool_in_use = KernelErrorN.tool_in_use
kernel_error_from_kernel KernelError.agent_inactive = KernelErrorN.agent_inactive
kernel_error_from_kernel KernelError.agent_already_active = KernelErrorN.agent_already_active
kernel_error_from_kernel KernelError.root_not_allowed = KernelErrorN.root_not_allowed
kernel_error_from_kernel KernelError.not_direct_child = KernelErrorN.not_direct_child
kernel_error_from_kernel KernelError.parent_still_active = KernelErrorN.parent_still_active
kernel_error_from_kernel KernelError.agent_has_children = KernelErrorN.agent_has_children
kernel_error_from_kernel KernelError.capability_missing = KernelErrorN.capability_missing
kernel_error_from_kernel KernelError.not_root = KernelErrorN.not_root
kernel_error_from_kernel KernelError.invocation_exists = KernelErrorN.invocation_exists
kernel_error_from_kernel KernelError.invocation_replayed = KernelErrorN.invocation_replayed
kernel_error_from_kernel KernelError.not_pending = KernelErrorN.not_pending
kernel_error_from_kernel KernelError.egress_not_narrowing = KernelErrorN.egress_not_narrowing
kernel_error_from_kernel KernelError.egress_not_covering = KernelErrorN.egress_not_covering
kernel_error_from_kernel KernelError.incoherent_policy = KernelErrorN.incoherent_policy
kernel_error_from_kernel KernelError.challenge_already_open = KernelErrorN.challenge_already_open
kernel_error_from_kernel KernelError.clearance_denied = KernelErrorN.clearance_denied
kernel_error_from_kernel KernelError.flow_gate_blocked = KernelErrorN.flow_gate_blocked
kernel_error_from_kernel KernelError.authorizer_denied = KernelErrorN.authorizer_denied
kernel_error_from_kernel KernelError.integrity_floor_denied = KernelErrorN.integrity_floor_denied
kernel_error_from_kernel KernelError.pairwise_conflict = KernelErrorN.pairwise_conflict
kernel_error_from_kernel KernelError.challenge_not_open = KernelErrorN.challenge_not_open
kernel_error_from_kernel KernelError.challenge_scope_mismatch =
    KernelErrorN.challenge_scope_mismatch
kernel_error_from_kernel KernelError.attestation_consumed = KernelErrorN.attestation_consumed
kernel_error_from_kernel KernelError.inspection_negative = KernelErrorN.inspection_negative
kernel_error_from_kernel KernelError.blocked_pending = KernelErrorN.blocked_pending
kernel_error_from_kernel KernelError.not_quarantined = KernelErrorN.not_quarantined
kernel_error_from_kernel KernelError.quarantine_resolution_required =
    KernelErrorN.quarantine_resolution_required
kernel_error_from_kernel KernelError.resolution_attestation_invalid =
    KernelErrorN.resolution_attestation_invalid
kernel_error_from_kernel KernelError.ingest_hold_failed = KernelErrorN.ingest_hold_failed
kernel_error_from_kernel KernelError.provenance_not_dominated =
    KernelErrorN.provenance_not_dominated
kernel_error_from_kernel KernelError.crossing_replayed = KernelErrorN.crossing_replayed
kernel_error_from_kernel KernelError.grant_missing = KernelErrorN.grant_missing
kernel_error_from_kernel KernelError.grant_exhausted = KernelErrorN.grant_exhausted
kernel_error_from_kernel KernelError.source_in_flight = KernelErrorN.source_in_flight
kernel_error_from_kernel KernelError.crossing_bound_violated = KernelErrorN.crossing_bound_violated
kernel_error_from_kernel KernelError.crossing_hold_failed = KernelErrorN.crossing_hold_failed
kernel_error_from_kernel KernelError.event_store = KernelErrorN.event_store

pub data ErrorN : Type 0 where
  kernel : KernelErrorN → ErrorN
  instance_busy resource_poisoned capacity_exceeded sequence_exhausted invalid_version : ErrorN
  sequence_mismatch previous_digest_mismatch action_mismatch digest_mismatch : ErrorN
  replay_refused : KernelErrorN → ErrorN
  recovery_consumed final_anchor_mismatch : ErrorN
