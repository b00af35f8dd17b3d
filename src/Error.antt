-- ===== src/Error.antt =====
-- argus/crates/argus-kernel/src/error.rs.
pub data KernelError : Type 0 where
  tool_already_registered tool_not_registered tool_in_use : KernelError
  agent_inactive agent_already_active root_not_allowed not_direct_child : KernelError
  parent_still_active agent_has_children capability_missing not_root : KernelError
  invocation_exists invocation_replayed not_pending egress_not_narrowing : KernelError
  egress_not_covering incoherent_policy challenge_already_open : KernelError
  clearance_denied flow_gate_blocked authorizer_denied integrity_floor_denied : KernelError
  pairwise_conflict challenge_not_open challenge_scope_mismatch : KernelError
  attestation_consumed inspection_negative blocked_pending not_quarantined : KernelError
  quarantine_resolution_required resolution_attestation_invalid ingest_hold_failed : KernelError
  provenance_not_dominated crossing_replayed grant_missing grant_exhausted : KernelError
  source_in_flight crossing_bound_violated crossing_hold_failed event_store : KernelError
