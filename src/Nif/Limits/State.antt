-- ===== src/Nif/Limits/State.antt =====
-- The bounds of ex_argus/native/argus_nif/src/limits.rs on a kernel state: the sizes of its collections,
-- and the text that it keeps.
use einsof.Prelude.{ℕ, String, List, [], ◌∷◌, Result, ok, ◌>>=◌, ◌>>◌}
use einsof.Collections.VecMap
use einsof.Collections.VecSet
use einsof.State.{KernelState}
use einsof.Types.{Admission, ActionPolicySnapshot, PendingInvocation, ChallengeScope, EgressKind}
use einsof.Collections.VecSet.{VecSet}
use einsof.Nif.Event.{ErrorN}
use einsof.Nif.Limits.Bounds.{
  max_agents, max_parent_or_label_keys, max_tools, max_pending, max_challenges, max_crossing_grants,
  max_consumed_ids, max_consumed_attestations, max_consumed_crossings, max_capabilities,
  max_egress_kinds, max_conf_levels, max_integ_levels,
}
use einsof.Nif.Limits.Budget.{TextBudget, new, check_len, check_each, add_each, check_next}

abbrev admission_texts : Admission → List String
admission_texts Admission.plain = []
admission_texts (Admission.inspected attestation) = attestation.text ∷ []
admission_texts Admission.bypassed = []

unfoldable pub pending_texts : PendingInvocation → List String
pending_texts j =
    j.agent.text ∷ j.policy.tool.text ∷ j.policy.policy_digest.text ∷ admission_texts j.admission

unfoldable pub challenge_texts : ChallengeScope → List String
challenge_texts sc =
    sc.challenge.text ∷ sc.agent.text ∷ sc.policy.tool.text ∷ sc.policy.policy_digest.text
    ∷ sc.args_hash.text ∷ []

unfoldable pub retained_text : KernelState → Result ErrorN TextBudget
retained_text s = do
  text ← add_each (λ agent. agent.text ∷ []) s.agent_active.items new
  text ← add_each (λ x. x.0.text ∷ x.1.text ∷ []) s.agent_parent.entries text
  text ← add_each (λ x. x.0.text ∷ []) s.agent_cap.entries text
  text ← add_each (λ x. x.0.text ∷ []) s.taint_levels.entries text
  text ← add_each (λ x. x.0.text ∷ []) s.integ_levels.entries text
  text ← add_each (λ x. x.0.text ∷ pending_texts x.1) s.pending.entries text
  text ← add_each (λ x. x.0.text ∷ challenge_texts x.1) s.challenges.entries text
  text ← add_each (λ inv. inv.text ∷ []) s.consumed_ids.items text
  text ← add_each (λ attestation. attestation.text ∷ []) s.consumed_attestations.items text
  text ← add_each (λ crossing. crossing.text ∷ []) s.consumed_crossings.items text
  text ← add_each (λ x. x.0.agent.text ∷ x.0.assignment.text ∷ []) s.crossing_grants.entries text
  add_each (λ tool. tool.text ∷ []) s.tool_registered.items text

-- The checks on a frozen policy and the attested egress beside it.
unfoldable pub check_frozen : ActionPolicySnapshot → VecSet EgressKind → Result ErrorN (Unit {0})
check_frozen policy egress = do
  check_len (VecSet.len policy.required_caps) max_capabilities
  check_len (VecSet.len policy.declared_egress) max_egress_kinds
  check_len (VecSet.len egress) max_egress_kinds

unfoldable pub check_state_shape : KernelState → Result ErrorN (Unit {0})
check_state_shape s = do
  check_len (VecSet.len s.agent_active) max_agents
  check_len (VecMap.len s.agent_parent) max_parent_or_label_keys
  check_len (VecMap.len s.agent_cap) max_parent_or_label_keys
  check_len (VecMap.len s.taint_levels) max_parent_or_label_keys
  check_len (VecMap.len s.integ_levels) max_parent_or_label_keys
  check_len (VecMap.len s.pending) max_pending
  check_len (VecMap.len s.challenges) max_challenges
  check_len (VecMap.len s.crossing_grants) max_crossing_grants
  check_len (VecSet.len s.consumed_ids) max_consumed_ids
  check_len (VecSet.len s.consumed_attestations) max_consumed_attestations
  check_len (VecSet.len s.consumed_crossings) max_consumed_crossings
  check_len (VecSet.len s.tool_registered) max_tools
  check_each (λ x. check_len (VecSet.len x.1) max_capabilities) s.agent_cap.entries
  check_each (λ x. check_len (VecSet.len x.1) max_conf_levels) s.taint_levels.entries
  check_each (λ x. check_len (VecSet.len x.1) max_integ_levels) s.integ_levels.entries
  check_each (λ x. check_frozen x.1.policy x.1.egress) s.pending.entries
  check_each (λ x. check_frozen x.1.policy x.1.egress) s.challenges.entries

unfoldable pub checked_state_text : KernelState → Result ErrorN TextBudget
checked_state_text s = do check_state_shape s; retained_text s

unfoldable pub check_state : KernelState → Result ErrorN (Unit {0})
check_state s = do _ ← checked_state_text s; ok tt

unfoldable pub check_recovery_link : KernelState → ℕ → Result ErrorN (Unit {0})
check_recovery_link s sequence = do check_state s; check_next sequence
