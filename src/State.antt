-- ===== src/State.antt =====
-- argus/crates/argus-kernel/src/state.rs: the mutable kernel state and its derived views.
pub mod Views
use einsof.Prelude.{
  ℕ, ◌+◌, ◌%◌, Bool, true, false, not, ◌&&◌, List, [], ◌∷◌, Option, none, some, ◌==◌, ◌!=◌,
  if◌then◌else◌,
}
use einsof.Collections.VecMap.{VecMap}
use einsof.Collections.VecMap
use einsof.Collections.VecSet.{VecSet}
use einsof.Collections.VecSet
use einsof.Capability.{CapKind, cap_kind_eq}
use einsof.Capability
use einsof.Types.{
  AgentId, ToolId, InvocationId, AttestationId, CrossingId, AssignmentDigest, ConfLevel, IntegLevel,
  PendingInvocation, ChallengeScope, CrossingKey, CrossingGrant, monitor_bypassed, contained, root,
  agent_id_eq, invocation_id_eq, conf_level_eq, integ_level_eq, crossing_key_eq,
}

abbrev pub state_version : ℕ
state_version = 5

pub record KernelState : Type 0 where
  pub agent_active : VecSet AgentId
  pub agent_parent : VecMap AgentId AgentId
  pub agent_cap : VecMap AgentId (VecSet CapKind)
  pub taint_levels : VecMap AgentId (VecSet ConfLevel)
  pub integ_levels : VecMap AgentId (VecSet IntegLevel)
  pub pending : VecMap InvocationId PendingInvocation
  pub challenges : VecMap InvocationId ChallengeScope
  pub consumed_ids : VecSet InvocationId
  pub consumed_attestations : VecSet AttestationId
  pub consumed_crossings : VecSet CrossingId
  pub crossing_grants : VecMap CrossingKey CrossingGrant
  pub tool_registered : VecSet ToolId

unfoldable pub initial : KernelState
initial = record {
  agent_active = VecSet.insert VecSet.new root;
  agent_parent = VecMap.new;
  agent_cap = VecMap.insert VecMap.new root (VecSet.union_from Capability.all VecSet.new);
  taint_levels = VecMap.new;
  integ_levels = VecMap.new;
  pending = VecMap.new;
  challenges = VecMap.new;
  consumed_ids = VecSet.new;
  consumed_attestations = VecSet.new;
  consumed_crossings = VecSet.new;
  crossing_grants = VecMap.new;
  tool_registered = VecSet.new;
}

unfoldable pub speculative_taint : KernelState → AgentId → VecSet ConfLevel
speculative_taint s agent =
    VecMap.for_entries s.pending
      (λ _ j taint. if j.agent == agent then VecSet.insert taint j.policy.output_conf else taint)
      (VecMap.get_set_or_empty s.taint_levels agent)

unfoldable pub speculative_integ : KernelState → AgentId → VecSet IntegLevel
speculative_integ s agent =
    VecMap.for_entries s.pending
      (λ _ j integ. if j.agent == agent then VecSet.insert integ j.policy.output_integ else integ)
      (VecMap.get_set_or_empty s.integ_levels agent)

unfoldable pub speculative_taint_contained : KernelState → AgentId → VecSet ConfLevel
speculative_taint_contained s agent =
    VecMap.for_entries s.pending
      (λ _ j taint.
        if j.agent == agent && contained j then VecSet.insert taint j.policy.output_conf else taint)
      (VecMap.get_set_or_empty s.taint_levels agent)

unfoldable pub drop_pending_of : KernelState → AgentId → KernelState
drop_pending_of s agent = record s {
  pending =
      VecMap.for_entries s.pending
        (λ inv j kept. if j.agent != agent then VecMap.insert kept inv j else kept) VecMap.new;
}

unfoldable pub drop_challenges_of : KernelState → AgentId → KernelState
drop_challenges_of s agent = record s {
  challenges =
      VecMap.for_entries s.challenges
        (λ inv sc kept. if sc.agent != agent then VecMap.insert kept inv sc else kept) VecMap.new;
}

-- The record that the loop of `demote_all_of` stores.
unfoldable pub demoted : AgentId → PendingInvocation → PendingInvocation
demoted agent j = if j.agent == agent then record j { disposition = monitor_bypassed } else j

unfoldable pub demote_all_of : KernelState → AgentId → KernelState
demote_all_of s agent = record s {
  pending =
      VecMap.for_entries s.pending (λ inv j rebuilt. VecMap.insert rebuilt inv (demoted agent j))
        VecMap.new;
}

-- `remaining` is a `u32`, so the decrement wraps at zero.
unfoldable pub decrement_grant_at : KernelState → AgentId → AssignmentDigest → KernelState
decrement_grant_at s agent assignment =
    let key : CrossingKey = record { agent = agent; assignment = assignment } in
    elim (VecMap.get_cloned s.crossing_grants key) [
      | some g ↦ record s {
        crossing_grants = VecMap.insert s.crossing_grants key (record {
          remaining = (g.remaining + 4294967295) % 4294967296;
          provisioned = g.provisioned;
        });
      }
      | none ↦ s
    ]

unfoldable pub drop_grants_of : KernelState → AgentId → KernelState
drop_grants_of s agent = record s {
  crossing_grants =
      VecMap.for_entries s.crossing_grants
        (λ key g kept. if key.agent != agent then VecMap.insert kept key g else kept) VecMap.new;
}
