-- ===== src/Transitions/Agents.antt =====
-- The agent tree, capabilities and crossing grants: `delegate`, `grant_capability`, `grant_crossing`,
-- `revoke` and `cascade_revoke`.
use einsof.Prelude.{
  ℕ, Bool, true, false, not, ◌&&◌, none, some, ◌==◌, ◌!=◌, if◌then◌else◌, Result, ok, ◌>>◌, require,
}
use einsof.Background.{BackgroundTheory}
use einsof.Capability.{CapKind, cap_kind_eq}
use einsof.Collections.VecMap.{VecMap}
use einsof.Collections.VecMap
use einsof.Collections.VecSet
use einsof.Error.{
  KernelError, agent_inactive, agent_already_active, root_not_allowed, not_direct_child,
  parent_still_active, agent_has_children, capability_missing, not_root,
}
use einsof.Event.{KernelAction}
use einsof.State.{KernelState, drop_pending_of, drop_challenges_of, drop_grants_of}
use einsof.Types.{AgentId, AssignmentDigest, agent_id_eq, crossing_key_eq}

unfoldable pub has_children : KernelState → AgentId → Bool
has_children s grantee =
    VecMap.for_entries s.agent_parent (λ _ p is_parent. if p == grantee then true else is_parent)
      false

-- Every edge that does not touch the grantee.
unfoldable pub edges_without : KernelState → AgentId → VecMap AgentId AgentId
edges_without s grantee =
    VecMap.for_entries s.agent_parent
      (λ child p kept.
        if child != grantee && p != grantee then VecMap.insert kept child p else kept)
      VecMap.new

-- The assignments of `delegate` behind its guards.
unfoldable pub delegated : KernelState → AgentId → AgentId → KernelState
delegated s grantor grantee =
    drop_grants_of
      (drop_challenges_of
        (drop_pending_of
          (record s {
            agent_active = VecSet.insert s.agent_active grantee;
            agent_parent = VecMap.insert (edges_without s grantee) grantee grantor;
            agent_cap = VecMap.remove s.agent_cap grantee;
            taint_levels = VecMap.remove s.taint_levels grantee;
            integ_levels = VecMap.remove s.integ_levels grantee;
          })
          grantee)
        grantee)
      grantee

unfoldable pub delegate :
    KernelState
    → BackgroundTheory
    → AgentId
    → AgentId
    → Result KernelError (KernelState × KernelAction)
delegate s bg grantor grantee = do
  require (VecSet.contains s.agent_active grantor) agent_inactive
  require (not (VecSet.contains s.agent_active grantee)) agent_already_active
  require (grantee != bg.root_agent) root_not_allowed
  require (not (has_children s grantee)) agent_has_children
  ok (delegated s grantor grantee, KernelAction.delegate grantor grantee)

-- `match s.agent_parent.get_cloned(&child) { Some(p) => p == parent, None => false }`
unfoldable pub is_child_of : KernelState → AgentId → AgentId → Bool
is_child_of s child parent = elim (VecMap.get_cloned s.agent_parent child) [
  | some p ↦ p == parent
  | none ↦ false
]

unfoldable pub grant_capability :
    KernelState → AgentId → AgentId → CapKind → Result KernelError (KernelState × KernelAction)
grant_capability s parent child cap = do
  require (VecSet.contains s.agent_active parent) agent_inactive
  require (VecSet.contains s.agent_active child) agent_inactive
  require (is_child_of s child parent) not_direct_child
  require (VecMap.set_contains s.agent_cap parent cap) capability_missing
  ok (
    record s { agent_cap = VecMap.insert_into s.agent_cap child cap },
    KernelAction.grant_capability parent child cap,
  )

unfoldable pub grant_crossing :
    KernelState
    → BackgroundTheory
    → AgentId
    → AgentId
    → AssignmentDigest
    → ℕ
    → Result KernelError (KernelState × KernelAction)
grant_crossing s bg grantor agent assignment n = do
  require (grantor == bg.root_agent) not_root
  require (VecSet.contains s.agent_active grantor) agent_inactive
  require (VecSet.contains s.agent_active agent) agent_inactive
  ok (
    record s {
      crossing_grants =
          VecMap.insert s.crossing_grants (record { agent = agent; assignment = assignment })
            (record { remaining = n; provisioned = n });
    },
    KernelAction.grant_crossing grantor agent assignment n,
  )

unfoldable pub clear_agent : KernelState → AgentId → KernelState
clear_agent s agent =
    drop_grants_of
      (drop_challenges_of
        (drop_pending_of
          (record s {
            agent_active = VecSet.remove s.agent_active agent;
            agent_parent = VecMap.remove s.agent_parent agent;
            agent_cap = VecMap.remove s.agent_cap agent;
            taint_levels = VecMap.remove s.taint_levels agent;
            integ_levels = VecMap.remove s.integ_levels agent;
          })
          agent)
        agent)
      agent

unfoldable pub revoke :
    KernelState
    → BackgroundTheory
    → AgentId
    → AgentId
    → Result KernelError (KernelState × KernelAction)
revoke s bg parent target = do
  require (is_child_of s target parent) not_direct_child
  require (VecSet.contains s.agent_active parent) agent_inactive
  require (VecSet.contains s.agent_active target) agent_inactive
  require (target != bg.root_agent) root_not_allowed
  ok (clear_agent s target, KernelAction.revoke parent target)

unfoldable pub cascade_revoke :
    KernelState
    → BackgroundTheory
    → AgentId
    → AgentId
    → Result KernelError (KernelState × KernelAction)
cascade_revoke s bg child parent = do
  require (is_child_of s child parent) not_direct_child
  require (not (VecSet.contains s.agent_active parent)) parent_still_active
  require (VecSet.contains s.agent_active child) agent_inactive
  require (child != bg.root_agent) root_not_allowed
  ok (clear_agent s child, KernelAction.cascade_revoke child parent)
