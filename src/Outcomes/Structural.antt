-- ===== src/Outcomes/Structural.antt =====
-- The registry and the agent tree.
use einsof.Prelude.{
  ℕ, true, false, ◌==◌, ok, ◌≡◌, ◌≢◌, arith, eq-cases, Option-cases, inl, inr, if◌then◌else◌,
}
use einsof.Background.{BackgroundTheory}
use einsof.Capability.{CapKind, cap_kind_eq}
use einsof.Collections.VecMap
use einsof.Collections.VecMap.Latches.{entries_none}
use einsof.Collections.VecSet
use einsof.Event.{KernelAction}
use einsof.Invariants.{IsActive, HoldsCap, Parent, Pends, Open}
use einsof.State.{KernelState}
use einsof.Transitions.Registry.{register_tool, tool_referenced, unregister_tool}
use einsof.Transitions.Agents.{
  has_children, delegated, delegate, is_child_of, grant_capability, grant_crossing, clear_agent,
  revoke, cascade_revoke,
}
use einsof.Types.{
  AgentId, ToolId, InvocationId, AssignmentDigest, PendingInvocation, ChallengeScope, agent_id_eq,
  tool_id_eq, invocation_id_eq, crossing_key_eq,
}

is_child_of-Parent :
    (s : KernelState) (child parent : AgentId)
    → is_child_of s child parent ≡ true
    → Parent s child parent
unfolding is_child_of
is_child_of-Parent s child parent h = elim (Option-cases (VecMap.get_cloned s.agent_parent child)) [
  | inl miss ↦ ground arith
  | inr (p, hit) ↦ ground (arith, eq-cases p parent)
]

module _ (s : KernelState) {t : KernelState} {act : KernelAction} where
  pub register_tool-ok :
      (tool : ToolId)
      → register_tool s tool ≡ ok (t, act)
      → (VecSet.contains s.tool_registered tool ≡ false)
        × (t ≡ record s { tool_registered = VecSet.insert s.tool_registered tool })
        × (act ≡ KernelAction.register_tool tool)
  unfolding register_tool
  register_tool-ok tool h = ground arith

  pub unregister_tool-ok :
      (tool : ToolId)
      → unregister_tool s tool ≡ ok (t, act)
      → (tool_referenced s tool ≡ false)
        × (VecSet.contains s.tool_registered tool ≡ true)
        × (t ≡ record s { tool_registered = VecSet.remove s.tool_registered tool })
  unfolding unregister_tool
  unregister_tool-ok tool h = ground arith

  module _ (bg : BackgroundTheory) where
    pub delegate-ok :
        (grantor grantee : AgentId)
        → delegate s bg grantor grantee ≡ ok (t, act)
        → IsActive s grantor
          × (VecSet.contains s.agent_active grantee ≡ false)
          × (grantee ≢ bg.root_agent)
          × (has_children s grantee ≡ false)
          × (t ≡ delegated s grantor grantee)
    unfolding delegate
    delegate-ok grantor grantee h = ground (arith, eq-cases grantee bg.root_agent)

    pub grant_crossing-ok :
        (grantor agent : AgentId) (assignment : AssignmentDigest) (n : ℕ)
        → grant_crossing s bg grantor agent assignment n ≡ ok (t, act)
        → (grantor ≡ bg.root_agent)
          × IsActive s agent
          × (t ≡ record s {
            crossing_grants =
                VecMap.insert s.crossing_grants
                  (record { agent = agent; assignment = assignment })
                  (record { remaining = n; provisioned = n });
          })
    unfolding grant_crossing
    grant_crossing-ok grantor agent assignment n h = ground (arith, eq-cases grantor bg.root_agent)

    pub revoke-ok :
        (parent target : AgentId)
        → revoke s bg parent target ≡ ok (t, act)
        → Parent s target parent
          × IsActive s parent
          × IsActive s target
          × (target ≢ bg.root_agent)
          × (t ≡ clear_agent s target)
    unfolding revoke
    revoke-ok parent target h =
        ground (arith, eq-cases target bg.root_agent, is_child_of-Parent s target parent)

    pub cascade_revoke-ok :
        (child parent : AgentId)
        → cascade_revoke s bg child parent ≡ ok (t, act)
        → Parent s child parent
          × (VecSet.contains s.agent_active parent ≡ false)
          × IsActive s child
          × (child ≢ bg.root_agent)
          × (t ≡ clear_agent s child)
    unfolding cascade_revoke
    cascade_revoke-ok child parent h =
        ground (arith, eq-cases child bg.root_agent, is_child_of-Parent s child parent)

  pub grant_capability-ok :
      (parent child : AgentId) (cap : CapKind)
      → grant_capability s parent child cap ≡ ok (t, act)
      → IsActive s parent
        × IsActive s child
        × Parent s child parent
        × HoldsCap s parent cap
        × (t ≡ record s { agent_cap = VecMap.insert_into s.agent_cap child cap })
  unfolding grant_capability
  grant_capability-ok parent child cap h = ground (arith, is_child_of-Parent s child parent)

-- `unregister_tool` passes its scans exactly when no pending record and no challenge names the tool.
pub unreferenced :
    (s : KernelState) (tool : ToolId)
    → tool_referenced s tool ≡ false
    → ((inv : InvocationId) (j : PendingInvocation)
        → Pends s inv j
        → (j.policy.tool == tool) ≡ false)
      × ((inv : InvocationId) (sc : ChallengeScope)
          → Open s inv sc
          → (sc.policy.tool == tool) ≡ false)
unfolding tool_referenced
unreferenced s tool h =
    let pending =
      VecMap.for_entries s.pending (λ _ j in_use. if j.policy.tool == tool then true else in_use)
        false in
    let c = (entries_none s.challenges (λ sc. sc.policy.tool == tool) pending).0 h in
    let p = (entries_none s.pending (λ j. j.policy.tool == tool) false).0 c.0 in (p.1, c.1)
