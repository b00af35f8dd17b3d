-- ===== src/Outcomes/Answers.antt =====
-- The actions that accepted transitions answer with.
use einsof.Prelude.{ℕ, Option, some, ok, ◌≡◌, arith, Option-cases, inl, inr, ◌&&◌, Result-cases}
use einsof.Background.{BackgroundTheory}
use einsof.Capability.{CapKind}
use einsof.Collections.VecMap
use einsof.Event.{KernelAction}
use einsof.State.{KernelState}
use einsof.Transitions.Agents.{delegate, grant_capability, grant_crossing, revoke, cascade_revoke}
use einsof.Transitions.Authorize.{authorize_admits, authorize_inspected}
use einsof.Transitions.Cross.{choose_branch, cross_holds, cross_output}
use einsof.Transitions.Ingest.{dispose}
use einsof.Error.{crossing_hold_failed}
use einsof.Transitions.Registry.{unregister_tool}
use einsof.Transitions.Settle.{settle_invocation, resolution_id}
use einsof.Types.{
  AgentId, ToolId, InvocationId, AssignmentDigest, CrossBranch, Disposition, Outcome, CrossInput,
  PendingInvocation, InspectionAttestation, ResolutionAttestation, invocation_id_eq, agent_id_eq,
}
use einsof.Prelude.{Bool}

module _ (s : KernelState) {t : KernelState} {act : KernelAction} where
  pub unregister_tool-answer :
      (tool : ToolId)
      → unregister_tool s tool ≡ ok (t, act)
      → act ≡ KernelAction.unregister_tool tool
  unfolding unregister_tool
  unregister_tool-answer tool h = ground arith

  pub grant_capability-answer :
      (parent child : AgentId) (cap : CapKind)
      → grant_capability s parent child cap ≡ ok (t, act)
      → act ≡ KernelAction.grant_capability parent child cap
  unfolding grant_capability
  grant_capability-answer parent child cap h = ground arith

  module _ (bg : BackgroundTheory) where
    pub delegate-answer :
        (grantor grantee : AgentId)
        → delegate s bg grantor grantee ≡ ok (t, act)
        → act ≡ KernelAction.delegate grantor grantee
    unfolding delegate
    delegate-answer grantor grantee h = ground arith

    pub grant_crossing-answer :
        (grantor agent : AgentId) (assignment : AssignmentDigest) (n : ℕ)
        → grant_crossing s bg grantor agent assignment n ≡ ok (t, act)
        → act ≡ KernelAction.grant_crossing grantor agent assignment n
    unfolding grant_crossing
    grant_crossing-answer grantor agent assignment n h = ground arith

    pub revoke-answer :
        (parent target : AgentId)
        → revoke s bg parent target ≡ ok (t, act)
        → act ≡ KernelAction.revoke parent target
    unfolding revoke
    revoke-answer parent target h = ground arith

    pub cascade_revoke-answer :
        (child parent : AgentId)
        → cascade_revoke s bg child parent ≡ ok (t, act)
        → act ≡ KernelAction.cascade_revoke child parent
    unfolding cascade_revoke
    cascade_revoke-answer child parent h = ground arith

    pub cross_output-answer :
        (q : CrossInput)
        → cross_output s bg q ≡ ok (t, act)
        → (b : CrossBranch) × (d : Disposition) × (act
            ≡ KernelAction.cross_output q.src q.rcv q.crossing b d)
    unfolding cross_output
    cross_output-answer q h =
        elim (Result-cases
          (dispose (cross_holds s bg q (choose_branch s q)) bg.mode crossing_hold_failed)) [
            | inl (d, e) ↦ (choose_branch s q, d, ground arith)
            | inr (x, e) ↦ absurd (ground arith)
          ]

    pub authorize_inspected-answer :
        (inv : InvocationId) (att : InspectionAttestation)
        → authorize_inspected s bg inv att ≡ ok (t, act)
        → (admit : Bool) × (act ≡ KernelAction.authorize_inspected inv att.id admit)
    unfolding authorize_inspected
    authorize_inspected-answer inv att h =
        elim (Option-cases (VecMap.get_cloned s.challenges inv)) [
          | inl e ↦ absurd (ground arith)
          | inr (sc, e) ↦ (att.positive && authorize_admits s bg inv sc, ground arith)
        ]

  pub settle_invocation-answer :
      (inv : InvocationId) (outcome : Outcome) (att : Option ResolutionAttestation)
      → settle_invocation s inv outcome att ≡ ok (t, act)
      → (j : PendingInvocation) × (VecMap.get_cloned s.pending inv ≡ some j)
        × (act
            ≡ KernelAction.settle_invocation inv j.agent j.disposition outcome j.policy.output_conf
                j.policy.output_integ
                (resolution_id att))
  unfolding settle_invocation
  settle_invocation-answer inv outcome att h =
      elim (Option-cases (VecMap.get_cloned s.pending inv)) [
        | inl e ↦ absurd (ground arith)
        | inr (j, e) ↦ (j, e, ground arith)
      ]
