-- ===== src/Outcomes/Removal.antt =====
-- What the removal of a tool requires.
use einsof.Prelude.{
  true, false, ◌==◌, if◌then◌else◌, ok, ◌≡◌, ◌≢◌, ◌↔◌, refl, arith, beq_of_ne, ne_of_beq,
}
use einsof.Collections.VecMap
use einsof.Collections.VecMap.Latches.{entries_none}
use einsof.Collections.VecSet
use einsof.Event.{KernelAction}
use einsof.Invariants.{Pends, Open}
use einsof.State.{KernelState}
use einsof.Transitions.Registry.{tool_referenced, unregister_tool}
use einsof.Types.{
  ToolId, InvocationId, PendingInvocation, ChallengeScope, tool_id_eq, invocation_id_eq,
}

-- No pending record and no open challenge names the tool.
pub record Unreferenced (s : KernelState) (tool : ToolId) : Type 0 where
  pub unpending :
      (inv : InvocationId) (j : PendingInvocation) → Pends s inv j → j.policy.tool ≢ tool
  pub unchallenged :
      (inv : InvocationId) (sc : ChallengeScope) → Open s inv sc → sc.policy.tool ≢ tool

tool_referenced_iff :
    (s : KernelState) (tool : ToolId) → (tool_referenced s tool ≡ false) ↔ Unreferenced s tool
unfolding tool_referenced
tool_referenced_iff s tool =
    let pending =
      VecMap.for_entries s.pending (λ _ j in_use. if j.policy.tool == tool then true else in_use)
        false in
    let c = entries_none s.challenges (λ sc. sc.policy.tool == tool) pending in
    let p = entries_none s.pending (λ j. j.policy.tool == tool) false in
    (
      λ h. record {
        unpending = λ inv j held. ne_of_beq ((p.0 (c.0 h).0).1 inv j held);
        unchallenged = λ inv sc held. ne_of_beq ((c.0 h).1 inv sc held);
      },
      λ u. c.1 (
        p.1 (refl, λ inv j held. beq_of_ne (u.unpending inv j held)),
        λ inv sc held. beq_of_ne (u.unchallenged inv sc held),
      ),
    )

-- unregister_tool succeeds, removing the tool and nothing else, exactly when the tool is registered
-- and no pending record and no open challenge names it.
pub unregister_tool_iff :
    (s : KernelState) (tool : ToolId)
    → (unregister_tool s tool
        ≡ ok (
          record s { tool_registered = VecSet.remove s.tool_registered tool },
          KernelAction.unregister_tool tool,
        ))
      ↔ ((VecSet.contains s.tool_registered tool ≡ true) × Unreferenced s tool)
unfolding unregister_tool
unregister_tool_iff s tool = (
  λ h. (ground arith, (tool_referenced_iff s tool).0 (ground arith)),
  λ h. let free = (tool_referenced_iff s tool).1 h.1 in ground (arith, free, h.0),
)
