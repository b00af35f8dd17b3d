-- ===== src/Transitions/Registry.antt =====
-- `register_tool` and `unregister_tool`.
use einsof.Prelude.{Bool, true, false, not, ◌==◌, if◌then◌else◌, Result, ok, ◌>>◌, require}
use einsof.Collections.VecMap
use einsof.Collections.VecSet
use einsof.Error.{KernelError, tool_already_registered, tool_not_registered, tool_in_use}
use einsof.Event.{KernelAction}
use einsof.State.{KernelState}
use einsof.Types.{ToolId, tool_id_eq, invocation_id_eq}

unfoldable pub register_tool :
    KernelState → ToolId → Result KernelError (KernelState × KernelAction)
register_tool s tool = do
  require (not (VecSet.contains s.tool_registered tool)) tool_already_registered
  ok (
    record s { tool_registered = VecSet.insert s.tool_registered tool },
    KernelAction.register_tool tool,
  )

-- The scans over the pending records and over the open challenges, with one latch.
unfoldable pub tool_referenced : KernelState → ToolId → Bool
tool_referenced s tool =
    VecMap.for_entries s.challenges (λ _ sc in_use. if sc.policy.tool == tool then true else in_use)
      (VecMap.for_entries s.pending (λ _ j in_use. if j.policy.tool == tool then true else in_use)
        false)

unfoldable pub unregister_tool :
    KernelState → ToolId → Result KernelError (KernelState × KernelAction)
unregister_tool s tool = do
  require (VecSet.contains s.tool_registered tool) tool_not_registered
  require (not (tool_referenced s tool)) tool_in_use
  ok (
    record s { tool_registered = VecSet.remove s.tool_registered tool },
    KernelAction.unregister_tool tool,
  )
