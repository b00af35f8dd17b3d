-- ===== src/Command.antt =====
-- ex_argus/native/argus_nif/src/command.rs: the twelve commands and their dispatch to the kernel. Each
-- constructor carries the kernel's types, to which the source converts its wire fields.
pub mod Preserves
pub mod Reachable
use einsof.Prelude.{ℕ, Bool, Option, Result}
use einsof.Background.{BackgroundTheory}
use einsof.Capability.{CapKind}
use einsof.Collections.VecSet.{VecSet}
use einsof.Error.{KernelError}
use einsof.Event.{KernelAction}
use einsof.State.{KernelState}
use einsof.Transitions.Agents
use einsof.Transitions.Authorize
use einsof.Transitions.Begin
use einsof.Transitions.Cross
use einsof.Transitions.Ingest
use einsof.Transitions.Registry
use einsof.Transitions.Settle
use einsof.Types.{
  AgentId, ToolId, InvocationId, AssignmentDigest, ConfLevel, IntegLevel, Outcome,
  ResolutionAttestation, InspectionAttestation, CrossInput,
}

pub data Command : Type 0 where
  register_tool : (tool : ToolId) → Command
  unregister_tool : (tool : ToolId) → Command
  delegate : (grantor grantee : AgentId) → Command
  grant_capability : (parent child : AgentId) → (cap : CapKind) → Command
  grant_crossing : (grantor agent : AgentId) → (assignment : AssignmentDigest) → (n : ℕ) → Command
  revoke : (parent target : AgentId) → Command
  cascade_revoke : (child parent : AgentId) → Command
  ingest :
      (agent : AgentId)
      → (src : Option AgentId) → (pconf : ConfLevel) → (pinteg : IntegLevel) → Command
  begin_invocation : Begin.BeginInput → Command
  authorize_inspected : (inv : InvocationId) → (attestation : InspectionAttestation) → Command
  settle_invocation :
      (inv : InvocationId)
      → (outcome : Outcome) → (resolution : Option ResolutionAttestation) → Command
  cross_output : (input : CrossInput) → Command

unfoldable pub apply :
    Command → KernelState → BackgroundTheory → Result KernelError (KernelState × KernelAction)
apply (Command.register_tool tool) s bg = Registry.register_tool s tool
apply (Command.unregister_tool tool) s bg = Registry.unregister_tool s tool
apply (Command.delegate grantor grantee) s bg = Agents.delegate s bg grantor grantee
apply (Command.grant_capability parent child cap) s bg = Agents.grant_capability s parent child cap
apply (Command.grant_crossing grantor agent assignment n) s bg =
    Agents.grant_crossing s bg grantor agent assignment n
apply (Command.revoke parent target) s bg = Agents.revoke s bg parent target
apply (Command.cascade_revoke child parent) s bg = Agents.cascade_revoke s bg child parent
apply (Command.ingest agent src pconf pinteg) s bg = Ingest.ingest s bg agent src pconf pinteg
apply (Command.begin_invocation q) s bg = Begin.begin_invocation s bg q
apply (Command.authorize_inspected inv attestation) s bg =
    Authorize.authorize_inspected s bg inv attestation
apply (Command.settle_invocation inv outcome resolution) s bg =
    Settle.settle_invocation s inv outcome resolution
apply (Command.cross_output input) s bg = Cross.cross_output s bg input
