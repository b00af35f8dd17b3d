-- ===== src/Event.antt =====
-- argus/crates/argus-kernel/src/event.rs: the recorded actions and their sequenced events.
use einsof.Prelude.{ℕ, Bool, Option}
use einsof.Capability.{CapKind}
use einsof.Types.{
  AgentId, ToolId, InvocationId, AttestationId, CrossingId, AssignmentDigest, ConfLevel, IntegLevel,
  Disposition, Outcome, Verdict, CrossBranch,
}

-- Field orders are those of the source's variants.
pub data KernelAction : Type 0 where
  register_tool : (tool : ToolId) → KernelAction
  unregister_tool : (tool : ToolId) → KernelAction
  delegate : (grantor grantee : AgentId) → KernelAction
  grant_capability : (parent child : AgentId) → (cap : CapKind) → KernelAction
  grant_crossing :
      (grantor agent : AgentId) → (assignment : AssignmentDigest) → (n : ℕ) → KernelAction
  revoke : (parent target : AgentId) → KernelAction
  cascade_revoke : (child parent : AgentId) → KernelAction
  ingest :
      (agent : AgentId)
      → (src : Option AgentId) → (pconf : ConfLevel) → (pinteg : IntegLevel)
      → (disposition : Disposition) → KernelAction
  settle_invocation :
      (inv : InvocationId)
      → (agent : AgentId) → (disposition : Disposition) → (outcome : Outcome) → (clvl : ConfLevel)
      → (ilvl : IntegLevel) → (resolution : Option AttestationId) → KernelAction
  begin_invocation :
      (agent : AgentId)
      → (inv : InvocationId) → (tool : ToolId) → (verdict : Verdict) → (authorized : Bool)
      → KernelAction
  authorize_inspected :
      (inv : InvocationId) → (attestation : AttestationId) → (admitted : Bool) → KernelAction
  cross_output :
      (src rcv : AgentId)
      → (crossing : CrossingId) → (branch : CrossBranch) → (disposition : Disposition)
      → KernelAction

pub record KernelEvent : Type 0 where
  pub sequence : ℕ
  pub action : KernelAction
