-- ===== src/Types/Records.antt =====
-- The structs of types.rs.
use einsof.Prelude.{ℕ, Bool, true, false, Option, PartialEq, ◌==◌, ◌&&◌, ◌≡◌, ◌↔◌, arith, eq-cases}
use einsof.Collections.VecSet.{VecSet}
use einsof.Capability.{CapKind}
use einsof.Types.Ids.{
  AgentId, ToolId, ChallengeId, InvocationId, AttestationId, CrossingId, AssignmentDigest,
  PolicyDigest, ContentHash, agent_id_eq, assignment_digest_eq,
}
use einsof.Types.Levels.{
  ConfLevel, IntegLevel, EgressKind, Disposition, Outcome, Fallback, permitted, disposition_eq,
}

pub data Admission : Type 0 where
  plain : Admission
  inspected : AttestationId → Admission
  bypassed : Admission

pub record CrossingGrant : Type 0 where
  pub remaining : ℕ
  pub provisioned : ℕ

pub record CrossingKey : Type 0 where
  pub agent : AgentId
  pub assignment : AssignmentDigest

abbrev pub crossing_key_beq : CrossingKey → CrossingKey → Bool
crossing_key_beq a b = a.agent == b.agent && a.assignment == b.assignment

pub crossing_key_beq_iff : (a b : CrossingKey) → (crossing_key_beq a b ≡ true) ↔ (a ≡ b)
crossing_key_beq_iff a b = (
  λ h. ground (arith, eq-cases a.agent b.agent, eq-cases a.assignment b.assignment),
  λ p. ground (arith, eq-cases a.agent b.agent, eq-cases a.assignment b.assignment),
)

instance abbrev pub crossing_key_eq : PartialEq CrossingKey
crossing_key_eq = record { eq = crossing_key_beq; lawful = crossing_key_beq_iff }

pub record ActionPolicySnapshot : Type 0 where
  pub tool : ToolId
  pub required_caps : VecSet CapKind
  pub conf_clearance : ConfLevel
  pub integ_floor : IntegLevel
  pub integ_inspect : IntegLevel
  pub output_conf : ConfLevel
  pub output_integ : IntegLevel
  pub declared_egress : VecSet EgressKind
  pub policy_digest : PolicyDigest

pub record PendingInvocation : Type 0 where
  pub agent : AgentId
  pub policy : ActionPolicySnapshot
  pub egress : VecSet EgressKind
  pub admission : Admission
  pub disposition : Disposition
  pub authorized : Bool
  pub quarantined : Bool

unfoldable pub contained : PendingInvocation → Bool
contained j = j.disposition == permitted

abbrev is_inspected : Admission → Bool
is_inspected (inspected _) = true
is_inspected _ = false

unfoldable pub vouched : PendingInvocation → Bool
vouched j = is_inspected j.admission

pub record ChallengeScope : Type 0 where
  pub challenge : ChallengeId
  pub agent : AgentId
  pub policy : ActionPolicySnapshot
  pub egress : VecSet EgressKind
  pub args_hash : ContentHash
  pub authorized : Bool

pub record ResolutionAttestation : Type 0 where
  pub id : AttestationId
  pub inv : InvocationId
  pub outcome : Outcome

pub record InspectionAttestation : Type 0 where
  pub id : AttestationId
  pub inv : InvocationId
  pub challenge : ChallengeId
  pub args_hash : ContentHash
  pub policy_digest : PolicyDigest
  pub positive : Bool

pub record ConformanceAttestation : Type 0 where
  pub id : AttestationId
  pub output : ContentHash
  pub src : AgentId
  pub rcv : AgentId
  pub descriptor : ContentHash
  pub assignment : AssignmentDigest
  pub positive : Bool

pub record CrossInput : Type 0 where
  pub src : AgentId
  pub rcv : AgentId
  pub crossing : CrossingId
  pub output_hash : ContentHash
  pub descriptor : ContentHash
  pub fallback : Fallback
  pub t_integ : IntegLevel
  pub t_conf : Option ConfLevel
  pub assignment : AssignmentDigest
  pub evidence : Option ConformanceAttestation
  pub released_conf : ConfLevel
  pub released_integ : IntegLevel
