-- ===== src/Invariants.antt =====
-- The invariants of tzimtzum/Tzimtzum/Invariants.lean, stated over the kernel state of state.rs. A
-- record is "contained" if its disposition is permitted; only contained records claim their gates.
use einsof.Prelude.{◌≤◌, true, false, none, some, ◌≡◌, ◌≢◌, ◌⊎◌}
use einsof.Background.{BackgroundTheory, flow_allows, flow_inspects}
use einsof.Capability.{CapKind, cap_kind_eq}
use einsof.Collections.VecMap.{VecMap}
use einsof.Collections.VecMap
use einsof.Collections.VecSet.{VecSet}
use einsof.Collections.VecSet
use einsof.State.{KernelState}
use einsof.Types.{
  AgentId, InvocationId, AttestationId, ConfLevel, IntegLevel, EgressKind, PendingInvocation,
  ChallengeScope, CrossingKey, CrossingGrant, enforce, monitor, blocked, inspected, bypassed,
  contained, vouched, conf_le, integ_le, agent_id_eq, tool_id_eq, invocation_id_eq,
  attestation_id_eq, conf_level_eq, integ_level_eq, egress_kind_eq, crossing_key_eq,
}

abbrev pub IsActive : KernelState → AgentId → Type 0
IsActive s a = VecSet.contains s.agent_active a ≡ true

abbrev pub HoldsConf : KernelState → AgentId → ConfLevel → Type 0
HoldsConf s a l = VecMap.set_contains s.taint_levels a l ≡ true

abbrev pub HoldsInteg : KernelState → AgentId → IntegLevel → Type 0
HoldsInteg s a l = VecMap.set_contains s.integ_levels a l ≡ true

abbrev pub HoldsCap : KernelState → AgentId → CapKind → Type 0
HoldsCap s a c = VecMap.set_contains s.agent_cap a c ≡ true

abbrev pub Parent : KernelState → AgentId → AgentId → Type 0
Parent s child parent = VecMap.get_cloned s.agent_parent child ≡ some parent

abbrev pub Pends : KernelState → InvocationId → PendingInvocation → Type 0
Pends s inv j = VecMap.get_cloned s.pending inv ≡ some j

abbrev pub Open : KernelState → InvocationId → ChallengeScope → Type 0
Open s inv sc = VecMap.get_cloned s.challenges inv ≡ some sc

abbrev pub Granted : KernelState → CrossingKey → CrossingGrant → Type 0
Granted s key g = VecMap.get_cloned s.crossing_grants key ≡ some g

-- root_always_active, parent_implies_active, no_self_parent, root_no_parent,
-- capability_subsumption, root_all_caps.
pub record Tree (bg : BackgroundTheory) (s : KernelState) : Type 0 where
  pub root_always_active : IsActive s bg.root_agent
  pub parent_implies_active : (c p : AgentId) → Parent s c p → IsActive s c
  pub no_self_parent : (a : AgentId) → ¬ Parent s a a
  pub root_no_parent : (p : AgentId) → ¬ Parent s bg.root_agent p
  pub capability_subsumption :
      (c p : AgentId) (k : CapKind) → Parent s c p → IsActive s p → HoldsCap s c k → HoldsCap s p k
  pub root_all_caps : (k : CapKind) → HoldsCap s bg.root_agent k

-- revocation_clean, pending_active and grant_active: what an agent owns, an active agent owns.
pub record Compartments (s : KernelState) : Type 0 where
  pub cap_active : (a : AgentId) (k : CapKind) → HoldsCap s a k → IsActive s a
  pub taint_active : (a : AgentId) (l : ConfLevel) → HoldsConf s a l → IsActive s a
  pub integ_active : (a : AgentId) (l : IntegLevel) → HoldsInteg s a l → IsActive s a
  pub pending_active :
      (inv : InvocationId) (j : PendingInvocation) → Pends s inv j → IsActive s j.agent
  pub challenge_active :
      (inv : InvocationId) (sc : ChallengeScope) → Open s inv sc → IsActive s sc.agent
  pub grant_active :
      (key : CrossingKey) (g : CrossingGrant) → Granted s key g → IsActive s key.agent

-- The attested egress lies within the declared egress, and is not empty unless that is.
pub record Attested (egress declared : VecSet EgressKind) : Type 0 where
  pub narrows :
      (e : EgressKind) → VecSet.contains egress e ≡ true → VecSet.contains declared e ≡ true
  pub covers :
      (e : EgressKind)
      → VecSet.contains declared e ≡ true
      → (x : EgressKind) × (VecSet.contains egress x ≡ true)

-- pending_registered, root_no_pending, pending_ids_consumed, pending_egress_attested,
-- pending_snapshot_coherent, inspected_evidence_consumed, bypass_mode_sound; and no pending record is
-- blocked.
pub record PendingScoped (bg : BackgroundTheory) (s : KernelState) (inv : InvocationId)
    (j : PendingInvocation) : Type 0 where
  pub registered : VecSet.contains s.tool_registered j.policy.tool ≡ true
  pub not_root : j.agent ≢ bg.root_agent
  pub id_consumed : VecSet.contains s.consumed_ids inv ≡ true
  pub attested : Attested j.egress j.policy.declared_egress
  pub coherent : integ_le j.policy.integ_inspect j.policy.integ_floor ≡ true
  pub evidence_consumed :
      (att : AttestationId)
      → j.admission ≡ inspected att
      → VecSet.contains s.consumed_attestations att ≡ true
  pub bypassed_disposition : contained j ≡ false → bg.mode ≡ monitor
  pub bypassed_admission : j.admission ≡ bypassed → bg.mode ≡ monitor
  pub not_blocked : j.disposition ≢ blocked

-- A level may reach a pending record: each attested egress allows it, or inspects it with the record
-- vouched, and it clears the record's ceiling.
pub record Accepts (bg : BackgroundTheory) (j : PendingInvocation) (l : ConfLevel) : Type 0 where
  pub flows :
      (e : EgressKind)
      → VecSet.contains j.egress e ≡ true
      → (flow_allows bg l e ≡ true) ⊎ ((flow_inspects bg l e ≡ true) × (vouched j ≡ true))
  pub clears : conf_le l j.policy.conf_clearance ≡ true

abbrev pub AcceptsInteg : PendingInvocation → IntegLevel → Type 0
AcceptsInteg j l =
    (integ_le j.policy.integ_floor l ≡ true)
    ⊎ ((integ_le j.policy.integ_inspect l ≡ true) × (vouched j ≡ true))

-- default_deny, flow_confinement, integrity_confinement, clearance_confinement, pending_flow_compat,
-- pending_integ_compat, of one contained record.
pub record Confined (bg : BackgroundTheory) (s : KernelState) (j : PendingInvocation) : Type 0 where
  pub authorized : j.authorized ≡ true
  pub caps : (k : CapKind) → VecSet.contains j.policy.required_caps k ≡ true → HoldsCap s j.agent k
  pub held_conf : (l : ConfLevel) → HoldsConf s j.agent l → Accepts bg j l
  pub held_integ : (l : IntegLevel) → HoldsInteg s j.agent l → AcceptsInteg j l
  pub pairwise :
      (i : InvocationId) (k : PendingInvocation)
      → Pends s i k
      → k.agent ≡ j.agent
      → contained k ≡ true
      → Accepts bg j k.policy.output_conf × AcceptsInteg j k.policy.output_integ

-- challenge_scoped and challenges_enforce_only.
pub record ChallengeScoped (bg : BackgroundTheory) (s : KernelState) (inv : InvocationId)
    (sc : ChallengeScope) : Type 0 where
  pub no_pending : VecMap.get_cloned s.pending inv ≡ none
  pub id_consumed : VecSet.contains s.consumed_ids inv ≡ true
  pub not_root : sc.agent ≢ bg.root_agent
  pub registered : VecSet.contains s.tool_registered sc.policy.tool ≡ true
  pub coherent : integ_le sc.policy.integ_inspect sc.policy.integ_floor ≡ true
  pub attested : Attested sc.egress sc.policy.declared_egress
  pub enforced : bg.mode ≡ enforce

abbrev pub PendingsScoped : BackgroundTheory → KernelState → Type 0
PendingsScoped bg s =
    (inv : InvocationId) (j : PendingInvocation) → Pends s inv j → PendingScoped bg s inv j

abbrev pub Confinement : BackgroundTheory → KernelState → Type 0
Confinement bg s =
    (inv : InvocationId) (j : PendingInvocation)
    → Pends s inv j
    → contained j ≡ true
    → Confined bg s j

abbrev pub ChallengesScoped : BackgroundTheory → KernelState → Type 0
ChallengesScoped bg s =
    (inv : InvocationId) (sc : ChallengeScope) → Open s inv sc → ChallengeScoped bg s inv sc

-- grant_bounded.
abbrev pub GrantsBounded : KernelState → Type 0
GrantsBounded s =
    (key : CrossingKey) (g : CrossingGrant) → Granted s key g → g.remaining ≤ g.provisioned

pub record Inv (bg : BackgroundTheory) (s : KernelState) : Type 0 where
  pub tree : Tree bg s
  pub compartments : Compartments s
  pub pendings : PendingsScoped bg s
  pub confinement : Confinement bg s
  pub challenges : ChallengesScoped bg s
  pub grants : GrantsBounded s
