-- ===== src/Command/Reachable.antt =====
-- The states that the commands reach from the initial state.
use einsof.Prelude.{true, ok, ◌≡◌, refl, subst, sym, arith, eq-cases}
use einsof.Background.{BackgroundTheory}
use einsof.Capability.{
  CapKind, cap_kind_eq, CapKind-discrete, filesystem_read, filesystem_write, filesystem_delete,
  network_egress, network_ingress, execution_shell, execution_code, credentials, system_info,
  system_modify, clipboard, browser_navigate, database_read, database_write, ipc,
}
use einsof.Capability
use einsof.Collections.VecMap
use einsof.Collections.VecMap.Laws.{get-insert, get-new}
use einsof.Collections.VecSet.{VecSet}
use einsof.Collections.VecSet
use einsof.Command.{Command, apply}
use einsof.Command.Preserves.{apply-Inv}
use einsof.Event.{KernelAction}
use einsof.Invariants.{Inv, HoldsCap, IsActive}
use einsof.State.{KernelState, initial}
use einsof.Types.{
  AgentId, ConfLevel, IntegLevel, PendingInvocation, ChallengeScope, CrossingGrant, root,
  agent_id_eq, conf_level_eq, integ_level_eq, invocation_id_eq, crossing_key_eq,
}

-- A sequence of accepted commands from one state to another.
pub data Run (bg : BackgroundTheory) (s : KernelState) : KernelState → Type 0 where
  done : Run bg s s
  step :
      {t u : KernelState} {act : KernelAction} (c : Command)
      → Run bg s t
      → apply c t bg ≡ ok (u, act)
      → Run bg s u

abbrev pub Reachable : BackgroundTheory → KernelState → Type 0
Reachable bg s = Run bg initial s

catalog_member :
    (k : CapKind) → VecSet.contains (VecSet.union_from Capability.all VecSet.new) k ≡ true
unfolding VecSet.contains VecSet.union_from VecSet.insert VecSet.new CapKind-discrete
catalog_member filesystem_read = refl
catalog_member filesystem_write = refl
catalog_member filesystem_delete = refl
catalog_member network_egress = refl
catalog_member network_ingress = refl
catalog_member execution_shell = refl
catalog_member execution_code = refl
catalog_member credentials = refl
catalog_member system_info = refl
catalog_member system_modify = refl
catalog_member clipboard = refl
catalog_member browser_navigate = refl
catalog_member database_read = refl
catalog_member database_write = refl
catalog_member ipc = refl

initial-HoldsCap : (k : CapKind) → HoldsCap initial root k
unfolding initial VecMap.set_contains
initial-HoldsCap k = ground (
  arith,
  get-insert VecMap.new root root (VecSet.union_from Capability.all VecSet.new),
  eq-cases root root,
  catalog_member k,
)

initial-owner : (a : AgentId) (k : CapKind) → HoldsCap initial a k → a ≡ root
unfolding initial VecMap.set_contains
initial-owner a k h = ground (
  arith,
  get-insert VecMap.new root a (VecSet.union_from Capability.all VecSet.new),
  get-new {V = VecSet CapKind} a,
  eq-cases root a,
)

root-IsActive : IsActive initial root
unfolding initial VecSet.contains VecSet.insert VecSet.new
root-IsActive = refl

pub initial-Inv : (bg : BackgroundTheory) → bg.root_agent ≡ root → Inv bg initial
unfolding initial VecMap.set_contains
initial-Inv bg e = record {
  tree = record {
    root_always_active = rw e root-IsActive;
    parent_implies_active = λ c p h. absurd (ground (arith, get-new {V = AgentId} c));
    no_self_parent = λ x h. ground (arith, get-new {V = AgentId} x);
    root_no_parent = λ p h. ground (arith, get-new {V = AgentId} bg.root_agent);
    capability_subsumption = λ c p k h. absurd (ground (arith, get-new {V = AgentId} c));
    root_all_caps = λ k. rw e (initial-HoldsCap k);
  };
  compartments = record {
    cap_active = λ a k h. subst (IsActive initial) (sym (initial-owner a k h)) root-IsActive;
    taint_active = λ a l h. absurd (ground (arith, get-new {V = VecSet ConfLevel} a));
    integ_active = λ a l h. absurd (ground (arith, get-new {V = VecSet IntegLevel} a));
    pending_active = λ inv j h. absurd (ground (arith, get-new {V = PendingInvocation} inv));
    challenge_active = λ inv sc h. absurd (ground (arith, get-new {V = ChallengeScope} inv));
    grant_active = λ key g h. absurd (ground (arith, get-new {V = CrossingGrant} key));
  };
  pendings = λ inv j h. absurd (ground (arith, get-new {V = PendingInvocation} inv));
  confinement = λ inv j h. absurd (ground (arith, get-new {V = PendingInvocation} inv));
  challenges = λ inv sc h. absurd (ground (arith, get-new {V = ChallengeScope} inv));
  grants = λ key g h. absurd (ground (arith, get-new {V = CrossingGrant} key));
}

Run-Inv : {bg : BackgroundTheory} {s t : KernelState} → Inv bg s → Run bg s t → Inv bg t
Run-Inv v done = v
Run-Inv v (step c r h) = apply-Inv c (Run-Inv v r) h

-- Every state that accepted commands reach from the initial state satisfies all invariants of the
-- specification, if the background's root agent is the one that the initial state activates.
pub Reachable-Inv :
    {bg : BackgroundTheory} {s : KernelState} → bg.root_agent ≡ root → Reachable bg s → Inv bg s
Reachable-Inv {bg} e r = Run-Inv (initial-Inv bg e) r
