-- ===== src/Safety/Containment.antt =====
-- Containment of the pending records of a reachable state.
use einsof.Prelude.{◌≡◌, ◌≢◌, inl, inr, arith, Bool-cases}
use einsof.Background.{BackgroundTheory}
use einsof.Command.Reachable.{Reachable, Reachable-Inv}
use einsof.Invariants.{Pends, PendingScoped, Confined, IsActive}
use einsof.State.{KernelState}
use einsof.Types.{
  InvocationId, PendingInvocation, Mode, Mode-discrete, enforce, monitor, bypassed, contained, root,
}

-- A record that begins to pend under enforcement stays confined as long as it pends.
pub record Enforced (bg : BackgroundTheory) (s : KernelState) (inv : InvocationId)
    (j : PendingInvocation) : Type 0 where
  pub owner : IsActive s j.agent
  pub scoped : PendingScoped bg s inv j
  pub confined : Confined bg s j
  pub gated : j.admission ≢ bypassed

enforce-monitor : {m : Mode} → m ≡ enforce → m ≢ monitor
unfolding Mode-discrete
enforce-monitor e f = ground arith

-- Under enforcement, and if the background's root agent is the one that the initial state activates,
-- every pending record of a reachable state belongs to an active agent, was not bypassed, and is
-- confined: authorized, its capabilities held, and every label that its owner holds or will absorb
-- accepted by its flow, clearance and integrity gates.
pub enforce-Enforced :
    {bg : BackgroundTheory} {s : KernelState} (inv : InvocationId) (j : PendingInvocation)
    → bg.root_agent ≡ root
    → bg.mode ≡ enforce
    → Reachable bg s
    → Pends s inv j
    → Enforced bg s inv j
enforce-Enforced inv j e mode r p =
    let v = Reachable-Inv e r in
    let w = v.pendings inv j p in
    record {
      owner = v.compartments.pending_active inv j p;
      scoped = w;
      confined = elim (Bool-cases (contained j)) [
        | inl c ↦ v.confinement inv j p c
        | inr f ↦ absurd (enforce-monitor mode (w.bypassed_disposition f))
      ];
      gated = λ b. enforce-monitor mode (w.bypassed_admission b);
    }
