-- ===== src/Safety/Revocation.antt =====
-- The records of an agent after `revoke` and `cascade_revoke`.
use einsof.Prelude.{ok, ◌≡◌, ◌≢◌, sym, subst, arith, eq-cases}
use einsof.Background.{BackgroundTheory}
use einsof.Capability.{CapKind}
use einsof.Collections.VecSet.Laws.{contains-remove}
use einsof.Event.{KernelAction}
use einsof.Invariants.{Inv, IsActive, HoldsCap, HoldsConf, HoldsInteg, Pends, Open, Granted}
use einsof.Outcomes.Structural.{revoke-ok}
use einsof.Preservation.Revoke.{revoke-Inv}
use einsof.State.{KernelState, drop_pending_of, drop_challenges_of, drop_grants_of}
use einsof.Transitions.Agents.{clear_agent, revoke}
use einsof.Types.{
  AgentId, InvocationId, PendingInvocation, ChallengeScope, CrossingKey, CrossingGrant, ConfLevel,
  IntegLevel, agent_id_eq,
}

pub record Cleared (t : KernelState) (a : AgentId) : Type 0 where
  pub inactive : ¬ IsActive t a
  pub capless : (k : CapKind) → ¬ HoldsCap t a k
  pub unlabelled : (l : ConfLevel) → ¬ HoldsConf t a l
  pub unvouched : (l : IntegLevel) → ¬ HoldsInteg t a l
  pub idle : (inv : InvocationId) (j : PendingInvocation) → Pends t inv j → j.agent ≢ a
  pub unchallenged : (inv : InvocationId) (sc : ChallengeScope) → Open t inv sc → sc.agent ≢ a
  pub grantless : (key : CrossingKey) (g : CrossingGrant) → Granted t key g → key.agent ≢ a

clear_agent-inactive : (s : KernelState) (a : AgentId) → ¬ IsActive (clear_agent s a) a
unfolding clear_agent drop_pending_of drop_challenges_of drop_grants_of
clear_agent-inactive s a h = ground (arith, contains-remove s.agent_active a a, eq-cases a a)

-- From a state with the invariants, an accepted revoke leaves its target inactive and without
-- capabilities, labels, pending records, challenges or crossing grants.
pub revoke-Cleared :
    {bg : BackgroundTheory} {s t : KernelState} {act : KernelAction} (parent target : AgentId)
    → Inv bg s
    → revoke s bg parent target ≡ ok (t, act)
    → Cleared t target
revoke-Cleared {bg} {s} {t} parent target v h =
    let w = (revoke-Inv parent target v h).compartments in
    let (_, _, _, _, e) = revoke-ok s bg parent target h in
    let gone : ¬ IsActive t target =
      subst (λ x. ¬ IsActive x target) (sym e) (clear_agent-inactive s target) in
    record {
      inactive = gone;
      capless = λ k p. gone (w.cap_active target k p);
      unlabelled = λ l p. gone (w.taint_active target l p);
      unvouched = λ l p. gone (w.integ_active target l p);
      idle = λ inv j p same. gone (subst (IsActive t) same (w.pending_active inv j p));
      unchallenged = λ inv sc p same. gone (subst (IsActive t) same (w.challenge_active inv sc p));
      grantless = λ key g p same. gone (subst (IsActive t) same (w.grant_active key g p));
    }
