-- ===== src/Safety/Labels.antt =====
-- The labels of an agent across the commands.
use einsof.Prelude.{Bool, Option, ok, ◌≡◌, ◌≢◌, refl, sym, subst, arith, eq-cases}
use einsof.Background.{BackgroundTheory}
use einsof.Collections.VecMap
use einsof.Collections.VecMap.Sets.{
  set_contains-insert_into, set_contains-remove, set_contains-gather,
}
use einsof.Collections.VecSet.Laws.{contains-remove}
use einsof.Command.{Command, apply}
use einsof.Event.{KernelAction}
use einsof.Invariants.{IsActive, HoldsConf, HoldsInteg}
use einsof.Outcomes.Admission.{begin_invocation-ok, authorize_inspected-ok}
use einsof.Outcomes.Labels.{ingest-ok, settle_invocation-ok, cross_output-ok}
use einsof.Outcomes.Structural.{
  register_tool-ok, unregister_tool-ok, delegate-ok, grant_capability-ok, grant_crossing-ok,
  revoke-ok, cascade_revoke-ok,
}
use einsof.State.{
  KernelState, demote_all_of, drop_pending_of, drop_challenges_of, drop_grants_of,
  decrement_grant_at,
}
use einsof.Transitions.Agents.{delegated, clear_agent}
use einsof.Transitions.Authorize.{resolved}
use einsof.Transitions.Begin.{BeginInput, begin_effect, begin_pend, begin_challenge, begin_consume}
use einsof.Transitions.Cross.{crossed, cross_consume, consume_evidence, release}
use einsof.Transitions.Ingest.{ingested}
use einsof.Transitions.Settle.{settled, settle_at, settle_demote, settle_absorb, settle_consume}
use einsof.Types.{
  AgentId, InvocationId, AttestationId, ConfLevel, IntegLevel, Disposition, Outcome,
  PendingInvocation, ResolutionAttestation, ChallengeScope, CrossInput, CrossBranch, endorsed,
  unendorsed, Verdict, Mode, agent_id_eq, conf_level_eq, integ_level_eq,
}

-- The agent keeps its labels.
pub record Keeps (s t : KernelState) (a : AgentId) : Type 0 where
  pub conf : (l : ConfLevel) → HoldsConf s a l → HoldsConf t a l
  pub integ : (l : IntegLevel) → HoldsInteg s a l → HoldsInteg t a l

Keeps-same :
    {s t : KernelState} {a : AgentId}
    → t.taint_levels ≡ s.taint_levels
    → t.integ_levels ≡ s.integ_levels
    → Keeps s t a
Keeps-same c i = record { conf = λ l h. rw c h; integ = λ l h. rw i h }

module _ (s : KernelState) (a : AgentId) where
  delegated-Keeps :
      (grantor grantee : AgentId) → grantee ≢ a → Keeps s (delegated s grantor grantee) a
  unfolding delegated drop_grants_of drop_challenges_of drop_pending_of
  delegated-Keeps grantor grantee other = record {
    conf =
        λ l h. ground (arith, set_contains-remove s.taint_levels grantee a l, eq-cases grantee a);
    integ =
        λ l h. ground (arith, set_contains-remove s.integ_levels grantee a l, eq-cases grantee a);
  }

  clear_agent-Keeps : (target : AgentId) → target ≢ a → Keeps s (clear_agent s target) a
  unfolding clear_agent drop_grants_of drop_challenges_of drop_pending_of
  clear_agent-Keeps target other = record {
    conf = λ l h. ground (arith, set_contains-remove s.taint_levels target a l, eq-cases target a);
    integ = λ l h. ground (arith, set_contains-remove s.integ_levels target a l, eq-cases target a);
  }

  clear_agent-other : (target : AgentId) → IsActive (clear_agent s target) a → target ≢ a
  unfolding clear_agent drop_grants_of drop_challenges_of drop_pending_of
  clear_agent-other target h e =
      ground (arith, contains-remove s.agent_active target a, eq-cases target a)

  ingested-Keeps :
      (b : AgentId) (l : ConfLevel) (li : IntegLevel) (d : Disposition)
      → Keeps s (ingested s b l li d) a
  unfolding ingested demote_all_of
  ingested-Keeps b l li d = record {
    conf = λ x h. ground (arith, set_contains-insert_into s.taint_levels b a l x);
    integ = λ x h. ground (arith, set_contains-insert_into s.integ_levels b a li x);
  }

  begun-Keeps :
      {u : KernelState} (bg : BackgroundTheory) (q : BeginInput) (verdict : Verdict) (mode : Mode)
      → begin_effect s bg q verdict mode ≡ ok u
      → Keeps s (begin_consume u q.inv) a
  unfolding begin_effect begin_pend begin_challenge begin_consume
  begun-Keeps bg q verdict mode h = Keeps-same (ground arith) (ground arith)

  resolved-Keeps :
      (inv : InvocationId) (sc : ChallengeScope) (x : AttestationId) (admit : Bool)
      → Keeps s (resolved s inv sc x admit) a
  unfolding resolved
  resolved-Keeps inv sc x admit = Keeps-same (ground arith) (ground arith)

  settled-Keeps :
      (inv : InvocationId) (j : PendingInvocation) (o : Outcome)
      (att : Option ResolutionAttestation)
      → Keeps s (settled s inv j o att) a
  unfolding settled settle_consume settle_absorb settle_demote settle_at demote_all_of
  settled-Keeps inv j o att = record {
    conf = λ l h.
        ground (arith, set_contains-insert_into s.taint_levels j.agent a j.policy.output_conf l);
    integ = λ l h.
        ground (arith, set_contains-insert_into s.integ_levels j.agent a j.policy.output_integ l);
  }

  crossed-Keeps : (q : CrossInput) (b : CrossBranch) (d : Disposition) → Keeps s (crossed s q b d) a
  unfolding crossed cross_consume consume_evidence release decrement_grant_at demote_all_of
  crossed-Keeps q endorsed d = record {
    conf = λ l h. ground (arith, set_contains-insert_into s.taint_levels q.rcv a q.released_conf l);
    integ =
        λ l h. ground (arith, set_contains-insert_into s.integ_levels q.rcv a q.released_integ l);
  }
  crossed-Keeps q unendorsed d = record {
    conf = λ l h. ground (
      arith,
      set_contains-gather q.rcv a l (VecMap.get_set_or_empty s.taint_levels q.src) s.taint_levels,
    );
    integ = λ l h. ground (
      arith,
      set_contains-gather q.rcv a l (VecMap.get_set_or_empty s.integ_levels q.src) s.integ_levels,
    );
  }
  crossed-Keeps q CrossBranch.fail d = Keeps-same (ground arith) (ground arith)

module _ (bg : BackgroundTheory) (s : KernelState) {t : KernelState} {act : KernelAction}
    (a : AgentId) where
  -- An agent that is active before and after an accepted command keeps all its confidentiality and
  -- integrity labels.
  pub apply-Keeps :
      (c : Command) → apply c s bg ≡ ok (t, act) → IsActive s a → IsActive t a → Keeps s t a
  unfolding apply
  apply-Keeps (Command.register_tool tool) h before after =
      let (_, e, _) = register_tool-ok s tool h in
      subst (λ x. Keeps s x a) (sym e) (Keeps-same refl refl)
  apply-Keeps (Command.unregister_tool tool) h before after =
      let (_, _, e) = unregister_tool-ok s tool h in
      subst (λ x. Keeps s x a) (sym e) (Keeps-same refl refl)
  apply-Keeps (Command.delegate grantor grantee) h before after =
      let (_, free, _, _, e) = delegate-ok s bg grantor grantee h in
      subst (λ x. Keeps s x a) (sym e)
        (delegated-Keeps s a grantor grantee (λ same. ground (arith, free, before)))
  apply-Keeps (Command.grant_capability parent child kind) h before after =
      let (_, _, _, _, e) = grant_capability-ok s parent child kind h in
      subst (λ x. Keeps s x a) (sym e) (Keeps-same refl refl)
  apply-Keeps (Command.grant_crossing grantor agent assignment n) h before after =
      let (_, _, e) = grant_crossing-ok s bg grantor agent assignment n h in
      subst (λ x. Keeps s x a) (sym e) (Keeps-same refl refl)
  apply-Keeps (Command.revoke parent target) h before after =
      let (_, _, _, _, e) = revoke-ok s bg parent target h in
      subst (λ x. Keeps s x a) (sym e)
        (clear_agent-Keeps s a target
          (clear_agent-other s a target (subst (λ x. IsActive x a) e after)))
  apply-Keeps (Command.cascade_revoke child parent) h before after =
      let (_, _, _, _, e) = cascade_revoke-ok s bg child parent h in
      subst (λ x. Keeps s x a) (sym e)
        (clear_agent-Keeps s a child
          (clear_agent-other s a child (subst (λ x. IsActive x a) e after)))
  apply-Keeps (Command.ingest agent src pconf pinteg) h before after =
      let (d, _, _, _, e, _) = ingest-ok s bg agent src pconf pinteg h in
      subst (λ x. Keeps s x a) (sym e) (ingested-Keeps s a agent pconf pinteg d)
  apply-Keeps (Command.begin_invocation q) h before after =
      let (u, _, effect, e, _) = begin_invocation-ok s bg q h in
      subst (λ x. Keeps s x a) (sym e) (begun-Keeps s a bg q _ bg.mode effect)
  apply-Keeps (Command.authorize_inspected inv att) h before after =
      let (sc, _, _, _, e, _) = authorize_inspected-ok s bg inv att h in
      subst (λ x. Keeps s x a) (sym e) (resolved-Keeps s a inv sc att.id _)
  apply-Keeps (Command.settle_invocation inv outcome att) h before after =
      let (j, _, _, _, e) = settle_invocation-ok s inv outcome att h in
      subst (λ x. Keeps s x a) (sym e) (settled-Keeps s a inv j outcome att)
  apply-Keeps (Command.cross_output q) h before after =
      let (d, _, _, _, _, _, _, e) = cross_output-ok s bg q h in
      subst (λ x. Keeps s x a) (sym e) (crossed-Keeps s a q _ d)
