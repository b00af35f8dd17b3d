-- ===== src/History/Grows.antt =====
-- The consumed invocations, attestations and crossings across the transitions.
use einsof.Prelude.{Bool, true, Option, none, some, ok, ◌≡◌, refl, sym, subst, arith}
use einsof.Background.{BackgroundTheory}
use einsof.Collections.VecSet
use einsof.Collections.VecSet.Laws.{contains-insert}
use einsof.Command.{Command, apply}
use einsof.Event.{KernelAction}
use einsof.Outcomes.Admission.{begin_invocation-ok, authorize_inspected-ok}
use einsof.Outcomes.Labels.{ingest-ok, settle_invocation-ok, cross_output-ok}
use einsof.Outcomes.Structural.{
  register_tool-ok, unregister_tool-ok, delegate-ok, grant_capability-ok, grant_crossing-ok,
  revoke-ok, cascade_revoke-ok,
}
use einsof.State.{
  KernelState, demote_all_of, drop_pending_of, drop_challenges_of, drop_grants_of,
  decrement_grant_at,
}
use einsof.Transitions.Agents.{delegated, clear_agent}
use einsof.Transitions.Authorize.{resolved}
use einsof.Transitions.Begin.{BeginInput, begin_effect, begin_pend, begin_challenge, begin_consume}
use einsof.Transitions.Cross.{crossed, cross_consume, consume_evidence, release}
use einsof.Transitions.Ingest.{ingested}
use einsof.Transitions.Settle.{settled, settle_at, settle_demote, settle_absorb, settle_consume}
use einsof.Types.{
  AgentId, InvocationId, AttestationId, CrossingId, ConfLevel, IntegLevel, Disposition, Outcome,
  PendingInvocation, ResolutionAttestation, ConformanceAttestation, ChallengeScope, CrossInput,
  CrossBranch, endorsed, unendorsed, Verdict, Mode, invocation_id_eq, attestation_id_eq,
  crossing_id_eq,
}

pub record Grows (s t : KernelState) : Type 0 where
  pub ids :
      (i : InvocationId)
      → VecSet.contains s.consumed_ids i ≡ true
      → VecSet.contains t.consumed_ids i ≡ true
  pub attestations :
      (x : AttestationId)
      → VecSet.contains s.consumed_attestations x ≡ true
      → VecSet.contains t.consumed_attestations x ≡ true
  pub crossings :
      (x : CrossingId)
      → VecSet.contains s.consumed_crossings x ≡ true
      → VecSet.contains t.consumed_crossings x ≡ true

-- A transition that touches no history.
Grows-same :
    {s t : KernelState}
    → t.consumed_ids ≡ s.consumed_ids
    → t.consumed_attestations ≡ s.consumed_attestations
    → t.consumed_crossings ≡ s.consumed_crossings
    → Grows s t
Grows-same i a c = record {
  ids = λ x h. rw i h;
  attestations = λ x h. rw a h;
  crossings = λ x h. rw c h;
}

pub Grows-trans : {s t u : KernelState} → Grows s t → Grows t u → Grows s u
Grows-trans g h = record {
  ids = λ x p. h.ids x (g.ids x p);
  attestations = λ x p. h.attestations x (g.attestations x p);
  crossings = λ x p. h.crossings x (g.crossings x p);
}

delegated-Grows :
    (s : KernelState) (grantor grantee : AgentId) → Grows s (delegated s grantor grantee)
unfolding delegated drop_grants_of drop_challenges_of drop_pending_of
delegated-Grows s grantor grantee = Grows-same refl refl refl

clear_agent-Grows : (s : KernelState) (a : AgentId) → Grows s (clear_agent s a)
unfolding clear_agent drop_grants_of drop_challenges_of drop_pending_of
clear_agent-Grows s a = Grows-same refl refl refl

ingested-Grows :
    (s : KernelState) (a : AgentId) (l : ConfLevel) (li : IntegLevel) (d : Disposition)
    → Grows s (ingested s a l li d)
unfolding ingested demote_all_of
ingested-Grows s a l li d = Grows-same (ground arith) (ground arith) (ground arith)

begun-Grows :
    (s u : KernelState) (bg : BackgroundTheory) (q : BeginInput) (verdict : Verdict) (mode : Mode)
    → begin_effect s bg q verdict mode ≡ ok u
    → Grows s (begin_consume u q.inv)
unfolding begin_effect begin_pend begin_challenge begin_consume
begun-Grows s u bg q verdict mode h = record {
  ids = λ x p. ground (arith, contains-insert s.consumed_ids q.inv x);
  attestations = λ x p. ground arith;
  crossings = λ x p. ground arith;
}

resolved-Grows :
    (s : KernelState) (inv : InvocationId) (sc : ChallengeScope) (x : AttestationId) (admit : Bool)
    → Grows s (resolved s inv sc x admit)
unfolding resolved
resolved-Grows s inv sc x admit = record {
  ids = λ y p. ground arith;
  attestations = λ y p. ground (arith, contains-insert s.consumed_attestations x y);
  crossings = λ y p. ground arith;
}

settle_consume-Grows :
    (s : KernelState) (att : Option ResolutionAttestation) → Grows s (settle_consume s att)
unfolding settle_consume
settle_consume-Grows s none = Grows-same refl refl refl
settle_consume-Grows s (some r) = record {
  ids = λ x p. p;
  attestations = λ x p. ground (arith, contains-insert s.consumed_attestations r.id x);
  crossings = λ x p. p;
}

settled-Grows :
    (s : KernelState) (inv : InvocationId) (j : PendingInvocation) (o : Outcome)
    (att : Option ResolutionAttestation)
    → Grows s (settled s inv j o att)
unfolding settled settle_absorb settle_demote settle_at demote_all_of
settled-Grows s inv j o att =
    Grows-trans (Grows-same (ground arith) (ground arith) (ground arith))
      (settle_consume-Grows (settle_absorb (settle_demote (settle_at s inv j o) j) j o) att)

consume_evidence-Grows :
    (s : KernelState) (e : Option ConformanceAttestation) → Grows s (consume_evidence s e)
unfolding consume_evidence
consume_evidence-Grows s none = Grows-same refl refl refl
consume_evidence-Grows s (some c) = record {
  ids = λ x p. p;
  attestations = λ x p. ground (arith, contains-insert s.consumed_attestations c.id x);
  crossings = λ x p. p;
}

crossed-Grows :
    (s : KernelState) (q : CrossInput) (b : CrossBranch) (d : Disposition)
    → Grows s (crossed s q b d)
unfolding crossed cross_consume release decrement_grant_at demote_all_of
crossed-Grows s q endorsed d =
    let t : KernelState = record (release s q endorsed) {
      consumed_crossings = VecSet.insert s.consumed_crossings q.crossing;
    } in
    let g = consume_evidence-Grows t q.evidence in
    record {
      ids = λ x p. ground (arith, g.ids x);
      attestations = λ x p. ground (arith, g.attestations x);
      crossings =
          λ x p. ground (arith, g.crossings x, contains-insert s.consumed_crossings q.crossing x);
    }
crossed-Grows s q unendorsed d = record {
  ids = λ x p. ground arith;
  attestations = λ x p. ground arith;
  crossings = λ x p. ground (arith, contains-insert s.consumed_crossings q.crossing x);
}
crossed-Grows s q CrossBranch.fail d = record {
  ids = λ x p. ground arith;
  attestations = λ x p. ground arith;
  crossings = λ x p. ground (arith, contains-insert s.consumed_crossings q.crossing x);
}

module _ (bg : BackgroundTheory) {s t : KernelState} {act : KernelAction} where
  pub apply-Grows : (c : Command) → apply c s bg ≡ ok (t, act) → Grows s t
  unfolding apply
  apply-Grows (Command.register_tool tool) h =
      let (_, e, _) = register_tool-ok s tool h in
      subst (Grows s) (sym e) (Grows-same refl refl refl)
  apply-Grows (Command.unregister_tool tool) h =
      let (_, _, e) = unregister_tool-ok s tool h in
      subst (Grows s) (sym e) (Grows-same refl refl refl)
  apply-Grows (Command.delegate grantor grantee) h =
      let (_, _, _, _, e) = delegate-ok s bg grantor grantee h in
      subst (Grows s) (sym e) (delegated-Grows s grantor grantee)
  apply-Grows (Command.grant_capability parent child cap) h =
      let (_, _, _, _, e) = grant_capability-ok s parent child cap h in
      subst (Grows s) (sym e) (Grows-same refl refl refl)
  apply-Grows (Command.grant_crossing grantor agent assignment n) h =
      let (_, _, e) = grant_crossing-ok s bg grantor agent assignment n h in
      subst (Grows s) (sym e) (Grows-same refl refl refl)
  apply-Grows (Command.revoke parent target) h =
      let (_, _, _, _, e) = revoke-ok s bg parent target h in
      subst (Grows s) (sym e) (clear_agent-Grows s target)
  apply-Grows (Command.cascade_revoke child parent) h =
      let (_, _, _, _, e) = cascade_revoke-ok s bg child parent h in
      subst (Grows s) (sym e) (clear_agent-Grows s child)
  apply-Grows (Command.ingest agent src pconf pinteg) h =
      let (d, _, _, _, e, _) = ingest-ok s bg agent src pconf pinteg h in
      subst (Grows s) (sym e) (ingested-Grows s agent pconf pinteg d)
  apply-Grows (Command.begin_invocation q) h =
      let (u, _, effect, e, _) = begin_invocation-ok s bg q h in
      subst (Grows s) (sym e) (begun-Grows s u bg q _ bg.mode effect)
  apply-Grows (Command.authorize_inspected inv att) h =
      let (sc, _, _, _, e, _) = authorize_inspected-ok s bg inv att h in
      subst (Grows s) (sym e) (resolved-Grows s inv sc att.id _)
  apply-Grows (Command.settle_invocation inv outcome att) h =
      let (j, _, _, _, e) = settle_invocation-ok s inv outcome att h in
      subst (Grows s) (sym e) (settled-Grows s inv j outcome att)
  apply-Grows (Command.cross_output q) h =
      let (d, _, _, _, _, _, _, e) = cross_output-ok s bg q h in
      subst (Grows s) (sym e) (crossed-Grows s q _ d)
