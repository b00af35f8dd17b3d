-- ===== src/History/Replay.antt =====
-- One-use identifiers: invocations, attestations and crossings presented a second time.
use einsof.Prelude.{true, false, some, ok, ◌≡◌, ◌≢◌, ap, arith, eq-cases}
use einsof.Background.{BackgroundTheory}
use einsof.Collections.VecSet
use einsof.Collections.VecSet.Laws.{contains-insert}
use einsof.Command.Reachable.{Run, done, step}
use einsof.Event.{KernelAction}
use einsof.History.Grows.{Grows, Grows-trans, apply-Grows}
use einsof.Outcomes.Admission.{begin_invocation-ok, authorize_inspected-ok}
use einsof.Outcomes.Labels.{settle_invocation-ok, cross_output-ok}
use einsof.State.{KernelState, demote_all_of, decrement_grant_at}
use einsof.Transitions.Authorize.{resolved, authorize_inspected}
use einsof.Transitions.Begin.{BeginInput, begin_consume, begin_invocation}
use einsof.Transitions.Cross.{
  evidence_ok, endorsed_ok, fallback_branch, choose_branch, consume_evidence, cross_consume,
  release, crossed, cross_output,
}
use einsof.Transitions.Settle.{
  resolution_valid, check_resolution, settle_at, settle_demote, settle_absorb, settle_consume,
  settled, settle_invocation,
}
use einsof.Types.{
  InvocationId, AttestationId, Outcome, PendingInvocation, InspectionAttestation,
  ResolutionAttestation, ConformanceAttestation, CrossInput, CrossBranch, Disposition, endorsed,
  invocation_id_eq, attestation_id_eq, crossing_id_eq,
}

Run-Grows : {bg : BackgroundTheory} {s t : KernelState} → Run bg s t → Grows s t
Run-Grows done = record { ids = λ x h. h; attestations = λ x h. h; crossings = λ x h. h }
Run-Grows {bg} (step c r h) = Grows-trans (Run-Grows r) (apply-Grows bg c h)

-- An accepted `begin_invocation` consumes its identifier, and a consumed identifier is refused.
begin_invocation-consumes :
    (s : KernelState) (bg : BackgroundTheory) (q : BeginInput) {t : KernelState}
    {act : KernelAction}
    → begin_invocation s bg q ≡ ok (t, act)
    → VecSet.contains t.consumed_ids q.inv ≡ true
unfolding begin_consume
begin_invocation-consumes s bg q h =
    let (u, _, _, e, _) = begin_invocation-ok s bg q h in
    ground (arith, contains-insert u.consumed_ids q.inv q.inv, eq-cases q.inv q.inv)

-- An attestation that is consumed resolves no challenge, settles no quarantine, and endorses no
-- crossing.
pub record Spent (u : KernelState) (bg : BackgroundTheory) (x : AttestationId) : Type 0 where
  pub resolves_none :
      (inv : InvocationId) (att : InspectionAttestation) {w : KernelState} {act : KernelAction}
      → att.id ≡ x
      → authorize_inspected u bg inv att ≢ ok (w, act)
  pub settles_none :
      (inv : InvocationId) (o : Outcome) (r : ResolutionAttestation) {w : KernelState}
      {act : KernelAction}
      → r.id ≡ x
      → settle_invocation u inv o (some r) ≢ ok (w, act)
  pub endorses_none :
      (q : CrossInput) (e : ConformanceAttestation)
      → q.evidence ≡ some e
      → e.id ≡ x
      → choose_branch u q ≢ endorsed

check_resolution-fresh :
    (u : KernelState) (inv : InvocationId) (j : PendingInvocation) (o : Outcome)
    (r : ResolutionAttestation)
    → check_resolution u inv j o (some r) ≡ ok tt
    → VecSet.contains u.consumed_attestations r.id ≡ false
unfolding check_resolution resolution_valid
check_resolution-fresh u inv j o r h = ground arith

choose_branch-fresh :
    (u : KernelState) (q : CrossInput) (e : ConformanceAttestation)
    → q.evidence ≡ some e
    → choose_branch u q ≡ endorsed
    → VecSet.contains u.consumed_attestations e.id ≡ false
unfolding choose_branch fallback_branch endorsed_ok evidence_ok
choose_branch-fresh u q e p h = ground arith

consumed-Spent :
    (u : KernelState) (bg : BackgroundTheory) (x : AttestationId)
    → VecSet.contains u.consumed_attestations x ≡ true
    → Spent u bg x
consumed-Spent u bg x c = record {
  resolves_none = λ inv att e h.
      let (_, _, _, fresh, _, _) = authorize_inspected-ok u bg inv att h in
      ground (arith, ap (VecSet.contains u.consumed_attestations) e);
  settles_none = λ inv o r e h.
      let (j, _, _, valid, _) = settle_invocation-ok u inv o (some r) h in
      ground (
        arith,
        check_resolution-fresh u inv j o r valid,
        ap (VecSet.contains u.consumed_attestations) e,
      );
  endorses_none = λ q e p same h.
      ground
        (arith, choose_branch-fresh u q e p h, ap (VecSet.contains u.consumed_attestations) same);
}

settle_consume-consumes :
    (s : KernelState) (r : ResolutionAttestation)
    → VecSet.contains (settle_consume s (some r)).consumed_attestations r.id ≡ true
unfolding settle_consume
settle_consume-consumes s r =
    ground (arith, contains-insert s.consumed_attestations r.id r.id, eq-cases r.id r.id)

crossed-consumes :
    (s : KernelState) (q : CrossInput) (b : CrossBranch) (d : Disposition)
    → VecSet.contains (crossed s q b d).consumed_crossings q.crossing ≡ true
unfolding crossed cross_consume consume_evidence decrement_grant_at demote_all_of release
crossed-consumes s q b d = ground (
  arith,
  contains-insert s.consumed_crossings q.crossing q.crossing,
  eq-cases q.crossing q.crossing,
)

crossed-evidence :
    (s : KernelState) (q : CrossInput) (e : ConformanceAttestation) (d : Disposition)
    → q.evidence ≡ some e
    → VecSet.contains (crossed s q endorsed d).consumed_attestations e.id ≡ true
unfolding crossed cross_consume consume_evidence decrement_grant_at demote_all_of release
crossed-evidence s q e d h =
    ground (arith, contains-insert s.consumed_attestations e.id e.id, eq-cases e.id e.id)

module _ (bg : BackgroundTheory) (s u : KernelState) {t : KernelState} {act : KernelAction} where
  -- After an accepted begin_invocation, no later begin_invocation with the same identifier is
  -- accepted, whatever commands were accepted in between.
  pub begin_invocation-once :
      (q again : BeginInput) {w : KernelState} {act' : KernelAction}
      → begin_invocation s bg q ≡ ok (t, act)
      → Run bg t u
      → again.inv ≡ q.inv
      → begin_invocation u bg again ≢ ok (w, act')
  begin_invocation-once q again h run same h' =
      let (_, g, _, _, _) = begin_invocation-ok u bg again h' in
      ground (
        arith,
        g.fresh,
        (Run-Grows run).ids q.inv (begin_invocation-consumes s bg q h),
        ap (VecSet.contains u.consumed_ids) same,
      )

  -- The attestation of an accepted authorize_inspected resolves no later challenge, settles no
  -- quarantined record, and endorses no crossing.
  pub authorize_inspected-Spent :
      (inv : InvocationId) (att : InspectionAttestation)
      → authorize_inspected s bg inv att ≡ ok (t, act)
      → Run bg t u
      → Spent u bg att.id
  unfolding resolved
  authorize_inspected-Spent inv att h run =
      let (sc, _, _, _, e, _) = authorize_inspected-ok s bg inv att h in
      consumed-Spent u bg att.id (
        (Run-Grows run).attestations att.id (
          ground
            (arith, contains-insert s.consumed_attestations att.id att.id, eq-cases att.id att.id)))

  -- The resolution of an accepted settle_invocation resolves no later challenge, settles no
  -- quarantined record, and endorses no crossing.
  pub settle_invocation-Spent :
      (inv : InvocationId) (o : Outcome) (r : ResolutionAttestation)
      → settle_invocation s inv o (some r) ≡ ok (t, act)
      → Run bg t u
      → Spent u bg r.id
  unfolding settled
  settle_invocation-Spent inv o r h run =
      let (j, _, _, _, e) = settle_invocation-ok s inv o (some r) h in
      let before = settle_absorb (settle_demote (settle_at s inv j o) j) j o in
      consumed-Spent u bg r.id
        ((Run-Grows run).attestations r.id (ground (arith, settle_consume-consumes before r)))

  -- The evidence of an accepted endorsed crossing resolves no later challenge, settles no
  -- quarantined record, and endorses no further crossing.
  pub cross_output-Spent :
      (q : CrossInput) (e : ConformanceAttestation)
      → cross_output s bg q ≡ ok (t, act)
      → choose_branch s q ≡ endorsed
      → q.evidence ≡ some e
      → Run bg t u
      → Spent u bg e.id
  cross_output-Spent q e h branch p run =
      let (d, _, _, _, _, _, _, f) = cross_output-ok s bg q h in
      consumed-Spent u bg e.id
        ((Run-Grows run).attestations e.id (ground (arith, crossed-evidence s q e d p)))

  -- After an accepted cross_output, no later cross_output with the same crossing identifier is
  -- accepted.
  pub cross_output-once :
      (q again : CrossInput) {w : KernelState} {act' : KernelAction}
      → cross_output s bg q ≡ ok (t, act)
      → Run bg t u
      → again.crossing ≡ q.crossing
      → cross_output u bg again ≢ ok (w, act')
  cross_output-once q again h run same h' =
      let (d, _, _, _, _, _, _, e) = cross_output-ok s bg q h in
      let (_, _, _, _, fresh, _, _, _) = cross_output-ok u bg again h' in
      let used =
        (Run-Grows run).crossings q.crossing
          (ground (arith, crossed-consumes s q (choose_branch s q) d)) in
      ground (arith, used, fresh, ap (VecSet.contains u.consumed_crossings) same)
