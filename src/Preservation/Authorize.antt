-- ===== src/Preservation/Authorize.antt =====
-- The invariants across `authorize_inspected` of transitions/.
use einsof.Prelude.{
  Bool, true, false, ◌&&◌, ok, ◌≡◌, ◌≢◌, inl, inr, refl, sym, subst, arith, eq-cases, Bool-cases,
}
use einsof.Background.{BackgroundTheory}
use einsof.Collections.VecMap.Laws.{get-insert, get-remove}
use einsof.Collections.VecSet.Laws.{contains-insert}
use einsof.Event.{KernelAction}
use einsof.Gates.Fits.{Fits, Gate-Fits}
use einsof.Invariants.{Inv, PendingScoped, Open}
use einsof.Outcomes.Admission.{Admits, authorize_admits-Admits, authorize_inspected-ok}
use einsof.Preservation.Frames.{ChallengeScoped-keep}
use einsof.Preservation.Pended.{Still, Opens, Unpended-Inv, Pended-Inv}
use einsof.State.{KernelState}
use einsof.Transitions.Authorize.{authorize_admits, inspected_record, resolved, authorize_inspected}
use einsof.Transitions.Checks.{begin_admissible}
use einsof.Types.{
  InvocationId, AttestationId, InspectionAttestation, ChallengeScope, Disposition-discrete,
  contained, vouched, invocation_id_eq, attestation_id_eq, disposition_eq,
}

-- An open challenge after the resolution: it was open, and is another one.
resolved-Open :
    (s : KernelState) (inv : InvocationId) (sc : ChallengeScope) (x : AttestationId) (admit : Bool)
    (i : InvocationId) (o : ChallengeScope)
    → Open (resolved s inv sc x admit) i o
    → (inv ≢ i) × Open s i o
unfolding resolved
resolved-Open s inv sc x true i o h = ground (arith, get-remove s.challenges inv i, eq-cases inv i)
resolved-Open s inv sc x false i o h = ground (arith, get-remove s.challenges inv i, eq-cases inv i)

module _ {bg : BackgroundTheory} {s : KernelState} (v : Inv bg s) (inv : InvocationId)
    (sc : ChallengeScope) (x : AttestationId) where
  resolved-Still : (admit : Bool) → Still s (resolved s inv sc x admit)
  unfolding resolved
  resolved-Still true = record {
    same_active = refl;
    same_parent = refl;
    same_cap = refl;
    same_tools = refl;
    same_taint = refl;
    same_integ = refl;
    same_grants = refl;
    ids_kept = λ i h. h;
    evidence_kept = λ y h. ground (arith, contains-insert s.consumed_attestations x y);
  }
  resolved-Still false = record {
    same_active = refl;
    same_parent = refl;
    same_cap = refl;
    same_tools = refl;
    same_taint = refl;
    same_integ = refl;
    same_grants = refl;
    ids_kept = λ i h. h;
    evidence_kept = λ y h. ground (arith, contains-insert s.consumed_attestations x y);
  }

  resolved-Opens : (admit : Bool) → Opens bg s (resolved s inv sc x admit)
  unfolding resolved
  resolved-Opens true i o h =
      let (other, old) = resolved-Open s inv sc x true i o h in
      let w = v.challenges i o old in
      (
        ChallengeScoped-keep i o w
            (ground (
              arith,
              get-insert s.pending inv i (inspected_record sc x),
              eq-cases inv i,
              w.no_pending,
            ))
            (λ y. y) (λ y. y),
        v.compartments.challenge_active i o old,
      )
  resolved-Opens false i o h =
      let (other, old) = resolved-Open s inv sc x false i o h in
      let w = v.challenges i o old in
      (
        ChallengeScoped-keep i o w w.no_pending (λ y. y) (λ y. y),
        v.compartments.challenge_active i o old,
      )

  denied-Inv : Inv bg (resolved s inv sc x false)
  unfolding resolved
  denied-Inv = Unpended-Inv v (resolved-Still false) refl (resolved-Opens false)

  module _ (held : Open s inv sc) (admits : Admits s bg inv sc) where
    admitted_scoped : PendingScoped bg (resolved s inv sc x true) inv (inspected_record sc x)
    unfolding resolved inspected_record contained Disposition-discrete
    admitted_scoped = record {
      registered = admits.registered;
      not_root = admits.not_root;
      id_consumed = (v.challenges inv sc held).id_consumed;
      attested = admits.attested;
      coherent = admits.coherent;
      evidence_consumed =
          λ y e. ground (arith, contains-insert s.consumed_attestations x y, eq-cases x y);
      bypassed_disposition = λ c. absurd (ground arith);
      bypassed_admission = λ e. absurd (ground arith);
      not_blocked = λ e. absurd (ground arith);
    }

    admitted-Fits : Fits bg s (inspected_record sc x)
    unfolding inspected_record vouched begin_admissible
    admitted-Fits =
        Gate-Fits {strict = false} (λ _. ground arith)
          (record {
            capability = ground (arith, admits.gate);
            authorized = ground (arith, admits.gate);
            clearance = ground (arith, admits.gate);
            flow = ground (arith, admits.gate);
            integ = ground (arith, admits.gate);
          })

    admitted-Inv : Inv bg (resolved s inv sc x true)
    unfolding resolved inspected_record
    admitted-Inv =
        Pended-Inv v (resolved-Still true) inv (inspected_record sc x)
          (λ i. get-insert s.pending inv i (inspected_record sc x)) admits.active admitted_scoped
          (λ _. admitted-Fits) (resolved-Opens true)

pub authorize_inspected-Inv :
    {bg : BackgroundTheory} {s t : KernelState} {act : KernelAction} (inv : InvocationId)
    (att : InspectionAttestation)
    → Inv bg s
    → authorize_inspected s bg inv att ≡ ok (t, act)
    → Inv bg t
authorize_inspected-Inv {bg} {s} inv att v h =
    let (sc, held, _, _, e, _) = authorize_inspected-ok s bg inv att h in
    subst (Inv bg) (sym e) (elim (Bool-cases (att.positive && authorize_admits s bg inv sc)) [
      | inl admitted ↦
          subst (λ b. Inv bg (resolved s inv sc att.id b)) (sym admitted)
            (admitted-Inv v inv sc att.id held (authorize_admits-Admits s bg inv sc (ground arith)))
      | inr refused ↦
          subst (λ b. Inv bg (resolved s inv sc att.id b)) (sym refused)
            (denied-Inv v inv sc att.id)
    ])
