-- ===== src/Preservation/Begin.antt =====
-- The invariants across `begin_invocation`.
use einsof.Prelude.{true, ok, ◌≡◌, ◌⊎◌, inl, inr, refl, sym, subst, arith, eq-cases}
use einsof.Background.{BackgroundTheory}
use einsof.Collections.VecMap.Laws.{get-insert}
use einsof.Collections.VecSet
use einsof.Collections.VecSet.Laws.{contains-insert}
use einsof.Event.{KernelAction}
use einsof.Gates.Fits.{Gate, Gate-Fits}
use einsof.Invariants.{Inv, PendingScoped, ChallengeScoped, Open, IsActive}
use einsof.Outcomes.Admission.{BeginGuards, begin_invocation-ok}
use einsof.Preservation.Frames.{ChallengeScoped-keep}
use einsof.Preservation.Pended.{Still, Opens, Unpended-Inv, Pended-Inv}
use einsof.State.{KernelState}
use einsof.Transitions.Begin.{
  BeginInput, begin_verdict, begin_record, begin_pend, begin_challenge, begin_effect, begin_consume,
  begin_invocation,
}
use einsof.Types.{
  Admission, Disposition, Verdict, Mode, Verdict-discrete, Disposition-discrete, allow,
  inspection_required, deny, enforce, monitor, plain, bypassed, permitted, monitor_bypassed,
  contained, invocation_id_eq, ChallengeScope, disposition_eq,
}

-- The scope that `begin_challenge` stores.
abbrev scope_of : BeginInput → ChallengeScope
scope_of q = record {
  challenge = q.challenge;
  agent = q.agent;
  policy = q.policy;
  egress = q.egress;
  args_hash = q.args_hash;
  authorized = q.authorized;
}

module _ {bg : BackgroundTheory} {s : KernelState} (v : Inv bg s) (q : BeginInput)
    (g : BeginGuards s bg q) where
  id_consumed :
      (u : KernelState) → VecSet.contains (begin_consume u q.inv).consumed_ids q.inv ≡ true
  unfolding begin_consume
  id_consumed u = ground (arith, contains-insert u.consumed_ids q.inv q.inv, eq-cases q.inv q.inv)

  verdict-Gate :
      (a : Admission) (d : Disposition)
      → begin_verdict s bg q ≡ allow
      → Gate bg s (begin_record q a d) true
  unfolding begin_verdict begin_record Verdict-discrete
  verdict-Gate a d h = record {
    capability = ground arith;
    authorized = ground arith;
    clearance = ground arith;
    flow = ground arith;
    integ = ground arith;
  }

  record_Still :
      (a : Admission) (d : Disposition) → Still s (begin_consume (begin_pend s q a d) q.inv)
  unfolding begin_consume begin_pend
  record_Still a d = record {
    same_active = refl;
    same_parent = refl;
    same_cap = refl;
    same_tools = refl;
    same_taint = refl;
    same_integ = refl;
    same_grants = refl;
    ids_kept = λ i h. ground (arith, contains-insert s.consumed_ids q.inv i);
    evidence_kept = λ x h. h;
  }

  challenge_Still : Still s (begin_consume (begin_challenge s q) q.inv)
  unfolding begin_consume begin_challenge
  challenge_Still = record {
    same_active = refl;
    same_parent = refl;
    same_cap = refl;
    same_tools = refl;
    same_taint = refl;
    same_integ = refl;
    same_grants = refl;
    ids_kept = λ i h. ground (arith, contains-insert s.consumed_ids q.inv i);
    evidence_kept = λ x h. h;
  }

  record_scoped :
      (a : Admission) (d : Disposition)
      → (d ≡ permitted) ⊎ ((d ≡ monitor_bypassed) × (bg.mode ≡ monitor))
      → (a ≡ plain) ⊎ ((a ≡ bypassed) × (bg.mode ≡ monitor))
      → PendingScoped bg (begin_consume (begin_pend s q a d) q.inv) q.inv (begin_record q a d)
  unfolding begin_record begin_pend begin_consume contained Disposition-discrete
  record_scoped a d disposed admitted = record {
    registered = g.registered;
    not_root = g.not_root;
    id_consumed = id_consumed (begin_pend s q a d);
    attested = g.attested;
    coherent = g.coherent;
    evidence_consumed = λ x e. absurd (ground arith);
    bypassed_disposition = λ c. ground arith;
    bypassed_admission = λ e. ground arith;
    not_blocked = λ e. ground arith;
  }

  record-Opens :
      (a : Admission) (d : Disposition) → Opens bg s (begin_consume (begin_pend s q a d) q.inv)
  unfolding begin_record begin_pend begin_consume
  record-Opens a d i sc o =
      let w = v.challenges i sc o in
      (
        record {
          no_pending = ground (
            arith,
            get-insert s.pending q.inv i (begin_record q a d),
            eq-cases q.inv i,
            g.not_open,
          );
          id_consumed = (record_Still a d).ids_kept i w.id_consumed;
          not_root = w.not_root;
          registered = w.registered;
          coherent = w.coherent;
          attested = w.attested;
          enforced = w.enforced;
        },
        v.compartments.challenge_active i sc o,
      )

  pended-Inv :
      (a : Admission) (d : Disposition)
      → (d ≡ permitted) ⊎ ((d ≡ monitor_bypassed) × (bg.mode ≡ monitor))
      → (a ≡ plain) ⊎ ((a ≡ bypassed) × (bg.mode ≡ monitor))
      → (d ≡ permitted → begin_verdict s bg q ≡ allow)
      → Inv bg (begin_consume (begin_pend s q a d) q.inv)
  unfolding begin_record begin_pend begin_consume contained Disposition-discrete
  pended-Inv a d disposed admitted gate =
      Pended-Inv v (record_Still a d) q.inv (begin_record q a d)
        (λ i. get-insert s.pending q.inv i (begin_record q a d)) g.active
        (record_scoped a d disposed admitted)
        (λ c. Gate-Fits (λ f. absurd (ground arith)) (verdict-Gate a d (gate (ground arith))))
        (record-Opens a d)

  new_scoped :
      bg.mode ≡ enforce
      → ChallengeScoped bg (begin_consume (begin_challenge s q) q.inv) q.inv (scope_of q)
  unfolding begin_challenge begin_consume
  new_scoped mode = record {
    no_pending = g.not_pending;
    id_consumed = id_consumed (begin_challenge s q);
    not_root = g.not_root;
    registered = g.registered;
    coherent = g.coherent;
    attested = g.attested;
    enforced = mode;
  }

  challenged-Inv : bg.mode ≡ enforce → Inv bg (begin_consume (begin_challenge s q) q.inv)
  unfolding begin_challenge begin_consume
  challenged-Inv mode = Unpended-Inv v challenge_Still refl (λ i sc o. elim (eq-cases q.inv i) [
    | inl (hit, same) ↦
        let e : sc ≡ scope_of q = ground (arith, get-insert s.challenges q.inv i (scope_of q)) in
        (
          subst (λ x. ChallengeScoped bg (begin_consume (begin_challenge s q) q.inv) i x) (sym e)
              (subst
                (λ x. ChallengeScoped bg (begin_consume (begin_challenge s q) q.inv) x (scope_of q))
                same (new_scoped mode)),
          subst (λ (x : ChallengeScope). IsActive s x.agent) (sym e) g.active,
        )
    | inr (miss, _) ↦
        let old : Open s i sc = ground (arith, get-insert s.challenges q.inv i (scope_of q)) in
        let w = v.challenges i sc old in
        (
          ChallengeScoped-keep i sc w w.no_pending (λ x. x) (challenge_Still.ids_kept i),
          v.compartments.challenge_active i sc old,
        )
  ])

  begun-Inv :
      {u : KernelState} (verdict : Verdict) (mode : Mode)
      → begin_verdict s bg q ≡ verdict
      → bg.mode ≡ mode
      → begin_effect s bg q verdict mode ≡ ok u
      → Inv bg (begin_consume u q.inv)
  unfolding begin_effect Verdict-discrete Disposition-discrete
  begun-Inv allow mode e m h =
      subst (λ x. Inv bg (begin_consume x q.inv)) (ground arith)
        (pended-Inv plain permitted (inl refl) (inl refl) (λ _. e))
  begun-Inv inspection_required enforce e m h =
      subst (λ x. Inv bg (begin_consume x q.inv)) (ground arith) (challenged-Inv m)
  begun-Inv inspection_required monitor e m h =
      subst (λ x. Inv bg (begin_consume x q.inv)) (ground arith)
        (pended-Inv bypassed monitor_bypassed (inr (refl, m)) (inr (refl, m))
          (λ f. absurd (ground arith)))
  begun-Inv deny monitor e m h =
      subst (λ x. Inv bg (begin_consume x q.inv)) (ground arith)
        (pended-Inv bypassed monitor_bypassed (inr (refl, m)) (inr (refl, m))
          (λ f. absurd (ground arith)))
  begun-Inv deny enforce e m h = absurd (ground arith)

pub begin_invocation-Inv :
    {bg : BackgroundTheory} {s t : KernelState} {act : KernelAction} (q : BeginInput)
    → Inv bg s
    → begin_invocation s bg q ≡ ok (t, act)
    → Inv bg t
begin_invocation-Inv {bg} {s} q v h =
    let (u, g, effect, e, _) = begin_invocation-ok s bg q h in
    subst (Inv bg) (sym e) (begun-Inv v q g (begin_verdict s bg q) bg.mode refl refl effect)
