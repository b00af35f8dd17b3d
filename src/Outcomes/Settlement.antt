-- ===== src/Outcomes/Settlement.antt =====
-- What an accepted settlement does to its record and to the labels of its owner.
use mathlib.Core.Option
use einsof.Prelude.{
  true, false, ◌==◌, if◌then◌else◌, Option, none, some, ok, ◌≡◌, ◌≢◌, ◌⊎◌, inl, inr, refl, sym,
  subst, arith, eq-cases, Option-cases,
}
use einsof.Collections.VecMap
use einsof.Collections.VecMap.Laws.{get-insert, get-remove}
use einsof.Collections.VecMap.Sets.{set_contains-insert_into}
use einsof.Collections.VecSet
use einsof.Event.{KernelAction}
use einsof.Invariants.{Pends, HoldsConf, HoldsInteg}
use einsof.Outcomes.Labels.{settle_invocation-ok}
use einsof.State.{KernelState, demoted, demote_all_of}
use einsof.State.Views.{pending-demote}
use einsof.Transitions.Settle.{
  settle_at, settle_demote, settle_absorb, settle_consume, settled, resolution_valid,
  check_resolution, settle_invocation,
}
use einsof.Types.{
  InvocationId, Disposition-discrete, monitor_bypassed, Outcome, Outcome-discrete, ambiguous,
  permitted, disposition_eq, PendingInvocation, ResolutionAttestation, agent_id_eq,
  invocation_id_eq, attestation_id_eq, conf_level_eq, integ_level_eq, outcome_eq,
}

-- What a settlement makes of a record beside the settled one `j`: unless `j` was permitted, the
-- records of its owner are bypassed.
abbrev pub bystander : PendingInvocation → PendingInvocation → PendingInvocation
bystander j k =
    if j.disposition == permitted
    then k
    else if k.agent == j.agent
    then record k { disposition = monitor_bypassed }
    else k

-- An ordinary settlement: the record is gone, and its owner holds both frozen levels.
pub record Closed (s t : KernelState) (inv : InvocationId) (j : PendingInvocation) : Type 0 where
  pub removed : VecMap.get_cloned t.pending inv ≡ none
  pub others :
      (i : InvocationId)
      → VecMap.get_cloned t.pending i
        ≡ (if inv == i then none else Option.map (bystander j) (VecMap.get_cloned s.pending i))
  pub absorbs_conf : HoldsConf t j.agent j.policy.output_conf
  pub absorbs_integ : HoldsInteg t j.agent j.policy.output_integ

abbrev pub quarantine : PendingInvocation → PendingInvocation
quarantine j = record j {
  disposition = if j.disposition == permitted then permitted else monitor_bypassed;
  quarantined = true;
}

-- An ambiguous settlement: the record pends on in quarantine, bypassed unless it was permitted and
-- with its other parts as they were, and no label moves.
pub record Quarantined (s t : KernelState) (inv : InvocationId) (j : PendingInvocation)
    : Type 0 where
  pub pends : Pends t inv (quarantine j)
  pub others :
      (i : InvocationId)
      → VecMap.get_cloned t.pending i ≡ (
          if inv == i
          then some (quarantine j)
          else Option.map (bystander j) (VecMap.get_cloned s.pending i))
  pub same_conf : t.taint_levels ≡ s.taint_levels
  pub same_integ : t.integ_levels ≡ s.integ_levels

module _ (s : KernelState) (inv : InvocationId) (j : PendingInvocation) (o : Outcome)
    (att : Option ResolutionAttestation) where
  settled-removed :
      o ≢ ambiguous
      → (i : InvocationId)
      → VecMap.get_cloned (settled s inv j o att).pending i
        ≡ (if inv == i then none else Option.map (bystander j) (VecMap.get_cloned s.pending i))
  unfolding settled settle_consume settle_absorb settle_demote settle_at demoted
      Disposition-discrete
  settled-removed ordinary i =
      let bare : KernelState = record s { pending = VecMap.remove s.pending inv } in
      ground (
        arith,
        eq-cases o ambiguous,
        get-remove s.pending inv i,
        pending-demote bare j.agent i,
        Option-cases (VecMap.get_cloned s.pending i),
      )

  settled-Closed : o ≢ ambiguous → Closed s (settled s inv j o att) inv j
  unfolding settled settle_consume settle_absorb settle_demote settle_at demote_all_of
  settled-Closed ordinary =
      let bare : KernelState = record s { pending = VecMap.remove s.pending inv } in
      record {
        removed = ground (
          arith,
          eq-cases o ambiguous,
          get-remove s.pending inv inv,
          eq-cases inv inv,
          pending-demote bare j.agent inv,
        );
        others = settled-removed ordinary;
        absorbs_conf = ground (
          arith,
          eq-cases o ambiguous,
          set_contains-insert_into s.taint_levels j.agent j.agent j.policy.output_conf
              j.policy.output_conf,
          eq-cases j.agent j.agent,
          eq-cases j.policy.output_conf j.policy.output_conf,
        );
        absorbs_integ = ground (
          arith,
          eq-cases o ambiguous,
          set_contains-insert_into s.integ_levels j.agent j.agent j.policy.output_integ
              j.policy.output_integ,
          eq-cases j.agent j.agent,
          eq-cases j.policy.output_integ j.policy.output_integ,
        );
      }

  settled-labels :
      o ≡ ambiguous
      → ((settled s inv j o att).taint_levels ≡ s.taint_levels)
        × ((settled s inv j o att).integ_levels ≡ s.integ_levels)
  unfolding settled settle_consume settle_absorb settle_demote settle_at demote_all_of
      Outcome-discrete
  settled-labels e = ground arith

  settled-Quarantined : o ≡ ambiguous → Quarantined s (settled s inv j o att) inv j
  unfolding settled settle_consume settle_absorb settle_demote settle_at demoted Outcome-discrete
      Disposition-discrete
  settled-Quarantined e =
      let k : PendingInvocation = record j { quarantined = true } in
      let held : KernelState = record s { pending = VecMap.insert s.pending inv k } in
      record {
        pends = ground (
          arith,
          get-insert s.pending inv inv k,
          eq-cases inv inv,
          pending-demote held j.agent inv,
          eq-cases j.agent j.agent,
        );
        others = λ i. ground (
          arith,
          get-insert s.pending inv i k,
          pending-demote held j.agent i,
          eq-cases j.agent j.agent,
          Option-cases (VecMap.get_cloned s.pending i),
        );
        same_conf = (settled-labels e).0;
        same_integ = (settled-labels e).1;
      }

-- The resolution that a quarantined record takes.
pub record Resolves (s : KernelState) (inv : InvocationId) (o : Outcome)
    (att : Option ResolutionAttestation) : Type 0 where
  pub resolution : ResolutionAttestation
  pub given : att ≡ some resolution
  pub of_invocation : resolution.inv ≡ inv
  pub of_outcome : resolution.outcome ≡ o
  pub fresh : VecSet.contains s.consumed_attestations resolution.id ≡ false
  pub ordinary : o ≢ ambiguous

check_resolution-Resolves :
    (s : KernelState) (inv : InvocationId) (j : PendingInvocation) (o : Outcome)
    (att : Option ResolutionAttestation)
    → check_resolution s inv j o att ≡ ok tt
    → j.quarantined ≡ true
    → Resolves s inv o att
unfolding check_resolution resolution_valid Outcome-discrete
check_resolution-Resolves s inv j o (some r) h quarantined = record {
  resolution = r;
  given = refl;
  of_invocation = ground (arith, eq-cases r.inv inv);
  of_outcome = ground arith;
  fresh = ground arith;
  ordinary = λ e. ground arith;
}
check_resolution-Resolves s inv j o none h quarantined = absurd (ground arith)

-- What a settlement found and what it left.
abbrev pub Settled :
    KernelState → InvocationId → Outcome → Option ResolutionAttestation → KernelState → Type 0
Settled s inv o att t =
    (j : PendingInvocation) × Pends s inv j
    × (((o ≢ ambiguous) × Closed s t inv j) ⊎ ((o ≡ ambiguous) × Quarantined s t inv j))
    × (j.quarantined ≡ true → Resolves s inv o att)

-- An accepted settlement names a pending record. An ordinary outcome removes it and gives its owner
-- both frozen levels; an ambiguous one leaves it pending in quarantine, bypassed unless it was
-- permitted and otherwise as it was, and moves no label. Every other record reads as before, but
-- bypassed if it is the owner's and the settled one was not permitted. A record that was quarantined
-- takes an ordinary outcome only, with an unused resolution of this invocation and outcome.
pub settle_invocation_lem :
    (s : KernelState) (inv : InvocationId) (o : Outcome) (att : Option ResolutionAttestation)
    {t : KernelState} {act : KernelAction}
    → settle_invocation s inv o att ≡ ok (t, act)
    → Settled s inv o att t
settle_invocation_lem s inv o att h =
    let (j, held, _, check, e) = settle_invocation-ok s inv o att h in
    (
      j,
      held,
      elim (eq-cases o ambiguous) [
        | inl (_, same) ↦ inr (
          same,
          subst (λ t. Quarantined s t inv j) (sym e) (settled-Quarantined s inv j o att same),
        )
        | inr (_, other) ↦
            inl (other, subst (λ t. Closed s t inv j) (sym e) (settled-Closed s inv j o att other))
      ],
      check_resolution-Resolves s inv j o att check,
    )
