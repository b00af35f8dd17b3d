-- ===== src/Safety/Arrivals.antt =====
-- What arrives: a delegated agent, ingested labels, and the answer to a challenge.
use einsof.Prelude.{
  Bool, true, false, ◌&&◌, if◌then◌else◌, Option, none, some, ok, ◌≡◌, ◌≢◌, ◌⊎◌, inl, inr, refl,
  sym, subst, arith, eq-cases, Option-cases,
}
use einsof.Background.{BackgroundTheory}
use einsof.Capability.{CapKind, cap_kind_eq}
use einsof.Collections.VecMap
use einsof.Collections.VecMap.Laws.{get-insert, get-remove}
use einsof.Collections.VecMap.Sets.{set_contains-insert_into, set_contains-remove}
use einsof.Collections.VecSet
use einsof.Collections.VecSet.Laws.{contains-insert}
use einsof.Event.{KernelAction}
use einsof.Invariants.{IsActive, Parent, HoldsCap, HoldsConf, HoldsInteg, Pends, Open, Granted}
use einsof.Outcomes.Admission.{authorize_inspected-ok}
use einsof.Outcomes.Labels.{ingest-ok}
use einsof.Outcomes.Structural.{delegate-ok}
use einsof.Preservation.Dropped.{drop_all-pending, drop_all-challenges, drop_all-grants}
use einsof.State.{
  KernelState, drop_pending_of, drop_challenges_of, drop_grants_of, demoted, demote_all_of,
}
use einsof.State.Views.{pending-demote}
use einsof.Transitions.Agents.{edges_without, delegated, delegate}
use einsof.Transitions.Authorize.{authorize_admits, inspected_record, resolved, authorize_inspected}
use einsof.Transitions.Ingest.{ingested, ingest}
use einsof.Types.{
  AgentId, InvocationId, AttestationId, ChallengeScope, InspectionAttestation, PendingInvocation,
  CrossingKey, CrossingGrant, ConfLevel, IntegLevel, Disposition, Disposition-discrete, permitted,
  monitor_bypassed, contained, monitor, agent_id_eq, tool_id_eq, invocation_id_eq,
  attestation_id_eq, conf_level_eq, integ_level_eq, disposition_eq,
}

-- An active child of its grantor with an empty compartment.
pub record Newborn (t : KernelState) (grantor grantee : AgentId) : Type 0 where
  pub active : IsActive t grantee
  pub child : Parent t grantee grantor
  pub capless : (k : CapKind) → ¬ HoldsCap t grantee k
  pub unlabelled : (l : ConfLevel) → ¬ HoldsConf t grantee l
  pub unvouched : (l : IntegLevel) → ¬ HoldsInteg t grantee l
  pub idle : (inv : InvocationId) (j : PendingInvocation) → Pends t inv j → j.agent ≢ grantee
  pub unchallenged : (inv : InvocationId) (sc : ChallengeScope) → Open t inv sc → sc.agent ≢ grantee
  pub grantless : (key : CrossingKey) (g : CrossingGrant) → Granted t key g → key.agent ≢ grantee

delegated-Newborn :
    (s : KernelState) (grantor grantee : AgentId)
    → Newborn (delegated s grantor grantee) grantor grantee
unfolding delegated drop_pending_of drop_challenges_of drop_grants_of
delegated-Newborn s grantor grantee =
    let u : KernelState = record s {
      agent_active = VecSet.insert s.agent_active grantee;
      agent_parent = VecMap.insert (edges_without s grantee) grantee grantor;
      agent_cap = VecMap.remove s.agent_cap grantee;
      taint_levels = VecMap.remove s.taint_levels grantee;
      integ_levels = VecMap.remove s.integ_levels grantee;
    } in
    record {
      active =
          ground (arith, contains-insert s.agent_active grantee grantee, eq-cases grantee grantee);
      child = ground (
        arith,
        get-insert (edges_without s grantee) grantee grantee grantor,
        eq-cases grantee grantee,
      );
      capless = λ k h.
          ground
            (arith, set_contains-remove s.agent_cap grantee grantee k, eq-cases grantee grantee);
      unlabelled = λ l h.
          ground
            (arith, set_contains-remove s.taint_levels grantee grantee l, eq-cases grantee grantee);
      unvouched = λ l h.
          ground
            (arith, set_contains-remove s.integ_levels grantee grantee l, eq-cases grantee grantee);
      idle = λ inv j h. (drop_all-pending u grantee inv j h).1;
      unchallenged = λ inv sc h. (drop_all-challenges u grantee inv sc h).1;
      grantless = λ key g h. (drop_all-grants u grantee key g h).1;
    }

-- After an accepted delegate, the grantee is an active child of the grantor without capabilities,
-- labels, pending records, challenges or crossing grants.
pub delegate-Newborn :
    (s : KernelState) (bg : BackgroundTheory) (grantor grantee : AgentId) {t : KernelState}
    {act : KernelAction}
    → delegate s bg grantor grantee ≡ ok (t, act)
    → Newborn t grantor grantee
delegate-Newborn s bg grantor grantee h =
    let (_, _, _, _, e) = delegate-ok s bg grantor grantee h in
    subst (λ t. Newborn t grantor grantee) (sym e) (delegated-Newborn s grantor grantee)

-- The agent holds both levels; a permitted ingestion changes no record, and a bypassed one, which only
-- the monitor mode has, leaves the agent without contained records.
pub record Absorbed (bg : BackgroundTheory) (s t : KernelState) (a : AgentId) (l : ConfLevel)
    (li : IntegLevel) (d : Disposition) : Type 0 where
  pub holds_conf : HoldsConf t a l
  pub holds_integ : HoldsInteg t a li
  pub pendings :
      ((d ≡ permitted) × (t.pending ≡ s.pending))
      ⊎ ((d ≡ monitor_bypassed)
          × (bg.mode ≡ monitor)
          × ((inv : InvocationId) (j : PendingInvocation)
              → Pends t inv j
              → j.agent ≡ a
              → contained j ≡ false))

demoted-contained :
    (s : KernelState) (a : AgentId) (inv : InvocationId) (j : PendingInvocation)
    → Pends (demote_all_of s a) inv j
    → j.agent ≡ a
    → contained j ≡ false
unfolding demoted contained Disposition-discrete
demoted-contained s a inv j h e = elim (Option-cases (VecMap.get_cloned s.pending inv)) [
  | inl miss ↦ absurd (ground (arith, pending-demote s a inv))
  | inr (i, hit) ↦ ground (arith, pending-demote s a inv, eq-cases i.agent a)
]

ingested-labels :
    (s : KernelState) (a : AgentId) (l : ConfLevel) (li : IntegLevel) (d : Disposition)
    → HoldsConf (ingested s a l li d) a l × HoldsInteg (ingested s a l li d) a li
unfolding ingested demote_all_of
ingested-labels s a l li d = (
  ground (arith, set_contains-insert_into s.taint_levels a a l l, eq-cases a a, eq-cases l l),
  ground (arith, set_contains-insert_into s.integ_levels a a li li, eq-cases a a, eq-cases li li),
)

ingested-bypassed :
    (s : KernelState) (a : AgentId) (l : ConfLevel) (li : IntegLevel) (inv : InvocationId)
    (j : PendingInvocation)
    → Pends (ingested s a l li monitor_bypassed) inv j
    → j.agent ≡ a
    → contained j ≡ false
unfolding ingested Disposition-discrete
ingested-bypassed s a l li inv j h e =
    demoted-contained
      (record s {
        taint_levels = VecMap.insert_into s.taint_levels a l;
        integ_levels = VecMap.insert_into s.integ_levels a li;
      })
      a inv j h e

ingested-permitted :
    (s : KernelState) (a : AgentId) (l : ConfLevel) (li : IntegLevel)
    → (ingested s a l li permitted).pending ≡ s.pending
unfolding ingested Disposition-discrete
ingested-permitted s a l li = refl

-- After an accepted ingest, the agent holds both levels; a permitted ingestion changes no pending
-- record, and a bypassed one, which only the monitor mode has, leaves the agent without contained
-- records.
pub ingest-Absorbed :
    (s : KernelState) (bg : BackgroundTheory) (a : AgentId) (src : Option AgentId) (l : ConfLevel)
    (li : IntegLevel) {t : KernelState} {act : KernelAction}
    → ingest s bg a src l li ≡ ok (t, act)
    → (d : Disposition) × (act ≡ KernelAction.ingest a src l li d) × Absorbed bg s t a l li d
ingest-Absorbed s bg a src l li h =
    let (d, _, _, disposed, e, f) = ingest-ok s bg a src l li h in
    let labels = ingested-labels s a l li d in
    (
      d,
      f,
      record {
        holds_conf = subst (λ t. HoldsConf t a l) (sym e) labels.0;
        holds_integ = subst (λ t. HoldsInteg t a li) (sym e) labels.1;
        pendings = elim disposed [
          | inl (_, p) ↦ inl (p, rw e (rw p (ingested-permitted s a l li)))
          | inr (mode, b) ↦ inr (
            b,
            mode,
            λ inv j q same.
                ingested-bypassed s a l li inv j
                  (subst (λ x. Pends (ingested s a l li x) inv j) b
                    (subst (λ x. Pends x inv j) e q))
                  same,
          )
        ];
      },
    )

-- The answer to a challenge: it is closed, and its record pends exactly if it was admitted.
abbrev pub Answered :
    KernelState → BackgroundTheory → InvocationId → InspectionAttestation → KernelState → Type 0
Answered s bg inv att t =
    (sc : ChallengeScope) × Open s inv sc
    × (VecMap.get_cloned t.challenges inv ≡ none)
    × (VecMap.get_cloned t.pending inv ≡ (
        if att.positive && authorize_admits s bg inv sc
        then some (inspected_record sc att.id)
        else VecMap.get_cloned s.pending inv))

resolved-answer :
    (s : KernelState) (inv : InvocationId) (sc : ChallengeScope) (x : AttestationId) (admit : Bool)
    → (VecMap.get_cloned (resolved s inv sc x admit).challenges inv ≡ none)
      × (VecMap.get_cloned (resolved s inv sc x admit).pending inv
          ≡ (if admit then some (inspected_record sc x) else VecMap.get_cloned s.pending inv))
unfolding resolved
resolved-answer s inv sc x true = ground (
  arith,
  get-remove s.challenges inv inv,
  get-insert s.pending inv inv (inspected_record sc x),
  eq-cases inv inv,
)
resolved-answer s inv sc x false = ground (arith, get-remove s.challenges inv inv, eq-cases inv inv)

-- An accepted authorize_inspected names an open challenge and closes it; its record pends exactly if
-- the attestation is positive and the live gate admits the frozen scope, and otherwise the key reads
-- as before.
pub authorize_inspected_lem :
    (s : KernelState) (bg : BackgroundTheory) (inv : InvocationId) (att : InspectionAttestation)
    {t : KernelState} {act : KernelAction}
    → authorize_inspected s bg inv att ≡ ok (t, act)
    → Answered s bg inv att t
authorize_inspected_lem s bg inv att h =
    let (sc, held, _, _, e, _) = authorize_inspected-ok s bg inv att h in
    let (c, p) = resolved-answer s inv sc att.id (att.positive && authorize_admits s bg inv sc) in
    (sc, held, rw e c, rw e p)
