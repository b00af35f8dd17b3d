-- ===== src/Preservation/Frames.antt =====
-- How each part of the invariant passes from one state to another: what a transition has to show of
-- its lookups.
use einsof.Prelude.{Bool, true, none, ◌≡◌, ◌⊎◌, inl, inr, sym, ap, ◌∙◌, subst}
use einsof.Background.{BackgroundTheory}
use einsof.Capability.{CapKind}
use einsof.Collections.VecMap
use einsof.Collections.VecSet
use einsof.Invariants.{
  HoldsConf, HoldsInteg, HoldsCap, Pends, PendingScoped, Accepts, AcceptsInteg, Confined,
  ChallengeScoped, Confinement,
}
use einsof.State.{KernelState}
use einsof.Types.{
  InvocationId, AttestationId, PendingInvocation, ChallengeScope, ConfLevel, IntegLevel, contained,
  vouched, tool_id_eq, invocation_id_eq, attestation_id_eq, disposition_eq,
}

-- A record's gates do not depend on its quarantine flag.
Accepts-requarantine :
    (bg : BackgroundTheory) (j : PendingInvocation) (b : Bool) (l : ConfLevel)
    → Accepts bg j l
    → Accepts bg (record j { quarantined = b }) l
unfolding vouched
Accepts-requarantine bg j b l a = record { flows = a.flows; clears = a.clears }

AcceptsInteg-requarantine :
    (j : PendingInvocation) (b : Bool) (l : IntegLevel)
    → AcceptsInteg j l
    → AcceptsInteg (record j { quarantined = b }) l
unfolding vouched
AcceptsInteg-requarantine j b l a = a

Confined-requarantine :
    (bg : BackgroundTheory) (s : KernelState) (j : PendingInvocation) (b : Bool)
    → Confined bg s j
    → Confined bg s (record j { quarantined = b })
Confined-requarantine bg s j b w = record {
  authorized = w.authorized;
  caps = w.caps;
  held_conf = λ l h. Accepts-requarantine bg j b l (w.held_conf l h);
  held_integ = λ l h. AcceptsInteg-requarantine j b l (w.held_integ l h);
  pairwise = λ i k p same c.
      let (a, ai) = w.pairwise i k p same c in
      (
        Accepts-requarantine bg j b k.policy.output_conf a,
        AcceptsInteg-requarantine j b k.policy.output_integ ai,
      );
}

-- No contained record is new but for its quarantine flag, owners keep their capabilities, and a new
-- label of an owner is one that its contained records accept.
pub record Shrinks (bg : BackgroundTheory) (s t : KernelState) : Type 0 where
  pub records :
      (inv : InvocationId) (j : PendingInvocation)
      → Pends t inv j
      → contained j ≡ true
      → (i : PendingInvocation) × Pends s inv i
        × (contained i ≡ true)
        × (j ≡ record i { quarantined = j.quarantined })
  pub caps :
      (inv : InvocationId) (j : PendingInvocation) (k : CapKind)
      → Pends t inv j
      → HoldsCap s j.agent k
      → HoldsCap t j.agent k
  pub conf :
      (inv : InvocationId) (j : PendingInvocation) (l : ConfLevel)
      → Pends t inv j
      → contained j ≡ true
      → HoldsConf t j.agent l
      → HoldsConf s j.agent l ⊎ Accepts bg j l
  pub integ :
      (inv : InvocationId) (j : PendingInvocation) (l : IntegLevel)
      → Pends t inv j
      → contained j ≡ true
      → HoldsInteg t j.agent l
      → HoldsInteg s j.agent l ⊎ AcceptsInteg j l

module _ {bg : BackgroundTheory} {s t : KernelState} where
  old_Confined :
      Confinement bg s
      → Shrinks bg s t
      → (inv : InvocationId) (j : PendingInvocation) → Pends t inv j
      → contained j ≡ true
      → Confined bg s j
  old_Confined v r inv j p c =
      let (i, pi, ci, e) = r.records inv j p c in
      subst (Confined bg s) (sym e) (Confined-requarantine bg s i j.quarantined (v inv i pi ci))

  pub Confinement-Shrinks : Confinement bg s → Shrinks bg s t → Confinement bg t
  Confinement-Shrinks v r inv j p c =
      let w = old_Confined v r inv j p c in
      record {
        authorized = w.authorized;
        caps = λ k h. r.caps inv j k p (w.caps k h);
        held_conf = λ l h. elim (r.conf inv j l p c h) [ inl old ↦ w.held_conf l old | inr a ↦ a ];
        held_integ =
            λ l h. elim (r.integ inv j l p c h) [ inl old ↦ w.held_integ l old | inr a ↦ a ];
        pairwise = λ i k q same d.
            let (k', q', d', e) = r.records i k q d in
            subst
              (λ (x : PendingInvocation).
                Accepts bg j x.policy.output_conf × AcceptsInteg j x.policy.output_integ)
              (sym e)
              (w.pairwise i k' q' (ap (λ (x : PendingInvocation). x.agent) (sym e) ∙ same) d');
      }

  -- The tool registry may grow, the histories only grow, and a record may be demoted under monitor.
  pub PendingScoped-keep :
      (inv : InvocationId) (j : PendingInvocation)
      → PendingScoped bg s inv j
      → (VecSet.contains s.tool_registered j.policy.tool ≡ true
          → VecSet.contains t.tool_registered j.policy.tool ≡ true)
      → (VecSet.contains s.consumed_ids inv ≡ true → VecSet.contains t.consumed_ids inv ≡ true)
      → ((att : AttestationId)
          → VecSet.contains s.consumed_attestations att ≡ true
          → VecSet.contains t.consumed_attestations att ≡ true)
      → PendingScoped bg t inv j
  PendingScoped-keep inv j w tools ids atts = record {
    registered = tools w.registered;
    not_root = w.not_root;
    id_consumed = ids w.id_consumed;
    attested = w.attested;
    coherent = w.coherent;
    evidence_consumed = λ att e. atts att (w.evidence_consumed att e);
    bypassed_disposition = w.bypassed_disposition;
    bypassed_admission = w.bypassed_admission;
    not_blocked = w.not_blocked;
  }

  pub ChallengeScoped-keep :
      (inv : InvocationId) (sc : ChallengeScope)
      → ChallengeScoped bg s inv sc
      → VecMap.get_cloned t.pending inv ≡ none
      → (VecSet.contains s.tool_registered sc.policy.tool ≡ true
          → VecSet.contains t.tool_registered sc.policy.tool ≡ true)
      → (VecSet.contains s.consumed_ids inv ≡ true → VecSet.contains t.consumed_ids inv ≡ true)
      → ChallengeScoped bg t inv sc
  ChallengeScoped-keep inv sc w free tools ids = record {
    no_pending = free;
    id_consumed = ids w.id_consumed;
    not_root = w.not_root;
    registered = tools w.registered;
    coherent = w.coherent;
    attested = w.attested;
    enforced = w.enforced;
  }
