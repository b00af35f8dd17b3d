-- ===== src/Preservation/Pended.antt =====
-- What `begin_invocation` and `authorize_inspected` have in common: at most one record begins to pend,
-- it fits, and the challenges change.
use einsof.Prelude.{
  true, some, ◌==◌, if◌then◌else◌, ◌≡◌, ◌⊎◌, inl, inr, refl, sym, ◌∙◌, ap, subst, arith, eq-cases,
}
use einsof.Background.{BackgroundTheory}
use einsof.Collections.VecMap
use einsof.Collections.VecSet
use einsof.Gates.Fits.{Fits}
use einsof.Invariants.{
  Inv, IsActive, Pends, Open, Tree, Compartments, PendingScoped, Accepts, AcceptsInteg, Confined,
  ChallengeScoped,
}
use einsof.Preservation.Frames.{Confinement-Shrinks, PendingScoped-keep}
use einsof.State.{KernelState}
use einsof.Types.{
  InvocationId, AttestationId, PendingInvocation, ChallengeScope, contained, agent_id_eq,
  invocation_id_eq, attestation_id_eq,
}

-- What neither transition touches, and the histories, which grow.
pub record Still (s t : KernelState) : Type 0 where
  pub same_active : t.agent_active ≡ s.agent_active
  pub same_parent : t.agent_parent ≡ s.agent_parent
  pub same_cap : t.agent_cap ≡ s.agent_cap
  pub same_tools : t.tool_registered ≡ s.tool_registered
  pub same_taint : t.taint_levels ≡ s.taint_levels
  pub same_integ : t.integ_levels ≡ s.integ_levels
  pub same_grants : t.crossing_grants ≡ s.crossing_grants
  pub ids_kept :
      (i : InvocationId)
      → VecSet.contains s.consumed_ids i ≡ true
      → VecSet.contains t.consumed_ids i ≡ true
  pub evidence_kept :
      (x : AttestationId)
      → VecSet.contains s.consumed_attestations x ≡ true
      → VecSet.contains t.consumed_attestations x ≡ true

-- Each open challenge was open, or is scoped to an active agent.
abbrev pub Opens : BackgroundTheory → KernelState → KernelState → Type 0
Opens bg s t =
    (i : InvocationId) (sc : ChallengeScope)
    → Open t i sc
    → ChallengeScoped bg t i sc × IsActive s sc.agent

module _ {bg : BackgroundTheory} {s t : KernelState} (v : Inv bg s) (w : Still s t) where
  Still-Tree : Tree bg t
  Still-Tree = record {
    root_always_active = rw w.same_active v.tree.root_always_active;
    parent_implies_active =
        λ c p h. rw w.same_active (v.tree.parent_implies_active c p (rw w.same_parent at h));
    no_self_parent = λ x h. v.tree.no_self_parent x (rw w.same_parent at h);
    root_no_parent = λ p h. v.tree.root_no_parent p (rw w.same_parent at h);
    capability_subsumption = λ c p k h act held. rw w.same_cap (
        v.tree.capability_subsumption c p k (rw w.same_parent at h) (rw w.same_active at act)
          (rw w.same_cap at held));
    root_all_caps = λ k. rw w.same_cap (v.tree.root_all_caps k);
  }

  Still-Compartments :
      ((i : InvocationId) (k : PendingInvocation) → Pends t i k → IsActive s k.agent)
      → Opens bg s t
      → Compartments t
  Still-Compartments pends opens = record {
    cap_active = λ b k h. rw w.same_active (v.compartments.cap_active b k (rw w.same_cap at h));
    taint_active =
        λ b l h. rw w.same_active (v.compartments.taint_active b l (rw w.same_taint at h));
    integ_active =
        λ b l h. rw w.same_active (v.compartments.integ_active b l (rw w.same_integ at h));
    pending_active = λ i k h. rw w.same_active (pends i k h);
    challenge_active = λ i sc h. rw w.same_active (opens i sc h).1;
    grant_active =
        λ key g h. rw w.same_active (v.compartments.grant_active key g (rw w.same_grants at h));
  }

  Still-scoped : (i : InvocationId) (k : PendingInvocation) → Pends s i k → PendingScoped bg t i k
  Still-scoped i k p =
      PendingScoped-keep i k (v.pendings i k p) (λ x. rw w.same_tools x) (w.ids_kept i)
        w.evidence_kept

  -- No record is new.
  pub Unpended-Inv : t.pending ≡ s.pending → Opens bg s t → Inv bg t
  Unpended-Inv e opens = record {
    tree = Still-Tree;
    compartments =
        Still-Compartments (λ i k h. v.compartments.pending_active i k (rw e at h)) opens;
    pendings = λ i k p. Still-scoped i k (rw e at p);
    confinement = Confinement-Shrinks v.confinement (record {
      records = λ i k p c. (k, rw e at p, c, refl);
      caps = λ i k c p h. rw w.same_cap h;
      conf = λ i k l p c h. inl (rw w.same_taint at h);
      integ = λ i k l p c h. inl (rw w.same_integ at h);
    });
    challenges = λ i sc o. (opens i sc o).0;
    grants = λ key g h. v.grants key g (rw w.same_grants at h);
  }

  module _ (inv : InvocationId) (j : PendingInvocation)
      (at : (i : InvocationId)
        → VecMap.get_cloned t.pending i
          ≡ (if inv == i then some j else VecMap.get_cloned s.pending i)) where
    either :
        (i : InvocationId) (k : PendingInvocation)
        → Pends t i k
        → ((inv ≡ i) × (k ≡ j)) ⊎ Pends s i k
    either i k h = ground (arith, at i, eq-cases inv i)

    new_Confined : Fits bg s j → Confined bg t j
    new_Confined f = record {
      authorized = f.authorized;
      caps = λ k h. rw w.same_cap (f.caps k h);
      held_conf = λ l h. f.held_conf l (rw w.same_taint at h);
      held_integ = λ l h. f.held_integ l (rw w.same_integ at h);
      pairwise = λ i k p mine c. elim (either i k p) [
        | inl (_, e) ↦
            subst
              (λ (x : PendingInvocation).
                Accepts bg j x.policy.output_conf × AcceptsInteg j x.policy.output_integ)
              (sym e) f.self
        | inr old ↦ f.takes i k old mine
      ];
    }

    old_Confined :
        (contained j ≡ true → Fits bg s j)
        → (i : InvocationId) (k : PendingInvocation) → Pends s i k
        → contained k ≡ true
        → Confined bg t k
    old_Confined fits i k q c =
        let o = v.confinement i k q c in
        record {
          authorized = o.authorized;
          caps = λ x h. rw w.same_cap (o.caps x h);
          held_conf = λ l h. o.held_conf l (rw w.same_taint at h);
          held_integ = λ l h. o.held_integ l (rw w.same_integ at h);
          pairwise = λ i' k' p mine d. elim (either i' k' p) [
            | inl (_, e) ↦
                subst
                  (λ (x : PendingInvocation).
                    Accepts bg k x.policy.output_conf × AcceptsInteg k x.policy.output_integ)
                  (sym e)
                  ((fits (subst (λ x. contained x ≡ true) e d)).taken i k q
                    (sym mine ∙ ap (λ (x : PendingInvocation). x.agent) e))
            | inr old ↦ o.pairwise i' k' old mine d
          ];
        }

    -- One record is new.
    pub Pended-Inv :
        IsActive s j.agent
        → PendingScoped bg t inv j
        → (contained j ≡ true → Fits bg s j)
        → Opens bg s t
        → Inv bg t
    Pended-Inv live scoped fits opens = record {
      tree = Still-Tree;
      compartments =
          Still-Compartments
            (λ i k p. elim (either i k p) [
              | inl (_, e) ↦ subst (λ (x : PendingInvocation). IsActive s x.agent) (sym e) live
              | inr old ↦ v.compartments.pending_active i k old
            ])
            opens;
      pendings = λ i k p. elim (either i k p) [
        | inl (e, f) ↦
            subst (λ x. PendingScoped bg t i x) (sym f)
              (subst (λ x. PendingScoped bg t x j) e scoped)
        | inr old ↦ Still-scoped i k old
      ];
      confinement = λ i k p c. elim (either i k p) [
        | inl (_, e) ↦
            subst (Confined bg t) (sym e)
              (new_Confined (fits (subst (λ x. contained x ≡ true) e c)))
        | inr old ↦ old_Confined fits i k old c
      ];
      challenges = λ i sc o. (opens i sc o).0;
      grants = λ key g h. v.grants key g (rw w.same_grants at h);
    }
