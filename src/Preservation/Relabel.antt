-- ===== src/Preservation/Relabel.antt =====
-- What ingestion, settlement and crossings have in common: one active agent gains labels, and pending
-- records stay, are quarantined, or are demoted under monitor.
use einsof.Prelude.{
  true, ◌≤◌, none, ◌≡◌, ◌≢◌, ◌⊎◌, inl, inr, sym, ap, ◌∙◌, subst, arith, eq-cases, Option-cases,
}
use einsof.Background.{BackgroundTheory}
use einsof.Collections.VecMap
use einsof.Collections.VecSet
use einsof.Invariants.{
  Inv, IsActive, HoldsConf, HoldsInteg, Pends, Granted, Tree, Compartments, PendingScoped, Accepts,
  AcceptsInteg,
}
use einsof.Preservation.Frames.{
  Shrinks, Confinement-Shrinks, PendingScoped-keep, ChallengeScoped-keep,
}
use einsof.State.{KernelState, demoted, demote_all_of}
use einsof.State.Views.{pending-demote}
use einsof.Types.{
  AgentId, InvocationId, AttestationId, PendingInvocation, ConfLevel, IntegLevel, CrossingKey,
  CrossingGrant, monitor, monitor_bypassed, contained, agent_id_eq, invocation_id_eq,
  attestation_id_eq, disposition_eq, Disposition-discrete, crossing_key_eq,
}

-- A pending record that came from another by a new quarantine flag, or by demotion under monitor.
pub record Derived (bg : BackgroundTheory) (i j : PendingInvocation) : Type 0 where
  pub same : j ≡ record i { disposition = j.disposition; quarantined = j.quarantined }
  pub changed :
      (j.disposition ≡ i.disposition) ⊎ ((j.disposition ≡ monitor_bypassed) × (bg.mode ≡ monitor))

-- The state that a transition reaches: only the labels of `a` grow.
pub record Moves (bg : BackgroundTheory) (s t : KernelState) (a : AgentId) : Type 0 where
  pub same_active : t.agent_active ≡ s.agent_active
  pub same_parent : t.agent_parent ≡ s.agent_parent
  pub same_cap : t.agent_cap ≡ s.agent_cap
  pub same_tools : t.tool_registered ≡ s.tool_registered
  pub same_ids : t.consumed_ids ≡ s.consumed_ids
  pub same_challenges : t.challenges ≡ s.challenges
  pub evidence_kept :
      (att : AttestationId)
      → VecSet.contains s.consumed_attestations att ≡ true
      → VecSet.contains t.consumed_attestations att ≡ true
  pub grants :
      (key : CrossingKey) (g : CrossingGrant)
      → Granted t key g
      → (h : CrossingGrant) × Granted s key h
        × (h.remaining ≤ h.provisioned → g.remaining ≤ g.provisioned)
  pub conf : (b : AgentId) (l : ConfLevel) → HoldsConf t b l → HoldsConf s b l ⊎ (b ≡ a)
  pub integ : (b : AgentId) (l : IntegLevel) → HoldsInteg t b l → HoldsInteg s b l ⊎ (b ≡ a)
  pub pend :
      (inv : InvocationId) (j : PendingInvocation)
      → Pends t inv j
      → (i : PendingInvocation) × Pends s inv i × Derived bg i j
  pub free :
      (inv : InvocationId)
      → VecMap.get_cloned s.pending inv ≡ none
      → VecMap.get_cloned t.pending inv ≡ none

-- And what `a` gains, its contained records accept.
pub record Relabels (bg : BackgroundTheory) (s t : KernelState) (a : AgentId) : Type 0 where
  pub moves : Moves bg s t a
  pub conf_ok :
      (inv : InvocationId) (j : PendingInvocation) (l : ConfLevel)
      → Pends t inv j
      → contained j ≡ true
      → j.agent ≡ a
      → HoldsConf t a l
      → HoldsConf s a l ⊎ Accepts bg j l
  pub integ_ok :
      (inv : InvocationId) (j : PendingInvocation) (l : IntegLevel)
      → Pends t inv j
      → contained j ≡ true
      → j.agent ≡ a
      → HoldsInteg t a l
      → HoldsInteg s a l ⊎ AcceptsInteg j l

module _ {bg : BackgroundTheory} {i j : PendingInvocation} (d : Derived bg i j) where
  pub Derived-agent : j.agent ≡ i.agent
  Derived-agent = ap (λ (x : PendingInvocation). x.agent) d.same

  pub Derived-contained :
      contained j ≡ true → (contained i ≡ true) × (j ≡ record i { quarantined = j.quarantined })
  unfolding contained Disposition-discrete
  Derived-contained c = elim d.changed [
    | inl e ↦ (
      ground arith,
      d.same ∙ ap (λ x. record i { disposition = x; quarantined = j.quarantined }) e,
    )
    | inr (e, _) ↦ absurd (ground arith)
  ]

  Derived-scoped :
      {s : KernelState} (inv : InvocationId) → PendingScoped bg s inv i → PendingScoped bg s inv j
  unfolding contained Disposition-discrete
  Derived-scoped {s} inv w = subst (PendingScoped bg s inv) (sym d.same) (record {
    registered = w.registered;
    not_root = w.not_root;
    id_consumed = w.id_consumed;
    attested = w.attested;
    coherent = w.coherent;
    evidence_consumed = w.evidence_consumed;
    bypassed_disposition =
        λ f. elim d.changed [ inl e ↦ w.bypassed_disposition (ground arith) | inr (_, m) ↦ m ];
    bypassed_admission = w.bypassed_admission;
    not_blocked = λ b. elim d.changed [
      | inl e ↦ w.not_blocked (sym e ∙ b)
      | inr (e, _) ↦ absurd (ground arith)
    ];
  })

module _ {bg : BackgroundTheory} {s t : KernelState} {a : AgentId} (v : Inv bg s)
    (live : IsActive s a) (r : Relabels bg s t a) where
  stays : (b : AgentId) → IsActive s b → IsActive t b
  stays b h = rw r.moves.same_active h

  Relabels-Tree : Tree bg t
  Relabels-Tree = record {
    root_always_active = stays bg.root_agent v.tree.root_always_active;
    parent_implies_active =
        λ c p h. stays c (v.tree.parent_implies_active c p (rw r.moves.same_parent at h));
    no_self_parent = λ x h. v.tree.no_self_parent x (rw r.moves.same_parent at h);
    root_no_parent = λ p h. v.tree.root_no_parent p (rw r.moves.same_parent at h);
    capability_subsumption = λ c p k h act held. rw r.moves.same_cap (
        v.tree.capability_subsumption c p k (rw r.moves.same_parent at h)
          (rw r.moves.same_active at act) (rw r.moves.same_cap at held));
    root_all_caps = λ k. rw r.moves.same_cap (v.tree.root_all_caps k);
  }

  Relabels-Compartments : Compartments t
  Relabels-Compartments = record {
    cap_active = λ b k h. stays b (v.compartments.cap_active b k (rw r.moves.same_cap at h));
    taint_active = λ b l h. stays b (elim (r.moves.conf b l h) [
      | inl old ↦ v.compartments.taint_active b l old
      | inr e ↦ subst (IsActive s) (sym e) live
    ]);
    integ_active = λ b l h. stays b (elim (r.moves.integ b l h) [
      | inl old ↦ v.compartments.integ_active b l old
      | inr e ↦ subst (IsActive s) (sym e) live
    ]);
    pending_active = λ inv j h.
        let (i, p, d) = r.moves.pend inv j h in
        stays j.agent
          (subst (IsActive s) (sym (Derived-agent d)) (v.compartments.pending_active inv i p));
    challenge_active = λ inv sc h.
        stays sc.agent (v.compartments.challenge_active inv sc (rw r.moves.same_challenges at h));
    grant_active = λ key g h.
        let (g', p, _) = r.moves.grants key g h in
        stays key.agent (v.compartments.grant_active key g' p);
  }

  Relabels-Shrinks : Shrinks bg s t
  Relabels-Shrinks = record {
    records = λ inv j p c.
        let (i, q, d) = r.moves.pend inv j p in
        let (ci, e) = Derived-contained d c in (i, q, ci, e);
    caps = λ inv j k p h. rw r.moves.same_cap h;
    conf = λ inv j l p c h. elim (r.moves.conf j.agent l h) [
      | inl old ↦ inl old
      | inr e ↦ elim (r.conf_ok inv j l p c e (subst (λ b. HoldsConf t b l) e h)) [
        | inl old ↦ inl (subst (λ b. HoldsConf s b l) (sym e) old)
        | inr ok ↦ inr ok
      ]
    ];
    integ = λ inv j l p c h. elim (r.moves.integ j.agent l h) [
      | inl old ↦ inl old
      | inr e ↦ elim (r.integ_ok inv j l p c e (subst (λ b. HoldsInteg t b l) e h)) [
        | inl old ↦ inl (subst (λ b. HoldsInteg s b l) (sym e) old)
        | inr ok ↦ inr ok
      ]
    ];
  }

  pub Relabels-Inv : Inv bg t
  Relabels-Inv = record {
    tree = Relabels-Tree;
    compartments = Relabels-Compartments;
    pendings = λ inv j p.
        let (i, q, d) = r.moves.pend inv j p in
        PendingScoped-keep inv j (Derived-scoped d inv (v.pendings inv i q))
          (λ x. rw r.moves.same_tools x) (λ x. rw r.moves.same_ids x) r.moves.evidence_kept;
    confinement = Confinement-Shrinks v.confinement Relabels-Shrinks;
    challenges = λ inv sc o.
        let w = v.challenges inv sc (rw r.moves.same_challenges at o) in
        ChallengeScoped-keep inv sc w (r.moves.free inv w.no_pending) (λ x. rw r.moves.same_tools x)
          (λ x. rw r.moves.same_ids x);
    grants = λ key g h. let (g', p, le) = r.moves.grants key g h in le (v.grants key g' p);
  }

-- Demotion: a record of the agent is contained no more, and no other record changes.
module _ (s : KernelState) (a : AgentId) where
  pub demote-pend :
      (bg : BackgroundTheory) (inv : InvocationId) (j : PendingInvocation)
      → bg.mode ≡ monitor
      → Pends (demote_all_of s a) inv j
      → (i : PendingInvocation) × Pends s inv i
        × Derived bg i j
        × (contained j ≡ true → j.agent ≢ a)
  unfolding demoted contained Disposition-discrete
  demote-pend bg inv j m h = elim (Option-cases (VecMap.get_cloned s.pending inv)) [
    | inl miss ↦ absurd (ground (arith, pending-demote s a inv))
    | inr (i, hit) ↦ (
      i,
      hit,
      record {
        same = ground (arith, pending-demote s a inv);
        changed = ground (arith, pending-demote s a inv);
      },
      λ c e. ground (arith, pending-demote s a inv, eq-cases i.agent a),
    )
  ]

  pub demote-free :
      (inv : InvocationId)
      → VecMap.get_cloned s.pending inv ≡ none
      → VecMap.get_cloned (demote_all_of s a).pending inv ≡ none
  demote-free inv h = ground (arith, pending-demote s a inv)

Derived-trans :
    {bg : BackgroundTheory} {i j k : PendingInvocation}
    → Derived bg i j
    → Derived bg j k
    → Derived bg i k
Derived-trans d e = record { same = ground (arith, d.same, e.same); changed = ground arith }

-- The demotion of the receiver's records under monitor restores what its new labels break.
pub Moves-demote :
    {bg : BackgroundTheory} {s t : KernelState} {a : AgentId}
    → Moves bg s t a
    → bg.mode ≡ monitor
    → Relabels bg s (demote_all_of t a) a
unfolding demote_all_of
Moves-demote {bg} {s} {t} {a} m mode = record {
  moves = record {
    same_active = m.same_active;
    same_parent = m.same_parent;
    same_cap = m.same_cap;
    same_tools = m.same_tools;
    same_ids = m.same_ids;
    same_challenges = m.same_challenges;
    evidence_kept = m.evidence_kept;
    grants = m.grants;
    conf = m.conf;
    integ = m.integ;
    pend = λ inv j p.
        let (i, q, d, _) = demote-pend t a bg inv j mode p in
        let (i', q', d') = m.pend inv i q in (i', q', Derived-trans d' d);
    free = λ inv h. demote-free t a inv (m.free inv h);
  };
  conf_ok =
      λ inv j l p c e h. let (_, _, _, gone) = demote-pend t a bg inv j mode p in absurd (gone c e);
  integ_ok =
      λ inv j l p c e h. let (_, _, _, gone) = demote-pend t a bg inv j mode p in absurd (gone c e);
}
