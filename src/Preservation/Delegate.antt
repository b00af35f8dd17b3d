-- ===== src/Preservation/Delegate.antt =====
-- The invariants across `delegate`.
use einsof.Prelude.{
  false, ◌&&◌, some, none, ◌==◌, ◌!=◌, if◌then◌else◌, ok, ◌≡◌, ◌≢◌, refl, arith, eq-cases,
  Option-cases, beq_refl, inl, inr, subst, sym,
}
use einsof.Background.{BackgroundTheory}
use einsof.Capability.{CapKind, cap_kind_eq}
use einsof.Collections.VecMap
use einsof.Collections.VecMap.Laws.{get-insert}
use einsof.Collections.VecMap.Loops.{get-rebuild}
use einsof.Collections.VecMap.Sets.{set_contains-remove}
use einsof.Collections.VecSet
use einsof.Collections.VecSet.Laws.{contains-insert}
use einsof.Event.{KernelAction}
use einsof.Invariants.{Inv, Tree, Compartments, Parent, IsActive, HoldsCap, HoldsConf, HoldsInteg}
use einsof.Outcomes.Structural.{delegate-ok}
use einsof.Preservation.Dropped.{
  drop_all-pending, drop_all-challenges, drop_all-grants, drop_all-free,
}
use einsof.Preservation.Frames.{
  Shrinks, Confinement-Shrinks, PendingScoped-keep, ChallengeScoped-keep,
}
use einsof.State.{KernelState, drop_pending_of, drop_challenges_of, drop_grants_of}
use einsof.Transitions.Agents.{has_children, edges_without, delegated, delegate}
use einsof.Types.{
  AgentId, ConfLevel, IntegLevel, agent_id_eq, invocation_id_eq, conf_level_eq, integ_level_eq,
}

module _ {bg : BackgroundTheory} {s : KernelState} (v : Inv bg s) (grantor grantee : AgentId)
    (live : IsActive s grantor) (new : VecSet.contains s.agent_active grantee ≡ false)
    (not_root : grantee ≢ bg.root_agent) (leaf : has_children s grantee ≡ false) where
  abbrev after : KernelState
  after = delegated s grantor grantee

  -- Before the bulk removal.
  abbrev before : KernelState
  before = record s {
    agent_active = VecSet.insert s.agent_active grantee;
    agent_parent = VecMap.insert (edges_without s grantee) grantee grantor;
    agent_cap = VecMap.remove s.agent_cap grantee;
    taint_levels = VecMap.remove s.taint_levels grantee;
    integ_levels = VecMap.remove s.integ_levels grantee;
  }

  -- An edge of the new tree is the new one, or an old one that does not touch the grantee.
  edge :
      (c : AgentId)
      → VecMap.get_cloned (VecMap.insert (edges_without s grantee) grantee grantor) c ≡ (
          if grantee == c then some grantor else (elim (VecMap.get_cloned s.agent_parent c) [
            | none ↦ none
            | some p ↦ if c != grantee && p != grantee then some p else none
          ]))
  unfolding edges_without
  edge c = ground (
    arith,
    get-insert (edges_without s grantee) grantee c grantor,
    get-rebuild (λ c p. c != grantee && p != grantee) (λ _ p. p) s.agent_parent c,
  )

  edge_old :
      (c p : AgentId)
      → VecMap.get_cloned (VecMap.insert (edges_without s grantee) grantee grantor) c ≡ some p
      → c ≢ grantee
      → Parent s c p × (p ≢ grantee)
  edge_old c p h n = elim (Option-cases (VecMap.get_cloned s.agent_parent c)) [
    | inl miss ↦ absurd (ground (arith, edge c, eq-cases grantee c))
    | inr (x, hit) ↦ ground (arith, edge c, eq-cases grantee c, eq-cases x grantee)
  ]

  edge_new :
      (p : AgentId)
      → VecMap.get_cloned (VecMap.insert (edges_without s grantee) grantee grantor) grantee ≡ some p
      → grantor ≡ p
  edge_new p h = ground (arith, edge grantee, beq_refl grantee)

  delegated-Tree : Tree bg after
  unfolding delegated drop_pending_of drop_challenges_of drop_grants_of
  delegated-Tree = record {
    root_always_active =
        ground
          (arith, v.tree.root_always_active, contains-insert s.agent_active grantee bg.root_agent);
    parent_implies_active = λ c p h. elim (eq-cases grantee c) [
      | inl (t, _) ↦ ground (arith, contains-insert s.agent_active grantee c)
      | inr (f, n) ↦ ground (
        arith,
        contains-insert s.agent_active grantee c,
        v.tree.parent_implies_active c p (edge_old c p h (λ e. n (sym e))).0,
      )
    ];
    no_self_parent = λ a h. elim (eq-cases grantee a) [
      | inl (t, e) ↦
          let self : grantor ≡ grantee = edge_new grantee (
            subst
              (λ x.
                VecMap.get_cloned (VecMap.insert (edges_without s grantee) grantee grantor) x
                ≡ some x)
              (sym e) h) in
          ground (arith, self, live, new)
      | inr (f, n) ↦ v.tree.no_self_parent a (edge_old a a h (λ e. n (sym e))).0
    ];
    root_no_parent =
        λ p h. v.tree.root_no_parent p (edge_old bg.root_agent p h (λ e. not_root (sym e))).0;
    capability_subsumption = λ c p k h act held. elim (eq-cases grantee c) [
      | inl (t, e) ↦ absurd (ground (arith, set_contains-remove s.agent_cap grantee c k))
      | inr (f, n) ↦
          let (old, other) = edge_old c p h (λ e. n (sym e)) in
          ground (
            arith,
            eq-cases grantee p,
            contains-insert s.agent_active grantee p,
            set_contains-remove s.agent_cap grantee c k,
            set_contains-remove s.agent_cap grantee p k,
            v.tree.capability_subsumption c p k old,
          )
    ];
    root_all_caps = λ k. ground (
      arith,
      v.tree.root_all_caps k,
      set_contains-remove s.agent_cap grantee bg.root_agent k,
      eq-cases grantee bg.root_agent,
    );
  }

  stays : (a : AgentId) → IsActive s a → IsActive after a
  unfolding delegated drop_pending_of drop_challenges_of drop_grants_of
  stays a h = ground (arith, contains-insert s.agent_active grantee a)

  caps : (a : AgentId) (k : CapKind) → HoldsCap after a k → HoldsCap s a k
  unfolding delegated drop_pending_of drop_challenges_of drop_grants_of
  caps a k h = ground (arith, set_contains-remove s.agent_cap grantee a k)

  caps_kept : (a : AgentId) (k : CapKind) → a ≢ grantee → HoldsCap s a k → HoldsCap after a k
  unfolding delegated drop_pending_of drop_challenges_of drop_grants_of
  caps_kept a k n h =
      ground (arith, set_contains-remove s.agent_cap grantee a k, eq-cases grantee a)

  confs : (a : AgentId) (l : ConfLevel) → HoldsConf after a l → HoldsConf s a l
  unfolding delegated drop_pending_of drop_challenges_of drop_grants_of
  confs a l h = ground (arith, set_contains-remove s.taint_levels grantee a l)

  integs : (a : AgentId) (l : IntegLevel) → HoldsInteg after a l → HoldsInteg s a l
  unfolding delegated drop_pending_of drop_challenges_of drop_grants_of
  integs a l h = ground (arith, set_contains-remove s.integ_levels grantee a l)

  delegated-Compartments : Compartments after
  unfolding delegated
  delegated-Compartments = record {
    cap_active = λ a k h. stays a (v.compartments.cap_active a k (caps a k h));
    taint_active = λ a l h. stays a (v.compartments.taint_active a l (confs a l h));
    integ_active = λ a l h. stays a (v.compartments.integ_active a l (integs a l h));
    pending_active = λ inv j h.
        stays j.agent
          (v.compartments.pending_active inv j (drop_all-pending before grantee inv j h).0);
    challenge_active = λ inv sc h.
        stays sc.agent
          (v.compartments.challenge_active inv sc (drop_all-challenges before grantee inv sc h).0);
    grant_active = λ key g h.
        stays key.agent
          (v.compartments.grant_active key g (drop_all-grants before grantee key g h).0);
  }

  delegated-Shrinks : Shrinks bg s after
  unfolding delegated
  delegated-Shrinks = record {
    records = λ inv j p c. (j, (drop_all-pending before grantee inv j p).0, c, refl);
    caps = λ inv j k p h. caps_kept j.agent k (drop_all-pending before grantee inv j p).1 h;
    conf = λ inv j l p c h. inl (confs j.agent l h);
    integ = λ inv j l p c h. inl (integs j.agent l h);
  }

  delegated-Inv : Inv bg after
  unfolding delegated drop_pending_of drop_challenges_of drop_grants_of
  delegated-Inv = record {
    tree = delegated-Tree;
    compartments = delegated-Compartments;
    pendings = λ inv j p.
        PendingScoped-keep inv j (v.pendings inv j (drop_all-pending before grantee inv j p).0)
          (λ x. x) (λ x. x) (λ att x. x);
    confinement = Confinement-Shrinks v.confinement delegated-Shrinks;
    challenges = λ inv sc o.
        let w = v.challenges inv sc (drop_all-challenges before grantee inv sc o).0 in
        ChallengeScoped-keep inv sc w (drop_all-free before grantee inv w.no_pending) (λ x. x)
          (λ x. x);
    grants = λ key g h. v.grants key g (drop_all-grants before grantee key g h).0;
  }

pub delegate-Inv :
    {bg : BackgroundTheory} {s t : KernelState} {act : KernelAction} (grantor grantee : AgentId)
    → Inv bg s
    → delegate s bg grantor grantee ≡ ok (t, act)
    → Inv bg t
delegate-Inv {bg} {s} grantor grantee v h =
    let (live, new, not_root, leaf, e) = delegate-ok s bg grantor grantee h in
    subst (Inv bg) (sym e) (delegated-Inv v grantor grantee live new not_root leaf)
