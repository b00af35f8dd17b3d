-- ===== src/Preservation/Grants.antt =====
-- The invariants across `grant_capability` and `grant_crossing`.
use einsof.Prelude.{ℕ, ok, ◌≡◌, refl, arith, eq-cases, inl, inr, subst, sym}
use einsof.Background.{BackgroundTheory}
use einsof.Capability.{CapKind, cap_kind_eq}
use einsof.Collections.VecMap
use einsof.Collections.VecMap.Laws.{get-insert}
use einsof.Collections.VecMap.Sets.{set_contains-insert_into}
use einsof.Event.{KernelAction}
use einsof.Invariants.{Inv, Tree, Compartments, Parent, IsActive, HoldsCap}
use einsof.Outcomes.Structural.{grant_capability-ok, grant_crossing-ok}
use einsof.Preservation.Frames.{
  Shrinks, Confinement-Shrinks, PendingScoped-keep, ChallengeScoped-keep,
}
use einsof.State.{KernelState}
use einsof.Transitions.Agents.{grant_capability, grant_crossing}
use einsof.Types.{AgentId, AssignmentDigest, CrossingKey, agent_id_eq, crossing_key_eq}

module _ {bg : BackgroundTheory} {s : KernelState} (v : Inv bg s) (parent child : AgentId)
    (cap : CapKind) (live : IsActive s child) (edge : Parent s child parent)
    (held : HoldsCap s parent cap) where
  abbrev after_cap : KernelState
  after_cap = record s { agent_cap = VecMap.insert_into s.agent_cap child cap }

  more : (a : AgentId) (k : CapKind) → HoldsCap s a k → HoldsCap after_cap a k
  more a k h = ground (arith, set_contains-insert_into s.agent_cap child a cap k)

  -- The new tree: the child's parent holds the capability, and no other agent gains one.
  with_cap-Tree : Tree bg after_cap
  with_cap-Tree = record {
    root_always_active = v.tree.root_always_active;
    parent_implies_active = v.tree.parent_implies_active;
    no_self_parent = v.tree.no_self_parent;
    root_no_parent = v.tree.root_no_parent;
    capability_subsumption = λ c p k h act has. more p k (
        ground (
          arith,
          set_contains-insert_into s.agent_cap child c cap k,
          eq-cases child c,
          eq-cases cap k,
          v.tree.capability_subsumption c p k h act,
        ));
    root_all_caps = λ k. more bg.root_agent k (v.tree.root_all_caps k);
  }

  with_cap-Compartments : Compartments after_cap
  with_cap-Compartments = record {
    cap_active = λ a k h. ground (
      arith,
      set_contains-insert_into s.agent_cap child a cap k,
      eq-cases child a,
      v.compartments.cap_active a k,
    );
    taint_active = v.compartments.taint_active;
    integ_active = v.compartments.integ_active;
    pending_active = v.compartments.pending_active;
    challenge_active = v.compartments.challenge_active;
    grant_active = v.compartments.grant_active;
  }

  with_cap-Shrinks : Shrinks bg s after_cap
  with_cap-Shrinks = record {
    records = λ inv j p c. (j, p, c, refl);
    caps = λ inv j k p h. more j.agent k h;
    conf = λ inv j l p c h. inl h;
    integ = λ inv j l p c h. inl h;
  }

  with_cap-Inv : Inv bg after_cap
  with_cap-Inv = record {
    tree = with_cap-Tree;
    compartments = with_cap-Compartments;
    pendings =
        λ inv j p. PendingScoped-keep inv j (v.pendings inv j p) (λ x. x) (λ x. x) (λ att x. x);
    confinement = Confinement-Shrinks v.confinement with_cap-Shrinks;
    challenges = λ inv sc o.
        let w = v.challenges inv sc o in
        ChallengeScoped-keep inv sc w w.no_pending (λ x. x) (λ x. x);
    grants = v.grants;
  }

pub grant_capability-Inv :
    {bg : BackgroundTheory} {s t : KernelState} {act : KernelAction} (parent child : AgentId)
    (cap : CapKind)
    → Inv bg s
    → grant_capability s parent child cap ≡ ok (t, act)
    → Inv bg t
grant_capability-Inv {bg} {s} parent child cap v h =
    let (_, live, edge, held, e) = grant_capability-ok s parent child cap h in
    subst (Inv bg) (sym e) (with_cap-Inv v parent child cap live edge held)

module _ {bg : BackgroundTheory} {s : KernelState} (v : Inv bg s) (key : CrossingKey) (n : ℕ)
    (live : IsActive s key.agent) where
  abbrev after_grant : KernelState
  after_grant = record s {
    crossing_grants =
        VecMap.insert s.crossing_grants key (record { remaining = n; provisioned = n });
  }

  with_grant-Shrinks : Shrinks bg s after_grant
  with_grant-Shrinks = record {
    records = λ inv j p c. (j, p, c, refl);
    caps = λ inv j k p h. h;
    conf = λ inv j l p c h. inl h;
    integ = λ inv j l p c h. inl h;
  }

  with_grant-Inv : Inv bg after_grant
  with_grant-Inv = record {
    tree = assumption v.tree;
    compartments = record {
      cap_active = v.compartments.cap_active;
      taint_active = v.compartments.taint_active;
      integ_active = v.compartments.integ_active;
      pending_active = v.compartments.pending_active;
      challenge_active = v.compartments.challenge_active;
      grant_active = λ k g h. elim (eq-cases key k) [
        | inl (_, e) ↦ subst (λ (x : CrossingKey). IsActive s x.agent) e live
        | inr (f, _) ↦ v.compartments.grant_active k g (
            ground (
              arith,
              get-insert s.crossing_grants key k (record { remaining = n; provisioned = n }),
            ))
      ];
    };
    pendings =
        λ inv j p. PendingScoped-keep inv j (v.pendings inv j p) (λ x. x) (λ x. x) (λ att x. x);
    confinement = Confinement-Shrinks v.confinement with_grant-Shrinks;
    challenges = λ inv sc o.
        let w = v.challenges inv sc o in
        ChallengeScoped-keep inv sc w w.no_pending (λ x. x) (λ x. x);
    grants = λ k g h. ground (
      arith,
      get-insert s.crossing_grants key k (record { remaining = n; provisioned = n }),
      v.grants k g,
    );
  }

pub grant_crossing-Inv :
    {bg : BackgroundTheory} {s t : KernelState} {act : KernelAction} (grantor agent : AgentId)
    (assignment : AssignmentDigest) (n : ℕ)
    → Inv bg s
    → grant_crossing s bg grantor agent assignment n ≡ ok (t, act)
    → Inv bg t
grant_crossing-Inv {bg} {s} grantor agent assignment n v h =
    let (_, live, e) = grant_crossing-ok s bg grantor agent assignment n h in
    subst (Inv bg) (sym e)
      (with_grant-Inv v (record { agent = agent; assignment = assignment }) n live)
