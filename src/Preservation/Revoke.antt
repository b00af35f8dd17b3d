-- ===== src/Preservation/Revoke.antt =====
-- The invariants across `revoke` and `cascade_revoke`.
use einsof.Prelude.{ok, ◌≡◌, ◌≢◌, refl, arith, eq-cases, inl, subst, sym}
use einsof.Background.{BackgroundTheory}
use einsof.Capability.{CapKind, cap_kind_eq}
use einsof.Collections.VecMap
use einsof.Collections.VecMap.Laws.{get-remove}
use einsof.Collections.VecMap.Sets.{set_contains-remove}
use einsof.Collections.VecSet
use einsof.Collections.VecSet.Laws.{contains-remove}
use einsof.Event.{KernelAction}
use einsof.Invariants.{Inv, Tree, Compartments, Parent, IsActive, HoldsCap, HoldsConf, HoldsInteg}
use einsof.Outcomes.Structural.{revoke-ok, cascade_revoke-ok}
use einsof.Preservation.Dropped.{
  drop_all-pending, drop_all-challenges, drop_all-grants, drop_all-free,
}
use einsof.Preservation.Frames.{
  Shrinks, Confinement-Shrinks, PendingScoped-keep, ChallengeScoped-keep,
}
use einsof.State.{KernelState, drop_pending_of, drop_challenges_of, drop_grants_of}
use einsof.Transitions.Agents.{clear_agent, revoke, cascade_revoke}
use einsof.Types.{
  AgentId, ConfLevel, IntegLevel, agent_id_eq, invocation_id_eq, conf_level_eq, integ_level_eq,
}

module _ {bg : BackgroundTheory} {s : KernelState} (v : Inv bg s) (target : AgentId)
    (not_root : target ≢ bg.root_agent) where
  abbrev after : KernelState
  after = clear_agent s target

  -- Before the bulk removal.
  abbrev before : KernelState
  before = record s {
    agent_active = VecSet.remove s.agent_active target;
    agent_parent = VecMap.remove s.agent_parent target;
    agent_cap = VecMap.remove s.agent_cap target;
    taint_levels = VecMap.remove s.taint_levels target;
    integ_levels = VecMap.remove s.integ_levels target;
  }

  edge_old : (c p : AgentId) → Parent after c p → Parent s c p × (c ≢ target)
  unfolding clear_agent drop_pending_of drop_challenges_of drop_grants_of
  edge_old c p h = ground (arith, get-remove s.agent_parent target c, eq-cases target c)

  stays : (a : AgentId) → a ≢ target → IsActive s a → IsActive after a
  unfolding clear_agent drop_pending_of drop_challenges_of drop_grants_of
  stays a n h = ground (arith, contains-remove s.agent_active target a, eq-cases target a)

  remains : (a : AgentId) → IsActive after a → IsActive s a × (a ≢ target)
  unfolding clear_agent drop_pending_of drop_challenges_of drop_grants_of
  remains a h = ground (arith, contains-remove s.agent_active target a, eq-cases target a)

  caps : (a : AgentId) (k : CapKind) → HoldsCap after a k → HoldsCap s a k × (a ≢ target)
  unfolding clear_agent drop_pending_of drop_challenges_of drop_grants_of
  caps a k h = ground (arith, set_contains-remove s.agent_cap target a k, eq-cases target a)

  caps_kept : (a : AgentId) (k : CapKind) → a ≢ target → HoldsCap s a k → HoldsCap after a k
  unfolding clear_agent drop_pending_of drop_challenges_of drop_grants_of
  caps_kept a k n h = ground (arith, set_contains-remove s.agent_cap target a k, eq-cases target a)

  confs : (a : AgentId) (l : ConfLevel) → HoldsConf after a l → HoldsConf s a l × (a ≢ target)
  unfolding clear_agent drop_pending_of drop_challenges_of drop_grants_of
  confs a l h = ground (arith, set_contains-remove s.taint_levels target a l, eq-cases target a)

  integs : (a : AgentId) (l : IntegLevel) → HoldsInteg after a l → HoldsInteg s a l × (a ≢ target)
  unfolding clear_agent drop_pending_of drop_challenges_of drop_grants_of
  integs a l h = ground (arith, set_contains-remove s.integ_levels target a l, eq-cases target a)

  clear_agent-Tree : Tree bg after
  clear_agent-Tree = record {
    root_always_active = stays bg.root_agent (λ e. not_root (sym e)) v.tree.root_always_active;
    parent_implies_active =
        λ c p h. let (old, n) = edge_old c p h in stays c n (v.tree.parent_implies_active c p old);
    no_self_parent = λ a h. v.tree.no_self_parent a (edge_old a a h).0;
    root_no_parent = λ p h. v.tree.root_no_parent p (edge_old bg.root_agent p h).0;
    capability_subsumption = λ c p k h act held.
        let (was, n) = remains p act in
        caps_kept p k n
          (v.tree.capability_subsumption c p k (edge_old c p h).0 was (caps c k held).0);
    root_all_caps = λ k. caps_kept bg.root_agent k (λ e. not_root (sym e)) (v.tree.root_all_caps k);
  }

  clear_agent-Compartments : Compartments after
  unfolding clear_agent
  clear_agent-Compartments = record {
    cap_active =
        λ a k h. let (old, n) = caps a k h in stays a n (v.compartments.cap_active a k old);
    taint_active =
        λ a l h. let (old, n) = confs a l h in stays a n (v.compartments.taint_active a l old);
    integ_active =
        λ a l h. let (old, n) = integs a l h in stays a n (v.compartments.integ_active a l old);
    pending_active = λ inv j h.
        let (old, n) = drop_all-pending before target inv j h in
        stays j.agent n (v.compartments.pending_active inv j old);
    challenge_active = λ inv sc h.
        let (old, n) = drop_all-challenges before target inv sc h in
        stays sc.agent n (v.compartments.challenge_active inv sc old);
    grant_active = λ key g h.
        let (old, n) = drop_all-grants before target key g h in
        stays key.agent n (v.compartments.grant_active key g old);
  }

  clear_agent-Shrinks : Shrinks bg s after
  unfolding clear_agent
  clear_agent-Shrinks = record {
    records = λ inv j p c. (j, (drop_all-pending before target inv j p).0, c, refl);
    caps = λ inv j k p h. caps_kept j.agent k (drop_all-pending before target inv j p).1 h;
    conf = λ inv j l p c h. inl (confs j.agent l h).0;
    integ = λ inv j l p c h. inl (integs j.agent l h).0;
  }

  clear_agent-Inv : Inv bg after
  unfolding clear_agent drop_pending_of drop_challenges_of drop_grants_of
  clear_agent-Inv = record {
    tree = clear_agent-Tree;
    compartments = clear_agent-Compartments;
    pendings = λ inv j p.
        PendingScoped-keep inv j (v.pendings inv j (drop_all-pending before target inv j p).0)
          (λ x. x) (λ x. x) (λ att x. x);
    confinement = Confinement-Shrinks v.confinement clear_agent-Shrinks;
    challenges = λ inv sc o.
        let w = v.challenges inv sc (drop_all-challenges before target inv sc o).0 in
        ChallengeScoped-keep inv sc w (drop_all-free before target inv w.no_pending) (λ x. x)
          (λ x. x);
    grants = λ key g h. v.grants key g (drop_all-grants before target key g h).0;
  }

pub revoke-Inv :
    {bg : BackgroundTheory} {s t : KernelState} {act : KernelAction} (parent target : AgentId)
    → Inv bg s
    → revoke s bg parent target ≡ ok (t, act)
    → Inv bg t
revoke-Inv {bg} {s} parent target v h =
    let (_, _, _, not_root, e) = revoke-ok s bg parent target h in
    subst (Inv bg) (sym e) (clear_agent-Inv v target not_root)

pub cascade_revoke-Inv :
    {bg : BackgroundTheory} {s t : KernelState} {act : KernelAction} (child parent : AgentId)
    → Inv bg s
    → cascade_revoke s bg child parent ≡ ok (t, act)
    → Inv bg t
cascade_revoke-Inv {bg} {s} child parent v h =
    let (_, _, _, not_root, e) = cascade_revoke-ok s bg child parent h in
    subst (Inv bg) (sym e) (clear_agent-Inv v child not_root)
