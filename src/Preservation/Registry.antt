-- ===== src/Preservation/Registry.antt =====
-- The invariants across `register_tool` and `unregister_tool`.
use einsof.Prelude.{true, false, ◌==◌, ok, ◌≡◌, inl, refl, arith, eq-cases, subst, sym}
use einsof.Background.{BackgroundTheory}
use einsof.Collections.VecSet
use einsof.Collections.VecSet.Laws.{contains-insert, contains-remove}
use einsof.Event.{KernelAction}
use einsof.Invariants.{Inv, PendingsScoped, ChallengesScoped}
use einsof.Outcomes.Structural.{register_tool-ok, unregister_tool-ok, unreferenced}
use einsof.Preservation.Frames.{
  Shrinks, Confinement-Shrinks, PendingScoped-keep, ChallengeScoped-keep,
}
use einsof.State.{KernelState}
use einsof.Transitions.Registry.{register_tool, unregister_tool}
use einsof.Types.{ToolId, tool_id_eq}

module _ {bg : BackgroundTheory} {s : KernelState} (v : Inv bg s)
    (tools : VecSet.VecSet ToolId) where
  abbrev with_tools : KernelState
  with_tools = record s { tool_registered = tools }

  with_tools-Shrinks : Shrinks bg s with_tools
  with_tools-Shrinks = record {
    records = λ inv j p c. (j, p, c, refl);
    caps = λ inv j k p h. h;
    conf = λ inv j l p c h. inl h;
    integ = λ inv j l p c h. inl h;
  }

  -- Only the registry differs, and the tools in use stay in it.
  with_tools-Inv : PendingsScoped bg with_tools → ChallengesScoped bg with_tools → Inv bg with_tools
  with_tools-Inv pendings challenges = record {
    tree = assumption v.tree;
    compartments = assumption v.compartments;
    pendings = pendings;
    confinement = Confinement-Shrinks v.confinement with_tools-Shrinks;
    challenges = challenges;
    grants = v.grants;
  }

pub register_tool-Inv :
    {bg : BackgroundTheory} {s t : KernelState} {act : KernelAction} (tool : ToolId)
    → Inv bg s
    → register_tool s tool ≡ ok (t, act)
    → Inv bg t
register_tool-Inv {bg} {s} tool v h =
    let (_, e, _) = register_tool-ok s tool h in
    let grows = λ (x : ToolId) (held : VecSet.contains s.tool_registered x ≡ true).
      let y : VecSet.contains (VecSet.insert s.tool_registered tool) x ≡ true =
        ground (arith, contains-insert s.tool_registered tool x) in
      y in
    subst (Inv bg) (sym e) (
      with_tools-Inv v (VecSet.insert s.tool_registered tool)
        (λ inv j p.
          PendingScoped-keep inv j (v.pendings inv j p) (grows j.policy.tool) (λ i. i) (λ a i. i))
        (λ inv sc o.
          let w = v.challenges inv sc o in
          ChallengeScoped-keep inv sc w w.no_pending (grows sc.policy.tool) (λ i. i)))

pub unregister_tool-Inv :
    {bg : BackgroundTheory} {s t : KernelState} {act : KernelAction} (tool : ToolId)
    → Inv bg s
    → unregister_tool s tool ≡ ok (t, act)
    → Inv bg t
unregister_tool-Inv {bg} {s} tool v h =
    let (free, _, e) = unregister_tool-ok s tool h in
    let (pend, chal) = unreferenced s tool free in
    let stays =
      λ (x : ToolId) (other : (x == tool) ≡ false)
          (held : VecSet.contains s.tool_registered x ≡ true).
        let y : VecSet.contains (VecSet.remove s.tool_registered tool) x ≡ true =
          ground
            (arith, contains-remove s.tool_registered tool x, eq-cases x tool, eq-cases tool x) in
        y in
    subst (Inv bg) (sym e) (
      with_tools-Inv v (VecSet.remove s.tool_registered tool)
        (λ inv j p.
          PendingScoped-keep inv j (v.pendings inv j p) (stays j.policy.tool (pend inv j p))
            (λ i. i) (λ a i. i))
        (λ inv sc o.
          let w = v.challenges inv sc o in
          ChallengeScoped-keep inv sc w w.no_pending (stays sc.policy.tool (chal inv sc o))
            (λ i. i)))
