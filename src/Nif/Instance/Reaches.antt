-- ===== src/Nif/Instance/Reaches.antt =====
-- The kernel states of live instances, and what a refused call leaves.
use einsof.Prelude.{List, Result, ok, err, ◌≡◌, refl, sym, ap, ◌∙◌, subst, arith}
use einsof.Background.{BackgroundTheory, build, set_mode, set_egress_ceilings, new_builder}
use einsof.Command.{Command}
use einsof.Command as Kernel
use einsof.Command.Reachable.{Reachable, Reachable-Inv, done, step}
use einsof.Error.{KernelError}
use einsof.Event.{KernelAction}
use einsof.Invariants.{Inv}
use einsof.State.{KernelState}
use einsof.Types.{root}
use einsof.Nif.Chain.Link.{Sha256}
use einsof.Nif.Command.{CommandN, command_into_kernel, reply_from_kernel}
use einsof.Nif.Command
use einsof.Nif.Event.{ActionN}
use einsof.Nif.Instance.Replay.{apply-Accepted}
use einsof.Nif.Instance.Resource.{
  InstanceState, LiveInstance, Applied, initial, applied, live_apply,
}
use einsof.Nif.Instance.Sessions.{
  live_at, Session, opened, accepted, refused, accepted_call, refused_call, live_new-at,
}
use einsof.Nif.Wire.Background.{
  BackgroundN, background_into_kernel, set_all_ceilings, set_ceilings_of,
}
use einsof.Nif.Wire.Envelope.{EnvelopeN}

reply-ok :
    (r : Result KernelError (KernelState × KernelAction)) (next : KernelState) (act : ActionN)
    → reply_from_kernel r ≡ ok (next, act)
    → (a : KernelAction) × (r ≡ ok (next, a))
unfolding reply_from_kernel
reply-ok (ok (t, a)) next act h = (a, cc h)
reply-ok (err e) next act h = absurd (ground arith)

-- An accepted command of the wire is an accepted command of the kernel.
kernel_step :
    (c : CommandN) (s next : KernelState) (bg : BackgroundTheory) (act : ActionN)
    → Command.apply c s bg ≡ ok (next, act)
    → (a : KernelAction) × (Kernel.apply (command_into_kernel c) s bg ≡ ok (next, a))
unfolding Command.apply
kernel_step c s next bg act h = reply-ok (Kernel.apply (command_into_kernel c) s bg) next act h

background-root : (v : BackgroundN) → (background_into_kernel v).root_agent ≡ root
unfolding background_into_kernel set_all_ceilings set_ceilings_of set_egress_ceilings build set_mode
    new_builder
background-root v = refl

module _ (sha : Sha256) (v : BackgroundN) where
  pub record Reaches (live : LiveInstance) : Type 0 where
    pub state : InstanceState
    pub is_live : live ≡ live_at v state
    pub reached : Reachable (background_into_kernel v) state.kernel
    pub invariants : Inv (background_into_kernel v) state.kernel

  accepted-Reaches :
      {live next : LiveInstance} {envelope : EnvelopeN} (command : CommandN)
      → Reaches live
      → live_apply sha live command ≡ (next, ok envelope)
      → Reaches next
  unfolding applied
  accepted-Reaches {live} {next} {envelope} command b h =
      let bg = background_into_kernel v in
      let (a, p, n, e) =
        accepted_call sha v b.state command next envelope
          (ap (λ l. live_apply sha l command) (sym b.is_live) ∙ h) in
      let w = apply-Accepted sha b.state bg command p in
      let (act, k) = kernel_step command b.state.kernel w.kernel bg w.action w.stepped in
      let to = step (command_into_kernel command) b.reached k in
      let same = ap (λ (x : Applied). x.next.kernel) w.result in
      let reached : Reachable bg a.next.kernel = subst (Reachable bg) (sym same) to in
      record {
        state = a.next;
        is_live = n;
        reached = reached;
        invariants = Reachable-Inv (background-root v) reached;
      }

  -- The kernel state of a live instance that apply calls lead to from a new one is reachable by
  -- accepted commands and satisfies all invariants of the specification.
  pub Session-Reaches :
      {live : LiveInstance} {log : List EnvelopeN} → Session sha v live log → Reaches live
  unfolding initial
  Session-Reaches opened = record {
    state = initial sha v;
    is_live = live_new-at sha v;
    reached = done;
    invariants = Reachable-Inv (background-root v) done;
  }
  Session-Reaches (accepted command s h) = accepted-Reaches command (Session-Reaches s) h
  Session-Reaches (refused {live} {next} {log} {e} command s h) =
      let b = Session-Reaches s in
      record {
        state = b.state;
        is_live =
            refused_call sha v b.state command next e
              (ap (λ l. live_apply sha l command) (sym b.is_live) ∙ h);
        reached = b.reached;
        invariants = b.invariants;
      }
