-- ===== src/Nif/Limits/Answers.antt =====
-- The texts of an accepted command's action: they are the command's or the state's, which preflight
-- bounds.
use mathlib.Core.Option
use einsof.Prelude.{
  ℕ, String, List, [], ◌∷◌, Option, none, some, Result, ok, err, >>=-ok, ◌≡◌, sym, ap, ◌∙◌, subst,
  arith, eq-cases, Option-cases, inl, inr,
}
use einsof.Background.{BackgroundTheory}
use einsof.Collections.VecMap
use einsof.Collections.VecMap.Laws.{lookup, get_cloned-lookup}
use einsof.Command as Kernel
use einsof.Error.{KernelError}
use einsof.Event.{KernelAction}
use einsof.Outcomes.Admission.{begin_invocation-ok}
use einsof.Outcomes.Answers.{
  unregister_tool-answer, grant_capability-answer, delegate-answer, grant_crossing-answer,
  revoke-answer, cascade_revoke-answer, cross_output-answer, authorize_inspected-answer,
  settle_invocation-answer,
}
use einsof.Outcomes.Labels.{ingest-ok}
use einsof.Outcomes.Structural.{register_tool-ok}
use einsof.State.{KernelState}
use einsof.Transitions.Settle.{resolution_id}
use einsof.Types.{AgentId, InvocationId, PendingInvocation, invocation_id_eq}
use einsof.Nif.Chain.Cancel.Actions.{FitsAction}
use einsof.Nif.Chain.Cancel.Commands.{FitsCommand}
use einsof.Nif.Chain.Cancel.Plain.{IsShort, FitsOption}
use einsof.Nif.Chain.Cancel.Structs.{FitsResolution}
use einsof.Nif.Command.{CommandN, command_into_kernel, reply_from_kernel}
use einsof.Nif.Command
use einsof.Nif.Event.{ActionN, action_from_kernel}
use einsof.Nif.Limits.Bounds.{max_opaque_utf8_bytes}
use einsof.Nif.Limits.Budget.{TextBudget, new, add, add_all, add_each, check_next, check_len}
use einsof.Nif.Limits.Fits.{AllShort, HasU32Count, check_len-le, preflight-Fits}
use einsof.Nif.Limits.Preflight.{preflight}
use einsof.Nif.Limits.State.{pending_texts, retained_text, check_state_shape, checked_state_text}
use einsof.Nif.Text.{len}
use einsof.Nif.Wire.Structs.{
  policy_into_kernel, ResolutionAttestationN, resolution_into_kernel, inspection_into_kernel,
  cross_input_into_kernel,
}

add_all-AllShort :
    (xs : List String) (b : TextBudget) {total : TextBudget} → add_all b xs ≡ ok total → AllShort xs
unfolding add_all add
add_all-AllShort [] b h = tt
add_all-AllShort (x ∷ xs) b h =
    let first = >>=-ok (add b x) _ h in
    let size = >>=-ok (check_len (len x) max_opaque_utf8_bytes) _ first.1 in
    let le = check_len-le (len x) max_opaque_utf8_bytes size.1 in
    (omega (arith, le), add_all-AllShort xs first.0 first.2)

-- The owner of a pending record is among the texts that are counted.
owner_counted :
    (xs : List (InvocationId × PendingInvocation)) (b : TextBudget) {total : TextBudget}
    (inv : InvocationId) {j : PendingInvocation}
    → add_each (λ x. x.0.text ∷ pending_texts x.1) xs b ≡ ok total
    → lookup inv xs ≡ some j
    → IsShort j.agent.text
unfolding add_each lookup pending_texts
owner_counted [] b inv h p = absurd (ground arith)
owner_counted (x ∷ xs) b inv {j} h p =
    let first = >>=-ok (add_all b (x.0.text ∷ pending_texts x.1)) _ h in
    elim (Option-cases (lookup inv xs)) [
      | inr (k, q) ↦
          let same : k ≡ j = ground (arith, q) in
          owner_counted xs first.0 inv first.2 (q ∙ ap some same)
      | inl q ↦
          let here : x.1 ≡ j = ground (arith, eq-cases x.0 inv) in
          let short = add_all-AllShort (x.0.text ∷ pending_texts x.1) b first.1 in
          subst (λ (j : PendingInvocation). IsShort j.agent.text) here short.1.0
    ]

retained_text-owner :
    (s : KernelState) {total : TextBudget} (inv : InvocationId) {j : PendingInvocation}
    → retained_text s ≡ ok total
    → VecMap.get_cloned s.pending inv ≡ some j
    → IsShort j.agent.text
unfolding retained_text
retained_text-owner s inv h p =
    let a = >>=-ok (add_each _ s.agent_active.items new) _ h in
    let b = >>=-ok (add_each _ s.agent_parent.entries a.0) _ a.2 in
    let c = >>=-ok (add_each _ s.agent_cap.entries b.0) _ b.2 in
    let d = >>=-ok (add_each _ s.taint_levels.entries c.0) _ c.2 in
    let e = >>=-ok (add_each _ s.integ_levels.entries d.0) _ d.2 in
    let f = >>=-ok (add_each _ s.pending.entries e.0) _ e.2 in
    owner_counted s.pending.entries e.0 inv f.1 (sym (get_cloned-lookup s.pending inv) ∙ p)

-- What a state owes to the actions of its commands.
abbrev OwnersFit : KernelState → Type 0
OwnersFit s =
    (inv : InvocationId) (j : PendingInvocation)
    → VecMap.get_cloned s.pending inv ≡ some j
    → IsShort j.agent.text

resolution-Fits :
    (r : Option ResolutionAttestationN)
    → FitsOption FitsResolution r
    → FitsOption IsShort
        (Option.map (λ i. i.text) (resolution_id (Option.map resolution_into_kernel r)))
unfolding resolution_into_kernel
resolution-Fits none f = tt
resolution-Fits (some r) f = f.id

source-Fits :
    (src : Option String)
    → FitsOption IsShort src
    → FitsOption IsShort
        (Option.map (λ (i : AgentId). i.text) (Option.map (λ s. record { text = s }) src))
source-Fits none f = tt
source-Fits (some s) f = f

abbrev Answers : KernelAction → Type 0
Answers act = FitsAction (action_from_kernel act)

Kernel-Answers :
    (c : CommandN) (s t : KernelState) (bg : BackgroundTheory) (act : KernelAction)
    → FitsCommand c
    → OwnersFit s
    → Kernel.apply (command_into_kernel c) s bg ≡ ok (t, act)
    → Answers act
unfolding Kernel.apply command_into_kernel action_from_kernel policy_into_kernel
    inspection_into_kernel cross_input_into_kernel
Kernel-Answers (CommandN.register_tool c) s t bg act f o h =
    subst Answers (sym (register_tool-ok s _ h).2) (record { tool = f.tool })
Kernel-Answers (CommandN.unregister_tool c) s t bg act f o h =
    subst Answers (sym (unregister_tool-answer s _ h)) (record { tool = f.tool })
Kernel-Answers (CommandN.delegate c) s t bg act f o h =
    subst Answers (sym (delegate-answer s bg _ _ h))
      (record { grantor = f.grantor; grantee = f.grantee })
Kernel-Answers (CommandN.grant_capability c) s t bg act f o h =
    subst Answers (sym (grant_capability-answer s _ _ _ h))
      (record { parent = f.parent; child = f.child })
Kernel-Answers (CommandN.grant_crossing c) s t bg act f o h =
    subst Answers (sym (grant_crossing-answer s bg _ _ _ _ h))
      (record { grantor = f.grantor; agent = f.agent; assignment = f.assignment; n = f.n })
Kernel-Answers (CommandN.revoke c) s t bg act f o h =
    subst Answers (sym (revoke-answer s bg _ _ h)) (record { parent = f.parent; target = f.target })
Kernel-Answers (CommandN.cascade_revoke c) s t bg act f o h =
    subst Answers (sym (cascade_revoke-answer s bg _ _ h))
      (record { child = f.child; parent = f.parent })
Kernel-Answers (CommandN.ingest c) s t bg act f o h =
    let (d, _, _, _, _, e) = ingest-ok s bg _ _ _ _ h in
    subst Answers (sym e) (record { agent = f.agent; src = source-Fits c.src f.src })
Kernel-Answers (CommandN.begin_invocation c) s t bg act f o h =
    let (_, _, _, _, e) = begin_invocation-ok s bg _ h in
    subst Answers (sym e) (record { agent = f.agent; inv = f.inv; tool = f.policy.tool })
Kernel-Answers (CommandN.authorize_inspected c) s t bg act f o h =
    let (admit, e) = authorize_inspected-answer s bg _ _ h in
    subst Answers (sym e) (record { inv = f.inv; attestation = f.attestation.id })
Kernel-Answers (CommandN.settle_invocation c) s t bg act f o h =
    let (j, p, e) = settle_invocation-answer s _ _ _ h in
    subst Answers (sym e) (record {
      inv = f.inv;
      agent = o _ j p;
      resolution = resolution-Fits c.resolution f.resolution;
    })
Kernel-Answers (CommandN.cross_output c) s t bg act f o h =
    let (b, d, e) = cross_output-answer s bg _ h in
    subst Answers (sym e)
      (record { src = f.input.src; rcv = f.input.rcv; crossing = f.input.crossing })

reply-action :
    (r : Result KernelError (KernelState × KernelAction)) (next : KernelState) (act : ActionN)
    → reply_from_kernel r ≡ ok (next, act)
    → (a : KernelAction) × (r ≡ ok (next, a)) × (act ≡ action_from_kernel a)
unfolding reply_from_kernel
reply-action (ok (t, a)) next act h = (a, cc h, cc h)
reply-action (err e) next act h = absurd (ground arith)

-- If preflight lets a command through whose crossing count is a 32-bit number, and the kernel
-- accepts it, then every text and every list of the command and of its action has a 32-bit size, so
-- that the transcript's length fields do not wrap.
pub apply-FitsAction :
    (s next : KernelState) (sequence : ℕ) (command : CommandN) (bg : BackgroundTheory)
    (action : ActionN)
    → HasU32Count command
    → preflight s sequence command ≡ ok tt
    → Command.apply command s bg ≡ ok (next, action)
    → FitsCommand command × FitsAction action
unfolding Command.apply preflight checked_state_text
apply-FitsAction s next sequence command bg action u allowed stepped =
    let fits = (preflight-Fits s sequence command u allowed).1 in
    let text = >>=-ok (check_next sequence) _ allowed in
    let state = >>=-ok (checked_state_text s) _ text.2 in
    let shape = >>=-ok (check_state_shape s) _ state.1 in
    let (a, k, e) =
      reply-action (Kernel.apply (command_into_kernel command) s bg) next action stepped in
    (
      fits,
      subst FitsAction (sym e) (
          Kernel-Answers command s next bg a fits (λ inv j p. retained_text-owner s inv shape.2 p)
            k),
    )
