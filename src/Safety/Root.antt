-- ===== src/Safety/Root.antt =====
-- A background whose root agent is not the one that `KernelState::initial` activates.
use einsof.Prelude.{Option, ok, ℕ, ◌≡◌, ◌≢◌, ◌⊎◌, inl, inr, refl, sym, subst, arith, eq-cases}
use einsof.Background.{BackgroundTheory}
use einsof.Collections.VecSet
use einsof.Collections.VecSet.Laws.{contains-insert, contains-remove, contains-new}
use einsof.Command.{Command, apply}
use einsof.Command.Reachable.{Reachable, done, step}
use einsof.Event.{KernelAction}
use einsof.Invariants.{IsActive}
use einsof.Outcomes.Admission.{begin_invocation-ok, authorize_inspected-ok}
use einsof.Outcomes.Labels.{ingest-ok, settle_invocation-ok, cross_output-ok}
use einsof.Outcomes.Structural.{
  register_tool-ok, unregister_tool-ok, delegate-ok, grant_capability-ok, grant_crossing-ok,
  revoke-ok, cascade_revoke-ok,
}
use einsof.State.{
  KernelState, initial, demote_all_of, drop_pending_of, drop_challenges_of, drop_grants_of,
  decrement_grant_at,
}
use einsof.Transitions.Agents.{delegated, clear_agent, grant_crossing}
use einsof.Transitions.Authorize.{resolved}
use einsof.Transitions.Begin.{BeginInput, begin_effect, begin_pend, begin_challenge, begin_consume}
use einsof.Transitions.Cross.{crossed, cross_consume, consume_evidence, release}
use einsof.Transitions.Ingest.{ingested}
use einsof.Transitions.Settle.{settled, settle_at, settle_demote, settle_absorb, settle_consume}
use einsof.Types.{
  AgentId, AssignmentDigest, InvocationId, ConfLevel, IntegLevel, Disposition, Outcome,
  PendingInvocation, ResolutionAttestation, CrossInput, CrossBranch, Verdict, Mode, root,
  agent_id_eq,
}

delegated-IsActive :
    (s : KernelState) (grantor grantee a : AgentId)
    → IsActive (delegated s grantor grantee) a
    → (a ≡ grantee) ⊎ IsActive s a
unfolding delegated drop_grants_of drop_challenges_of drop_pending_of
delegated-IsActive s grantor grantee a h =
    ground (arith, contains-insert s.agent_active grantee a, eq-cases grantee a)

clear_agent-IsActive :
    (s : KernelState) (b a : AgentId) → IsActive (clear_agent s b) a → IsActive s a
unfolding clear_agent drop_grants_of drop_challenges_of drop_pending_of
clear_agent-IsActive s b a h = ground (arith, contains-remove s.agent_active b a)

ingested-active :
    (s : KernelState) (a : AgentId) (l : ConfLevel) (li : IntegLevel) (d : Disposition)
    → (ingested s a l li d).agent_active ≡ s.agent_active
unfolding ingested demote_all_of
ingested-active s a l li d = ground arith

begun-active :
    (s : KernelState) {u : KernelState} (bg : BackgroundTheory) (q : BeginInput) (verdict : Verdict)
    (mode : Mode)
    → begin_effect s bg q verdict mode ≡ ok u
    → (begin_consume u q.inv).agent_active ≡ s.agent_active
unfolding begin_effect begin_pend begin_challenge begin_consume
begun-active s bg q verdict mode h = ground arith

settled-active :
    (s : KernelState) (inv : InvocationId) (j : PendingInvocation) (o : Outcome)
    (att : Option ResolutionAttestation)
    → (settled s inv j o att).agent_active ≡ s.agent_active
unfolding settled settle_consume settle_absorb settle_demote settle_at demote_all_of
settled-active s inv j o att = ground arith

crossed-active :
    (s : KernelState) (q : CrossInput) (b : CrossBranch) (d : Disposition)
    → (crossed s q b d).agent_active ≡ s.agent_active
unfolding crossed cross_consume consume_evidence release decrement_grant_at demote_all_of
crossed-active s q b d = ground arith

same-IsActive :
    (s t : KernelState) (a : AgentId)
    → t.agent_active ≡ s.agent_active
    → IsActive t a
    → IsActive s a
same-IsActive s t a e h = rw e at h

module _ (bg : BackgroundTheory) (s : KernelState) {t : KernelState} {act : KernelAction} where
  -- No command activates the background's root agent.
  apply-root :
      (c : Command)
      → apply c s bg ≡ ok (t, act)
      → IsActive t bg.root_agent
      → IsActive s bg.root_agent
  unfolding apply resolved
  apply-root (Command.register_tool tool) h live =
      let (_, e, _) = register_tool-ok s tool h in same-IsActive s t bg.root_agent (rw e refl) live
  apply-root (Command.unregister_tool tool) h live =
      let (_, _, e) = unregister_tool-ok s tool h in
      same-IsActive s t bg.root_agent (rw e refl) live
  apply-root (Command.delegate grantor grantee) h live =
      let (_, _, other, _, e) = delegate-ok s bg grantor grantee h in
      elim (delegated-IsActive s grantor grantee bg.root_agent
        (subst (λ x. IsActive x bg.root_agent) e live)) [
          | inl same ↦ absurd (other (sym same))
          | inr old ↦ old
        ]
  apply-root (Command.grant_capability parent child kind) h live =
      let (_, _, _, _, e) = grant_capability-ok s parent child kind h in
      same-IsActive s t bg.root_agent (rw e refl) live
  apply-root (Command.grant_crossing grantor agent assignment n) h live =
      let (_, old, e) = grant_crossing-ok s bg grantor agent assignment n h in
      same-IsActive s t bg.root_agent (rw e refl) live
  apply-root (Command.revoke parent target) h live =
      let (_, _, _, _, e) = revoke-ok s bg parent target h in
      clear_agent-IsActive s target bg.root_agent (subst (λ x. IsActive x bg.root_agent) e live)
  apply-root (Command.cascade_revoke child parent) h live =
      let (_, _, _, _, e) = cascade_revoke-ok s bg child parent h in
      clear_agent-IsActive s child bg.root_agent (subst (λ x. IsActive x bg.root_agent) e live)
  apply-root (Command.ingest agent src pconf pinteg) h live =
      let (d, _, _, _, e, _) = ingest-ok s bg agent src pconf pinteg h in
      same-IsActive s t bg.root_agent (rw e (ingested-active s agent pconf pinteg d)) live
  apply-root (Command.begin_invocation q) h live =
      let (u, _, effect, e, _) = begin_invocation-ok s bg q h in
      same-IsActive s t bg.root_agent (rw e (begun-active s bg q _ bg.mode effect)) live
  apply-root (Command.authorize_inspected inv att) h live =
      let (sc, _, _, _, e, _) = authorize_inspected-ok s bg inv att h in
      same-IsActive s t bg.root_agent (ground arith) live
  apply-root (Command.settle_invocation inv outcome att) h live =
      let (j, _, _, _, e) = settle_invocation-ok s inv outcome att h in
      same-IsActive s t bg.root_agent (rw e (settled-active s inv j outcome att)) live
  apply-root (Command.cross_output q) h live =
      let (d, _, _, _, _, _, _, e) = cross_output-ok s bg q h in
      same-IsActive s t bg.root_agent (rw e (crossed-active s q _ d)) live

initial-root : (a : AgentId) → IsActive initial a → a ≡ root
unfolding initial
initial-root a h =
    ground (arith, contains-insert VecSet.new root a, contains-new a, eq-cases root a)

Run-root :
    {bg : BackgroundTheory} {s : KernelState}
    → Reachable bg s
    → IsActive s bg.root_agent
    → bg.root_agent ≡ root
Run-root done h = initial-root _ h
Run-root {bg} (step {t} c r h) live = Run-root r (apply-root bg t c h live)

-- If the background's root agent is not the one that the initial state activates, no reachable state
-- accepts a grant_crossing.
pub grant_crossing-orphan :
    {bg : BackgroundTheory} {s t : KernelState} {act : KernelAction} (grantor agent : AgentId)
    (assignment : AssignmentDigest) (n : ℕ)
    → bg.root_agent ≢ root
    → Reachable bg s
    → grant_crossing s bg grantor agent assignment n ≢ ok (t, act)
unfolding grant_crossing
grant_crossing-orphan {bg} {s} grantor agent assignment n other r h =
    let live : IsActive s bg.root_agent = ground (arith, eq-cases grantor bg.root_agent) in
    other (Run-root r live)
