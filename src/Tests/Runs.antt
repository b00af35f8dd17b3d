-- ===== src/Tests/Runs.antt =====
-- The properties of runs, at the life of Tests/Scenario.
use einsof.Prelude.{ne_of_beq, Bool, true, List, [], ◌∷◌, ◌++◌, ok, ◌≢◌, refl}
use einsof.Background.{BackgroundTheory}
use einsof.Command.{apply}
use einsof.Command.Preserves.{apply-Inv}
use einsof.Command.Reachable.{Reachable, initial-Inv, Reachable-Inv, done, step}
use einsof.Event.{KernelAction, KernelEvent}
use einsof.History.Replay.{
  Spent, begin_invocation-once, authorize_inspected-Spent, settle_invocation-Spent,
  cross_output-Spent, cross_output-once,
}
use einsof.Invariants.{Inv}
use einsof.Kernel.{Kernel, AuthorizerOracle, EventStore}
use einsof.Kernel
use einsof.Kernel.Commit.{Applied, apply_lem}
use einsof.Kernel.Driven.{Calls, Calls-Reachable, no_more, then_call}
use einsof.Kernel.Driven
use einsof.Safety.Containment.{Enforced, enforce-Enforced}
use einsof.Safety.Labels.{Keeps, apply-Keeps}
use einsof.Safety.Revocation.{Cleared, revoke-Cleared}
use einsof.Safety.Root.{grant_crossing-orphan}
use einsof.State.{initial}
use einsof.Tests.Facts.{
  record4, bg_root, bg_enforce, pends4, live4, live5, branch11, begun4, authorized7, settled9,
  crossed12, revoked, revoked13,
}
use einsof.Tests.Life.{runs1, runs5, reach4, reach12}
use einsof.Tests.Scenario.{
  bg, alice, digest, fetch, first, second, request, inspection, resolution, crossing, evidence, c1,
  c5, s1, s3, s4, s5, s6, s7, s8, s9, s11, s12,
}
use einsof.Transitions.Agents.{grant_crossing}
use einsof.Transitions.Begin.{begin_invocation}
use einsof.Transitions.Cross.{cross_output}
use einsof.Types.{ConfLevel, Outcome, root, agent_id_eq}

Reachable-Inv_example : Inv bg s12
Reachable-Inv_example = Reachable-Inv bg_root reach12

apply-Inv_example : Inv bg s1
apply-Inv_example = apply-Inv c1 (initial-Inv bg bg_root) runs1

enforce-Enforced_example : Enforced bg s4 first record4
enforce-Enforced_example = enforce-Enforced first record4 bg_root bg_enforce reach4 pends4

-- A store that keeps every event, and an authorizer that allows everything.
instance abbrev log_store : EventStore (List KernelEvent)
log_store = record { append = λ log event. (log ++ event ∷ [], ok tt) }

instance abbrev always : AuthorizerOracle Bool
always = record { allows = λ verdict _ _ _ _ _. (verdict, verdict) }

abbrev booted : Kernel Bool (List KernelEvent)
booted = Kernel.new bg true []

Calls-Reachable_example : Reachable bg (Kernel.register_tool booted fetch).0.state
Calls-Reachable_example =
    Calls-Reachable bg true [] (then_call no_more (Driven.register_tool fetch refl))

apply_lem_example : Applied booted (apply c1 initial bg)
apply_lem_example = apply_lem booted (apply c1 initial bg)

begin_invocation-once_example :
    begin_invocation s5 bg (request first ConfLevel.sensitive)
    ≢ ok (s5, KernelAction.register_tool fetch)
begin_invocation-once_example =
    begin_invocation-once bg s3 s5 (request first ConfLevel.internal)
      (request first ConfLevel.sensitive) begun4 (step c5 done runs5) refl

authorize_inspected-Spent_example : Spent s7 bg inspection.id
authorize_inspected-Spent_example =
    authorize_inspected-Spent bg s6 s7 second inspection authorized7 done

settle_invocation-Spent_example : Spent s9 bg resolution.id
settle_invocation-Spent_example =
    settle_invocation-Spent bg s8 s9 second Outcome.success resolution settled9 done

cross_output-Spent_example : Spent s12 bg evidence.id
cross_output-Spent_example =
    cross_output-Spent bg s11 s12 crossing evidence crossed12 branch11 refl done

cross_output-once_example :
    cross_output s12 bg crossing ≢ ok (s12, KernelAction.register_tool fetch)
cross_output-once_example = cross_output-once bg s11 s12 crossing crossing crossed12 done refl

apply-Keeps_example : Keeps s4 s5 alice
apply-Keeps_example = apply-Keeps bg s4 alice c5 runs5 live4 live5

revoke-Cleared_example : Cleared revoked alice
revoke-Cleared_example = revoke-Cleared root alice (Reachable-Inv bg_root reach12) revoked13

abbrev operated : BackgroundTheory
operated = record bg { root_agent = record { text = "op" } }

operator : operated.root_agent ≢ root
operator = ne_of_beq refl

grant_crossing-orphan_example :
    grant_crossing initial operated root alice digest 1
    ≢ ok (initial, KernelAction.register_tool fetch)
grant_crossing-orphan_example = grant_crossing-orphan root alice digest 1 operator done
