-- ===== src/Tests/Facts.antt =====
-- What the life of Tests/Scenario computes to, where a property needs it.
use einsof.Prelude.{none, true, false, some, ◌≡◌, refl, ok}
use einsof.Background.{BackgroundTheory}
use einsof.Capability
use einsof.Command.{Command, apply}
use einsof.Invariants.{Pends, IsActive}
use einsof.State.{KernelState, initial}
use einsof.Tests.Life.{runs1, runs4, runs7, runs9, runs12}
use einsof.Tests.Scenario.{
  c1, s1, bg, alice, first, second, request, inspection, resolution, crossing, state_of, action_of,
  is_ok, accepted, c4, c7, c9, c12, s3, s4, s5, s6, s7, s8, s9, s11, s12,
}
use einsof.Types.{
  IntegLevel, ConfLevel, Outcome, Mode, root, plain, permitted, endorsed, PendingInvocation,
}
use einsof.Types
use einsof.Background
use einsof.State
use einsof.Command
use einsof.Transitions.Cross
use einsof.Transitions.Holds
use einsof.Transitions.Checks
use einsof.Transitions.Settle
use einsof.Transitions.Ingest
use einsof.Transitions.Begin
use einsof.Transitions.Agents
use einsof.Transitions.Registry
use einsof.Transitions.Authorize
use einsof.Collections.VecSet
use einsof.Collections.VecMap

-- The record that the first request leaves.
abbrev pub record4 : PendingInvocation
record4 = record {
  agent = alice;
  policy = (request first ConfLevel.internal).policy;
  egress = (request first ConfLevel.internal).egress;
  admission = plain;
  disposition = permitted;
  authorized = true;
  quarantined = false;
}

facts :
    (bg.root_agent ≡ root)
    × (bg.mode ≡ Mode.enforce)
    × Pends s4 first record4
    × IsActive s4 alice
    × IsActive s5 alice
    × (Cross.choose_branch s11 crossing ≡ endorsed)
    × (Begin.begin_verdict s3 bg (request first ConfLevel.internal) ≡ Types.allow)
    × (Begin.begin_guards s3 bg (request first ConfLevel.internal) ≡ ok tt)
    × (is_ok (Agents.revoke s12 bg root alice) ≡ true)
    × (is_ok (Ingest.ingest s5 bg alice none ConfLevel.restricted IntegLevel.trusted) ≡ true)
unfolding Background.flow_allows Background.flow_inspects Background.new_builder
    Background.set_ceiling Background.set_egress_ceilings Background.set_mode
    Background.set_root_agent Background.build State.initial State.speculative_taint
    State.speculative_integ State.speculative_taint_contained State.drop_pending_of
    State.drop_challenges_of State.demoted State.demote_all_of State.decrement_grant_at
    State.drop_grants_of Command.apply Cross.evidence_ok Cross.endorsed_ok Cross.cross_holds
    Cross.source_busy Cross.fallback_branch Cross.choose_branch Cross.conf_bound Cross.check_bounds
    Cross.release Cross.consume_evidence Cross.cross_consume Cross.crossed Cross.cross_output
    Holds.ingest_conf_hold Holds.ingest_clear_hold Holds.ingest_integ_hold Holds.ingest_holds
    Checks.check_capability Checks.check_clearance Checks.check_flow Checks.check_integ
    Checks.egress_narrows Checks.egress_covers Checks.begin_admissible Settle.resolution_valid
    Settle.check_resolution Settle.settle_at Settle.settle_demote Settle.settle_absorb
    Settle.settle_consume Settle.settled Settle.settle_invocation Ingest.dominated
    Ingest.check_source Ingest.dispose Ingest.ingested Ingest.ingest Begin.begin_guards
    Begin.begin_verdict Begin.begin_record Begin.begin_pend Begin.begin_challenge Begin.deny_reason
    Begin.begin_effect Begin.begin_consume Begin.begin_invocation Agents.has_children
    Agents.edges_without Agents.delegated Agents.delegate Agents.is_child_of Agents.grant_capability
    Agents.grant_crossing Agents.clear_agent Agents.revoke Agents.cascade_revoke
    Registry.register_tool Registry.tool_referenced Registry.unregister_tool
    Authorize.authorize_admits Authorize.scope_matches Authorize.inspected_record Authorize.resolved
    Authorize.authorize_inspected VecSet.new VecSet.len VecSet.is_empty VecSet.for_from
    VecSet.for_items VecSet.contains_from VecSet.contains VecSet.insert VecSet.remove_from
    VecSet.remove VecSet.union_from VecSet.union_with VecMap.new VecMap.len VecMap.is_empty
    VecMap.contains_key_from VecMap.contains_key VecMap.find_from VecMap.find VecMap.get_cloned
    VecMap.insert VecMap.keep_from VecMap.remove VecMap.for_from VecMap.for_entries
    VecMap.get_set_or_empty VecMap.set_contains VecMap.insert_into VecMap.extend_into
    VecMap.remove_from Types.ConfLevel-discrete Types.IntegLevel-discrete Types.conf_rank
    Types.conf_le Types.integ_rank Types.integ_le Types.EgressKind-discrete Types.Verdict-discrete
    Types.Disposition-discrete Types.Mode-discrete Types.Outcome-discrete Types.Fallback-discrete
    Types.CrossBranch-discrete Types.contained Types.vouched Capability.CapKind-discrete
facts = (refl, refl, refl, refl, refl, refl, refl, refl, refl, refl)

pub bg_root : bg.root_agent ≡ root
bg_root = facts.0

pub bg_enforce : bg.mode ≡ Mode.enforce
bg_enforce = facts.1

pub pends4 : Pends s4 first record4
pends4 = facts.2

pub live4 : IsActive s4 alice
live4 = facts.3

pub live5 : IsActive s5 alice
live5 = facts.4

pub branch11 : Cross.choose_branch s11 crossing ≡ endorsed
branch11 = facts.5

pub verdict3 : Begin.begin_verdict s3 bg (request first ConfLevel.internal) ≡ Types.allow
verdict3 = facts.6

pub guards3 : Begin.begin_guards s3 bg (request first ConfLevel.internal) ≡ ok tt
guards3 = facts.7

pub begun4 :
    Begin.begin_invocation s3 bg (request first ConfLevel.internal)
    ≡ ok (s4, action_of (apply c4 s3 bg))
unfolding apply
begun4 = runs4

pub authorized7 :
    Authorize.authorize_inspected s6 bg second inspection ≡ ok (s7, action_of (apply c7 s6 bg))
unfolding apply
authorized7 = runs7

pub settled9 :
    Settle.settle_invocation s8 second Outcome.success (some resolution)
    ≡ ok (s9, action_of (apply c9 s8 bg))
unfolding apply
settled9 = runs9

pub crossed12 : Cross.cross_output s11 bg crossing ≡ ok (s12, action_of (apply c12 s11 bg))
unfolding apply
crossed12 = runs12

-- The state after the revocation of the first agent.
abbrev pub revoked : KernelState
revoked = state_of (Agents.revoke s12 bg root alice)

pub revoked13 :
    Agents.revoke s12 bg root alice ≡ ok (revoked, action_of (Agents.revoke s12 bg root alice))
revoked13 = accepted (Agents.revoke s12 bg root alice) facts.8

pub delegated1 : Agents.delegate initial bg root alice ≡ ok (s1, action_of (apply c1 initial bg))
unfolding apply
delegated1 = runs1

-- The state after a further ingestion by the first agent.
abbrev pub heard : KernelState
heard = state_of (Ingest.ingest s5 bg alice none ConfLevel.restricted IntegLevel.trusted)

pub ingested6 :
    Ingest.ingest s5 bg alice none ConfLevel.restricted IntegLevel.trusted
    ≡ ok (heard, action_of (Ingest.ingest s5 bg alice none ConfLevel.restricted IntegLevel.trusted))
ingested6 =
    accepted (Ingest.ingest s5 bg alice none ConfLevel.restricted IntegLevel.trusted) facts.9
