-- ===== src/Tests/Life.antt =====
-- The life of Tests/Scenario runs: the kernel accepts each of its commands.
use einsof.Prelude.{true, ◌≡◌, refl, ok}
use einsof.Background
use einsof.Capability
use einsof.Command.{Command, apply}
use einsof.Command
use einsof.Command.Reachable.{Reachable, done, step}
use einsof.State.{KernelState, initial}
use einsof.Tests.Scenario.{
  bg, action_of, is_ok, accepted, c1, s1, c2, s2, c3, s3, c4, s4, c5, s5, c6, s6, c7, s7, c8, s8,
  c9, s9, c10, s10, c11, s11, c12, s12,
}
use einsof.Types
use einsof.Background
use einsof.State
use einsof.Command
use einsof.Transitions.Cross
use einsof.Transitions.Holds
use einsof.Transitions.Checks
use einsof.Transitions.Settle
use einsof.Transitions.Ingest
use einsof.Transitions.Begin
use einsof.Transitions.Agents
use einsof.Transitions.Registry
use einsof.Transitions.Authorize
use einsof.Collections.VecSet
use einsof.Collections.VecMap

accepts :
    (is_ok (apply c1 initial bg) ≡ true)
    × (is_ok (apply c2 s1 bg) ≡ true)
    × (is_ok (apply c3 s2 bg) ≡ true)
    × (is_ok (apply c4 s3 bg) ≡ true)
    × (is_ok (apply c5 s4 bg) ≡ true)
    × (is_ok (apply c6 s5 bg) ≡ true)
    × (is_ok (apply c7 s6 bg) ≡ true)
    × (is_ok (apply c8 s7 bg) ≡ true)
    × (is_ok (apply c9 s8 bg) ≡ true)
    × (is_ok (apply c10 s9 bg) ≡ true)
    × (is_ok (apply c11 s10 bg) ≡ true)
    × (is_ok (apply c12 s11 bg) ≡ true)
unfolding Background.flow_allows Background.flow_inspects Background.new_builder
    Background.set_ceiling Background.set_egress_ceilings Background.set_mode
    Background.set_root_agent Background.build State.initial State.speculative_taint
    State.speculative_integ State.speculative_taint_contained State.drop_pending_of
    State.drop_challenges_of State.demoted State.demote_all_of State.decrement_grant_at
    State.drop_grants_of Command.apply Cross.evidence_ok Cross.endorsed_ok Cross.cross_holds
    Cross.source_busy Cross.fallback_branch Cross.choose_branch Cross.conf_bound Cross.check_bounds
    Cross.release Cross.consume_evidence Cross.cross_consume Cross.crossed Cross.cross_output
    Holds.ingest_conf_hold Holds.ingest_clear_hold Holds.ingest_integ_hold Holds.ingest_holds
    Checks.check_capability Checks.check_clearance Checks.check_flow Checks.check_integ
    Checks.egress_narrows Checks.egress_covers Checks.begin_admissible Settle.resolution_valid
    Settle.check_resolution Settle.settle_at Settle.settle_demote Settle.settle_absorb
    Settle.settle_consume Settle.settled Settle.settle_invocation Ingest.dominated
    Ingest.check_source Ingest.dispose Ingest.ingested Ingest.ingest Begin.begin_guards
    Begin.begin_verdict Begin.begin_record Begin.begin_pend Begin.begin_challenge Begin.deny_reason
    Begin.begin_effect Begin.begin_consume Begin.begin_invocation Agents.has_children
    Agents.edges_without Agents.delegated Agents.delegate Agents.is_child_of Agents.grant_capability
    Agents.grant_crossing Agents.clear_agent Agents.revoke Agents.cascade_revoke
    Registry.register_tool Registry.tool_referenced Registry.unregister_tool
    Authorize.authorize_admits Authorize.scope_matches Authorize.inspected_record Authorize.resolved
    Authorize.authorize_inspected VecSet.new VecSet.len VecSet.is_empty VecSet.for_from
    VecSet.for_items VecSet.contains_from VecSet.contains VecSet.insert VecSet.remove_from
    VecSet.remove VecSet.union_from VecSet.union_with VecMap.new VecMap.len VecMap.is_empty
    VecMap.contains_key_from VecMap.contains_key VecMap.find_from VecMap.find VecMap.get_cloned
    VecMap.insert VecMap.keep_from VecMap.remove VecMap.for_from VecMap.for_entries
    VecMap.get_set_or_empty VecMap.set_contains VecMap.insert_into VecMap.extend_into
    VecMap.remove_from Types.ConfLevel-discrete Types.IntegLevel-discrete Types.conf_rank
    Types.conf_le Types.integ_rank Types.integ_le Types.EgressKind-discrete Types.Verdict-discrete
    Types.Disposition-discrete Types.Mode-discrete Types.Outcome-discrete Types.Fallback-discrete
    Types.CrossBranch-discrete Types.contained Types.vouched Capability.CapKind-discrete
accepts = (refl, refl, refl, refl, refl, refl, refl, refl, refl, refl, refl, refl)

pub runs1 : apply c1 initial bg ≡ ok (s1, action_of (apply c1 initial bg))
runs1 = accepted (apply c1 initial bg) accepts.0

pub reach1 : Reachable bg s1
reach1 = step c1 done runs1

pub runs2 : apply c2 s1 bg ≡ ok (s2, action_of (apply c2 s1 bg))
runs2 = accepted (apply c2 s1 bg) accepts.1

pub reach2 : Reachable bg s2
reach2 = step c2 reach1 runs2

pub runs3 : apply c3 s2 bg ≡ ok (s3, action_of (apply c3 s2 bg))
runs3 = accepted (apply c3 s2 bg) accepts.2

pub reach3 : Reachable bg s3
reach3 = step c3 reach2 runs3

pub runs4 : apply c4 s3 bg ≡ ok (s4, action_of (apply c4 s3 bg))
runs4 = accepted (apply c4 s3 bg) accepts.3

pub reach4 : Reachable bg s4
reach4 = step c4 reach3 runs4

pub runs5 : apply c5 s4 bg ≡ ok (s5, action_of (apply c5 s4 bg))
runs5 = accepted (apply c5 s4 bg) accepts.4

pub reach5 : Reachable bg s5
reach5 = step c5 reach4 runs5

pub runs6 : apply c6 s5 bg ≡ ok (s6, action_of (apply c6 s5 bg))
runs6 = accepted (apply c6 s5 bg) accepts.5

pub reach6 : Reachable bg s6
reach6 = step c6 reach5 runs6

pub runs7 : apply c7 s6 bg ≡ ok (s7, action_of (apply c7 s6 bg))
runs7 = accepted (apply c7 s6 bg) accepts.6

pub reach7 : Reachable bg s7
reach7 = step c7 reach6 runs7

pub runs8 : apply c8 s7 bg ≡ ok (s8, action_of (apply c8 s7 bg))
runs8 = accepted (apply c8 s7 bg) accepts.7

pub reach8 : Reachable bg s8
reach8 = step c8 reach7 runs8

pub runs9 : apply c9 s8 bg ≡ ok (s9, action_of (apply c9 s8 bg))
runs9 = accepted (apply c9 s8 bg) accepts.8

pub reach9 : Reachable bg s9
reach9 = step c9 reach8 runs9

pub runs10 : apply c10 s9 bg ≡ ok (s10, action_of (apply c10 s9 bg))
runs10 = accepted (apply c10 s9 bg) accepts.9

pub reach10 : Reachable bg s10
reach10 = step c10 reach9 runs10

pub runs11 : apply c11 s10 bg ≡ ok (s11, action_of (apply c11 s10 bg))
runs11 = accepted (apply c11 s10 bg) accepts.10

pub reach11 : Reachable bg s11
reach11 = step c11 reach10 runs11

pub runs12 : apply c12 s11 bg ≡ ok (s12, action_of (apply c12 s11 bg))
runs12 = accepted (apply c12 s11 bg) accepts.11

pub reach12 : Reachable bg s12
reach12 = step c12 reach11 runs12
