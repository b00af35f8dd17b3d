-- ===== src/Tests/Arrivals.antt =====
-- The properties of delegation, ingestion, inspection and tool removal, at the life of Tests/Scenario.
use einsof.Prelude.{none, ok, ◌≡◌, ◌↔◌, true}
use einsof.Collections.VecSet
use einsof.Event.{KernelAction}
use einsof.Outcomes.Removal.{Unreferenced, unregister_tool_iff}
use einsof.Safety.Arrivals.{
  Newborn, Absorbed, Answered, delegate-Newborn, ingest-Absorbed, authorize_inspected_lem,
}
use einsof.State.{initial}
use einsof.Tests.Facts.{authorized7, delegated1, heard, ingested6}
use einsof.Tests.Scenario.{bg, alice, fetch, second, inspection, s1, s3, s5, s6, s7, action_of}
use einsof.Transitions.Ingest.{ingest}
use einsof.Transitions.Registry.{unregister_tool}
use einsof.Types.{ConfLevel, IntegLevel, Disposition, root, tool_id_eq}

delegate-Newborn_example : Newborn s1 root alice
delegate-Newborn_example = delegate-Newborn initial bg root alice delegated1

ingest-Absorbed_example :
    (d : Disposition) × (action_of (ingest s5 bg alice none ConfLevel.restricted IntegLevel.trusted)
      ≡ KernelAction.ingest alice none ConfLevel.restricted IntegLevel.trusted d)
    × Absorbed bg s5 heard alice ConfLevel.restricted IntegLevel.trusted d
ingest-Absorbed_example =
    ingest-Absorbed s5 bg alice none ConfLevel.restricted IntegLevel.trusted ingested6

authorize_inspected_lem_example : Answered s6 bg second inspection s7
authorize_inspected_lem_example = authorize_inspected_lem s6 bg second inspection authorized7

unregister_tool_iff_example :
    (unregister_tool s3 fetch
      ≡ ok (
        record s3 { tool_registered = VecSet.remove s3.tool_registered fetch },
        KernelAction.unregister_tool fetch,
      ))
    ↔ ((VecSet.contains s3.tool_registered fetch ≡ true) × Unreferenced s3 fetch)
unregister_tool_iff_example = unregister_tool_iff s3 fetch
