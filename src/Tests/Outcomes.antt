-- ===== src/Tests/Outcomes.antt =====
-- The properties of settlements, crossings and the background, at the life of Tests/Scenario.
use einsof.Prelude.{some}
use einsof.Outcomes.Crossings.{
  Conforms, GrantUsed, Bounded, cross_output-grant, cross_output-bounds,
}
use einsof.Outcomes.Settlement.{Settled, settle_invocation_lem}
use einsof.Tests.Facts.{branch11, settled9, crossed12}
use einsof.Tests.Scenario.{bg, second, resolution, crossing, s8, s9, s11, s12}
use einsof.Types.{Outcome, egress_kind_eq}

settle_invocation_lem_example : Settled s8 second Outcome.success (some resolution) s9
settle_invocation_lem_example =
    settle_invocation_lem s8 second Outcome.success (some resolution) settled9

cross_output-grant_example : Conforms s11 crossing × GrantUsed s11 crossing s12
cross_output-grant_example = cross_output-grant s11 bg crossing crossed12 branch11

cross_output-bounds_example : Bounded s11 crossing
cross_output-bounds_example = cross_output-bounds s11 bg crossing crossed12
