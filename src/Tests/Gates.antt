-- ===== src/Tests/Gates.antt =====
-- The properties of the gates and of the derived views, at the life of Tests/Scenario.
use einsof.Prelude.{true, false, ◌≡◌, ◌≢◌, ◌↔◌, arith}
use einsof.Gates.Fits.{Fits, Gate, Gate-Fits}
use einsof.Gates.Holds.{AllAccept, AllAcceptInteg, ingest_holds_iff}
use einsof.Outcomes.Admission.{begin_guards-BeginGuards}
use einsof.Outcomes.Verdict.{BeginAnswer, begin_verdict_iff, begin_invocation_lem}
use einsof.Tests.Facts.{verdict3, guards3}
use einsof.Tests.Scenario.{bg, alice, first, request, s3, s4}
use einsof.Transitions.Begin.{BeginInput, begin_verdict, begin_record}
use einsof.Transitions.Holds.{ingest_holds}
use einsof.Types.{
  ConfLevel, IntegLevel, allow, deny, plain, permitted, agent_id_eq, conf_level_eq, integ_level_eq,
  invocation_id_eq,
}

abbrev asked : BeginInput
asked = request first ConfLevel.internal

begin_verdict_iff_example :
    ((begin_verdict s3 bg asked ≡ allow) ↔ Gate bg s3 (begin_record asked plain permitted) true)
    × ((begin_verdict s3 bg asked ≢ deny) ↔ Gate bg s3 (begin_record asked plain permitted) false)
begin_verdict_iff_example = begin_verdict_iff s3 bg asked

begin_invocation_lem_example : BeginAnswer s3 bg asked
begin_invocation_lem_example =
    begin_invocation_lem s3 bg asked (begin_guards-BeginGuards s3 bg asked guards3)

strict-Gate : Gate bg s3 (begin_record asked plain permitted) true
strict-Gate = (begin_verdict_iff s3 bg asked).0.0 verdict3

Gate-Fits_example : Fits bg s3 (begin_record asked plain permitted)
Gate-Fits_example = Gate-Fits (λ f. absurd (ground arith)) strict-Gate

ingest_holds_iff_example :
    (ingest_holds s4 bg alice ConfLevel.internal IntegLevel.standard ≡ true)
    ↔ (AllAccept s4 bg alice ConfLevel.internal × AllAcceptInteg s4 alice IntegLevel.standard)
ingest_holds_iff_example = ingest_holds_iff s4 bg alice ConfLevel.internal IntegLevel.standard
