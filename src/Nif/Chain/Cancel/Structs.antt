-- ===== src/Nif/Chain/Cancel/Structs.antt =====
-- The structs of a transcript, read back.
use einsof.Prelude.{Option, none, some, length}
use einsof.Nif.Chain.Transcript.{tagged}
use einsof.Nif.Chain.Tags.{
  conf_level_tag, integ_level_tag, egress_kind_tag, cap_kind_tag, outcome_tag, fallback_tag,
}
use einsof.Nif.Chain.Cancel.Tags.{
  conf_level_tag_injective, integ_level_tag_injective, egress_kind_tag_injective,
  cap_kind_tag_injective, outcome_tag_injective, fallback_tag_injective,
}
use einsof.Nif.Chain.Cancel.Plain.{
  IsShort, IsU32, FitsOption, Cancels, string-cancel, bool-cancel, tagged-cancel, option-cancel,
  canonical_set-cancel,
}
use einsof.Nif.Enums.{ConfLevelN}
use einsof.Nif.Wire.Structs.{
  ActionPolicySnapshotN, InspectionAttestationN, ResolutionAttestationN, ConformanceAttestationN,
  CrossInputN,
}
use einsof.Nif.Chain.Structs.{
  write_policy, write_inspection, write_resolution, write_conformance, write_cross_input,
  policy_normal,
}

pub any_conf : (c : Option ConfLevelN) → FitsOption (λ (_ : ConfLevelN). Unit {0}) c
any_conf none = tt
any_conf (some c) = tt

pub record FitsInspection (v : InspectionAttestationN) : Type 0 where
  pub id : IsShort v.id
  pub inv : IsShort v.inv
  pub challenge : IsShort v.challenge
  pub args_hash : IsShort v.args_hash
  pub policy_digest : IsShort v.policy_digest

pub write_inspection-cancel : Cancels write_inspection FitsInspection (λ v. v)
unfolding write_inspection
write_inspection-cancel a b ga gb r s e =
    let p0 = string-cancel a.id b.id ga.id gb.id _ _ e in
    let p1 = string-cancel a.inv b.inv ga.inv gb.inv _ _ p0.1 in
    let p2 = string-cancel a.challenge b.challenge ga.challenge gb.challenge _ _ p1.1 in
    let p3 = string-cancel a.args_hash b.args_hash ga.args_hash gb.args_hash _ _ p2.1 in
    let p4 =
      string-cancel a.policy_digest b.policy_digest ga.policy_digest gb.policy_digest _ _ p3.1 in
    let p5 = bool-cancel a.positive b.positive tt tt _ _ p4.1 in
    (
      λ i. record {
        id = p0.0 i;
        inv = p1.0 i;
        challenge = p2.0 i;
        args_hash = p3.0 i;
        policy_digest = p4.0 i;
        positive = p5.0 i;
      },
      p5.1,
    )

pub record FitsResolution (v : ResolutionAttestationN) : Type 0 where
  pub id : IsShort v.id
  pub inv : IsShort v.inv

pub write_resolution-cancel : Cancels write_resolution FitsResolution (λ v. v)
unfolding write_resolution
write_resolution-cancel a b ga gb r s e =
    let p0 = string-cancel a.id b.id ga.id gb.id _ _ e in
    let p1 = string-cancel a.inv b.inv ga.inv gb.inv _ _ p0.1 in
    let p2 = tagged-cancel outcome_tag outcome_tag_injective a.outcome b.outcome tt tt _ _ p1.1 in
    (λ i. record { id = p0.0 i; inv = p1.0 i; outcome = p2.0 i }, p2.1)

pub record FitsConformance (v : ConformanceAttestationN) : Type 0 where
  pub id : IsShort v.id
  pub output : IsShort v.output
  pub src : IsShort v.src
  pub rcv : IsShort v.rcv
  pub descriptor : IsShort v.descriptor
  pub assignment : IsShort v.assignment

pub write_conformance-cancel : Cancels write_conformance FitsConformance (λ v. v)
unfolding write_conformance
write_conformance-cancel a b ga gb r s e =
    let p0 = string-cancel a.id b.id ga.id gb.id _ _ e in
    let p1 = string-cancel a.output b.output ga.output gb.output _ _ p0.1 in
    let p2 = string-cancel a.src b.src ga.src gb.src _ _ p1.1 in
    let p3 = string-cancel a.rcv b.rcv ga.rcv gb.rcv _ _ p2.1 in
    let p4 = string-cancel a.descriptor b.descriptor ga.descriptor gb.descriptor _ _ p3.1 in
    let p5 = string-cancel a.assignment b.assignment ga.assignment gb.assignment _ _ p4.1 in
    let p6 = bool-cancel a.positive b.positive tt tt _ _ p5.1 in
    (
      λ i. record {
        id = p0.0 i;
        output = p1.0 i;
        src = p2.0 i;
        rcv = p3.0 i;
        descriptor = p4.0 i;
        assignment = p5.0 i;
        positive = p6.0 i;
      },
      p6.1,
    )

pub record FitsCrossInput (v : CrossInputN) : Type 0 where
  pub src : IsShort v.src
  pub rcv : IsShort v.rcv
  pub crossing : IsShort v.crossing
  pub output_hash : IsShort v.output_hash
  pub descriptor : IsShort v.descriptor
  pub assignment : IsShort v.assignment
  pub evidence : FitsOption FitsConformance v.evidence

pub write_cross_input-cancel : Cancels write_cross_input FitsCrossInput (λ v. v)
unfolding write_cross_input
write_cross_input-cancel a b ga gb r s e =
    let p0 = string-cancel a.src b.src ga.src gb.src _ _ e in
    let p1 = string-cancel a.rcv b.rcv ga.rcv gb.rcv _ _ p0.1 in
    let p2 = string-cancel a.crossing b.crossing ga.crossing gb.crossing _ _ p1.1 in
    let p3 = string-cancel a.output_hash b.output_hash ga.output_hash gb.output_hash _ _ p2.1 in
    let p4 = string-cancel a.descriptor b.descriptor ga.descriptor gb.descriptor _ _ p3.1 in
    let p5 =
      tagged-cancel fallback_tag fallback_tag_injective a.fallback b.fallback tt tt _ _ p4.1 in
    let p6 =
      tagged-cancel integ_level_tag integ_level_tag_injective a.t_integ b.t_integ tt tt _ _ p5.1 in
    let p7 =
      option-cancel (tagged conf_level_tag) (λ _. Unit {0})
        (tagged-cancel conf_level_tag conf_level_tag_injective) a.t_conf b.t_conf
        (any_conf a.t_conf) (any_conf b.t_conf) _ _ p6.1 in
    let p8 = string-cancel a.assignment b.assignment ga.assignment gb.assignment _ _ p7.1 in
    let p9 =
      option-cancel write_conformance FitsConformance write_conformance-cancel a.evidence b.evidence
        ga.evidence gb.evidence _ _ p8.1 in
    let p10 =
      tagged-cancel conf_level_tag conf_level_tag_injective a.released_conf b.released_conf tt tt _
        _ p9.1 in
    let p11 =
      tagged-cancel integ_level_tag integ_level_tag_injective a.released_integ b.released_integ tt
        tt _ _ p10.1 in
    (
      λ i. record {
        src = p0.0 i;
        rcv = p1.0 i;
        crossing = p2.0 i;
        output_hash = p3.0 i;
        descriptor = p4.0 i;
        fallback = p5.0 i;
        t_integ = p6.0 i;
        t_conf = p7.0 i;
        assignment = p8.0 i;
        evidence = p9.0 i;
        released_conf = p10.0 i;
        released_integ = p11.0 i;
      },
      p11.1,
    )

pub record FitsPolicy (v : ActionPolicySnapshotN) : Type 0 where
  pub tool : IsShort v.tool
  pub required_caps : IsU32 (length v.required_caps)
  pub declared_egress : IsU32 (length v.declared_egress)
  pub policy_digest : IsShort v.policy_digest

pub write_policy-cancel : Cancels write_policy FitsPolicy policy_normal
unfolding write_policy policy_normal
write_policy-cancel a b ga gb r s e =
    let p0 = string-cancel a.tool b.tool ga.tool gb.tool _ _ e in
    let p1 =
      canonical_set-cancel cap_kind_tag cap_kind_tag_injective a.required_caps b.required_caps
        ga.required_caps gb.required_caps _ _ p0.1 in
    let p2 =
      tagged-cancel conf_level_tag conf_level_tag_injective a.conf_clearance b.conf_clearance tt tt
        _ _ p1.1 in
    let p3 =
      tagged-cancel integ_level_tag integ_level_tag_injective a.integ_floor b.integ_floor tt tt _ _
        p2.1 in
    let p4 =
      tagged-cancel integ_level_tag integ_level_tag_injective a.integ_inspect b.integ_inspect tt tt
        _ _ p3.1 in
    let p5 =
      tagged-cancel conf_level_tag conf_level_tag_injective a.output_conf b.output_conf tt tt _ _
        p4.1 in
    let p6 =
      tagged-cancel integ_level_tag integ_level_tag_injective a.output_integ b.output_integ tt tt _
        _ p5.1 in
    let p7 =
      canonical_set-cancel egress_kind_tag egress_kind_tag_injective a.declared_egress
        b.declared_egress ga.declared_egress gb.declared_egress _ _ p6.1 in
    let p8 =
      string-cancel a.policy_digest b.policy_digest ga.policy_digest gb.policy_digest _ _ p7.1 in
    (
      λ i. record {
        tool = p0.0 i;
        required_caps = p1.0 i;
        conf_clearance = p2.0 i;
        integ_floor = p3.0 i;
        integ_inspect = p4.0 i;
        output_conf = p5.0 i;
        output_integ = p6.0 i;
        declared_egress = p7.0 i;
        policy_digest = p8.0 i;
      },
      p8.1,
    )
