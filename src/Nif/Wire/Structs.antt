-- ===== src/Nif/Wire/Structs.antt =====
-- The structs of ex_argus/native/argus_nif/src/wire.rs that have a counterpart in the kernel.
use mathlib.Core.Option
use mathlib.Core.List.{map}
use einsof.Prelude.{Bool, String, List, Option}
use einsof.Collections.VecSet
use einsof.Capability.{cap_kind_eq}
use einsof.Types.{
  ActionPolicySnapshot, InspectionAttestation, ResolutionAttestation, ConformanceAttestation,
  CrossInput, egress_kind_eq,
}
use einsof.Nif.Enums.{
  ConfLevelN, conf_level_into_kernel, conf_level_from_kernel, IntegLevelN, integ_level_into_kernel,
  integ_level_from_kernel, EgressKindN, egress_kind_into_kernel, egress_kind_from_kernel, CapKindN,
  cap_kind_into_kernel, cap_kind_from_kernel, OutcomeN, outcome_into_kernel, outcome_from_kernel,
  FallbackN, fallback_into_kernel, fallback_from_kernel,
}

pub record ActionPolicySnapshotN : Type 0 where
  pub tool : String
  pub required_caps : List CapKindN
  pub conf_clearance : ConfLevelN
  pub integ_floor : IntegLevelN
  pub integ_inspect : IntegLevelN
  pub output_conf : ConfLevelN
  pub output_integ : IntegLevelN
  pub declared_egress : List EgressKindN
  pub policy_digest : String

unfoldable pub policy_into_kernel : ActionPolicySnapshotN → ActionPolicySnapshot
policy_into_kernel v = record {
  tool = record { text = v.tool };
  required_caps = VecSet.from_iter (map cap_kind_into_kernel v.required_caps);
  conf_clearance = conf_level_into_kernel v.conf_clearance;
  integ_floor = integ_level_into_kernel v.integ_floor;
  integ_inspect = integ_level_into_kernel v.integ_inspect;
  output_conf = conf_level_into_kernel v.output_conf;
  output_integ = integ_level_into_kernel v.output_integ;
  declared_egress = VecSet.from_iter (map egress_kind_into_kernel v.declared_egress);
  policy_digest = record { text = v.policy_digest };
}

unfoldable pub policy_from_kernel : ActionPolicySnapshot → ActionPolicySnapshotN
policy_from_kernel v = record {
  tool = v.tool.text;
  required_caps = map cap_kind_from_kernel v.required_caps.items;
  conf_clearance = conf_level_from_kernel v.conf_clearance;
  integ_floor = integ_level_from_kernel v.integ_floor;
  integ_inspect = integ_level_from_kernel v.integ_inspect;
  output_conf = conf_level_from_kernel v.output_conf;
  output_integ = integ_level_from_kernel v.output_integ;
  declared_egress = map egress_kind_from_kernel v.declared_egress.items;
  policy_digest = v.policy_digest.text;
}

pub record InspectionAttestationN : Type 0 where
  pub id : String
  pub inv : String
  pub challenge : String
  pub args_hash : String
  pub policy_digest : String
  pub positive : Bool

unfoldable pub inspection_into_kernel : InspectionAttestationN → InspectionAttestation
inspection_into_kernel v = record {
  id = record { text = v.id };
  inv = record { text = v.inv };
  challenge = record { text = v.challenge };
  args_hash = record { text = v.args_hash };
  policy_digest = record { text = v.policy_digest };
  positive = v.positive;
}

unfoldable pub inspection_from_kernel : InspectionAttestation → InspectionAttestationN
inspection_from_kernel v = record {
  id = v.id.text;
  inv = v.inv.text;
  challenge = v.challenge.text;
  args_hash = v.args_hash.text;
  policy_digest = v.policy_digest.text;
  positive = v.positive;
}

pub record ResolutionAttestationN : Type 0 where
  pub id : String
  pub inv : String
  pub outcome : OutcomeN

unfoldable pub resolution_into_kernel : ResolutionAttestationN → ResolutionAttestation
resolution_into_kernel v = record {
  id = record { text = v.id };
  inv = record { text = v.inv };
  outcome = outcome_into_kernel v.outcome;
}

unfoldable pub resolution_from_kernel : ResolutionAttestation → ResolutionAttestationN
resolution_from_kernel v = record {
  id = v.id.text;
  inv = v.inv.text;
  outcome = outcome_from_kernel v.outcome;
}

pub record ConformanceAttestationN : Type 0 where
  pub id : String
  pub output : String
  pub src : String
  pub rcv : String
  pub descriptor : String
  pub assignment : String
  pub positive : Bool

unfoldable pub conformance_into_kernel : ConformanceAttestationN → ConformanceAttestation
conformance_into_kernel v = record {
  id = record { text = v.id };
  output = record { text = v.output };
  src = record { text = v.src };
  rcv = record { text = v.rcv };
  descriptor = record { text = v.descriptor };
  assignment = record { text = v.assignment };
  positive = v.positive;
}

unfoldable pub conformance_from_kernel : ConformanceAttestation → ConformanceAttestationN
conformance_from_kernel v = record {
  id = v.id.text;
  output = v.output.text;
  src = v.src.text;
  rcv = v.rcv.text;
  descriptor = v.descriptor.text;
  assignment = v.assignment.text;
  positive = v.positive;
}

pub record CrossInputN : Type 0 where
  pub src : String
  pub rcv : String
  pub crossing : String
  pub output_hash : String
  pub descriptor : String
  pub fallback : FallbackN
  pub t_integ : IntegLevelN
  pub t_conf : Option ConfLevelN
  pub assignment : String
  pub evidence : Option ConformanceAttestationN
  pub released_conf : ConfLevelN
  pub released_integ : IntegLevelN

unfoldable pub cross_input_into_kernel : CrossInputN → CrossInput
cross_input_into_kernel v = record {
  src = record { text = v.src };
  rcv = record { text = v.rcv };
  crossing = record { text = v.crossing };
  output_hash = record { text = v.output_hash };
  descriptor = record { text = v.descriptor };
  fallback = fallback_into_kernel v.fallback;
  t_integ = integ_level_into_kernel v.t_integ;
  t_conf = Option.map conf_level_into_kernel v.t_conf;
  assignment = record { text = v.assignment };
  evidence = Option.map conformance_into_kernel v.evidence;
  released_conf = conf_level_into_kernel v.released_conf;
  released_integ = integ_level_into_kernel v.released_integ;
}

unfoldable pub cross_input_from_kernel : CrossInput → CrossInputN
cross_input_from_kernel v = record {
  src = v.src.text;
  rcv = v.rcv.text;
  crossing = v.crossing.text;
  output_hash = v.output_hash.text;
  descriptor = v.descriptor.text;
  fallback = fallback_from_kernel v.fallback;
  t_integ = integ_level_from_kernel v.t_integ;
  t_conf = Option.map conf_level_from_kernel v.t_conf;
  assignment = v.assignment.text;
  evidence = Option.map conformance_from_kernel v.evidence;
  released_conf = conf_level_from_kernel v.released_conf;
  released_integ = integ_level_from_kernel v.released_integ;
}
