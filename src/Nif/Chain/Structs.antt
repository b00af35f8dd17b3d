-- ===== src/Nif/Chain/Structs.antt =====
-- The structs of a transcript (`canonical_struct!` and the policy in ex_argus/native/argus_nif/src/chain.rs).
use einsof.Prelude.{ℕ, List}
use einsof.Nif.Chain.Transcript.{string, bool, tagged, option, canonical_set, normalized}
use einsof.Nif.Chain.Tags.{
  conf_level_tag, integ_level_tag, egress_kind_tag, cap_kind_tag, outcome_tag, fallback_tag,
}
use einsof.Nif.Wire.Structs.{
  ActionPolicySnapshotN, InspectionAttestationN, ResolutionAttestationN, ConformanceAttestationN,
  CrossInputN,
}

unfoldable pub write_inspection : InspectionAttestationN → List ℕ → List ℕ
write_inspection v rest = string v.id (
    string v.inv
      (string v.challenge (string v.args_hash (string v.policy_digest (bool v.positive rest)))))

unfoldable pub write_resolution : ResolutionAttestationN → List ℕ → List ℕ
write_resolution v rest = string v.id (string v.inv (tagged outcome_tag v.outcome rest))

unfoldable pub write_conformance : ConformanceAttestationN → List ℕ → List ℕ
write_conformance v rest = string v.id (
    string v.output (
      string v.src
        (string v.rcv (string v.descriptor (string v.assignment (bool v.positive rest))))))

unfoldable pub write_cross_input : CrossInputN → List ℕ → List ℕ
write_cross_input v rest = string v.src (
    string v.rcv (
      string v.crossing (
        string v.output_hash (
          string v.descriptor (
            tagged fallback_tag v.fallback (
              tagged integ_level_tag v.t_integ (
                option (tagged conf_level_tag) v.t_conf (
                  string v.assignment (
                    option write_conformance v.evidence (
                      tagged conf_level_tag v.released_conf
                        (tagged integ_level_tag v.released_integ rest)))))))))))

unfoldable pub write_policy : ActionPolicySnapshotN → List ℕ → List ℕ
write_policy v rest = string v.tool (
    canonical_set cap_kind_tag v.required_caps (
      tagged conf_level_tag v.conf_clearance (
        tagged integ_level_tag v.integ_floor (
          tagged integ_level_tag v.integ_inspect (
            tagged conf_level_tag v.output_conf (
              tagged integ_level_tag v.output_integ (
                canonical_set egress_kind_tag v.declared_egress (string v.policy_digest rest))))))))

-- The policy as its transcript shows it: its sets in the order of their tags, each member once.
unfoldable pub policy_normal : ActionPolicySnapshotN → ActionPolicySnapshotN
policy_normal v = record v {
  required_caps = normalized cap_kind_tag v.required_caps;
  declared_egress = normalized egress_kind_tag v.declared_egress;
}
