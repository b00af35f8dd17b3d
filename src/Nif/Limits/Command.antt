-- ===== src/Nif/Limits/Command.antt =====
-- `check_command` of ex_argus/native/argus_nif/src/limits.rs: the bounds on what a command carries.
use einsof.Prelude.{[], ◌∷◌, Option, none, some, Result, ok, ◌>>◌, length}
use einsof.Nif.Command.{CommandN}
use einsof.Nif.Event.{ErrorN}
use einsof.Nif.Limits.Bounds.{max_capabilities, max_egress_kinds}
use einsof.Nif.Limits.Budget.{check_len, check_texts}
use einsof.Nif.Wire.Structs.{
  ActionPolicySnapshotN, ConformanceAttestationN, CrossInputN, ResolutionAttestationN,
}
use einsof.Prelude.{String}

unfoldable pub check_policy : ActionPolicySnapshotN → Result ErrorN (Unit {0})
check_policy policy = do
  check_len (length policy.required_caps) max_capabilities
  check_len (length policy.declared_egress) max_egress_kinds

unfoldable pub check_evidence : ConformanceAttestationN → Result ErrorN (Unit {0})
check_evidence v = check_texts (v.id ∷ v.output ∷ v.src ∷ v.rcv ∷ v.descriptor ∷ v.assignment ∷ [])

unfoldable pub check_optional_evidence : Option ConformanceAttestationN → Result ErrorN (Unit {0})
check_optional_evidence none = ok tt
check_optional_evidence (some v) = check_evidence v

unfoldable pub check_cross_input : CrossInputN → Result ErrorN (Unit {0})
check_cross_input v = do
  check_texts (v.src ∷ v.rcv ∷ v.crossing ∷ v.output_hash ∷ v.descriptor ∷ v.assignment ∷ [])
  check_optional_evidence v.evidence

unfoldable pub check_source : Option String → Result ErrorN (Unit {0})
check_source none = ok tt
check_source (some src) = check_texts (src ∷ [])

unfoldable pub check_resolution : Option ResolutionAttestationN → Result ErrorN (Unit {0})
check_resolution none = ok tt
check_resolution (some r) = check_texts (r.id ∷ r.inv ∷ [])

unfoldable pub check_command : CommandN → Result ErrorN (Unit {0})
check_command (CommandN.register_tool c) = check_texts (c.tool ∷ [])
check_command (CommandN.unregister_tool c) = check_texts (c.tool ∷ [])
check_command (CommandN.delegate c) = check_texts (c.grantor ∷ c.grantee ∷ [])
check_command (CommandN.grant_capability c) = check_texts (c.parent ∷ c.child ∷ [])
check_command (CommandN.grant_crossing c) = check_texts (c.grantor ∷ c.agent ∷ c.assignment ∷ [])
check_command (CommandN.revoke c) = check_texts (c.parent ∷ c.target ∷ [])
check_command (CommandN.cascade_revoke c) = check_texts (c.child ∷ c.parent ∷ [])
check_command (CommandN.ingest c) = do check_texts (c.agent ∷ []); check_source c.src
check_command (CommandN.begin_invocation c) = do
  check_texts
      (c.agent ∷ c.inv ∷ c.challenge ∷ c.policy.tool ∷ c.policy.policy_digest ∷ c.args_hash ∷ [])
  check_policy c.policy
  check_len (length c.egress) max_egress_kinds
check_command (CommandN.authorize_inspected c) = check_texts (
    c.inv ∷ c.attestation.id ∷ c.attestation.inv ∷ c.attestation.challenge ∷ c.attestation.args_hash
    ∷ c.attestation.policy_digest ∷ [])
check_command (CommandN.settle_invocation c) = do
  check_texts (c.inv ∷ [])
  check_resolution c.resolution
check_command (CommandN.cross_output c) = check_cross_input c.input
