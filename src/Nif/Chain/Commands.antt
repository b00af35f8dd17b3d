-- ===== src/Nif/Chain/Commands.antt =====
-- The commands of a transcript.
use einsof.Prelude.{ℕ, List}
use einsof.Nif.Chain.Transcript.{u8, u32, string, bool, tagged, option, canonical_set, normalized}
use einsof.Nif.Chain.Tags.{
  conf_level_tag, integ_level_tag, egress_kind_tag, cap_kind_tag, outcome_tag,
}
use einsof.Nif.Wire.Commands.{
  RegisterToolCommandN, UnregisterToolCommandN, DelegateCommandN, GrantCapabilityCommandN,
  GrantCrossingCommandN, RevokeCommandN, CascadeRevokeCommandN, IngestCommandN,
  BeginInvocationCommandN, AuthorizeInspectedCommandN, SettleInvocationCommandN,
  CrossOutputCommandN,
}
use einsof.Nif.Command.{CommandN, command_tag}
use einsof.Nif.Chain.Structs.{
  write_policy, write_inspection, write_resolution, write_cross_input, policy_normal,
}

unfoldable pub write_register_tool : RegisterToolCommandN → List ℕ → List ℕ
write_register_tool v rest = string v.tool rest

unfoldable pub write_unregister_tool : UnregisterToolCommandN → List ℕ → List ℕ
write_unregister_tool v rest = string v.tool rest

unfoldable pub write_delegate : DelegateCommandN → List ℕ → List ℕ
write_delegate v rest = string v.grantor (string v.grantee rest)

unfoldable pub write_grant_capability : GrantCapabilityCommandN → List ℕ → List ℕ
write_grant_capability v rest = string v.parent (string v.child (tagged cap_kind_tag v.cap rest))

unfoldable pub write_grant_crossing : GrantCrossingCommandN → List ℕ → List ℕ
write_grant_crossing v rest = string v.grantor (string v.agent (string v.assignment (u32 v.n rest)))

unfoldable pub write_revoke : RevokeCommandN → List ℕ → List ℕ
write_revoke v rest = string v.parent (string v.target rest)

unfoldable pub write_cascade_revoke : CascadeRevokeCommandN → List ℕ → List ℕ
write_cascade_revoke v rest = string v.child (string v.parent rest)

unfoldable pub write_ingest : IngestCommandN → List ℕ → List ℕ
write_ingest v rest =
    string v.agent
      (option string v.src (tagged conf_level_tag v.pconf (tagged integ_level_tag v.pinteg rest)))

unfoldable pub write_begin_invocation : BeginInvocationCommandN → List ℕ → List ℕ
write_begin_invocation v rest = string v.agent (
    string v.inv (
      string v.challenge (
        write_policy v.policy
          (canonical_set egress_kind_tag v.egress (string v.args_hash (bool v.authorized rest))))))

unfoldable pub write_authorize_inspected : AuthorizeInspectedCommandN → List ℕ → List ℕ
write_authorize_inspected v rest = string v.inv (write_inspection v.attestation rest)

unfoldable pub write_settle_invocation : SettleInvocationCommandN → List ℕ → List ℕ
write_settle_invocation v rest =
    string v.inv (tagged outcome_tag v.outcome (option write_resolution v.resolution rest))

unfoldable pub write_cross_output : CrossOutputCommandN → List ℕ → List ℕ
write_cross_output v rest = write_cross_input v.input rest

unfoldable pub write_command_fields : CommandN → List ℕ → List ℕ
write_command_fields (CommandN.register_tool v) rest = write_register_tool v rest
write_command_fields (CommandN.unregister_tool v) rest = write_unregister_tool v rest
write_command_fields (CommandN.delegate v) rest = write_delegate v rest
write_command_fields (CommandN.grant_capability v) rest = write_grant_capability v rest
write_command_fields (CommandN.grant_crossing v) rest = write_grant_crossing v rest
write_command_fields (CommandN.revoke v) rest = write_revoke v rest
write_command_fields (CommandN.cascade_revoke v) rest = write_cascade_revoke v rest
write_command_fields (CommandN.ingest v) rest = write_ingest v rest
write_command_fields (CommandN.begin_invocation v) rest = write_begin_invocation v rest
write_command_fields (CommandN.authorize_inspected v) rest = write_authorize_inspected v rest
write_command_fields (CommandN.settle_invocation v) rest = write_settle_invocation v rest
write_command_fields (CommandN.cross_output v) rest = write_cross_output v rest

unfoldable pub write_command : CommandN → List ℕ → List ℕ
write_command c rest = u8 (command_tag c) (write_command_fields c rest)

unfoldable pub begin_normal : BeginInvocationCommandN → BeginInvocationCommandN
begin_normal v = record v {
  policy = policy_normal v.policy;
  egress = normalized egress_kind_tag v.egress;
}

-- The command as its transcript shows it.
unfoldable pub command_normal : CommandN → CommandN
command_normal (CommandN.register_tool v) = CommandN.register_tool v
command_normal (CommandN.begin_invocation v) = CommandN.begin_invocation (begin_normal v)
command_normal c = c
