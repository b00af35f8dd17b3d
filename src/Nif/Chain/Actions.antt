-- ===== src/Nif/Chain/Actions.antt =====
-- The actions of a transcript.
use einsof.Prelude.{ℕ, List}
use einsof.Nif.Chain.Transcript.{u8, u32, string, bool, tagged, option}
use einsof.Nif.Chain.Tags.{
  conf_level_tag, integ_level_tag, cap_kind_tag, verdict_tag, disposition_tag, outcome_tag,
  cross_branch_tag,
}
use einsof.Nif.Wire.Actions.{
  RegisterToolActionN, UnregisterToolActionN, DelegateActionN, GrantCapabilityActionN,
  GrantCrossingActionN, RevokeActionN, CascadeRevokeActionN, IngestActionN, BeginInvocationActionN,
  AuthorizeInspectedActionN, SettleInvocationActionN, CrossOutputActionN,
}
use einsof.Nif.Event.{ActionN, action_tag}

unfoldable pub write_register_tool : RegisterToolActionN → List ℕ → List ℕ
write_register_tool v rest = string v.tool rest

unfoldable pub write_unregister_tool : UnregisterToolActionN → List ℕ → List ℕ
write_unregister_tool v rest = string v.tool rest

unfoldable pub write_delegate : DelegateActionN → List ℕ → List ℕ
write_delegate v rest = string v.grantor (string v.grantee rest)

unfoldable pub write_grant_capability : GrantCapabilityActionN → List ℕ → List ℕ
write_grant_capability v rest = string v.parent (string v.child (tagged cap_kind_tag v.cap rest))

unfoldable pub write_grant_crossing : GrantCrossingActionN → List ℕ → List ℕ
write_grant_crossing v rest = string v.grantor (string v.agent (string v.assignment (u32 v.n rest)))

unfoldable pub write_revoke : RevokeActionN → List ℕ → List ℕ
write_revoke v rest = string v.parent (string v.target rest)

unfoldable pub write_cascade_revoke : CascadeRevokeActionN → List ℕ → List ℕ
write_cascade_revoke v rest = string v.child (string v.parent rest)

unfoldable pub write_ingest : IngestActionN → List ℕ → List ℕ
write_ingest v rest = string v.agent (
    option string v.src (
      tagged conf_level_tag v.pconf
        (tagged integ_level_tag v.pinteg (tagged disposition_tag v.disposition rest))))

unfoldable pub write_begin_invocation : BeginInvocationActionN → List ℕ → List ℕ
write_begin_invocation v rest =
    string v.agent
      (string v.inv (string v.tool (tagged verdict_tag v.verdict (bool v.authorized rest))))

unfoldable pub write_authorize_inspected : AuthorizeInspectedActionN → List ℕ → List ℕ
write_authorize_inspected v rest = string v.inv (string v.attestation (bool v.admitted rest))

unfoldable pub write_settle_invocation : SettleInvocationActionN → List ℕ → List ℕ
write_settle_invocation v rest = string v.inv (
    string v.agent (
      tagged disposition_tag v.disposition (
        tagged outcome_tag v.outcome (
          tagged conf_level_tag v.clvl
            (tagged integ_level_tag v.ilvl (option string v.resolution rest))))))

unfoldable pub write_cross_output : CrossOutputActionN → List ℕ → List ℕ
write_cross_output v rest = string v.src (
    string v.rcv (
      string v.crossing
        (tagged cross_branch_tag v.branch (tagged disposition_tag v.disposition rest))))

unfoldable pub write_action_fields : ActionN → List ℕ → List ℕ
write_action_fields (ActionN.register_tool v) rest = write_register_tool v rest
write_action_fields (ActionN.unregister_tool v) rest = write_unregister_tool v rest
write_action_fields (ActionN.delegate v) rest = write_delegate v rest
write_action_fields (ActionN.grant_capability v) rest = write_grant_capability v rest
write_action_fields (ActionN.grant_crossing v) rest = write_grant_crossing v rest
write_action_fields (ActionN.revoke v) rest = write_revoke v rest
write_action_fields (ActionN.cascade_revoke v) rest = write_cascade_revoke v rest
write_action_fields (ActionN.ingest v) rest = write_ingest v rest
write_action_fields (ActionN.begin_invocation v) rest = write_begin_invocation v rest
write_action_fields (ActionN.authorize_inspected v) rest = write_authorize_inspected v rest
write_action_fields (ActionN.settle_invocation v) rest = write_settle_invocation v rest
write_action_fields (ActionN.cross_output v) rest = write_cross_output v rest

unfoldable pub write_action : ActionN → List ℕ → List ℕ
write_action c rest = u8 (action_tag c) (write_action_fields c rest)
