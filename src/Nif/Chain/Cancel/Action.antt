-- ===== src/Nif/Chain/Cancel/Action.antt =====
-- A whole action of a transcript, read back: its tag, then its fields.
use einsof.Prelude.{ap, arith}
use einsof.Nif.Chain.Cancel.Plain.{Cancels}
use einsof.Nif.Chain.Cancel.Actions.{
  FitsAction, write_register_tool-cancel, write_unregister_tool-cancel, write_delegate-cancel,
  write_grant_capability-cancel, write_grant_crossing-cancel, write_revoke-cancel,
  write_cascade_revoke-cancel, write_ingest-cancel, write_begin_invocation-cancel,
  write_authorize_inspected-cancel, write_settle_invocation-cancel, write_cross_output-cancel,
}
use einsof.Nif.Chain.Actions.{write_action, write_action_fields}
use einsof.Nif.Chain.Transcript.{u8}
use einsof.Nif.Event.{ActionN, action_tag}

pub write_action-cancel : Cancels write_action FitsAction (λ v. v)
unfolding write_action write_action_fields action_tag u8
write_action-cancel (ActionN.register_tool a) (ActionN.register_tool b) ga gb r s e =
    let both = write_register_tool-cancel a b ga gb r s (cc e) in
    (ap ActionN.register_tool both.0, both.1)
write_action-cancel (ActionN.unregister_tool a) (ActionN.unregister_tool b) ga gb r s e =
    let both = write_unregister_tool-cancel a b ga gb r s (cc e) in
    (ap ActionN.unregister_tool both.0, both.1)
write_action-cancel (ActionN.delegate a) (ActionN.delegate b) ga gb r s e =
    let both = write_delegate-cancel a b ga gb r s (cc e) in (ap ActionN.delegate both.0, both.1)
write_action-cancel (ActionN.grant_capability a) (ActionN.grant_capability b) ga gb r s e =
    let both = write_grant_capability-cancel a b ga gb r s (cc e) in
    (ap ActionN.grant_capability both.0, both.1)
write_action-cancel (ActionN.grant_crossing a) (ActionN.grant_crossing b) ga gb r s e =
    let both = write_grant_crossing-cancel a b ga gb r s (cc e) in
    (ap ActionN.grant_crossing both.0, both.1)
write_action-cancel (ActionN.revoke a) (ActionN.revoke b) ga gb r s e =
    let both = write_revoke-cancel a b ga gb r s (cc e) in (ap ActionN.revoke both.0, both.1)
write_action-cancel (ActionN.cascade_revoke a) (ActionN.cascade_revoke b) ga gb r s e =
    let both = write_cascade_revoke-cancel a b ga gb r s (cc e) in
    (ap ActionN.cascade_revoke both.0, both.1)
write_action-cancel (ActionN.ingest a) (ActionN.ingest b) ga gb r s e =
    let both = write_ingest-cancel a b ga gb r s (cc e) in (ap ActionN.ingest both.0, both.1)
write_action-cancel (ActionN.begin_invocation a) (ActionN.begin_invocation b) ga gb r s e =
    let both = write_begin_invocation-cancel a b ga gb r s (cc e) in
    (ap ActionN.begin_invocation both.0, both.1)
write_action-cancel (ActionN.authorize_inspected a) (ActionN.authorize_inspected b) ga gb r s e =
    let both = write_authorize_inspected-cancel a b ga gb r s (cc e) in
    (ap ActionN.authorize_inspected both.0, both.1)
write_action-cancel (ActionN.settle_invocation a) (ActionN.settle_invocation b) ga gb r s e =
    let both = write_settle_invocation-cancel a b ga gb r s (cc e) in
    (ap ActionN.settle_invocation both.0, both.1)
write_action-cancel (ActionN.cross_output a) (ActionN.cross_output b) ga gb r s e =
    let both = write_cross_output-cancel a b ga gb r s (cc e) in
    (ap ActionN.cross_output both.0, both.1)
write_action-cancel _ _ ga gb r s e = ground arith
