-- ===== src/Nif/Chain/Cancel/Command.antt =====
-- A whole command of a transcript, read back: its tag, then its fields.
use einsof.Prelude.{ap, arith}
use einsof.Nif.Chain.Cancel.Plain.{Cancels}
use einsof.Nif.Chain.Cancel.Commands.{
  FitsCommand, write_register_tool-cancel, write_unregister_tool-cancel, write_delegate-cancel,
  write_grant_capability-cancel, write_grant_crossing-cancel, write_revoke-cancel,
  write_cascade_revoke-cancel, write_ingest-cancel, write_begin_invocation-cancel,
  write_authorize_inspected-cancel, write_settle_invocation-cancel, write_cross_output-cancel,
}
use einsof.Nif.Chain.Commands.{write_command, write_command_fields, command_normal}
use einsof.Nif.Chain.Transcript.{u8}
use einsof.Nif.Command.{CommandN, command_tag}

pub write_command-cancel : Cancels write_command FitsCommand command_normal
unfolding write_command write_command_fields command_tag u8 command_normal
write_command-cancel (CommandN.register_tool a) (CommandN.register_tool b) ga gb r s e =
    let both = write_register_tool-cancel a b ga gb r s (cc e) in
    (ap CommandN.register_tool both.0, both.1)
write_command-cancel (CommandN.unregister_tool a) (CommandN.unregister_tool b) ga gb r s e =
    let both = write_unregister_tool-cancel a b ga gb r s (cc e) in
    (ap CommandN.unregister_tool both.0, both.1)
write_command-cancel (CommandN.delegate a) (CommandN.delegate b) ga gb r s e =
    let both = write_delegate-cancel a b ga gb r s (cc e) in (ap CommandN.delegate both.0, both.1)
write_command-cancel (CommandN.grant_capability a) (CommandN.grant_capability b) ga gb r s e =
    let both = write_grant_capability-cancel a b ga gb r s (cc e) in
    (ap CommandN.grant_capability both.0, both.1)
write_command-cancel (CommandN.grant_crossing a) (CommandN.grant_crossing b) ga gb r s e =
    let both = write_grant_crossing-cancel a b ga gb r s (cc e) in
    (ap CommandN.grant_crossing both.0, both.1)
write_command-cancel (CommandN.revoke a) (CommandN.revoke b) ga gb r s e =
    let both = write_revoke-cancel a b ga gb r s (cc e) in (ap CommandN.revoke both.0, both.1)
write_command-cancel (CommandN.cascade_revoke a) (CommandN.cascade_revoke b) ga gb r s e =
    let both = write_cascade_revoke-cancel a b ga gb r s (cc e) in
    (ap CommandN.cascade_revoke both.0, both.1)
write_command-cancel (CommandN.ingest a) (CommandN.ingest b) ga gb r s e =
    let both = write_ingest-cancel a b ga gb r s (cc e) in (ap CommandN.ingest both.0, both.1)
write_command-cancel (CommandN.begin_invocation a) (CommandN.begin_invocation b) ga gb r s e =
    let both = write_begin_invocation-cancel a b ga gb r s (cc e) in
    (ap CommandN.begin_invocation both.0, both.1)
write_command-cancel (CommandN.authorize_inspected a) (CommandN.authorize_inspected b) ga gb r s e =
    let both = write_authorize_inspected-cancel a b ga gb r s (cc e) in
    (ap CommandN.authorize_inspected both.0, both.1)
write_command-cancel (CommandN.settle_invocation a) (CommandN.settle_invocation b) ga gb r s e =
    let both = write_settle_invocation-cancel a b ga gb r s (cc e) in
    (ap CommandN.settle_invocation both.0, both.1)
write_command-cancel (CommandN.cross_output a) (CommandN.cross_output b) ga gb r s e =
    let both = write_cross_output-cancel a b ga gb r s (cc e) in
    (ap CommandN.cross_output both.0, both.1)
write_command-cancel _ _ ga gb r s e = ground arith
