-- ===== src/Nif/Chain/Cancel/Commands.antt =====
-- The commands of a transcript, read back.
use einsof.Prelude.{length}
use einsof.Nif.Chain.Transcript.{string}
use einsof.Nif.Chain.Tags.{
  conf_level_tag, integ_level_tag, egress_kind_tag, cap_kind_tag, outcome_tag,
}
use einsof.Nif.Chain.Cancel.Tags.{
  conf_level_tag_injective, integ_level_tag_injective, egress_kind_tag_injective,
  cap_kind_tag_injective, outcome_tag_injective,
}
use einsof.Nif.Chain.Cancel.Plain.{
  IsShort, IsU32, FitsOption, Cancels, string-cancel, bool-cancel, u32-cancel, tagged-cancel,
  option-cancel, canonical_set-cancel,
}
use einsof.Nif.Wire.Commands.{
  RegisterToolCommandN, UnregisterToolCommandN, DelegateCommandN, GrantCapabilityCommandN,
  GrantCrossingCommandN, RevokeCommandN, CascadeRevokeCommandN, IngestCommandN,
  BeginInvocationCommandN, AuthorizeInspectedCommandN, SettleInvocationCommandN,
  CrossOutputCommandN,
}
use einsof.Nif.Command.{CommandN}
use einsof.Nif.Chain.Structs.{write_resolution}
use einsof.Nif.Chain.Cancel.Structs.{
  FitsPolicy, FitsInspection, FitsResolution, FitsCrossInput, write_policy-cancel,
  write_inspection-cancel, write_resolution-cancel, write_cross_input-cancel,
}
use einsof.Nif.Chain.Commands.{
  write_register_tool, write_unregister_tool, write_delegate, write_grant_capability,
  write_grant_crossing, write_revoke, write_cascade_revoke, write_ingest, write_begin_invocation,
  write_authorize_inspected, write_settle_invocation, write_cross_output, begin_normal,
}

pub record FitsRegisterTool (v : RegisterToolCommandN) : Type 0 where
  pub tool : IsShort v.tool

pub write_register_tool-cancel : Cancels write_register_tool FitsRegisterTool (λ v. v)
unfolding write_register_tool
write_register_tool-cancel a b ga gb r s e =
    let p0 = string-cancel a.tool b.tool ga.tool gb.tool _ _ e in
    (λ i. record { tool = p0.0 i }, p0.1)

pub record FitsUnregisterTool (v : UnregisterToolCommandN) : Type 0 where
  pub tool : IsShort v.tool

pub write_unregister_tool-cancel : Cancels write_unregister_tool FitsUnregisterTool (λ v. v)
unfolding write_unregister_tool
write_unregister_tool-cancel a b ga gb r s e =
    let p0 = string-cancel a.tool b.tool ga.tool gb.tool _ _ e in
    (λ i. record { tool = p0.0 i }, p0.1)

pub record FitsDelegate (v : DelegateCommandN) : Type 0 where
  pub grantor : IsShort v.grantor
  pub grantee : IsShort v.grantee

pub write_delegate-cancel : Cancels write_delegate FitsDelegate (λ v. v)
unfolding write_delegate
write_delegate-cancel a b ga gb r s e =
    let p0 = string-cancel a.grantor b.grantor ga.grantor gb.grantor _ _ e in
    let p1 = string-cancel a.grantee b.grantee ga.grantee gb.grantee _ _ p0.1 in
    (λ i. record { grantor = p0.0 i; grantee = p1.0 i }, p1.1)

pub record FitsGrantCapability (v : GrantCapabilityCommandN) : Type 0 where
  pub parent : IsShort v.parent
  pub child : IsShort v.child

pub write_grant_capability-cancel : Cancels write_grant_capability FitsGrantCapability (λ v. v)
unfolding write_grant_capability
write_grant_capability-cancel a b ga gb r s e =
    let p0 = string-cancel a.parent b.parent ga.parent gb.parent _ _ e in
    let p1 = string-cancel a.child b.child ga.child gb.child _ _ p0.1 in
    let p2 = tagged-cancel cap_kind_tag cap_kind_tag_injective a.cap b.cap tt tt _ _ p1.1 in
    (λ i. record { parent = p0.0 i; child = p1.0 i; cap = p2.0 i }, p2.1)

pub record FitsGrantCrossing (v : GrantCrossingCommandN) : Type 0 where
  pub grantor : IsShort v.grantor
  pub agent : IsShort v.agent
  pub assignment : IsShort v.assignment
  pub n : IsU32 v.n

pub write_grant_crossing-cancel : Cancels write_grant_crossing FitsGrantCrossing (λ v. v)
unfolding write_grant_crossing
write_grant_crossing-cancel a b ga gb r s e =
    let p0 = string-cancel a.grantor b.grantor ga.grantor gb.grantor _ _ e in
    let p1 = string-cancel a.agent b.agent ga.agent gb.agent _ _ p0.1 in
    let p2 = string-cancel a.assignment b.assignment ga.assignment gb.assignment _ _ p1.1 in
    let p3 = u32-cancel a.n b.n ga.n gb.n _ _ p2.1 in
    (λ i. record { grantor = p0.0 i; agent = p1.0 i; assignment = p2.0 i; n = p3.0 i }, p3.1)

pub record FitsRevoke (v : RevokeCommandN) : Type 0 where
  pub parent : IsShort v.parent
  pub target : IsShort v.target

pub write_revoke-cancel : Cancels write_revoke FitsRevoke (λ v. v)
unfolding write_revoke
write_revoke-cancel a b ga gb r s e =
    let p0 = string-cancel a.parent b.parent ga.parent gb.parent _ _ e in
    let p1 = string-cancel a.target b.target ga.target gb.target _ _ p0.1 in
    (λ i. record { parent = p0.0 i; target = p1.0 i }, p1.1)

pub record FitsCascadeRevoke (v : CascadeRevokeCommandN) : Type 0 where
  pub child : IsShort v.child
  pub parent : IsShort v.parent

pub write_cascade_revoke-cancel : Cancels write_cascade_revoke FitsCascadeRevoke (λ v. v)
unfolding write_cascade_revoke
write_cascade_revoke-cancel a b ga gb r s e =
    let p0 = string-cancel a.child b.child ga.child gb.child _ _ e in
    let p1 = string-cancel a.parent b.parent ga.parent gb.parent _ _ p0.1 in
    (λ i. record { child = p0.0 i; parent = p1.0 i }, p1.1)

pub record FitsIngest (v : IngestCommandN) : Type 0 where
  pub agent : IsShort v.agent
  pub src : FitsOption IsShort v.src

pub write_ingest-cancel : Cancels write_ingest FitsIngest (λ v. v)
unfolding write_ingest
write_ingest-cancel a b ga gb r s e =
    let p0 = string-cancel a.agent b.agent ga.agent gb.agent _ _ e in
    let p1 = option-cancel string IsShort string-cancel a.src b.src ga.src gb.src _ _ p0.1 in
    let p2 = tagged-cancel conf_level_tag conf_level_tag_injective a.pconf b.pconf tt tt _ _ p1.1 in
    let p3 =
      tagged-cancel integ_level_tag integ_level_tag_injective a.pinteg b.pinteg tt tt _ _ p2.1 in
    (λ i. record { agent = p0.0 i; src = p1.0 i; pconf = p2.0 i; pinteg = p3.0 i }, p3.1)

pub record FitsBeginInvocation (v : BeginInvocationCommandN) : Type 0 where
  pub agent : IsShort v.agent
  pub inv : IsShort v.inv
  pub challenge : IsShort v.challenge
  pub policy : FitsPolicy v.policy
  pub egress : IsU32 (length v.egress)
  pub args_hash : IsShort v.args_hash

pub write_begin_invocation-cancel : Cancels write_begin_invocation FitsBeginInvocation begin_normal
unfolding write_begin_invocation begin_normal
write_begin_invocation-cancel a b ga gb r s e =
    let p0 = string-cancel a.agent b.agent ga.agent gb.agent _ _ e in
    let p1 = string-cancel a.inv b.inv ga.inv gb.inv _ _ p0.1 in
    let p2 = string-cancel a.challenge b.challenge ga.challenge gb.challenge _ _ p1.1 in
    let p3 = write_policy-cancel a.policy b.policy ga.policy gb.policy _ _ p2.1 in
    let p4 =
      canonical_set-cancel egress_kind_tag egress_kind_tag_injective a.egress b.egress ga.egress
        gb.egress _ _ p3.1 in
    let p5 = string-cancel a.args_hash b.args_hash ga.args_hash gb.args_hash _ _ p4.1 in
    let p6 = bool-cancel a.authorized b.authorized tt tt _ _ p5.1 in
    (
      λ i. record {
        agent = p0.0 i;
        inv = p1.0 i;
        challenge = p2.0 i;
        policy = p3.0 i;
        egress = p4.0 i;
        args_hash = p5.0 i;
        authorized = p6.0 i;
      },
      p6.1,
    )

pub record FitsAuthorizeInspected (v : AuthorizeInspectedCommandN) : Type 0 where
  pub inv : IsShort v.inv
  pub attestation : FitsInspection v.attestation

pub write_authorize_inspected-cancel :
    Cancels write_authorize_inspected FitsAuthorizeInspected (λ v. v)
unfolding write_authorize_inspected
write_authorize_inspected-cancel a b ga gb r s e =
    let p0 = string-cancel a.inv b.inv ga.inv gb.inv _ _ e in
    let p1 =
      write_inspection-cancel a.attestation b.attestation ga.attestation gb.attestation _ _ p0.1 in
    (λ i. record { inv = p0.0 i; attestation = p1.0 i }, p1.1)

pub record FitsSettleInvocation (v : SettleInvocationCommandN) : Type 0 where
  pub inv : IsShort v.inv
  pub resolution : FitsOption FitsResolution v.resolution

pub write_settle_invocation-cancel : Cancels write_settle_invocation FitsSettleInvocation (λ v. v)
unfolding write_settle_invocation
write_settle_invocation-cancel a b ga gb r s e =
    let p0 = string-cancel a.inv b.inv ga.inv gb.inv _ _ e in
    let p1 = tagged-cancel outcome_tag outcome_tag_injective a.outcome b.outcome tt tt _ _ p0.1 in
    let p2 =
      option-cancel write_resolution FitsResolution write_resolution-cancel a.resolution
        b.resolution ga.resolution gb.resolution _ _ p1.1 in
    (λ i. record { inv = p0.0 i; outcome = p1.0 i; resolution = p2.0 i }, p2.1)

pub record FitsCrossOutput (v : CrossOutputCommandN) : Type 0 where
  pub input : FitsCrossInput v.input

pub write_cross_output-cancel : Cancels write_cross_output FitsCrossOutput (λ v. v)
unfolding write_cross_output
write_cross_output-cancel a b ga gb r s e =
    let p0 = write_cross_input-cancel a.input b.input ga.input gb.input _ _ e in
    (λ i. record { input = p0.0 i }, p0.1)

abbrev pub FitsCommand : CommandN → Type 0
FitsCommand (CommandN.register_tool v) = FitsRegisterTool v
FitsCommand (CommandN.unregister_tool v) = FitsUnregisterTool v
FitsCommand (CommandN.delegate v) = FitsDelegate v
FitsCommand (CommandN.grant_capability v) = FitsGrantCapability v
FitsCommand (CommandN.grant_crossing v) = FitsGrantCrossing v
FitsCommand (CommandN.revoke v) = FitsRevoke v
FitsCommand (CommandN.cascade_revoke v) = FitsCascadeRevoke v
FitsCommand (CommandN.ingest v) = FitsIngest v
FitsCommand (CommandN.begin_invocation v) = FitsBeginInvocation v
FitsCommand (CommandN.authorize_inspected v) = FitsAuthorizeInspected v
FitsCommand (CommandN.settle_invocation v) = FitsSettleInvocation v
FitsCommand (CommandN.cross_output v) = FitsCrossOutput v
