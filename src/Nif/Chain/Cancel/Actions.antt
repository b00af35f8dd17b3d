-- ===== src/Nif/Chain/Cancel/Actions.antt =====
-- The actions of a transcript, read back.
use einsof.Nif.Chain.Transcript.{string}
use einsof.Nif.Chain.Tags.{
  conf_level_tag, integ_level_tag, cap_kind_tag, verdict_tag, disposition_tag, outcome_tag,
  cross_branch_tag,
}
use einsof.Nif.Chain.Cancel.Tags.{
  conf_level_tag_injective, integ_level_tag_injective, cap_kind_tag_injective,
  verdict_tag_injective, disposition_tag_injective, outcome_tag_injective,
  cross_branch_tag_injective,
}
use einsof.Nif.Chain.Cancel.Plain.{
  IsShort, IsU32, FitsOption, Cancels, string-cancel, bool-cancel, u32-cancel, tagged-cancel,
  option-cancel,
}
use einsof.Nif.Wire.Actions.{
  RegisterToolActionN, UnregisterToolActionN, DelegateActionN, GrantCapabilityActionN,
  GrantCrossingActionN, RevokeActionN, CascadeRevokeActionN, IngestActionN, BeginInvocationActionN,
  AuthorizeInspectedActionN, SettleInvocationActionN, CrossOutputActionN,
}
use einsof.Nif.Event.{ActionN}
use einsof.Nif.Chain.Actions.{
  write_register_tool, write_unregister_tool, write_delegate, write_grant_capability,
  write_grant_crossing, write_revoke, write_cascade_revoke, write_ingest, write_begin_invocation,
  write_authorize_inspected, write_settle_invocation, write_cross_output,
}

pub record FitsRegisterTool (v : RegisterToolActionN) : Type 0 where
  pub tool : IsShort v.tool

pub write_register_tool-cancel : Cancels write_register_tool FitsRegisterTool (λ v. v)
unfolding write_register_tool
write_register_tool-cancel a b ga gb r s e =
    let p0 = string-cancel a.tool b.tool ga.tool gb.tool _ _ e in
    (λ i. record { tool = p0.0 i }, p0.1)

pub record FitsUnregisterTool (v : UnregisterToolActionN) : Type 0 where
  pub tool : IsShort v.tool

pub write_unregister_tool-cancel : Cancels write_unregister_tool FitsUnregisterTool (λ v. v)
unfolding write_unregister_tool
write_unregister_tool-cancel a b ga gb r s e =
    let p0 = string-cancel a.tool b.tool ga.tool gb.tool _ _ e in
    (λ i. record { tool = p0.0 i }, p0.1)

pub record FitsDelegate (v : DelegateActionN) : Type 0 where
  pub grantor : IsShort v.grantor
  pub grantee : IsShort v.grantee

pub write_delegate-cancel : Cancels write_delegate FitsDelegate (λ v. v)
unfolding write_delegate
write_delegate-cancel a b ga gb r s e =
    let p0 = string-cancel a.grantor b.grantor ga.grantor gb.grantor _ _ e in
    let p1 = string-cancel a.grantee b.grantee ga.grantee gb.grantee _ _ p0.1 in
    (λ i. record { grantor = p0.0 i; grantee = p1.0 i }, p1.1)

pub record FitsGrantCapability (v : GrantCapabilityActionN) : Type 0 where
  pub parent : IsShort v.parent
  pub child : IsShort v.child

pub write_grant_capability-cancel : Cancels write_grant_capability FitsGrantCapability (λ v. v)
unfolding write_grant_capability
write_grant_capability-cancel a b ga gb r s e =
    let p0 = string-cancel a.parent b.parent ga.parent gb.parent _ _ e in
    let p1 = string-cancel a.child b.child ga.child gb.child _ _ p0.1 in
    let p2 = tagged-cancel cap_kind_tag cap_kind_tag_injective a.cap b.cap tt tt _ _ p1.1 in
    (λ i. record { parent = p0.0 i; child = p1.0 i; cap = p2.0 i }, p2.1)

pub record FitsGrantCrossing (v : GrantCrossingActionN) : Type 0 where
  pub grantor : IsShort v.grantor
  pub agent : IsShort v.agent
  pub assignment : IsShort v.assignment
  pub n : IsU32 v.n

pub write_grant_crossing-cancel : Cancels write_grant_crossing FitsGrantCrossing (λ v. v)
unfolding write_grant_crossing
write_grant_crossing-cancel a b ga gb r s e =
    let p0 = string-cancel a.grantor b.grantor ga.grantor gb.grantor _ _ e in
    let p1 = string-cancel a.agent b.agent ga.agent gb.agent _ _ p0.1 in
    let p2 = string-cancel a.assignment b.assignment ga.assignment gb.assignment _ _ p1.1 in
    let p3 = u32-cancel a.n b.n ga.n gb.n _ _ p2.1 in
    (λ i. record { grantor = p0.0 i; agent = p1.0 i; assignment = p2.0 i; n = p3.0 i }, p3.1)

pub record FitsRevoke (v : RevokeActionN) : Type 0 where
  pub parent : IsShort v.parent
  pub target : IsShort v.target

pub write_revoke-cancel : Cancels write_revoke FitsRevoke (λ v. v)
unfolding write_revoke
write_revoke-cancel a b ga gb r s e =
    let p0 = string-cancel a.parent b.parent ga.parent gb.parent _ _ e in
    let p1 = string-cancel a.target b.target ga.target gb.target _ _ p0.1 in
    (λ i. record { parent = p0.0 i; target = p1.0 i }, p1.1)

pub record FitsCascadeRevoke (v : CascadeRevokeActionN) : Type 0 where
  pub child : IsShort v.child
  pub parent : IsShort v.parent

pub write_cascade_revoke-cancel : Cancels write_cascade_revoke FitsCascadeRevoke (λ v. v)
unfolding write_cascade_revoke
write_cascade_revoke-cancel a b ga gb r s e =
    let p0 = string-cancel a.child b.child ga.child gb.child _ _ e in
    let p1 = string-cancel a.parent b.parent ga.parent gb.parent _ _ p0.1 in
    (λ i. record { child = p0.0 i; parent = p1.0 i }, p1.1)

pub record FitsIngest (v : IngestActionN) : Type 0 where
  pub agent : IsShort v.agent
  pub src : FitsOption IsShort v.src

pub write_ingest-cancel : Cancels write_ingest FitsIngest (λ v. v)
unfolding write_ingest
write_ingest-cancel a b ga gb r s e =
    let p0 = string-cancel a.agent b.agent ga.agent gb.agent _ _ e in
    let p1 = option-cancel string IsShort string-cancel a.src b.src ga.src gb.src _ _ p0.1 in
    let p2 = tagged-cancel conf_level_tag conf_level_tag_injective a.pconf b.pconf tt tt _ _ p1.1 in
    let p3 =
      tagged-cancel integ_level_tag integ_level_tag_injective a.pinteg b.pinteg tt tt _ _ p2.1 in
    let p4 =
      tagged-cancel disposition_tag disposition_tag_injective a.disposition b.disposition tt tt _ _
        p3.1 in
    (
      λ i. record {
        agent = p0.0 i;
        src = p1.0 i;
        pconf = p2.0 i;
        pinteg = p3.0 i;
        disposition = p4.0 i;
      },
      p4.1,
    )

pub record FitsBeginInvocation (v : BeginInvocationActionN) : Type 0 where
  pub agent : IsShort v.agent
  pub inv : IsShort v.inv
  pub tool : IsShort v.tool

pub write_begin_invocation-cancel : Cancels write_begin_invocation FitsBeginInvocation (λ v. v)
unfolding write_begin_invocation
write_begin_invocation-cancel a b ga gb r s e =
    let p0 = string-cancel a.agent b.agent ga.agent gb.agent _ _ e in
    let p1 = string-cancel a.inv b.inv ga.inv gb.inv _ _ p0.1 in
    let p2 = string-cancel a.tool b.tool ga.tool gb.tool _ _ p1.1 in
    let p3 = tagged-cancel verdict_tag verdict_tag_injective a.verdict b.verdict tt tt _ _ p2.1 in
    let p4 = bool-cancel a.authorized b.authorized tt tt _ _ p3.1 in
    (
      λ i. record {
        agent = p0.0 i;
        inv = p1.0 i;
        tool = p2.0 i;
        verdict = p3.0 i;
        authorized = p4.0 i;
      },
      p4.1,
    )

pub record FitsAuthorizeInspected (v : AuthorizeInspectedActionN) : Type 0 where
  pub inv : IsShort v.inv
  pub attestation : IsShort v.attestation

pub write_authorize_inspected-cancel :
    Cancels write_authorize_inspected FitsAuthorizeInspected (λ v. v)
unfolding write_authorize_inspected
write_authorize_inspected-cancel a b ga gb r s e =
    let p0 = string-cancel a.inv b.inv ga.inv gb.inv _ _ e in
    let p1 = string-cancel a.attestation b.attestation ga.attestation gb.attestation _ _ p0.1 in
    let p2 = bool-cancel a.admitted b.admitted tt tt _ _ p1.1 in
    (λ i. record { inv = p0.0 i; attestation = p1.0 i; admitted = p2.0 i }, p2.1)

pub record FitsSettleInvocation (v : SettleInvocationActionN) : Type 0 where
  pub inv : IsShort v.inv
  pub agent : IsShort v.agent
  pub resolution : FitsOption IsShort v.resolution

pub write_settle_invocation-cancel : Cancels write_settle_invocation FitsSettleInvocation (λ v. v)
unfolding write_settle_invocation
write_settle_invocation-cancel a b ga gb r s e =
    let p0 = string-cancel a.inv b.inv ga.inv gb.inv _ _ e in
    let p1 = string-cancel a.agent b.agent ga.agent gb.agent _ _ p0.1 in
    let p2 =
      tagged-cancel disposition_tag disposition_tag_injective a.disposition b.disposition tt tt _ _
        p1.1 in
    let p3 = tagged-cancel outcome_tag outcome_tag_injective a.outcome b.outcome tt tt _ _ p2.1 in
    let p4 = tagged-cancel conf_level_tag conf_level_tag_injective a.clvl b.clvl tt tt _ _ p3.1 in
    let p5 = tagged-cancel integ_level_tag integ_level_tag_injective a.ilvl b.ilvl tt tt _ _ p4.1 in
    let p6 =
      option-cancel string IsShort string-cancel a.resolution b.resolution ga.resolution
        gb.resolution _ _ p5.1 in
    (
      λ i. record {
        inv = p0.0 i;
        agent = p1.0 i;
        disposition = p2.0 i;
        outcome = p3.0 i;
        clvl = p4.0 i;
        ilvl = p5.0 i;
        resolution = p6.0 i;
      },
      p6.1,
    )

pub record FitsCrossOutput (v : CrossOutputActionN) : Type 0 where
  pub src : IsShort v.src
  pub rcv : IsShort v.rcv
  pub crossing : IsShort v.crossing

pub write_cross_output-cancel : Cancels write_cross_output FitsCrossOutput (λ v. v)
unfolding write_cross_output
write_cross_output-cancel a b ga gb r s e =
    let p0 = string-cancel a.src b.src ga.src gb.src _ _ e in
    let p1 = string-cancel a.rcv b.rcv ga.rcv gb.rcv _ _ p0.1 in
    let p2 = string-cancel a.crossing b.crossing ga.crossing gb.crossing _ _ p1.1 in
    let p3 =
      tagged-cancel cross_branch_tag cross_branch_tag_injective a.branch b.branch tt tt _ _ p2.1 in
    let p4 =
      tagged-cancel disposition_tag disposition_tag_injective a.disposition b.disposition tt tt _ _
        p3.1 in
    (
      λ i. record {
        src = p0.0 i;
        rcv = p1.0 i;
        crossing = p2.0 i;
        branch = p3.0 i;
        disposition = p4.0 i;
      },
      p4.1,
    )

abbrev pub FitsAction : ActionN → Type 0
FitsAction (ActionN.register_tool v) = FitsRegisterTool v
FitsAction (ActionN.unregister_tool v) = FitsUnregisterTool v
FitsAction (ActionN.delegate v) = FitsDelegate v
FitsAction (ActionN.grant_capability v) = FitsGrantCapability v
FitsAction (ActionN.grant_crossing v) = FitsGrantCrossing v
FitsAction (ActionN.revoke v) = FitsRevoke v
FitsAction (ActionN.cascade_revoke v) = FitsCascadeRevoke v
FitsAction (ActionN.ingest v) = FitsIngest v
FitsAction (ActionN.begin_invocation v) = FitsBeginInvocation v
FitsAction (ActionN.authorize_inspected v) = FitsAuthorizeInspected v
FitsAction (ActionN.settle_invocation v) = FitsSettleInvocation v
FitsAction (ActionN.cross_output v) = FitsCrossOutput v
