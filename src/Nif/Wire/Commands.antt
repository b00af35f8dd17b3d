-- ===== src/Nif/Wire/Commands.antt =====
-- The command structs of ex_argus/native/argus_nif/src/wire.rs.
use einsof.Prelude.{ℕ, Bool, String, List, Option}
use einsof.Nif.Enums.{CapKindN, ConfLevelN, IntegLevelN, EgressKindN, OutcomeN}
use einsof.Nif.Wire.Structs.{
  ActionPolicySnapshotN, InspectionAttestationN, ResolutionAttestationN, CrossInputN,
}

pub record RegisterToolCommandN : Type 0 where
  pub tool : String

pub record UnregisterToolCommandN : Type 0 where
  pub tool : String

pub record DelegateCommandN : Type 0 where
  pub grantor : String
  pub grantee : String

pub record GrantCapabilityCommandN : Type 0 where
  pub parent : String
  pub child : String
  pub cap : CapKindN

pub record GrantCrossingCommandN : Type 0 where
  pub grantor : String
  pub agent : String
  pub assignment : String
  pub n : ℕ

pub record RevokeCommandN : Type 0 where
  pub parent : String
  pub target : String

pub record CascadeRevokeCommandN : Type 0 where
  pub child : String
  pub parent : String

pub record IngestCommandN : Type 0 where
  pub agent : String
  pub src : Option String
  pub pconf : ConfLevelN
  pub pinteg : IntegLevelN

pub record BeginInvocationCommandN : Type 0 where
  pub agent : String
  pub inv : String
  pub challenge : String
  pub policy : ActionPolicySnapshotN
  pub egress : List EgressKindN
  pub args_hash : String
  pub authorized : Bool

pub record AuthorizeInspectedCommandN : Type 0 where
  pub inv : String
  pub attestation : InspectionAttestationN

pub record SettleInvocationCommandN : Type 0 where
  pub inv : String
  pub outcome : OutcomeN
  pub resolution : Option ResolutionAttestationN

pub record CrossOutputCommandN : Type 0 where
  pub input : CrossInputN
