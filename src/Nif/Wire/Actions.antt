-- ===== src/Nif/Wire/Actions.antt =====
-- The action structs of ex_argus/native/argus_nif/src/wire.rs.
use einsof.Prelude.{ℕ, Bool, String, Option}
use einsof.Nif.Enums.{
  CapKindN, ConfLevelN, IntegLevelN, VerdictN, DispositionN, OutcomeN, CrossBranchN,
}

pub record RegisterToolActionN : Type 0 where
  pub tool : String

pub record UnregisterToolActionN : Type 0 where
  pub tool : String

pub record DelegateActionN : Type 0 where
  pub grantor : String
  pub grantee : String

pub record GrantCapabilityActionN : Type 0 where
  pub parent : String
  pub child : String
  pub cap : CapKindN

pub record GrantCrossingActionN : Type 0 where
  pub grantor : String
  pub agent : String
  pub assignment : String
  pub n : ℕ

pub record RevokeActionN : Type 0 where
  pub parent : String
  pub target : String

pub record CascadeRevokeActionN : Type 0 where
  pub child : String
  pub parent : String

pub record IngestActionN : Type 0 where
  pub agent : String
  pub src : Option String
  pub pconf : ConfLevelN
  pub pinteg : IntegLevelN
  pub disposition : DispositionN

pub record BeginInvocationActionN : Type 0 where
  pub agent : String
  pub inv : String
  pub tool : String
  pub verdict : VerdictN
  pub authorized : Bool

pub record AuthorizeInspectedActionN : Type 0 where
  pub inv : String
  pub attestation : String
  pub admitted : Bool

pub record SettleInvocationActionN : Type 0 where
  pub inv : String
  pub agent : String
  pub disposition : DispositionN
  pub outcome : OutcomeN
  pub clvl : ConfLevelN
  pub ilvl : IntegLevelN
  pub resolution : Option String

pub record CrossOutputActionN : Type 0 where
  pub src : String
  pub rcv : String
  pub crossing : String
  pub branch : CrossBranchN
  pub disposition : DispositionN
