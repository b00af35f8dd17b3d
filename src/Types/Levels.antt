-- ===== src/Types/Levels.antt =====
-- The enumerations of types.rs and capability.rs, with their derived equalities and the ranks of levels.
use einsof.Prelude.{ℕ, Bool, PartialEq, of_discrete, leb}

pub data ConfLevel : Type 0 where
  public internal sensitive restricted : ConfLevel

unfoldable pub ConfLevel-discrete : Discrete ConfLevel
ConfLevel-discrete = hlevel

instance abbrev pub conf_level_eq : PartialEq ConfLevel
conf_level_eq = of_discrete ConfLevel-discrete

pub data IntegLevel : Type 0 where
  untrusted standard trusted attested : IntegLevel

unfoldable pub IntegLevel-discrete : Discrete IntegLevel
IntegLevel-discrete = hlevel

instance abbrev pub integ_level_eq : PartialEq IntegLevel
integ_level_eq = of_discrete IntegLevel-discrete

unfoldable pub conf_rank : ConfLevel → ℕ
conf_rank public = 0
conf_rank internal = 1
conf_rank sensitive = 2
conf_rank restricted = 3

unfoldable pub conf_le : ConfLevel → ConfLevel → Bool
unfolding conf_rank
conf_le a b = leb (conf_rank a) (conf_rank b)

unfoldable pub integ_rank : IntegLevel → ℕ
integ_rank untrusted = 0
integ_rank standard = 1
integ_rank trusted = 2
integ_rank attested = 3

unfoldable pub integ_le : IntegLevel → IntegLevel → Bool
unfolding integ_rank
integ_le a b = leb (integ_rank a) (integ_rank b)

pub data EgressKind : Type 0 where
  network_external network_internal filesystem_write ipc : EgressKind

unfoldable pub EgressKind-discrete : Discrete EgressKind
EgressKind-discrete = hlevel

instance abbrev pub egress_kind_eq : PartialEq EgressKind
egress_kind_eq = of_discrete EgressKind-discrete

pub data Verdict : Type 0 where
  allow inspection_required deny : Verdict

unfoldable pub Verdict-discrete : Discrete Verdict
Verdict-discrete = hlevel

instance abbrev pub verdict_eq : PartialEq Verdict
verdict_eq = of_discrete Verdict-discrete

pub data Disposition : Type 0 where
  permitted blocked monitor_bypassed : Disposition

unfoldable pub Disposition-discrete : Discrete Disposition
Disposition-discrete = hlevel

instance abbrev pub disposition_eq : PartialEq Disposition
disposition_eq = of_discrete Disposition-discrete

pub data Mode : Type 0 where
  enforce monitor : Mode

unfoldable pub Mode-discrete : Discrete Mode
Mode-discrete = hlevel

instance abbrev pub mode_eq : PartialEq Mode
mode_eq = of_discrete Mode-discrete

pub data Outcome : Type 0 where
  success failure ambiguous : Outcome

unfoldable pub Outcome-discrete : Discrete Outcome
Outcome-discrete = hlevel

instance abbrev pub outcome_eq : PartialEq Outcome
outcome_eq = of_discrete Outcome-discrete

pub data Fallback : Type 0 where
  fail release_unendorsed : Fallback

unfoldable pub Fallback-discrete : Discrete Fallback
Fallback-discrete = hlevel

instance abbrev pub fallback_eq : PartialEq Fallback
fallback_eq = of_discrete Fallback-discrete

pub data CrossBranch : Type 0 where
  endorsed unendorsed fail : CrossBranch

unfoldable pub CrossBranch-discrete : Discrete CrossBranch
CrossBranch-discrete = hlevel

instance abbrev pub cross_branch_eq : PartialEq CrossBranch
cross_branch_eq = of_discrete CrossBranch-discrete
