-- ===== src/Nif/Enums.antt =====
-- ex_argus/native/argus_nif/src/enums.rs: the wire enumerations and their conversions.
pub mod RoundTrip
use einsof.Prelude.{String, List, [], ◌∷◌, PartialEq, of_discrete}
use einsof.Capability.{CapKind}
use einsof.Types.{
  ConfLevel, IntegLevel, EgressKind, Verdict, Disposition, Mode, Outcome, Fallback, CrossBranch,
  Admission, AttestationId,
}

pub data ConfLevelN : Type 0 where
  public internal sensitive restricted : ConfLevelN

unfoldable pub ConfLevelN-discrete : Discrete ConfLevelN
ConfLevelN-discrete = hlevel

instance abbrev pub conf_level_n_eq : PartialEq ConfLevelN
conf_level_n_eq = of_discrete ConfLevelN-discrete

unfoldable pub conf_level_into_kernel : ConfLevelN → ConfLevel
conf_level_into_kernel ConfLevelN.public = ConfLevel.public
conf_level_into_kernel ConfLevelN.internal = ConfLevel.internal
conf_level_into_kernel ConfLevelN.sensitive = ConfLevel.sensitive
conf_level_into_kernel ConfLevelN.restricted = ConfLevel.restricted

unfoldable pub conf_level_from_kernel : ConfLevel → ConfLevelN
conf_level_from_kernel ConfLevel.public = ConfLevelN.public
conf_level_from_kernel ConfLevel.internal = ConfLevelN.internal
conf_level_from_kernel ConfLevel.sensitive = ConfLevelN.sensitive
conf_level_from_kernel ConfLevel.restricted = ConfLevelN.restricted

pub data IntegLevelN : Type 0 where
  untrusted standard trusted attested : IntegLevelN

unfoldable pub IntegLevelN-discrete : Discrete IntegLevelN
IntegLevelN-discrete = hlevel

instance abbrev pub integ_level_n_eq : PartialEq IntegLevelN
integ_level_n_eq = of_discrete IntegLevelN-discrete

unfoldable pub integ_level_into_kernel : IntegLevelN → IntegLevel
integ_level_into_kernel IntegLevelN.untrusted = IntegLevel.untrusted
integ_level_into_kernel IntegLevelN.standard = IntegLevel.standard
integ_level_into_kernel IntegLevelN.trusted = IntegLevel.trusted
integ_level_into_kernel IntegLevelN.attested = IntegLevel.attested

unfoldable pub integ_level_from_kernel : IntegLevel → IntegLevelN
integ_level_from_kernel IntegLevel.untrusted = IntegLevelN.untrusted
integ_level_from_kernel IntegLevel.standard = IntegLevelN.standard
integ_level_from_kernel IntegLevel.trusted = IntegLevelN.trusted
integ_level_from_kernel IntegLevel.attested = IntegLevelN.attested

pub data EgressKindN : Type 0 where
  network_external network_internal filesystem_write ipc : EgressKindN

unfoldable pub EgressKindN-discrete : Discrete EgressKindN
EgressKindN-discrete = hlevel

instance abbrev pub egress_kind_n_eq : PartialEq EgressKindN
egress_kind_n_eq = of_discrete EgressKindN-discrete

unfoldable pub egress_kind_into_kernel : EgressKindN → EgressKind
egress_kind_into_kernel EgressKindN.network_external = EgressKind.network_external
egress_kind_into_kernel EgressKindN.network_internal = EgressKind.network_internal
egress_kind_into_kernel EgressKindN.filesystem_write = EgressKind.filesystem_write
egress_kind_into_kernel EgressKindN.ipc = EgressKind.ipc

unfoldable pub egress_kind_from_kernel : EgressKind → EgressKindN
egress_kind_from_kernel EgressKind.network_external = EgressKindN.network_external
egress_kind_from_kernel EgressKind.network_internal = EgressKindN.network_internal
egress_kind_from_kernel EgressKind.filesystem_write = EgressKindN.filesystem_write
egress_kind_from_kernel EgressKind.ipc = EgressKindN.ipc

pub data CapKindN : Type 0 where
  filesystem_read filesystem_write filesystem_delete network_egress network_ingress : CapKindN
  execution_shell execution_code credentials system_info system_modify : CapKindN
  clipboard browser_navigate database_read database_write ipc : CapKindN

unfoldable pub CapKindN-discrete : Discrete CapKindN
CapKindN-discrete = hlevel

instance abbrev pub cap_kind_n_eq : PartialEq CapKindN
cap_kind_n_eq = of_discrete CapKindN-discrete

unfoldable pub cap_kind_into_kernel : CapKindN → CapKind
cap_kind_into_kernel CapKindN.filesystem_read = CapKind.filesystem_read
cap_kind_into_kernel CapKindN.filesystem_write = CapKind.filesystem_write
cap_kind_into_kernel CapKindN.filesystem_delete = CapKind.filesystem_delete
cap_kind_into_kernel CapKindN.network_egress = CapKind.network_egress
cap_kind_into_kernel CapKindN.network_ingress = CapKind.network_ingress
cap_kind_into_kernel CapKindN.execution_shell = CapKind.execution_shell
cap_kind_into_kernel CapKindN.execution_code = CapKind.execution_code
cap_kind_into_kernel CapKindN.credentials = CapKind.credentials
cap_kind_into_kernel CapKindN.system_info = CapKind.system_info
cap_kind_into_kernel CapKindN.system_modify = CapKind.system_modify
cap_kind_into_kernel CapKindN.clipboard = CapKind.clipboard
cap_kind_into_kernel CapKindN.browser_navigate = CapKind.browser_navigate
cap_kind_into_kernel CapKindN.database_read = CapKind.database_read
cap_kind_into_kernel CapKindN.database_write = CapKind.database_write
cap_kind_into_kernel CapKindN.ipc = CapKind.ipc

unfoldable pub cap_kind_from_kernel : CapKind → CapKindN
cap_kind_from_kernel CapKind.filesystem_read = CapKindN.filesystem_read
cap_kind_from_kernel CapKind.filesystem_write = CapKindN.filesystem_write
cap_kind_from_kernel CapKind.filesystem_delete = CapKindN.filesystem_delete
cap_kind_from_kernel CapKind.network_egress = CapKindN.network_egress
cap_kind_from_kernel CapKind.network_ingress = CapKindN.network_ingress
cap_kind_from_kernel CapKind.execution_shell = CapKindN.execution_shell
cap_kind_from_kernel CapKind.execution_code = CapKindN.execution_code
cap_kind_from_kernel CapKind.credentials = CapKindN.credentials
cap_kind_from_kernel CapKind.system_info = CapKindN.system_info
cap_kind_from_kernel CapKind.system_modify = CapKindN.system_modify
cap_kind_from_kernel CapKind.clipboard = CapKindN.clipboard
cap_kind_from_kernel CapKind.browser_navigate = CapKindN.browser_navigate
cap_kind_from_kernel CapKind.database_read = CapKindN.database_read
cap_kind_from_kernel CapKind.database_write = CapKindN.database_write
cap_kind_from_kernel CapKind.ipc = CapKindN.ipc

pub data VerdictN : Type 0 where
  allow inspection_required deny : VerdictN

unfoldable pub VerdictN-discrete : Discrete VerdictN
VerdictN-discrete = hlevel

instance abbrev pub verdict_n_eq : PartialEq VerdictN
verdict_n_eq = of_discrete VerdictN-discrete

unfoldable pub verdict_into_kernel : VerdictN → Verdict
verdict_into_kernel VerdictN.allow = Verdict.allow
verdict_into_kernel VerdictN.inspection_required = Verdict.inspection_required
verdict_into_kernel VerdictN.deny = Verdict.deny

unfoldable pub verdict_from_kernel : Verdict → VerdictN
verdict_from_kernel Verdict.allow = VerdictN.allow
verdict_from_kernel Verdict.inspection_required = VerdictN.inspection_required
verdict_from_kernel Verdict.deny = VerdictN.deny

pub data DispositionN : Type 0 where
  permitted blocked monitor_bypassed : DispositionN

unfoldable pub DispositionN-discrete : Discrete DispositionN
DispositionN-discrete = hlevel

instance abbrev pub disposition_n_eq : PartialEq DispositionN
disposition_n_eq = of_discrete DispositionN-discrete

unfoldable pub disposition_into_kernel : DispositionN → Disposition
disposition_into_kernel DispositionN.permitted = Disposition.permitted
disposition_into_kernel DispositionN.blocked = Disposition.blocked
disposition_into_kernel DispositionN.monitor_bypassed = Disposition.monitor_bypassed

unfoldable pub disposition_from_kernel : Disposition → DispositionN
disposition_from_kernel Disposition.permitted = DispositionN.permitted
disposition_from_kernel Disposition.blocked = DispositionN.blocked
disposition_from_kernel Disposition.monitor_bypassed = DispositionN.monitor_bypassed

pub data ModeN : Type 0 where
  enforce monitor : ModeN

unfoldable pub ModeN-discrete : Discrete ModeN
ModeN-discrete = hlevel

instance abbrev pub mode_n_eq : PartialEq ModeN
mode_n_eq = of_discrete ModeN-discrete

unfoldable pub mode_into_kernel : ModeN → Mode
mode_into_kernel ModeN.enforce = Mode.enforce
mode_into_kernel ModeN.monitor = Mode.monitor

unfoldable pub mode_from_kernel : Mode → ModeN
mode_from_kernel Mode.enforce = ModeN.enforce
mode_from_kernel Mode.monitor = ModeN.monitor

pub data OutcomeN : Type 0 where
  success failure ambiguous : OutcomeN

unfoldable pub OutcomeN-discrete : Discrete OutcomeN
OutcomeN-discrete = hlevel

instance abbrev pub outcome_n_eq : PartialEq OutcomeN
outcome_n_eq = of_discrete OutcomeN-discrete

unfoldable pub outcome_into_kernel : OutcomeN → Outcome
outcome_into_kernel OutcomeN.success = Outcome.success
outcome_into_kernel OutcomeN.failure = Outcome.failure
outcome_into_kernel OutcomeN.ambiguous = Outcome.ambiguous

unfoldable pub outcome_from_kernel : Outcome → OutcomeN
outcome_from_kernel Outcome.success = OutcomeN.success
outcome_from_kernel Outcome.failure = OutcomeN.failure
outcome_from_kernel Outcome.ambiguous = OutcomeN.ambiguous

pub data FallbackN : Type 0 where
  fail release_unendorsed : FallbackN

unfoldable pub FallbackN-discrete : Discrete FallbackN
FallbackN-discrete = hlevel

instance abbrev pub fallback_n_eq : PartialEq FallbackN
fallback_n_eq = of_discrete FallbackN-discrete

unfoldable pub fallback_into_kernel : FallbackN → Fallback
fallback_into_kernel FallbackN.fail = Fallback.fail
fallback_into_kernel FallbackN.release_unendorsed = Fallback.release_unendorsed

unfoldable pub fallback_from_kernel : Fallback → FallbackN
fallback_from_kernel Fallback.fail = FallbackN.fail
fallback_from_kernel Fallback.release_unendorsed = FallbackN.release_unendorsed

pub data CrossBranchN : Type 0 where
  endorsed unendorsed fail : CrossBranchN

unfoldable pub CrossBranchN-discrete : Discrete CrossBranchN
CrossBranchN-discrete = hlevel

instance abbrev pub cross_branch_n_eq : PartialEq CrossBranchN
cross_branch_n_eq = of_discrete CrossBranchN-discrete

unfoldable pub cross_branch_into_kernel : CrossBranchN → CrossBranch
cross_branch_into_kernel CrossBranchN.endorsed = CrossBranch.endorsed
cross_branch_into_kernel CrossBranchN.unendorsed = CrossBranch.unendorsed
cross_branch_into_kernel CrossBranchN.fail = CrossBranch.fail

unfoldable pub cross_branch_from_kernel : CrossBranch → CrossBranchN
cross_branch_from_kernel CrossBranch.endorsed = CrossBranchN.endorsed
cross_branch_from_kernel CrossBranch.unendorsed = CrossBranchN.unendorsed
cross_branch_from_kernel CrossBranch.fail = CrossBranchN.fail

pub data AdmissionN : Type 0 where
  plain : AdmissionN
  inspected : String → AdmissionN
  bypassed : AdmissionN

unfoldable pub admission_into_kernel : AdmissionN → Admission
admission_into_kernel AdmissionN.plain = Admission.plain
admission_into_kernel (AdmissionN.inspected id) = Admission.inspected (record { text = id })
admission_into_kernel AdmissionN.bypassed = Admission.bypassed

unfoldable pub admission_from_kernel : Admission → AdmissionN
admission_from_kernel Admission.plain = AdmissionN.plain
admission_from_kernel (Admission.inspected id) = AdmissionN.inspected id.text
admission_from_kernel Admission.bypassed = AdmissionN.bypassed

-- `EgressKindN::ALL`.
abbrev pub all_egress_kinds : List EgressKindN
all_egress_kinds =
    EgressKindN.network_external ∷ EgressKindN.network_internal ∷ EgressKindN.filesystem_write
    ∷ EgressKindN.ipc ∷ []
