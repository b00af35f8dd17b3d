-- ===== src/Nif/Enums/RoundTrip.antt =====
-- A kernel enumeration to the wire and back.
use einsof.Prelude.{◌≡◌, refl}
use einsof.Capability.{CapKind}
use einsof.Types.{ConfLevel, IntegLevel, Verdict, Disposition, Outcome, CrossBranch}
use einsof.Nif.Enums.{
  conf_level_into_kernel, conf_level_from_kernel, integ_level_into_kernel, integ_level_from_kernel,
  cap_kind_into_kernel, cap_kind_from_kernel, verdict_into_kernel, verdict_from_kernel,
  disposition_into_kernel, disposition_from_kernel, outcome_into_kernel, outcome_from_kernel,
  cross_branch_into_kernel, cross_branch_from_kernel,
}

pub conf_level_into_kernel-conf_level_from_kernel :
    (x : ConfLevel) → conf_level_into_kernel (conf_level_from_kernel x) ≡ x
unfolding conf_level_into_kernel conf_level_from_kernel
conf_level_into_kernel-conf_level_from_kernel ConfLevel.public = refl
conf_level_into_kernel-conf_level_from_kernel ConfLevel.internal = refl
conf_level_into_kernel-conf_level_from_kernel ConfLevel.sensitive = refl
conf_level_into_kernel-conf_level_from_kernel ConfLevel.restricted = refl

pub integ_level_into_kernel-integ_level_from_kernel :
    (x : IntegLevel) → integ_level_into_kernel (integ_level_from_kernel x) ≡ x
unfolding integ_level_into_kernel integ_level_from_kernel
integ_level_into_kernel-integ_level_from_kernel IntegLevel.untrusted = refl
integ_level_into_kernel-integ_level_from_kernel IntegLevel.standard = refl
integ_level_into_kernel-integ_level_from_kernel IntegLevel.trusted = refl
integ_level_into_kernel-integ_level_from_kernel IntegLevel.attested = refl

pub cap_kind_into_kernel-cap_kind_from_kernel :
    (x : CapKind) → cap_kind_into_kernel (cap_kind_from_kernel x) ≡ x
unfolding cap_kind_into_kernel cap_kind_from_kernel
cap_kind_into_kernel-cap_kind_from_kernel CapKind.filesystem_read = refl
cap_kind_into_kernel-cap_kind_from_kernel CapKind.filesystem_write = refl
cap_kind_into_kernel-cap_kind_from_kernel CapKind.filesystem_delete = refl
cap_kind_into_kernel-cap_kind_from_kernel CapKind.network_egress = refl
cap_kind_into_kernel-cap_kind_from_kernel CapKind.network_ingress = refl
cap_kind_into_kernel-cap_kind_from_kernel CapKind.execution_shell = refl
cap_kind_into_kernel-cap_kind_from_kernel CapKind.execution_code = refl
cap_kind_into_kernel-cap_kind_from_kernel CapKind.credentials = refl
cap_kind_into_kernel-cap_kind_from_kernel CapKind.system_info = refl
cap_kind_into_kernel-cap_kind_from_kernel CapKind.system_modify = refl
cap_kind_into_kernel-cap_kind_from_kernel CapKind.clipboard = refl
cap_kind_into_kernel-cap_kind_from_kernel CapKind.browser_navigate = refl
cap_kind_into_kernel-cap_kind_from_kernel CapKind.database_read = refl
cap_kind_into_kernel-cap_kind_from_kernel CapKind.database_write = refl
cap_kind_into_kernel-cap_kind_from_kernel CapKind.ipc = refl

pub verdict_into_kernel-verdict_from_kernel :
    (x : Verdict) → verdict_into_kernel (verdict_from_kernel x) ≡ x
unfolding verdict_into_kernel verdict_from_kernel
verdict_into_kernel-verdict_from_kernel Verdict.allow = refl
verdict_into_kernel-verdict_from_kernel Verdict.inspection_required = refl
verdict_into_kernel-verdict_from_kernel Verdict.deny = refl

pub disposition_into_kernel-disposition_from_kernel :
    (x : Disposition) → disposition_into_kernel (disposition_from_kernel x) ≡ x
unfolding disposition_into_kernel disposition_from_kernel
disposition_into_kernel-disposition_from_kernel Disposition.permitted = refl
disposition_into_kernel-disposition_from_kernel Disposition.blocked = refl
disposition_into_kernel-disposition_from_kernel Disposition.monitor_bypassed = refl

pub outcome_into_kernel-outcome_from_kernel :
    (x : Outcome) → outcome_into_kernel (outcome_from_kernel x) ≡ x
unfolding outcome_into_kernel outcome_from_kernel
outcome_into_kernel-outcome_from_kernel Outcome.success = refl
outcome_into_kernel-outcome_from_kernel Outcome.failure = refl
outcome_into_kernel-outcome_from_kernel Outcome.ambiguous = refl

pub cross_branch_into_kernel-cross_branch_from_kernel :
    (x : CrossBranch) → cross_branch_into_kernel (cross_branch_from_kernel x) ≡ x
unfolding cross_branch_into_kernel cross_branch_from_kernel
cross_branch_into_kernel-cross_branch_from_kernel CrossBranch.endorsed = refl
cross_branch_into_kernel-cross_branch_from_kernel CrossBranch.unendorsed = refl
cross_branch_into_kernel-cross_branch_from_kernel CrossBranch.fail = refl
