-- ===== src/Nif/Chain/Tags.antt =====
-- The `CanonicalTag` tables of ex_argus/native/argus_nif/src/chain.rs.
use einsof.Prelude.{ℕ}
use einsof.Nif.Enums.{
  ConfLevelN, IntegLevelN, EgressKindN, CapKindN, VerdictN, DispositionN, ModeN, OutcomeN,
  FallbackN, CrossBranchN,
}

unfoldable pub conf_level_tag : ConfLevelN → ℕ
conf_level_tag ConfLevelN.public = 0
conf_level_tag ConfLevelN.internal = 1
conf_level_tag ConfLevelN.sensitive = 2
conf_level_tag ConfLevelN.restricted = 3

unfoldable pub integ_level_tag : IntegLevelN → ℕ
integ_level_tag IntegLevelN.untrusted = 0
integ_level_tag IntegLevelN.standard = 1
integ_level_tag IntegLevelN.trusted = 2
integ_level_tag IntegLevelN.attested = 3

unfoldable pub egress_kind_tag : EgressKindN → ℕ
egress_kind_tag EgressKindN.network_external = 0
egress_kind_tag EgressKindN.network_internal = 1
egress_kind_tag EgressKindN.filesystem_write = 2
egress_kind_tag EgressKindN.ipc = 3

unfoldable pub cap_kind_tag : CapKindN → ℕ
cap_kind_tag CapKindN.filesystem_read = 0
cap_kind_tag CapKindN.filesystem_write = 1
cap_kind_tag CapKindN.filesystem_delete = 2
cap_kind_tag CapKindN.network_egress = 3
cap_kind_tag CapKindN.network_ingress = 4
cap_kind_tag CapKindN.execution_shell = 5
cap_kind_tag CapKindN.execution_code = 6
cap_kind_tag CapKindN.credentials = 7
cap_kind_tag CapKindN.system_info = 8
cap_kind_tag CapKindN.system_modify = 9
cap_kind_tag CapKindN.clipboard = 10
cap_kind_tag CapKindN.browser_navigate = 11
cap_kind_tag CapKindN.database_read = 12
cap_kind_tag CapKindN.database_write = 13
cap_kind_tag CapKindN.ipc = 14

unfoldable pub verdict_tag : VerdictN → ℕ
verdict_tag VerdictN.allow = 0
verdict_tag VerdictN.inspection_required = 1
verdict_tag VerdictN.deny = 2

unfoldable pub disposition_tag : DispositionN → ℕ
disposition_tag DispositionN.permitted = 0
disposition_tag DispositionN.blocked = 1
disposition_tag DispositionN.monitor_bypassed = 2

unfoldable pub mode_tag : ModeN → ℕ
mode_tag ModeN.enforce = 0
mode_tag ModeN.monitor = 1

unfoldable pub outcome_tag : OutcomeN → ℕ
outcome_tag OutcomeN.success = 0
outcome_tag OutcomeN.failure = 1
outcome_tag OutcomeN.ambiguous = 2

unfoldable pub fallback_tag : FallbackN → ℕ
fallback_tag FallbackN.fail = 0
fallback_tag FallbackN.release_unendorsed = 1

unfoldable pub cross_branch_tag : CrossBranchN → ℕ
cross_branch_tag CrossBranchN.endorsed = 0
cross_branch_tag CrossBranchN.unendorsed = 1
cross_branch_tag CrossBranchN.fail = 2
