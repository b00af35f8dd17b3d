-- ===== src/Nif/Chain/Cancel/Tags.antt =====
-- Each tag names one value.
use einsof.Prelude.{List, [], ◌∷◌, some, ◌≡◌, refl, get_elem?}
use einsof.Nif.Enums.{
  ConfLevelN, IntegLevelN, EgressKindN, CapKindN, VerdictN, DispositionN, ModeN, OutcomeN,
  FallbackN, CrossBranchN,
}
use einsof.Nif.Chain.Tags.{
  conf_level_tag, integ_level_tag, egress_kind_tag, cap_kind_tag, verdict_tag, disposition_tag,
  mode_tag, outcome_tag, fallback_tag, cross_branch_tag,
}

abbrev all_conf_level : List ConfLevelN
all_conf_level =
    ConfLevelN.public ∷ ConfLevelN.internal ∷ ConfLevelN.sensitive ∷ ConfLevelN.restricted ∷ []

conf_level_at_tag : (v : ConfLevelN) → get_elem? all_conf_level (conf_level_tag v) ≡ some v
unfolding conf_level_tag
conf_level_at_tag ConfLevelN.public = refl
conf_level_at_tag ConfLevelN.internal = refl
conf_level_at_tag ConfLevelN.sensitive = refl
conf_level_at_tag ConfLevelN.restricted = refl

pub conf_level_tag_injective : (a b : ConfLevelN) → conf_level_tag a ≡ conf_level_tag b → a ≡ b
conf_level_tag_injective a b e = cc (conf_level_at_tag a, conf_level_at_tag b, e)

abbrev all_integ_level : List IntegLevelN
all_integ_level =
    IntegLevelN.untrusted ∷ IntegLevelN.standard ∷ IntegLevelN.trusted ∷ IntegLevelN.attested ∷ []

integ_level_at_tag : (v : IntegLevelN) → get_elem? all_integ_level (integ_level_tag v) ≡ some v
unfolding integ_level_tag
integ_level_at_tag IntegLevelN.untrusted = refl
integ_level_at_tag IntegLevelN.standard = refl
integ_level_at_tag IntegLevelN.trusted = refl
integ_level_at_tag IntegLevelN.attested = refl

pub integ_level_tag_injective : (a b : IntegLevelN) → integ_level_tag a ≡ integ_level_tag b → a ≡ b
integ_level_tag_injective a b e = cc (integ_level_at_tag a, integ_level_at_tag b, e)

abbrev all_egress_kind : List EgressKindN
all_egress_kind =
    EgressKindN.network_external ∷ EgressKindN.network_internal ∷ EgressKindN.filesystem_write
    ∷ EgressKindN.ipc ∷ []

egress_kind_at_tag : (v : EgressKindN) → get_elem? all_egress_kind (egress_kind_tag v) ≡ some v
unfolding egress_kind_tag
egress_kind_at_tag EgressKindN.network_external = refl
egress_kind_at_tag EgressKindN.network_internal = refl
egress_kind_at_tag EgressKindN.filesystem_write = refl
egress_kind_at_tag EgressKindN.ipc = refl

pub egress_kind_tag_injective : (a b : EgressKindN) → egress_kind_tag a ≡ egress_kind_tag b → a ≡ b
egress_kind_tag_injective a b e = cc (egress_kind_at_tag a, egress_kind_at_tag b, e)

abbrev all_cap_kind : List CapKindN
all_cap_kind =
    CapKindN.filesystem_read ∷ CapKindN.filesystem_write ∷ CapKindN.filesystem_delete
    ∷ CapKindN.network_egress ∷ CapKindN.network_ingress ∷ CapKindN.execution_shell
    ∷ CapKindN.execution_code ∷ CapKindN.credentials ∷ CapKindN.system_info ∷ CapKindN.system_modify
    ∷ CapKindN.clipboard ∷ CapKindN.browser_navigate ∷ CapKindN.database_read
    ∷ CapKindN.database_write ∷ CapKindN.ipc ∷ []

cap_kind_at_tag : (v : CapKindN) → get_elem? all_cap_kind (cap_kind_tag v) ≡ some v
unfolding cap_kind_tag
cap_kind_at_tag CapKindN.filesystem_read = refl
cap_kind_at_tag CapKindN.filesystem_write = refl
cap_kind_at_tag CapKindN.filesystem_delete = refl
cap_kind_at_tag CapKindN.network_egress = refl
cap_kind_at_tag CapKindN.network_ingress = refl
cap_kind_at_tag CapKindN.execution_shell = refl
cap_kind_at_tag CapKindN.execution_code = refl
cap_kind_at_tag CapKindN.credentials = refl
cap_kind_at_tag CapKindN.system_info = refl
cap_kind_at_tag CapKindN.system_modify = refl
cap_kind_at_tag CapKindN.clipboard = refl
cap_kind_at_tag CapKindN.browser_navigate = refl
cap_kind_at_tag CapKindN.database_read = refl
cap_kind_at_tag CapKindN.database_write = refl
cap_kind_at_tag CapKindN.ipc = refl

pub cap_kind_tag_injective : (a b : CapKindN) → cap_kind_tag a ≡ cap_kind_tag b → a ≡ b
cap_kind_tag_injective a b e = cc (cap_kind_at_tag a, cap_kind_at_tag b, e)

abbrev all_verdict : List VerdictN
all_verdict = VerdictN.allow ∷ VerdictN.inspection_required ∷ VerdictN.deny ∷ []

verdict_at_tag : (v : VerdictN) → get_elem? all_verdict (verdict_tag v) ≡ some v
unfolding verdict_tag
verdict_at_tag VerdictN.allow = refl
verdict_at_tag VerdictN.inspection_required = refl
verdict_at_tag VerdictN.deny = refl

pub verdict_tag_injective : (a b : VerdictN) → verdict_tag a ≡ verdict_tag b → a ≡ b
verdict_tag_injective a b e = cc (verdict_at_tag a, verdict_at_tag b, e)

abbrev all_disposition : List DispositionN
all_disposition = DispositionN.permitted ∷ DispositionN.blocked ∷ DispositionN.monitor_bypassed ∷ []

disposition_at_tag : (v : DispositionN) → get_elem? all_disposition (disposition_tag v) ≡ some v
unfolding disposition_tag
disposition_at_tag DispositionN.permitted = refl
disposition_at_tag DispositionN.blocked = refl
disposition_at_tag DispositionN.monitor_bypassed = refl

pub disposition_tag_injective : (a b : DispositionN) → disposition_tag a ≡ disposition_tag b → a ≡ b
disposition_tag_injective a b e = cc (disposition_at_tag a, disposition_at_tag b, e)

abbrev all_mode : List ModeN
all_mode = ModeN.enforce ∷ ModeN.monitor ∷ []

mode_at_tag : (v : ModeN) → get_elem? all_mode (mode_tag v) ≡ some v
unfolding mode_tag
mode_at_tag ModeN.enforce = refl
mode_at_tag ModeN.monitor = refl

pub mode_tag_injective : (a b : ModeN) → mode_tag a ≡ mode_tag b → a ≡ b
mode_tag_injective a b e = cc (mode_at_tag a, mode_at_tag b, e)

abbrev all_outcome : List OutcomeN
all_outcome = OutcomeN.success ∷ OutcomeN.failure ∷ OutcomeN.ambiguous ∷ []

outcome_at_tag : (v : OutcomeN) → get_elem? all_outcome (outcome_tag v) ≡ some v
unfolding outcome_tag
outcome_at_tag OutcomeN.success = refl
outcome_at_tag OutcomeN.failure = refl
outcome_at_tag OutcomeN.ambiguous = refl

pub outcome_tag_injective : (a b : OutcomeN) → outcome_tag a ≡ outcome_tag b → a ≡ b
outcome_tag_injective a b e = cc (outcome_at_tag a, outcome_at_tag b, e)

abbrev all_fallback : List FallbackN
all_fallback = FallbackN.fail ∷ FallbackN.release_unendorsed ∷ []

fallback_at_tag : (v : FallbackN) → get_elem? all_fallback (fallback_tag v) ≡ some v
unfolding fallback_tag
fallback_at_tag FallbackN.fail = refl
fallback_at_tag FallbackN.release_unendorsed = refl

pub fallback_tag_injective : (a b : FallbackN) → fallback_tag a ≡ fallback_tag b → a ≡ b
fallback_tag_injective a b e = cc (fallback_at_tag a, fallback_at_tag b, e)

abbrev all_cross_branch : List CrossBranchN
all_cross_branch = CrossBranchN.endorsed ∷ CrossBranchN.unendorsed ∷ CrossBranchN.fail ∷ []

cross_branch_at_tag : (v : CrossBranchN) → get_elem? all_cross_branch (cross_branch_tag v) ≡ some v
unfolding cross_branch_tag
cross_branch_at_tag CrossBranchN.endorsed = refl
cross_branch_at_tag CrossBranchN.unendorsed = refl
cross_branch_at_tag CrossBranchN.fail = refl

pub cross_branch_tag_injective :
    (a b : CrossBranchN) → cross_branch_tag a ≡ cross_branch_tag b → a ≡ b
cross_branch_tag_injective a b e = cc (cross_branch_at_tag a, cross_branch_at_tag b, e)
