-- ===== src/Nif/Event/Lossless.antt =====
-- The recorded action keeps all of the kernel's action.
use mathlib.Core.Option
use einsof.Prelude.{String, Option, none, some, ◌≡◌, refl, sym, ap, ◌∙◌}
use einsof.Event.{KernelAction}
use einsof.Types.{AgentId, AttestationId}
use einsof.Nif.Enums.{
  conf_level_into_kernel, integ_level_into_kernel, cap_kind_into_kernel, verdict_into_kernel,
  disposition_into_kernel, outcome_into_kernel, cross_branch_into_kernel,
}
use einsof.Nif.Enums.RoundTrip.{
  conf_level_into_kernel-conf_level_from_kernel, integ_level_into_kernel-integ_level_from_kernel,
  cap_kind_into_kernel-cap_kind_from_kernel, verdict_into_kernel-verdict_from_kernel,
  disposition_into_kernel-disposition_from_kernel, outcome_into_kernel-outcome_from_kernel,
  cross_branch_into_kernel-cross_branch_from_kernel,
}
use einsof.Nif.Event.{ActionN, action_from_kernel}

-- The kernel's action of a recorded one.
action_into_kernel : ActionN → KernelAction
action_into_kernel (ActionN.register_tool v) = KernelAction.register_tool (record { text = v.tool })
action_into_kernel (ActionN.unregister_tool v) =
    KernelAction.unregister_tool (record { text = v.tool })
action_into_kernel (ActionN.delegate v) =
    KernelAction.delegate (record { text = v.grantor }) (record { text = v.grantee })
action_into_kernel (ActionN.grant_capability v) =
    KernelAction.grant_capability (record { text = v.parent }) (record { text = v.child })
      (cap_kind_into_kernel v.cap)
action_into_kernel (ActionN.grant_crossing v) =
    KernelAction.grant_crossing (record { text = v.grantor }) (record { text = v.agent })
      (record { text = v.assignment }) v.n
action_into_kernel (ActionN.revoke v) =
    KernelAction.revoke (record { text = v.parent }) (record { text = v.target })
action_into_kernel (ActionN.cascade_revoke v) =
    KernelAction.cascade_revoke (record { text = v.child }) (record { text = v.parent })
action_into_kernel (ActionN.ingest v) =
    KernelAction.ingest (record { text = v.agent }) (Option.map (λ s. record { text = s }) v.src)
      (conf_level_into_kernel v.pconf) (integ_level_into_kernel v.pinteg)
      (disposition_into_kernel v.disposition)
action_into_kernel (ActionN.begin_invocation v) =
    KernelAction.begin_invocation (record { text = v.agent }) (record { text = v.inv })
      (record { text = v.tool }) (verdict_into_kernel v.verdict) v.authorized
action_into_kernel (ActionN.authorize_inspected v) =
    KernelAction.authorize_inspected (record { text = v.inv }) (record { text = v.attestation })
      v.admitted
action_into_kernel (ActionN.settle_invocation v) =
    KernelAction.settle_invocation (record { text = v.inv }) (record { text = v.agent })
      (disposition_into_kernel v.disposition) (outcome_into_kernel v.outcome)
      (conf_level_into_kernel v.clvl) (integ_level_into_kernel v.ilvl)
      (Option.map (λ s. record { text = s }) v.resolution)
action_into_kernel (ActionN.cross_output v) =
    KernelAction.cross_output (record { text = v.src }) (record { text = v.rcv })
      (record { text = v.crossing }) (cross_branch_into_kernel v.branch)
      (disposition_into_kernel v.disposition)

source_back :
    (src : Option AgentId)
    → Option.map (λ (s : String). record { text = s }) (Option.map (λ (i : AgentId). i.text) src)
      ≡ src
source_back none = refl
source_back (some _) = refl

resolution_back :
    (r : Option AttestationId)
    → Option.map
        (λ (s : String). record { text = s })
        (Option.map (λ (i : AttestationId). i.text) r)
      ≡ r
resolution_back none = refl
resolution_back (some _) = refl

action_into_kernel-action_from_kernel :
    (a : KernelAction) → action_into_kernel (action_from_kernel a) ≡ a
unfolding action_into_kernel action_from_kernel
action_into_kernel-action_from_kernel (KernelAction.grant_capability p c cap) =
    cc (cap_kind_into_kernel-cap_kind_from_kernel cap)
action_into_kernel-action_from_kernel (KernelAction.ingest agent src l li d) = cc (
  source_back src,
  conf_level_into_kernel-conf_level_from_kernel l,
  integ_level_into_kernel-integ_level_from_kernel li,
  disposition_into_kernel-disposition_from_kernel d,
)
action_into_kernel-action_from_kernel (KernelAction.begin_invocation agent inv tool v authorized) =
    cc (verdict_into_kernel-verdict_from_kernel v)
action_into_kernel-action_from_kernel (KernelAction.settle_invocation inv agent d o l li r) = cc (
  disposition_into_kernel-disposition_from_kernel d,
  outcome_into_kernel-outcome_from_kernel o,
  conf_level_into_kernel-conf_level_from_kernel l,
  integ_level_into_kernel-integ_level_from_kernel li,
  resolution_back r,
)
action_into_kernel-action_from_kernel (KernelAction.cross_output src rcv x b d) = cc (
  cross_branch_into_kernel-cross_branch_from_kernel b,
  disposition_into_kernel-disposition_from_kernel d,
)
action_into_kernel-action_from_kernel _ = refl

-- The recorded action determines the kernel's action.
pub action_from_kernel_injective :
    (a b : KernelAction) → action_from_kernel a ≡ action_from_kernel b → a ≡ b
action_from_kernel_injective a b e =
    sym (action_into_kernel-action_from_kernel a)
    ∙ ap action_into_kernel e
    ∙ action_into_kernel-action_from_kernel b
