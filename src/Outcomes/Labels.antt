-- ===== src/Outcomes/Labels.antt =====
-- Ingestion, settlement and crossings: the label-moving transitions.
use einsof.Prelude.{
  Bool, true, false, Option, ok, ◌≡◌, ◌⊎◌, inl, inr, refl, arith, Result-cases, Option-cases,
}
use einsof.Background.{BackgroundTheory}
use einsof.Collections.VecMap
use einsof.Collections.VecSet
use einsof.Error.{KernelError, ingest_hold_failed, crossing_hold_failed}
use einsof.Event.{KernelAction}
use einsof.Invariants.{IsActive, Pends}
use einsof.State.{KernelState}
use einsof.Transitions.Holds.{ingest_holds}
use einsof.Transitions.Ingest.{check_source, dispose, ingested, ingest}
use einsof.Transitions.Settle.{check_resolution, settled, settle_invocation}
use einsof.Transitions.Cross.{
  cross_holds, source_busy, choose_branch, check_bounds, crossed, cross_output,
}
use einsof.Types.{
  AgentId, InvocationId, ConfLevel, IntegLevel, Mode, Disposition, Outcome, PendingInvocation,
  ResolutionAttestation, CrossInput, monitor, enforce, permitted, monitor_bypassed, agent_id_eq,
  invocation_id_eq, Mode-discrete, disposition_eq, mode_eq, crossing_id_eq,
}

-- Permitted with the holds passed, or bypassed under monitor.
abbrev pub Disposed : Bool → Mode → Disposition → Type 0
Disposed holds mode d =
    ((holds ≡ true) × (d ≡ permitted)) ⊎ ((mode ≡ monitor) × (d ≡ monitor_bypassed))

pub dispose-Disposed :
    (holds : Bool) (mode : Mode) (e : KernelError) {d : Disposition}
    → dispose holds mode e ≡ ok d
    → Disposed holds mode d
unfolding dispose Mode-discrete
dispose-Disposed true mode e h = inl (refl, ground arith)
dispose-Disposed false monitor e h = inr (refl, ground arith)
dispose-Disposed false enforce e h = absurd (ground arith)

module _ (s : KernelState) {t : KernelState} {act : KernelAction} where
  pub ingest-ok :
      (bg : BackgroundTheory) (a : AgentId) (src : Option AgentId) (l : ConfLevel) (li : IntegLevel)
      → ingest s bg a src l li ≡ ok (t, act)
      → (d : Disposition) × IsActive s a
        × (check_source s src l li ≡ ok tt)
        × Disposed (ingest_holds s bg a l li) bg.mode d
        × (t ≡ ingested s a l li d)
        × (act ≡ KernelAction.ingest a src l li d)
  unfolding ingest
  ingest-ok bg a src l li h =
      elim (Result-cases (dispose (ingest_holds s bg a l li) bg.mode ingest_hold_failed)) [
        | inl (d, e) ↦
            (d, ground arith, ground arith, dispose-Disposed _ _ _ e, ground arith, ground arith)
        | inr (x, e) ↦ absurd (ground arith)
      ]

  pub settle_invocation-ok :
      (inv : InvocationId) (outcome : Outcome) (att : Option ResolutionAttestation)
      → settle_invocation s inv outcome att ≡ ok (t, act)
      → (j : PendingInvocation) × Pends s inv j
        × IsActive s j.agent
        × (check_resolution s inv j outcome att ≡ ok tt)
        × (t ≡ settled s inv j outcome att)
  unfolding settle_invocation
  settle_invocation-ok inv outcome att h = elim (Option-cases (VecMap.get_cloned s.pending inv)) [
    | inl e ↦ absurd (ground arith)
    | inr (j, e) ↦ (j, e, ground arith, ground arith, ground arith)
  ]

  pub cross_output-ok :
      (bg : BackgroundTheory) (q : CrossInput)
      → cross_output s bg q ≡ ok (t, act)
      → (d : Disposition) × IsActive s q.src
        × IsActive s q.rcv
        × (source_busy s q.src ≡ false)
        × (VecSet.contains s.consumed_crossings q.crossing ≡ false)
        × (check_bounds s q (choose_branch s q) ≡ ok tt)
        × Disposed (cross_holds s bg q (choose_branch s q)) bg.mode d
        × (t ≡ crossed s q (choose_branch s q) d)
  unfolding cross_output
  cross_output-ok bg q h =
      elim (Result-cases
        (dispose (cross_holds s bg q (choose_branch s q)) bg.mode crossing_hold_failed)) [
          | inl (d, e) ↦ (
            d,
            ground arith,
            ground arith,
            ground arith,
            ground arith,
            ground arith,
            dispose-Disposed _ _ _ e,
            ground arith,
          )
          | inr (x, e) ↦ absurd (ground arith)
        ]
