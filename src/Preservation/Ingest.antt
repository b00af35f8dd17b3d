-- ===== src/Preservation/Ingest.antt =====
-- The invariants across `ingest`.
use einsof.Prelude.{Option, ok, ◌≡◌, inl, inr, refl, sym, subst, arith, eq-cases}
use einsof.Background.{BackgroundTheory}
use einsof.Collections.VecMap
use einsof.Collections.VecMap.Sets.{set_contains-insert_into}
use einsof.Event.{KernelAction}
use einsof.Gates.Holds.{AllAccept, AllAcceptInteg, ingest_holds_iff}
use einsof.Invariants.{Inv, Accepts, AcceptsInteg}
use einsof.Outcomes.Labels.{Disposed, ingest-ok}
use einsof.Preservation.Relabel.{Moves, Relabels, Moves-demote, Relabels-Inv}
use einsof.State.{KernelState}
use einsof.Transitions.Holds.{ingest_holds}
use einsof.Transitions.Ingest.{ingested, ingest}
use einsof.Types.{
  AgentId, ConfLevel, IntegLevel, Disposition, Disposition-discrete, disposition_eq, agent_id_eq,
  conf_level_eq, integ_level_eq,
}

-- One label of each kind is added to one agent.
abbrev pub absorbed : KernelState → AgentId → ConfLevel → IntegLevel → KernelState
absorbed s a l li = record s {
  taint_levels = VecMap.insert_into s.taint_levels a l;
  integ_levels = VecMap.insert_into s.integ_levels a li;
}

module _ {bg : BackgroundTheory} (s : KernelState) (a : AgentId) (l : ConfLevel)
    (li : IntegLevel) where
  pub absorbed-Moves : Moves bg s (absorbed s a l li) a
  absorbed-Moves = record {
    same_active = refl;
    same_parent = refl;
    same_cap = refl;
    same_tools = refl;
    same_ids = refl;
    same_challenges = refl;
    evidence_kept = λ att h. h;
    grants = λ key g h. (g, h, λ le. le);
    conf = λ b x h. ground (arith, set_contains-insert_into s.taint_levels a b l x, eq-cases a b);
    integ = λ b x h. ground (arith, set_contains-insert_into s.integ_levels a b li x, eq-cases a b);
    pend = λ inv j p. (j, p, record { same = refl; changed = inl refl });
    free = λ inv h. h;
  }

  -- If every record of the agent accepts the two levels, nothing has to be demoted.
  pub absorbed-Relabels :
      AllAccept s bg a l → AllAcceptInteg s a li → Relabels bg s (absorbed s a l li) a
  absorbed-Relabels takes takes_integ = record {
    moves = absorbed-Moves;
    conf_ok = λ inv j x p c e h. elim (eq-cases l x) [
      | inl (_, same) ↦ inr (subst (Accepts bg j) same (takes inv j p e))
      | inr (other, _) ↦ inl (ground (arith, set_contains-insert_into s.taint_levels a a l x))
    ];
    integ_ok = λ inv j x p c e h. elim (eq-cases li x) [
      | inl (_, same) ↦ inr (subst (AcceptsInteg j) same (takes_integ inv j p e))
      | inr (other, _) ↦ inl (ground (arith, set_contains-insert_into s.integ_levels a a li x))
    ];
  }

  ingested-Relabels :
      (d : Disposition)
      → Disposed (ingest_holds s bg a l li) bg.mode d
      → Relabels bg s (ingested s a l li d) a
  unfolding ingested Disposition-discrete
  ingested-Relabels d (inl (h, e)) =
      let (takes, takes_integ) = (ingest_holds_iff s bg a l li).0 h in
      rw e (absorbed-Relabels takes takes_integ)
  ingested-Relabels d (inr (mode, e)) = rw e (Moves-demote absorbed-Moves mode)

pub ingest-Inv :
    {bg : BackgroundTheory} {s t : KernelState} {act : KernelAction} (a : AgentId)
    (src : Option AgentId) (l : ConfLevel) (li : IntegLevel)
    → Inv bg s
    → ingest s bg a src l li ≡ ok (t, act)
    → Inv bg t
ingest-Inv {bg} {s} a src l li v h =
    let (d, live, _, disposed, e, _) = ingest-ok s bg a src l li h in
    subst (Inv bg) (sym e) (Relabels-Inv v live (ingested-Relabels s a l li d disposed))
