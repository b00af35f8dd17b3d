-- ===== src/Preservation/Cross.antt =====
-- The invariants across `cross_output`.
use einsof.Prelude.{
  true, false, not, ◌||◌, if◌then◌else◌, ok, ◌≡◌, ◌⊎◌, inl, inr, refl, sym, subst, arith,
}
use einsof.Background.{BackgroundTheory}
use einsof.Collections.VecMap
use einsof.Collections.VecMap.Latches.{items_all}
use einsof.Collections.VecSet.Loops.{for_items_lem}
use einsof.Event.{KernelAction}
use einsof.Gates.Holds.{
  AllAccept, AllAcceptInteg, ingest_holds_iff, conf_holds-AllAccept, integ_hold-AllAcceptInteg,
}
use einsof.Invariants.{Inv, HoldsConf, HoldsInteg}
use einsof.Outcomes.Labels.{Disposed, cross_output-ok}
use einsof.Preservation.Relabel.{Moves, Relabels, Moves-demote, Relabels-Inv}
use einsof.Preservation.Crossing.{
  ReleasedConf, ReleasedInteg, release-conf, release-integ, core, core-Kept, core-labels,
  core-evidence, core-grants,
}
use einsof.State.{KernelState}
use einsof.Transitions.Holds.{ingest_conf_hold, ingest_clear_hold, ingest_integ_hold}
use einsof.Transitions.Cross.{choose_branch, cross_holds, crossed, cross_output}
use einsof.Types.{
  AgentId, ConfLevel, IntegLevel, CrossInput, CrossBranch, endorsed, unendorsed, Disposition,
  Disposition-discrete, disposition_eq, agent_id_eq, conf_level_eq, integ_level_eq,
  attestation_id_eq, crossing_id_eq, crossing_key_eq,
}

module _ (s : KernelState) (q : CrossInput) where
  core-conf :
      (b : CrossBranch) (a : AgentId) (l : ConfLevel)
      → HoldsConf (core s q b) a l
      → HoldsConf s a l ⊎ ((a ≡ q.rcv) × ReleasedConf s q b l)
  core-conf b a l h = release-conf s q b a l (rw (core-labels s q b).0 at h)

  core-integ :
      (b : CrossBranch) (a : AgentId) (l : IntegLevel)
      → HoldsInteg (core s q b) a l
      → HoldsInteg s a l ⊎ ((a ≡ q.rcv) × ReleasedInteg s q b l)
  core-integ b a l h = release-integ s q b a l (rw (core-labels s q b).1 at h)

module _ {bg : BackgroundTheory} (s : KernelState) (q : CrossInput) where
  core-Moves : (b : CrossBranch) → choose_branch s q ≡ b → Moves bg s (core s q b) q.rcv
  core-Moves b e =
      let k = core-Kept s q b in
      record {
        same_active = k.same_active;
        same_parent = k.same_parent;
        same_cap = k.same_cap;
        same_tools = k.same_tools;
        same_ids = k.same_ids;
        same_challenges = k.same_challenges;
        evidence_kept = core-evidence s q b;
        grants = core-grants s q b e;
        conf = λ a l h. ground (arith, core-conf s q b a l h);
        integ = λ a l h. ground (arith, core-integ s q b a l h);
        pend = λ inv j p. (j, rw k.same_pending at p, record { same = refl; changed = inl refl });
        free = λ inv h. rw k.same_pending h;
      }

  -- The holds: every record of the receiver accepts each released level.
  cross_holds-accept :
      (b : CrossBranch)
      → cross_holds s bg q b ≡ true
      → ((l : ConfLevel) → ReleasedConf s q b l → AllAccept s bg q.rcv l)
        × ((l : IntegLevel) → ReleasedInteg s q b l → AllAcceptInteg s q.rcv l)
  unfolding cross_holds
  cross_holds-accept endorsed h =
      let (c, i) = (ingest_holds_iff s bg q.rcv q.released_conf q.released_integ).0 h in
      (λ l e. subst (AllAccept s bg q.rcv) e c, λ l e. subst (AllAcceptInteg s q.rcv) e i)
  cross_holds-accept unendorsed h =
      let z =
        (items_all (ingest_integ_hold s q.rcv) (VecMap.get_set_or_empty s.integ_levels q.src) _).0
          h in
      let y =
        (for_items_lem (λ ok. ok ≡ true)
            (λ l. (ingest_conf_hold s bg q.rcv l ≡ true) × (ingest_clear_hold s q.rcv l ≡ true))
            (λ l ok.
              if not (ingest_conf_hold s bg q.rcv l) || not (ingest_clear_hold s q.rcv l)
              then false
              else ok)
            (λ l ok. (λ t. ground arith, λ t. ground arith))
            (VecMap.get_set_or_empty s.taint_levels q.src) true).0
          z.0 in
      (
        λ l held. (conf_holds-AllAccept s bg q.rcv l).0 (y.1 l held),
        λ l held. (integ_hold-AllAcceptInteg s q.rcv l).0 (z.1 l held),
      )
  cross_holds-accept CrossBranch.fail h = (λ l e. absurd e, λ l e. absurd e)

  core-Relabels :
      (b : CrossBranch)
      → choose_branch s q ≡ b
      → cross_holds s bg q b ≡ true
      → Relabels bg s (core s q b) q.rcv
  core-Relabels b e h =
      let (takes, takes_integ) = cross_holds-accept b h in
      let k = core-Kept s q b in
      record {
        moves = core-Moves b e;
        conf_ok = λ inv j l p c mine held. elim (core-conf s q b q.rcv l held) [
          | inl old ↦ inl old
          | inr (_, r) ↦ inr (takes l r inv j (rw k.same_pending at p) mine)
        ];
        integ_ok = λ inv j l p c mine held. elim (core-integ s q b q.rcv l held) [
          | inl old ↦ inl old
          | inr (_, r) ↦ inr (takes_integ l r inv j (rw k.same_pending at p) mine)
        ];
      }

  crossed-Relabels :
      (b : CrossBranch) (d : Disposition)
      → choose_branch s q ≡ b
      → Disposed (cross_holds s bg q b) bg.mode d
      → Relabels bg s (crossed s q b d) q.rcv
  unfolding crossed Disposition-discrete
  crossed-Relabels b d e (inl (h, p)) = rw p (core-Relabels b e h)
  crossed-Relabels b d e (inr (mode, p)) = rw p (Moves-demote (core-Moves b e) mode)

pub cross_output-Inv :
    {bg : BackgroundTheory} {s t : KernelState} {act : KernelAction} (q : CrossInput)
    → Inv bg s
    → cross_output s bg q ≡ ok (t, act)
    → Inv bg t
cross_output-Inv {bg} {s} q v h =
    let (d, _, live, _, _, _, disposed, e) = cross_output-ok s bg q h in
    subst (Inv bg) (sym e)
      (Relabels-Inv v live (crossed-Relabels s q (choose_branch s q) d refl disposed))
