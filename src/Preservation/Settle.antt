-- ===== src/Preservation/Settle.antt =====
-- The invariants across `settle_invocation`.
use einsof.Prelude.{
  true, Option, none, some, ◌==◌, ◌!=◌, if◌then◌else◌, ok, ◌≡◌, inl, inr, refl, sym, subst, arith,
  eq-cases, Bool-cases,
}
use einsof.Background.{BackgroundTheory}
use einsof.Collections.VecMap
use einsof.Collections.VecMap.Laws.{get-insert, get-remove}
use einsof.Collections.VecMap.Sets.{set_contains-insert_into}
use einsof.Collections.VecSet
use einsof.Collections.VecSet.Laws.{contains-insert}
use einsof.Event.{KernelAction}
use einsof.Invariants.{Inv, Confinement, Pends, Accepts, AcceptsInteg}
use einsof.Outcomes.Labels.{settle_invocation-ok}
use einsof.Preservation.Relabel.{Moves, Relabels, Moves-demote, Relabels-Inv}
use einsof.State.{KernelState, demote_all_of}
use einsof.Transitions.Settle.{
  settle_at, settle_demote, settle_absorb, settle_consume, settled, settle_invocation,
}
use einsof.Types.{
  AgentId, ConfLevel, IntegLevel, InvocationId, AttestationId, Outcome, Disposition-discrete,
  ambiguous, PendingInvocation, ResolutionAttestation, contained, permitted, agent_id_eq,
  invocation_id_eq, attestation_id_eq, outcome_eq, disposition_eq, conf_level_eq, integ_level_eq,
}

settle_consume-evidence :
    (s : KernelState) (att : Option ResolutionAttestation) (x : AttestationId)
    → VecSet.contains s.consumed_attestations x ≡ true
    → VecSet.contains (settle_consume s att).consumed_attestations x ≡ true
unfolding settle_consume
settle_consume-evidence s (some r) x h =
    ground (arith, contains-insert s.consumed_attestations r.id x)
settle_consume-evidence s none x h = h

-- The settled state but for the demotion, which touches nothing that the other steps touch.
module _ (s : KernelState) (inv : InvocationId) (j : PendingInvocation) (o : Outcome)
    (att : Option ResolutionAttestation) where
  abbrev closed : KernelState
  closed = settle_consume (settle_absorb (settle_at s inv j o) j o) att

  settled-closed :
      settled s inv j o att
      ≡ (if j.disposition != permitted then demote_all_of closed j.agent else closed)
  unfolding settled settle_demote settle_absorb settle_consume demote_all_of
  settled-closed = ground arith

  closed-pending :
      (k : InvocationId)
      → VecMap.get_cloned closed.pending k ≡ (
          if inv == k
          then (if o == ambiguous then some (record j { quarantined = true }) else none)
          else VecMap.get_cloned s.pending k)
  unfolding settle_consume settle_absorb settle_at
  closed-pending k = ground (
    arith,
    get-insert s.pending inv k (record j { quarantined = true }),
    get-remove s.pending inv k,
  )

  closed-taint :
      (b : AgentId) (l : ConfLevel)
      → VecMap.set_contains closed.taint_levels b l ≡ (
          if o != ambiguous
          then VecMap.set_contains
              (VecMap.insert_into s.taint_levels j.agent j.policy.output_conf)
              b
              l
          else VecMap.set_contains s.taint_levels b l)
  unfolding settle_consume settle_absorb settle_at
  closed-taint b l = ground arith

  closed-integ :
      (b : AgentId) (l : IntegLevel)
      → VecMap.set_contains closed.integ_levels b l ≡ (
          if o != ambiguous
          then VecMap.set_contains
              (VecMap.insert_into s.integ_levels j.agent j.policy.output_integ)
              b
              l
          else VecMap.set_contains s.integ_levels b l)
  unfolding settle_consume settle_absorb settle_at
  closed-integ b l = ground arith

  closed-Moves : {bg : BackgroundTheory} → Pends s inv j → Moves bg s closed j.agent
  unfolding settle_consume settle_absorb settle_at
  closed-Moves held = record {
    same_active = ground arith;
    same_parent = ground arith;
    same_cap = ground arith;
    same_tools = ground arith;
    same_ids = ground arith;
    same_challenges = ground arith;
    evidence_kept = λ x h.
        settle_consume-evidence (settle_absorb (settle_at s inv j o) j o) att x (ground arith);
    grants = λ key g h. (g, ground arith, λ le. le);
    conf = λ b l h. ground (
      arith,
      closed-taint b l,
      set_contains-insert_into s.taint_levels j.agent b j.policy.output_conf l,
      eq-cases j.agent b,
    );
    integ = λ b l h. ground (
      arith,
      closed-integ b l,
      set_contains-insert_into s.integ_levels j.agent b j.policy.output_integ l,
      eq-cases j.agent b,
    );
    pend = λ k i h. elim (eq-cases inv k) [
      | inl (hit, same) ↦ (
        j,
        subst (λ x. Pends s x j) same held,
        record {
          same = ground (arith, closed-pending k);
          changed = ground (arith, closed-pending k);
        },
      )
      | inr (miss, _) ↦
          (i, ground (arith, closed-pending k), record { same = refl; changed = inl refl })
    ];
    free = λ k h. ground (arith, closed-pending k, eq-cases inv k);
  }

  -- A contained record's outputs are accepted by its owner's other contained records.
  closed-Relabels :
      {bg : BackgroundTheory}
      → Confinement bg s
      → Pends s inv j
      → contained j ≡ true
      → Relabels bg s closed j.agent
  closed-Relabels v held cj = record {
    moves = closed-Moves held;
    conf_ok = λ k i l p c e h. elim (eq-cases inv k) [
      | inl (hit, _) ↦ inl (ground (arith, closed-pending k, closed-taint j.agent l))
      | inr (miss, _) ↦
          let q : Pends s k i = ground (arith, closed-pending k) in
          let w = ((v k i q c).pairwise inv j held (sym e) cj).0 in
          elim (eq-cases j.policy.output_conf l) [
            | inl (_, same) ↦ inr (subst (Accepts _ i) same w)
            | inr (other, _) ↦ inl (
                ground (
                  arith,
                  closed-taint j.agent l,
                  set_contains-insert_into s.taint_levels j.agent j.agent j.policy.output_conf l,
                ))
          ]
    ];
    integ_ok = λ k i l p c e h. elim (eq-cases inv k) [
      | inl (hit, _) ↦ inl (ground (arith, closed-pending k, closed-integ j.agent l))
      | inr (miss, _) ↦
          let q : Pends s k i = ground (arith, closed-pending k) in
          let w = ((v k i q c).pairwise inv j held (sym e) cj).1 in
          elim (eq-cases j.policy.output_integ l) [
            | inl (_, same) ↦ inr (subst (AcceptsInteg i) same w)
            | inr (other, _) ↦ inl (
                ground (
                  arith,
                  closed-integ j.agent l,
                  set_contains-insert_into s.integ_levels j.agent j.agent j.policy.output_integ l,
                ))
          ]
    ];
  }

  settled-Relabels :
      {bg : BackgroundTheory}
      → Inv bg s
      → Pends s inv j
      → Relabels bg s (settled s inv j o att) j.agent
  unfolding contained Disposition-discrete
  settled-Relabels {bg} v held = elim (Bool-cases (contained j)) [
    | inl c ↦
        subst (λ t. Relabels bg s t j.agent) (ground (arith, settled-closed))
          (closed-Relabels v.confinement held c)
    | inr f ↦
        subst (λ t. Relabels bg s t j.agent) (ground (arith, settled-closed))
          (Moves-demote (closed-Moves held) ((v.pendings inv j held).bypassed_disposition f))
  ]

pub settle_invocation-Inv :
    {bg : BackgroundTheory} {s t : KernelState} {act : KernelAction} (inv : InvocationId)
    (outcome : Outcome) (att : Option ResolutionAttestation)
    → Inv bg s
    → settle_invocation s inv outcome att ≡ ok (t, act)
    → Inv bg t
settle_invocation-Inv {bg} {s} inv outcome att v h =
    let (j, held, live, _, e) = settle_invocation-ok s inv outcome att h in
    subst (Inv bg) (sym e) (Relabels-Inv v live (settled-Relabels s inv j outcome att v held))
