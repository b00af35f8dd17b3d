-- ===== src/Outcomes/Crossings.antt =====
-- What an accepted crossing required of its source, and what it took from the receiver's grant.
use einsof.Prelude.{
  ◌≤◌, ◌<◌, ◌+◌, ◌%◌, true, false, not, ◌==◌, if◌then◌else◌, none, some, ok, ◌≡◌, ◌≢◌, ◌↔◌, inl,
  inr, refl, arith, eq-cases, Option-cases, beq_of_eq,
}
use einsof.Background.{BackgroundTheory}
use einsof.Collections.VecMap
use einsof.Collections.VecMap.Laws.{get-insert}
use einsof.Collections.VecMap.Latches.{items_all, entries_none}
use einsof.Collections.VecMap.Sets.{set_contains-get}
use einsof.Collections.VecSet
use einsof.Event.{KernelAction}
use einsof.Invariants.{Pends, Granted, HoldsConf, HoldsInteg}
use einsof.Outcomes.Labels.{cross_output-ok}
use einsof.State.{KernelState, demote_all_of, decrement_grant_at}
use einsof.Transitions.Cross.{
  evidence_ok, endorsed_ok, fallback_branch, choose_branch, source_busy, conf_bound, check_bounds,
  release, consume_evidence, cross_consume, crossed, cross_output,
}
use einsof.Transitions.Ingest.{dominated, check_source}
use einsof.Types.{
  AgentId, InvocationId, PendingInvocation, CrossingKey, CrossingGrant, CrossInput,
  ConformanceAttestation, ConfLevel, IntegLevel, Disposition, endorsed, conf_le, integ_le,
  agent_id_eq, invocation_id_eq, attestation_id_eq, crossing_key_eq, conf_level_eq, integ_level_eq,
  content_hash_eq, assignment_digest_eq,
}

-- The key of the grant that an endorsement uses.
abbrev pub grant_key : CrossInput → CrossingKey
grant_key q = record { agent = q.rcv; assignment = q.assignment }

-- The evidence of an endorsement: positive, unused, and about this very output.
pub record Conforms (s : KernelState) (q : CrossInput) : Type 0 where
  pub evidence : ConformanceAttestation
  pub given : q.evidence ≡ some evidence
  pub positive : evidence.positive ≡ true
  pub fresh : VecSet.contains s.consumed_attestations evidence.id ≡ false
  pub output : evidence.output ≡ q.output_hash
  pub from : evidence.src ≡ q.src
  pub to : evidence.rcv ≡ q.rcv
  pub assignment : evidence.assignment ≡ q.assignment

endorsed-Conforms : (s : KernelState) (q : CrossInput) → choose_branch s q ≡ endorsed → Conforms s q
unfolding choose_branch fallback_branch endorsed_ok evidence_ok
endorsed-Conforms s q h = elim (Option-cases q.evidence) [
  | inl miss ↦ absurd (ground arith)
  | inr (e, hit) ↦ record {
    evidence = e;
    given = hit;
    positive = ground arith;
    fresh = ground arith;
    output = ground (arith, eq-cases e.output q.output_hash);
    from = ground (arith, eq-cases e.src q.src);
    to = ground (arith, eq-cases e.rcv q.rcv);
    assignment = ground (arith, eq-cases e.assignment q.assignment);
  }
]

endorsed-grant :
    (s : KernelState) (q : CrossInput)
    → choose_branch s q ≡ endorsed
    → (g : CrossingGrant) × Granted s (grant_key q) g × (0 < g.remaining)
unfolding choose_branch fallback_branch endorsed_ok
endorsed-grant s q h = elim (Option-cases (VecMap.get_cloned s.crossing_grants (grant_key q))) [
  | inl miss ↦ absurd (ground arith)
  | inr (g, hit) ↦ (g, hit, ground arith)
]

crossed-grant :
    (s : KernelState) (q : CrossInput) (d : Disposition) (g : CrossingGrant) (key : CrossingKey)
    → Granted s (grant_key q) g
    → VecMap.get_cloned (crossed s q endorsed d).crossing_grants key ≡ (
        if grant_key q == key
        then some (record {
          remaining = (g.remaining + 4294967295) % 4294967296;
          provisioned = g.provisioned;
        })
        else VecMap.get_cloned s.crossing_grants key)
unfolding crossed cross_consume consume_evidence release demote_all_of decrement_grant_at
crossed-grant s q d g key h = ground (
  arith,
  get-insert s.crossing_grants (grant_key q) key
      (record { remaining = (g.remaining + 4294967295) % 4294967296; provisioned = g.provisioned }),
)

-- One use of the receiver's grant for the assignment is taken, and no other grant changes.
abbrev pub GrantUsed : KernelState → CrossInput → KernelState → Type 0
GrantUsed s q t =
    (g : CrossingGrant) × Granted s (grant_key q) g
    × (g.remaining ≤ 4294967295
        → (h : CrossingGrant) × Granted t (grant_key q) h
          × (h.remaining + 1 ≡ g.remaining)
          × (h.provisioned ≡ g.provisioned))
    × ((key : CrossingKey)
        → grant_key q ≢ key
        → VecMap.get_cloned t.crossing_grants key ≡ VecMap.get_cloned s.crossing_grants key)

-- An accepted endorsed crossing rests on unused positive evidence about this output, sender,
-- receiver and assignment, and takes exactly one use of the receiver's grant for the assignment,
-- whose count is a 32-bit number; every other grant stays.
pub cross_output-grant :
    (s : KernelState) (bg : BackgroundTheory) (q : CrossInput) {t : KernelState}
    {act : KernelAction}
    → cross_output s bg q ≡ ok (t, act)
    → choose_branch s q ≡ endorsed
    → Conforms s q × GrantUsed s q t
cross_output-grant s bg q h e =
    let (d, _, _, _, _, _, _, f) = cross_output-ok s bg q h in
    let (g, held, left) = endorsed-grant s q e in
    (
      endorsed-Conforms s q e,
      (
        g,
        held,
        λ small. (
          record {
            remaining = (g.remaining + 4294967295) % 4294967296;
            provisioned = g.provisioned;
          },
          ground (
            arith,
            crossed-grant s q d g (grant_key q) held,
            eq-cases (grant_key q) (grant_key q),
          ),
          omega (arith, left, small),
          refl,
        ),
        λ key other. ground (arith, crossed-grant s q d g key held, eq-cases (grant_key q) key),
      ),
    )

-- The scan of the pending records for the source finds none exactly when no record is the source's.
source_idle :
    (s : KernelState) (a : AgentId)
    → source_busy s a ≡ false
    → (inv : InvocationId) (j : PendingInvocation) → Pends s inv j
    → j.agent ≢ a
unfolding source_busy
source_idle s a h inv j p e =
    let n = ((entries_none s.pending (λ j. j.agent == a) false).0 h).1 inv j p in
    ground (arith, n, beq_of_eq e)

endorsed_bounds :
    (s : KernelState) (q : CrossInput)
    → choose_branch s q ≡ endorsed
    → check_bounds s q (choose_branch s q) ≡ ok tt
    → (integ_le q.released_integ q.t_integ ≡ true) × (conf_bound s q q.t_conf ≡ true)
unfolding check_bounds
endorsed_bounds s q e h = ground arith

-- The source has no pending record, and an endorsed release keeps its bounds.
abbrev pub Bounded : KernelState → CrossInput → Type 0
Bounded s q =
    ((inv : InvocationId) (j : PendingInvocation) → Pends s inv j → j.agent ≢ q.src)
    × (choose_branch s q ≡ endorsed
        → (integ_le q.released_integ q.t_integ ≡ true)
          × ((c : ConfLevel) → q.t_conf ≡ some c → conf_le q.released_conf c ≡ true)
          × (q.t_conf ≡ none
              → (l : ConfLevel) → HoldsConf s q.src l
              → conf_le l q.released_conf ≡ true))

-- An accepted crossing has a source with no pending record. If it is endorsed, the released
-- integrity is at most the assignment's, and the released confidentiality is at most the
-- assignment's level or, without one, at least every level that the source holds.
pub cross_output-bounds :
    (s : KernelState) (bg : BackgroundTheory) (q : CrossInput) {t : KernelState}
    {act : KernelAction}
    → cross_output s bg q ≡ ok (t, act)
    → Bounded s q
unfolding conf_bound
cross_output-bounds s bg q h =
    let (_, _, _, idle, _, bounds, _, _) = cross_output-ok s bg q h in
    (
      source_idle s q.src idle,
      λ e.
          let (i, c) = endorsed_bounds s q e bounds in
          (
            i,
            λ l p. ground arith,
            λ p l held.
                ((items_all (λ l. conf_le l q.released_conf)
                      (VecMap.get_set_or_empty s.taint_levels q.src) true).0
                    (ground arith)).1
                  l (ground (arith, set_contains-get s.taint_levels q.src l)),
          ),
    )

-- A declared source passes exactly when every confidentiality level that it holds is at most the
-- ingested one, and the ingested integrity is at most every integrity level that it holds.
pub dominated_iff :
    (s : KernelState) (src : AgentId) (l : ConfLevel) (li : IntegLevel)
    → (check_source s (some src) l li ≡ ok tt) ↔ (
        ((x : ConfLevel) → HoldsConf s src x → conf_le x l ≡ true)
        × ((x : IntegLevel) → HoldsInteg s src x → integ_le li x ≡ true))
unfolding check_source dominated
dominated_iff s src l li =
    let conf = items_all (λ x. conf_le x l) (VecMap.get_set_or_empty s.taint_levels src) true in
    let integ =
      items_all (λ x. integ_le li x) (VecMap.get_set_or_empty s.integ_levels src)
        (VecSet.for_items (VecMap.get_set_or_empty s.taint_levels src)
          (λ x dominated. if not (conf_le x l) then false else dominated) true) in
    (
      λ h.
          let z = integ.0 (ground arith) in
          let y = conf.0 z.0 in
          (
            λ x held. y.1 x (ground (arith, set_contains-get s.taint_levels src x)),
            λ x held. z.1 x (ground (arith, set_contains-get s.integ_levels src x)),
          ),
      λ h.
          let y =
            conf.1
              (refl, λ x held. h.0 x (ground (arith, set_contains-get s.taint_levels src x))) in
          let z =
            integ.1 (y, λ x held. h.1 x (ground (arith, set_contains-get s.integ_levels src x))) in
          ground (arith, z),
    )
