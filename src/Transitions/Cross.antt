-- ===== src/Transitions/Cross.antt =====
-- `cross_output`.
use einsof.Prelude.{
  Bool, true, false, not, ◌&&◌, ◌||◌, Option, none, some, ltb, ◌==◌, if◌then◌else◌, Result, ok,
  ◌>>=◌, ◌>>◌, require,
}
use einsof.Background.{BackgroundTheory}
use einsof.Collections.VecMap
use einsof.Collections.VecSet
use einsof.Error.{
  KernelError, agent_inactive, source_in_flight, crossing_replayed, crossing_bound_violated,
  crossing_hold_failed,
}
use einsof.Event.{KernelAction}
use einsof.State.{KernelState, demote_all_of, decrement_grant_at}
use einsof.Transitions.Holds.{ingest_conf_hold, ingest_clear_hold, ingest_integ_hold, ingest_holds}
use einsof.Transitions.Ingest.{dispose}
use einsof.Types.{
  AgentId, CrossInput, ConformanceAttestation, ConfLevel, Fallback, CrossBranch, Disposition,
  release_unendorsed, endorsed, unendorsed, monitor_bypassed, conf_le, integ_le, agent_id_eq,
  invocation_id_eq, attestation_id_eq, crossing_id_eq, content_hash_eq, assignment_digest_eq,
  crossing_key_eq, conf_level_eq, integ_level_eq, disposition_eq,
}

unfoldable pub evidence_ok : KernelState → CrossInput → Option ConformanceAttestation → Bool
evidence_ok s q none = false
evidence_ok s q (some e) =
    e.positive
    && not (VecSet.contains s.consumed_attestations e.id)
    && e.output == q.output_hash
    && e.src == q.src
    && e.rcv == q.rcv
    && e.descriptor == q.descriptor
    && e.assignment == q.assignment

unfoldable pub endorsed_ok : KernelState → CrossInput → Bool
endorsed_ok s q =
    if not (evidence_ok s q q.evidence)
    then false
    else (elim (VecMap.get_cloned s.crossing_grants
        (record { agent = q.rcv; assignment = q.assignment })) [
          | some g ↦ ltb 0 g.remaining
          | none ↦ false
        ])

unfoldable pub cross_holds : KernelState → BackgroundTheory → CrossInput → CrossBranch → Bool
cross_holds s bg q endorsed = ingest_holds s bg q.rcv q.released_conf q.released_integ
cross_holds s bg q unendorsed =
    VecSet.for_items (VecMap.get_set_or_empty s.integ_levels q.src)
      (λ li ok. if not (ingest_integ_hold s q.rcv li) then false else ok)
      (VecSet.for_items (VecMap.get_set_or_empty s.taint_levels q.src)
        (λ l ok.
          if not (ingest_conf_hold s bg q.rcv l) || not (ingest_clear_hold s q.rcv l)
          then false
          else ok)
        true)
cross_holds s bg q CrossBranch.fail = true

unfoldable pub source_busy : KernelState → AgentId → Bool
source_busy s src =
    VecMap.for_entries s.pending (λ _ j in_flight. if j.agent == src then true else in_flight) false

unfoldable pub fallback_branch : Fallback → CrossBranch
fallback_branch release_unendorsed = unendorsed
fallback_branch Fallback.fail = CrossBranch.fail

unfoldable pub choose_branch : KernelState → CrossInput → CrossBranch
choose_branch s q = if endorsed_ok s q then endorsed else fallback_branch q.fallback

-- The bound on the released confidentiality: the assignment's, or the source's held taint.
unfoldable pub conf_bound : KernelState → CrossInput → Option ConfLevel → Bool
conf_bound s q (some c) = conf_le q.released_conf c
conf_bound s q none =
    VecSet.for_items (VecMap.get_set_or_empty s.taint_levels q.src)
      (λ l ok. if not (conf_le l q.released_conf) then false else ok) true

unfoldable pub check_bounds : KernelState → CrossInput → CrossBranch → Result KernelError (Unit {0})
check_bounds s q endorsed = do
  require (integ_le q.released_integ q.t_integ) crossing_bound_violated
  require (conf_bound s q q.t_conf) crossing_bound_violated
check_bounds s q _ = ok tt

-- Label release into the receiver.
unfoldable pub release : KernelState → CrossInput → CrossBranch → KernelState
release s q endorsed = record s {
  taint_levels = VecMap.insert_into s.taint_levels q.rcv q.released_conf;
  integ_levels = VecMap.insert_into s.integ_levels q.rcv q.released_integ;
}
release s q unendorsed = record s {
  taint_levels =
      VecSet.for_items (VecMap.get_set_or_empty s.taint_levels q.src)
        (λ l m. VecMap.insert_into m q.rcv l) s.taint_levels;
  integ_levels =
      VecSet.for_items (VecMap.get_set_or_empty s.integ_levels q.src)
        (λ li m. VecMap.insert_into m q.rcv li) s.integ_levels;
}
release s q CrossBranch.fail = s

unfoldable pub consume_evidence : KernelState → Option ConformanceAttestation → KernelState
consume_evidence s (some e) = record s {
  consumed_attestations = VecSet.insert s.consumed_attestations e.id;
}
consume_evidence s none = s

-- The crossing id is consumed on every branch; endorsement consumes evidence and a grant use.
unfoldable pub cross_consume : KernelState → CrossInput → CrossBranch → KernelState
cross_consume s q branch =
    let t : KernelState = record s {
      consumed_crossings = VecSet.insert s.consumed_crossings q.crossing;
    } in
    elim branch [
      | endorsed ↦ decrement_grant_at (consume_evidence t q.evidence) q.rcv q.assignment
      | unendorsed ↦ t
      | CrossBranch.fail ↦ t
    ]

unfoldable pub crossed : KernelState → CrossInput → CrossBranch → Disposition → KernelState
crossed s q branch disposition =
    let t = cross_consume (release s q branch) q branch in
    if disposition == monitor_bypassed then demote_all_of t q.rcv else t

unfoldable pub cross_output :
    KernelState → BackgroundTheory → CrossInput → Result KernelError (KernelState × KernelAction)
cross_output s bg q = do
  require (VecSet.contains s.agent_active q.src) agent_inactive
  require (VecSet.contains s.agent_active q.rcv) agent_inactive
  require (not (source_busy s q.src)) source_in_flight
  require (not (VecSet.contains s.consumed_crossings q.crossing)) crossing_replayed
  check_bounds s q (choose_branch s q)
  disposition ← dispose (cross_holds s bg q (choose_branch s q)) bg.mode crossing_hold_failed
  ok (
    crossed s q (choose_branch s q) disposition,
    KernelAction.cross_output q.src q.rcv q.crossing (choose_branch s q) disposition,
  )
