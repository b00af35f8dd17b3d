-- ===== src/Preservation/Crossing.antt =====
-- What a crossing changes: the receiver's labels, the evidence, and one grant.
use einsof.Prelude.{
  ◌≤◌, ◌+◌, ◌%◌, ltb, true, Option, none, some, ◌≡◌, ◌⊎◌, inl, inr, refl, subst, arith, eq-cases,
  Option-cases,
}
use einsof.Collections.VecMap
use einsof.Collections.VecMap.Laws.{get-insert}
use einsof.Collections.VecMap.Sets.{set_contains-insert_into, set_contains-gather}
use einsof.Collections.VecSet
use einsof.Collections.VecSet.Laws.{contains-insert}
use einsof.Invariants.{HoldsConf, HoldsInteg, Granted}
use einsof.State.{KernelState, decrement_grant_at}
use einsof.Transitions.Cross.{
  endorsed_ok, fallback_branch, choose_branch, release, consume_evidence, cross_consume,
}
use einsof.Types.{
  AgentId, AttestationId, AssignmentDigest, ConfLevel, IntegLevel, CrossingKey, CrossingGrant,
  CrossInput, CrossBranch, endorsed, unendorsed, ConformanceAttestation, disposition_eq,
  agent_id_eq, conf_level_eq, integ_level_eq, attestation_id_eq, crossing_id_eq, crossing_key_eq,
}

-- A decrement of a grant that has a use left stays within the provision; the other grants stay.
decrement-bounded :
    (s : KernelState) (a : AgentId) (d : AssignmentDigest)
    → ((g : CrossingGrant)
        → Granted s (record { agent = a; assignment = d }) g
        → ltb 0 g.remaining ≡ true)
    → (key : CrossingKey) (g : CrossingGrant) → Granted (decrement_grant_at s a d) key g
    → (h : CrossingGrant) × Granted s key h
      × (h.remaining ≤ h.provisioned → g.remaining ≤ g.provisioned)
unfolding decrement_grant_at
decrement-bounded s a d left key g p =
    let at : CrossingKey = record { agent = a; assignment = d } in
    elim (Option-cases (VecMap.get_cloned s.crossing_grants at)) [
      | inl miss ↦ (g, ground arith, λ le. le)
      | inr (h, hit) ↦
          let less : CrossingGrant = record {
            remaining = (h.remaining + 4294967295) % 4294967296;
            provisioned = h.provisioned;
          } in
          elim (eq-cases at key) [
            | inl (_, same) ↦ (
              h,
              subst (λ k. Granted s k h) same hit,
              λ le. ground (arith, get-insert s.crossing_grants at key less, left h hit),
            )
            | inr (other, _) ↦
                (g, ground (arith, get-insert s.crossing_grants at key less), λ le. le)
          ]
    ]

endorsed_ok-left :
    (s : KernelState) (q : CrossInput) (g : CrossingGrant)
    → choose_branch s q ≡ endorsed
    → Granted s (record { agent = q.rcv; assignment = q.assignment }) g
    → ltb 0 g.remaining ≡ true
unfolding choose_branch fallback_branch endorsed_ok
endorsed_ok-left s q g e h = ground arith

consume_evidence-kept :
    (s : KernelState) (e : Option ConformanceAttestation) (x : AttestationId)
    → VecSet.contains s.consumed_attestations x ≡ true
    → VecSet.contains (consume_evidence s e).consumed_attestations x ≡ true
unfolding consume_evidence
consume_evidence-kept s (some c) x h =
    ground (arith, contains-insert s.consumed_attestations c.id x)
consume_evidence-kept s none x h = h

-- What each branch releases into the receiver.
abbrev pub ReleasedConf : KernelState → CrossInput → CrossBranch → ConfLevel → Type 0
ReleasedConf s q endorsed l = q.released_conf ≡ l
ReleasedConf s q unendorsed l =
    VecSet.contains (VecMap.get_set_or_empty s.taint_levels q.src) l ≡ true
ReleasedConf s q CrossBranch.fail l = ⊥

abbrev pub ReleasedInteg : KernelState → CrossInput → CrossBranch → IntegLevel → Type 0
ReleasedInteg s q endorsed l = q.released_integ ≡ l
ReleasedInteg s q unendorsed l =
    VecSet.contains (VecMap.get_set_or_empty s.integ_levels q.src) l ≡ true
ReleasedInteg s q CrossBranch.fail l = ⊥

module _ (s : KernelState) (q : CrossInput) where
  pub release-conf :
      (b : CrossBranch) (a : AgentId) (l : ConfLevel)
      → HoldsConf (release s q b) a l
      → HoldsConf s a l ⊎ ((a ≡ q.rcv) × ReleasedConf s q b l)
  unfolding release
  release-conf endorsed a l h = ground (
    arith,
    set_contains-insert_into s.taint_levels q.rcv a q.released_conf l,
    eq-cases q.rcv a,
    eq-cases q.released_conf l,
  )
  release-conf unendorsed a l h = ground (
    arith,
    set_contains-gather q.rcv a l (VecMap.get_set_or_empty s.taint_levels q.src) s.taint_levels,
    eq-cases q.rcv a,
  )
  release-conf CrossBranch.fail a l h = inl h

  pub release-integ :
      (b : CrossBranch) (a : AgentId) (l : IntegLevel)
      → HoldsInteg (release s q b) a l
      → HoldsInteg s a l ⊎ ((a ≡ q.rcv) × ReleasedInteg s q b l)
  unfolding release
  release-integ endorsed a l h = ground (
    arith,
    set_contains-insert_into s.integ_levels q.rcv a q.released_integ l,
    eq-cases q.rcv a,
    eq-cases q.released_integ l,
  )
  release-integ unendorsed a l h = ground (
    arith,
    set_contains-gather q.rcv a l (VecMap.get_set_or_empty s.integ_levels q.src) s.integ_levels,
    eq-cases q.rcv a,
  )
  release-integ CrossBranch.fail a l h = inl h

  abbrev pub core : CrossBranch → KernelState
  core b = cross_consume (release s q b) q b

  -- The parts that a crossing leaves alone, in one place.
  pub record Kept (t : KernelState) : Type 0 where
    pub same_active : t.agent_active ≡ s.agent_active
    pub same_parent : t.agent_parent ≡ s.agent_parent
    pub same_cap : t.agent_cap ≡ s.agent_cap
    pub same_tools : t.tool_registered ≡ s.tool_registered
    pub same_ids : t.consumed_ids ≡ s.consumed_ids
    pub same_challenges : t.challenges ≡ s.challenges
    pub same_pending : t.pending ≡ s.pending

  pub core-Kept : (b : CrossBranch) → Kept (core b)
  unfolding cross_consume release decrement_grant_at consume_evidence
  core-Kept endorsed = record {
    same_active = ground arith;
    same_parent = ground arith;
    same_cap = ground arith;
    same_tools = ground arith;
    same_ids = ground arith;
    same_challenges = ground arith;
    same_pending = ground arith;
  }
  core-Kept unendorsed = record {
    same_active = refl;
    same_parent = refl;
    same_cap = refl;
    same_tools = refl;
    same_ids = refl;
    same_challenges = refl;
    same_pending = refl;
  }
  core-Kept CrossBranch.fail = record {
    same_active = refl;
    same_parent = refl;
    same_cap = refl;
    same_tools = refl;
    same_ids = refl;
    same_challenges = refl;
    same_pending = refl;
  }

  pub core-labels :
      (b : CrossBranch)
      → ((core b).taint_levels ≡ (release s q b).taint_levels)
        × ((core b).integ_levels ≡ (release s q b).integ_levels)
  unfolding cross_consume decrement_grant_at consume_evidence
  core-labels endorsed = ground arith
  core-labels unendorsed = (refl, refl)
  core-labels CrossBranch.fail = (refl, refl)

  pub core-evidence :
      (b : CrossBranch) (x : AttestationId)
      → VecSet.contains s.consumed_attestations x ≡ true
      → VecSet.contains (core b).consumed_attestations x ≡ true
  unfolding cross_consume decrement_grant_at release
  core-evidence endorsed x h =
      let t : KernelState = record (release s q endorsed) {
        consumed_crossings = VecSet.insert s.consumed_crossings q.crossing;
      } in
      ground (arith, consume_evidence-kept t q.evidence x h)
  core-evidence unendorsed x h = h
  core-evidence CrossBranch.fail x h = h

  pub core-grants :
      (b : CrossBranch)
      → choose_branch s q ≡ b
      → (key : CrossingKey) (g : CrossingGrant) → Granted (core b) key g
      → (h : CrossingGrant) × Granted s key h
        × (h.remaining ≤ h.provisioned → g.remaining ≤ g.provisioned)
  unfolding cross_consume release consume_evidence
  core-grants endorsed e key g p =
      let t : KernelState = record (release s q endorsed) {
        consumed_crossings = VecSet.insert s.consumed_crossings q.crossing;
      } in
      let same : (consume_evidence t q.evidence).crossing_grants ≡ s.crossing_grants =
        ground arith in
      let (h, held, le) =
        decrement-bounded (consume_evidence t q.evidence) q.rcv q.assignment
          (λ g' l. endorsed_ok-left s q g' e (rw same at l)) key g p in
      (h, rw same at held, le)
  core-grants unendorsed e key g p = (g, p, λ le. le)
  core-grants CrossBranch.fail e key g p = (g, p, λ le. le)
