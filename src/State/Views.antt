-- ===== src/State/Views.antt =====
-- What the derived views and the bulk updates of state.rs do to lookups.
use einsof.Prelude.{
  PartialEq, Bool-cases, beq_of_eq, Bool, true, false, ◌&&◌, none, some, ◌==◌, ◌!=◌, if◌then◌else◌,
  ◌≡◌, ◌≢◌, ◌↔◌, inl, inr, refl, arith, eq-cases,
}
use einsof.Collections.VecMap.{VecMap}
use einsof.Collections.VecMap
use einsof.Collections.VecMap.Loops.{for_entries_lem, get-rebuild}
use einsof.Collections.VecMap.Sets.{set_contains-get}
use einsof.Collections.VecSet.{VecSet}
use einsof.Collections.VecSet
use einsof.Collections.VecSet.Laws.{contains-insert}
use einsof.State.{
  KernelState, speculative_taint, speculative_integ, speculative_taint_contained, drop_pending_of,
  drop_challenges_of, demoted, demote_all_of, drop_grants_of,
}
use einsof.Types.{
  AgentId, InvocationId, PendingInvocation, CrossingKey, ConfLevel, IntegLevel, contained,
  agent_id_eq, invocation_id_eq, crossing_key_eq, conf_level_eq, integ_level_eq,
}

pub pending-drop :
    (s : KernelState) (a : AgentId) (inv : InvocationId)
    → VecMap.get_cloned (drop_pending_of s a).pending inv
      ≡ (elim (VecMap.get_cloned s.pending inv) [
        | none ↦ none
        | some j ↦ if j.agent != a then some j else none
      ])
unfolding drop_pending_of
pending-drop s a inv = get-rebuild (λ _ j. j.agent != a) (λ _ j. j) s.pending inv

pub challenges-drop :
    (s : KernelState) (a : AgentId) (inv : InvocationId)
    → VecMap.get_cloned (drop_challenges_of s a).challenges inv
      ≡ (elim (VecMap.get_cloned s.challenges inv) [
        | none ↦ none
        | some sc ↦ if sc.agent != a then some sc else none
      ])
unfolding drop_challenges_of
challenges-drop s a inv = get-rebuild (λ _ sc. sc.agent != a) (λ _ sc. sc) s.challenges inv

pub grants-drop :
    (s : KernelState) (a : AgentId) (key : CrossingKey)
    → VecMap.get_cloned (drop_grants_of s a).crossing_grants key
      ≡ (elim (VecMap.get_cloned s.crossing_grants key) [
        | none ↦ none
        | some g ↦ if key.agent != a then some g else none
      ])
unfolding drop_grants_of
grants-drop s a key = get-rebuild (λ k _. k.agent != a) (λ _ g. g) s.crossing_grants key

-- After a demotion, the record at each key is the old one, demoted if it is the agent's.
pub pending-demote :
    (s : KernelState) (a : AgentId) (inv : InvocationId)
    → VecMap.get_cloned (demote_all_of s a).pending inv
      ≡ (elim (VecMap.get_cloned s.pending inv) [ none ↦ none | some j ↦ some (demoted a j) ])
unfolding demote_all_of
pending-demote s a inv = get-rebuild (λ _ _. true) (λ _ j. demoted a j) s.pending inv

-- A loop that adds an output of each record that it selects.
module _ {ℓ} {L : Type ℓ} ⦃e : PartialEq L⦄ (own : PendingInvocation → Bool)
    (out : PendingInvocation → L) (m : VecMap InvocationId PendingInvocation) (l : L) where
  collect_adds :
      (k : InvocationId) (j : PendingInvocation) (acc : VecSet L)
      → (VecSet.contains (if own j then VecSet.insert acc (out j) else acc) l ≡ false)
        ↔ ((VecSet.contains acc l ≡ false) × (own j ≡ true → out j ≢ l))
  collect_adds k j acc = elim (Bool-cases (own j)) [
    | inl mine ↦ rw mine (
      λ h. ground (arith, contains-insert acc (out j) l, eq-cases (out j) l),
      λ h. ground (arith, contains-insert acc (out j) l, eq-cases (out j) l, h.1 refl),
    )
    | inr other ↦ rw other (λ h. (h, λ p. cc), λ h. h.0)
  ]

  collect_absent :
      (start : VecSet L)
      → (VecSet.contains
            (VecMap.for_entries m
              (λ _ j acc. if own j then VecSet.insert acc (out j) else acc)
              start)
            l
          ≡ false)
        ↔ ((VecSet.contains start l ≡ false)
            × ((inv : InvocationId) (j : PendingInvocation)
                → VecMap.get_cloned m inv ≡ some j
                → own j ≡ true
                → out j ≢ l))
  collect_absent start =
      for_entries_lem (λ acc. VecSet.contains acc l ≡ false) (λ _ j. own j ≡ true → out j ≢ l)
        (λ _ j acc. if own j then VecSet.insert acc (out j) else acc) collect_adds m start

-- A level is absent from an agent's speculative taint exactly when the agent does not hold it and no
-- pending record of the agent has it as its frozen output.
pub speculative_taint-absent :
    (s : KernelState) (a : AgentId) (l : ConfLevel)
    → (VecSet.contains (speculative_taint s a) l ≡ false) ↔ (
        (VecMap.set_contains s.taint_levels a l ≡ false)
        × ((inv : InvocationId) (j : PendingInvocation)
            → VecMap.get_cloned s.pending inv ≡ some j
            → (j.agent == a) ≡ true
            → j.policy.output_conf ≢ l))
unfolding speculative_taint
speculative_taint-absent s a l = rw (← set_contains-get s.taint_levels a l) (
    collect_absent (λ j. j.agent == a) (λ j. j.policy.output_conf) s.pending l
      (VecMap.get_set_or_empty s.taint_levels a))

pub speculative_integ-absent :
    (s : KernelState) (a : AgentId) (l : IntegLevel)
    → (VecSet.contains (speculative_integ s a) l ≡ false) ↔ (
        (VecMap.set_contains s.integ_levels a l ≡ false)
        × ((inv : InvocationId) (j : PendingInvocation)
            → VecMap.get_cloned s.pending inv ≡ some j
            → (j.agent == a) ≡ true
            → j.policy.output_integ ≢ l))
unfolding speculative_integ
speculative_integ-absent s a l = rw (← set_contains-get s.integ_levels a l) (
    collect_absent (λ j. j.agent == a) (λ j. j.policy.output_integ) s.pending l
      (VecMap.get_set_or_empty s.integ_levels a))

pub speculative_taint_contained-absent :
    (s : KernelState) (a : AgentId) (l : ConfLevel)
    → (VecSet.contains (speculative_taint_contained s a) l ≡ false) ↔ (
        (VecMap.set_contains s.taint_levels a l ≡ false)
        × ((inv : InvocationId) (j : PendingInvocation)
            → VecMap.get_cloned s.pending inv ≡ some j
            → ((j.agent == a) && contained j) ≡ true
            → j.policy.output_conf ≢ l))
unfolding speculative_taint_contained
speculative_taint_contained-absent s a l = rw (← set_contains-get s.taint_levels a l) (
    collect_absent (λ j. j.agent == a && contained j) (λ j. j.policy.output_conf) s.pending l
      (VecMap.get_set_or_empty s.taint_levels a))

-- A member of a set that was shown not to be absent.
present : (b : Bool) → ¬ (b ≡ false) → b ≡ true
present true h = refl
present false h = absurd (h refl)

module _ (s : KernelState) (a : AgentId) where
  pub speculative_taint-held :
      (l : ConfLevel)
      → VecMap.set_contains s.taint_levels a l ≡ true
      → VecSet.contains (speculative_taint s a) l ≡ true
  speculative_taint-held l h =
      present _ (λ f. ground (arith, ((speculative_taint-absent s a l).0 f).0))

  pub speculative_integ-held :
      (l : IntegLevel)
      → VecMap.set_contains s.integ_levels a l ≡ true
      → VecSet.contains (speculative_integ s a) l ≡ true
  speculative_integ-held l h =
      present _ (λ f. ground (arith, ((speculative_integ-absent s a l).0 f).0))

  module _ (inv : InvocationId) (j : PendingInvocation)
      (pends : VecMap.get_cloned s.pending inv ≡ some j) (mine : j.agent ≡ a) where
    pub speculative_taint-pending :
        VecSet.contains (speculative_taint s a) j.policy.output_conf ≡ true
    speculative_taint-pending = present _ (λ f.
        ((speculative_taint-absent s a j.policy.output_conf).0 f).1 inv j pends (beq_of_eq mine)
          refl)

    pub speculative_integ-pending :
        VecSet.contains (speculative_integ s a) j.policy.output_integ ≡ true
    speculative_integ-pending = present _ (λ f.
        ((speculative_integ-absent s a j.policy.output_integ).0 f).1 inv j pends (beq_of_eq mine)
          refl)
