-- ===== src/Preservation/Dropped.antt =====
-- The bulk removal that `delegate`, `revoke` and `cascade_revoke` share: what is left belongs to others.
use einsof.Prelude.{none, ◌≡◌, ◌≢◌, arith, eq-cases, Option-cases, inl, inr}
use einsof.Collections.VecMap
use einsof.Invariants.{Pends, Open, Granted}
use einsof.State.{KernelState, drop_pending_of, drop_challenges_of, drop_grants_of}
use einsof.State.Views.{pending-drop, challenges-drop, grants-drop}
use einsof.Types.{
  AgentId, InvocationId, PendingInvocation, ChallengeScope, CrossingKey, CrossingGrant, agent_id_eq,
  invocation_id_eq, crossing_key_eq,
}

abbrev pub drop_all : KernelState → AgentId → KernelState
drop_all s a = drop_grants_of (drop_challenges_of (drop_pending_of s a) a) a

module _ (s : KernelState) (a : AgentId) where
  pub drop_all-pending :
      (inv : InvocationId) (j : PendingInvocation)
      → Pends (drop_all s a) inv j
      → Pends s inv j × (j.agent ≢ a)
  unfolding drop_challenges_of drop_grants_of
  drop_all-pending inv j h = elim (Option-cases (VecMap.get_cloned s.pending inv)) [
    | inl miss ↦ absurd (ground (arith, pending-drop s a inv))
    | inr (k, hit) ↦ ground (arith, pending-drop s a inv, eq-cases k.agent a)
  ]

  pub drop_all-challenges :
      (inv : InvocationId) (sc : ChallengeScope)
      → Open (drop_all s a) inv sc
      → Open s inv sc × (sc.agent ≢ a)
  unfolding drop_pending_of drop_grants_of
  drop_all-challenges inv sc h = elim (Option-cases (VecMap.get_cloned s.challenges inv)) [
    | inl miss ↦ absurd (ground (arith, challenges-drop (drop_pending_of s a) a inv))
    | inr (k, hit) ↦ ground (arith, challenges-drop (drop_pending_of s a) a inv, eq-cases k.agent a)
  ]

  pub drop_all-grants :
      (key : CrossingKey) (g : CrossingGrant)
      → Granted (drop_all s a) key g
      → Granted s key g × (key.agent ≢ a)
  unfolding drop_pending_of drop_challenges_of
  drop_all-grants key g h = elim (Option-cases (VecMap.get_cloned s.crossing_grants key)) [
    | inl miss ↦
        absurd (ground (arith, grants-drop (drop_challenges_of (drop_pending_of s a) a) a key))
    | inr (k, hit) ↦ ground (
      arith,
      grants-drop (drop_challenges_of (drop_pending_of s a) a) a key,
      eq-cases key.agent a,
    )
  ]

  pub drop_all-free :
      (inv : InvocationId)
      → VecMap.get_cloned s.pending inv ≡ none
      → VecMap.get_cloned (drop_all s a).pending inv ≡ none
  unfolding drop_challenges_of drop_grants_of
  drop_all-free inv h = ground (arith, pending-drop s a inv)
