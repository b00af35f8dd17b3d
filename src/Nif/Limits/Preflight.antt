-- ===== src/Nif/Limits/Preflight.antt =====
-- `preflight` of ex_argus/native/argus_nif/src/limits.rs: whether the state that a command may lead to
-- stays within the bounds.
use einsof.Prelude.{
  ℕ, ◌+◌, Bool, true, false, not, String, List, [], ◌∷◌, Option, none, some, PartialEq,
  if◌then◌else◌, is_some, Result, ok, ◌>>=◌, ◌>>◌, leb, eqb,
}
use einsof.Capability.{cap_kind_eq}
use einsof.Collections.VecMap.{VecMap}
use einsof.Collections.VecMap
use einsof.Collections.VecSet.{VecSet}
use einsof.Collections.VecSet
use einsof.State.{KernelState}
use einsof.Types.{
  AgentId, PendingInvocation, ChallengeScope, agent_id_eq, invocation_id_eq, conf_level_eq,
  integ_level_eq,
}
use einsof.Nif.Command.{CommandN}
use einsof.Nif.Enums.{conf_level_into_kernel, integ_level_into_kernel, cap_kind_into_kernel}
use einsof.Nif.Event.{ErrorN}
use einsof.Nif.Limits.Bounds.{
  max_agents, max_parent_or_label_keys, max_tools, max_pending, max_challenges, max_crossing_grants,
  max_consumed_ids, max_consumed_attestations, max_consumed_crossings, max_capabilities,
  max_conf_levels, max_integ_levels,
}
use einsof.Nif.Limits.Budget.{TextBudget, check_capacity, add_all, check_next}
use einsof.Nif.Limits.Command.{check_command}
use einsof.Nif.Limits.State.{checked_state_text}
use einsof.Nif.Wire.Commands.{
  GrantCapabilityCommandN, IngestCommandN, BeginInvocationCommandN, AuthorizeInspectedCommandN,
  SettleInvocationCommandN,
}
use einsof.Nif.Wire.Structs.{CrossInputN, ConformanceAttestationN, ResolutionAttestationN}

-- `usize::from`.
abbrev pub of_bool : Bool → ℕ
of_bool true = 1
of_bool false = 0

module _ {T : Type 0} where
  -- `usize::from(!map.contains_key(..))`
  unfoldable pub add_label_key_if_absent : VecMap AgentId (VecSet T) → AgentId → ℕ
  add_label_key_if_absent m agent = of_bool (not (VecMap.contains_key m agent))

  unfoldable pub check_label_key : VecMap AgentId (VecSet T) → AgentId → Result ErrorN (Unit {0})
  check_label_key m agent =
      check_capacity (VecMap.len m) (add_label_key_if_absent m agent) max_parent_or_label_keys

  -- `map_or(0, VecSet::len)`
  unfoldable pub held_len : Option (VecSet T) → ℕ
  held_len none = 0
  held_len (some held) = VecSet.len held

  module _ ⦃e : PartialEq T⦄ where
    -- `is_none_or(|held| !held.contains(x))`
    unfoldable pub misses : Option (VecSet T) → T → Bool
    misses none x = true
    misses (some held) x = not (VecSet.contains held x)

    -- The members that the receiver misses.
    unfoldable pub count_missed : Option (VecSet T) → List T → ℕ
    count_missed receiver [] = 0
    count_missed receiver (x ∷ xs) = of_bool (misses receiver x) + count_missed receiver xs

    -- `source.map_or(1, |levels| ...count().max(1))`
    unfoldable pub level_addition : Option (VecSet T) → Option (VecSet T) → ℕ
    level_addition none receiver = 1
    level_addition (some levels) receiver =
        let missed = count_missed receiver levels.items in if leb missed 1 then 1 else missed

-- `text.add(..)?` on a condition.
unfoldable pub add_if : Bool → TextBudget → List String → Result ErrorN TextBudget
add_if test text values = if test then add_all text values else ok text

unfoldable pub grant_capability_post :
    KernelState → GrantCapabilityCommandN → TextBudget → Result ErrorN TextBudget
grant_capability_post s c text = do
  let child : AgentId = record { text = c.child }
  check_capacity (VecMap.len s.agent_cap) (of_bool (not (VecMap.contains_key s.agent_cap child)))
      max_parent_or_label_keys
  let existing = VecMap.get_cloned s.agent_cap child
  check_capacity (held_len existing) (of_bool (misses existing (cap_kind_into_kernel c.cap)))
      max_capabilities
  add_if (not (is_some existing)) text (c.child ∷ [])

unfoldable pub ingest_post : KernelState → IngestCommandN → TextBudget → Result ErrorN TextBudget
ingest_post s c text = do
  let agent : AgentId = record { text = c.agent }
  let taint_addition = add_label_key_if_absent s.taint_levels agent
  let integ_addition = add_label_key_if_absent s.integ_levels agent
  check_capacity (VecMap.len s.taint_levels) taint_addition max_parent_or_label_keys
  check_capacity (VecMap.len s.integ_levels) integ_addition max_parent_or_label_keys
  let taint = VecMap.get_cloned s.taint_levels agent
  check_capacity (held_len taint) (of_bool (misses taint (conf_level_into_kernel c.pconf)))
      max_conf_levels
  let integ = VecMap.get_cloned s.integ_levels agent
  check_capacity (held_len integ) (of_bool (misses integ (integ_level_into_kernel c.pinteg)))
      max_integ_levels
  text ← add_if (eqb taint_addition 1) text (c.agent ∷ [])
  add_if (eqb integ_addition 1) text (c.agent ∷ [])

unfoldable pub begin_invocation_post :
    KernelState → BeginInvocationCommandN → TextBudget → Result ErrorN TextBudget
begin_invocation_post s c text = do
  check_capacity (VecMap.len s.pending) 1 max_pending
  check_capacity (VecMap.len s.challenges) 1 max_challenges
  check_capacity (VecSet.len s.consumed_ids) 1 max_consumed_ids
  add_all text (
      c.inv ∷ c.inv ∷ c.agent ∷ c.challenge ∷ c.policy.tool ∷ c.policy.policy_digest ∷ c.args_hash
      ∷ [])

unfoldable pub scope_texts : String → Option ChallengeScope → List String
scope_texts inv none = []
scope_texts inv (some scope) =
    inv ∷ scope.agent.text ∷ scope.policy.tool.text ∷ scope.policy.policy_digest.text ∷ []

unfoldable pub authorize_inspected_post :
    KernelState → AuthorizeInspectedCommandN → TextBudget → Result ErrorN TextBudget
authorize_inspected_post s c text = do
  check_capacity (VecMap.len s.pending) 1 max_pending
  check_capacity (VecSet.len s.consumed_attestations) 1 max_consumed_attestations
  text ← add_all text (c.attestation.id ∷ c.attestation.id ∷ [])
  add_all text (scope_texts c.inv (VecMap.get_cloned s.challenges (record { text = c.inv })))

-- `if present { checked_capacity(consumed_attestations.len(), 1, ..)?; }`
unfoldable pub check_attestations : KernelState → Bool → Result ErrorN (Unit {0})
check_attestations s present =
    if present
    then check_capacity (VecSet.len s.consumed_attestations) 1 max_consumed_attestations
    else ok tt

unfoldable pub settle_owner_post :
    KernelState → Option PendingInvocation → TextBudget → Result ErrorN TextBudget
settle_owner_post s none text = ok text
settle_owner_post s (some j) text = do
  check_label_key s.taint_levels j.agent
  check_label_key s.integ_levels j.agent
  add_all text (j.agent.text ∷ j.agent.text ∷ [])

unfoldable pub resolution_texts : Option ResolutionAttestationN → List String
resolution_texts none = []
resolution_texts (some r) = r.id ∷ []

unfoldable pub settle_invocation_post :
    KernelState → SettleInvocationCommandN → TextBudget → Result ErrorN TextBudget
settle_invocation_post s c text = do
  check_attestations s (is_some c.resolution)
  text ← settle_owner_post s (VecMap.get_cloned s.pending (record { text = c.inv })) text
  add_all text (resolution_texts c.resolution)

unfoldable pub evidence_texts : Option ConformanceAttestationN → List String
evidence_texts none = []
evidence_texts (some e) = e.id ∷ []

unfoldable pub check_cross_post : KernelState → CrossInputN → TextBudget → Result ErrorN TextBudget
check_cross_post s q text = do
  check_capacity (VecSet.len s.consumed_crossings) 1 max_consumed_crossings
  check_attestations s (is_some q.evidence)
  let source : AgentId = record { text = q.src }
  let receiver : AgentId = record { text = q.rcv }
  check_label_key s.taint_levels receiver
  check_label_key s.integ_levels receiver
  let receiver_conf = VecMap.get_cloned s.taint_levels receiver
  check_capacity (held_len receiver_conf)
      (level_addition (VecMap.get_cloned s.taint_levels source) receiver_conf) max_conf_levels
  let receiver_integ = VecMap.get_cloned s.integ_levels receiver
  check_capacity (held_len receiver_integ)
      (level_addition (VecMap.get_cloned s.integ_levels source) receiver_integ) max_integ_levels
  add_all text (q.crossing ∷ q.rcv ∷ q.rcv ∷ evidence_texts q.evidence)

unfoldable pub check_post_transition :
    KernelState → CommandN → TextBudget → Result ErrorN TextBudget
check_post_transition s (CommandN.register_tool c) text = do
  check_capacity (VecSet.len s.tool_registered) 1 max_tools
  add_all text (c.tool ∷ [])
check_post_transition s (CommandN.unregister_tool _) text = ok text
check_post_transition s (CommandN.revoke _) text = ok text
check_post_transition s (CommandN.cascade_revoke _) text = ok text
check_post_transition s (CommandN.delegate c) text = do
  check_capacity (VecSet.len s.agent_active) 1 max_agents
  check_capacity (VecMap.len s.agent_parent) 1 max_parent_or_label_keys
  add_all text (c.grantee ∷ c.grantee ∷ c.grantor ∷ [])
check_post_transition s (CommandN.grant_capability c) text = grant_capability_post s c text
check_post_transition s (CommandN.grant_crossing c) text = do
  check_capacity (VecMap.len s.crossing_grants) 1 max_crossing_grants
  add_all text (c.agent ∷ c.assignment ∷ [])
check_post_transition s (CommandN.ingest c) text = ingest_post s c text
check_post_transition s (CommandN.begin_invocation c) text = begin_invocation_post s c text
check_post_transition s (CommandN.authorize_inspected c) text = authorize_inspected_post s c text
check_post_transition s (CommandN.settle_invocation c) text = settle_invocation_post s c text
check_post_transition s (CommandN.cross_output c) text = check_cross_post s c.input text

unfoldable pub preflight : KernelState → ℕ → CommandN → Result ErrorN (Unit {0})
preflight s sequence command = do
  check_next sequence
  text ← checked_state_text s
  check_command command
  _ ← check_post_transition s command text
  ok tt
