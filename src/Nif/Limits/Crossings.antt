-- ===== src/Nif/Limits/Crossings.antt =====
-- What `check_cross_post` of limits.rs counts for a receiver that holds every level.
use einsof.Prelude.{
  ℕ, ◌+◌, ◌<◌, ◌≤◌, Option, none, some, ok, >>=-ok, ◌≡◌, ◌≢◌, ◌⊎◌, inl, inr, arith, PartialEq,
  is_some,
}
use einsof.Collections.VecMap
use einsof.Collections.VecSet
use einsof.Collections.VecSet.{VecSet}
use einsof.State.{KernelState}
use einsof.Types.{AgentId, agent_id_eq, conf_level_eq, integ_level_eq}
use einsof.Nif.Command.{CommandN}
use einsof.Nif.Limits.Bounds.{max_consumed_crossings, max_conf_levels, max_integ_levels}
use einsof.Nif.Limits.Budget.{TextBudget, checked_add, checked_capacity, check_capacity, check_next}
use einsof.Nif.Limits.Command.{check_command}
use einsof.Nif.Limits.Preflight.{
  held_len, level_addition, check_label_key, check_attestations, check_cross_post,
  check_post_transition, preflight,
}
use einsof.Nif.Limits.State.{checked_state_text}
use einsof.Nif.Wire.Commands.{CrossOutputCommandN}
use einsof.Nif.Wire.Structs.{CrossInputN}

check_capacity-le : (a b m : ℕ) → check_capacity a b m ≡ ok tt → a + b ≤ m
unfolding check_capacity checked_capacity checked_add
check_capacity-le a b m h = ground arith

level_addition-positive :
    {T : Type 0} ⦃e : PartialEq T⦄ (source receiver : Option (VecSet T))
    → 0 < level_addition source receiver
unfolding level_addition
level_addition-positive none receiver = omega arith
level_addition-positive (some levels) receiver = ground arith

check_cross_post-room :
    (s : KernelState) (q : CrossInputN) (text : TextBudget) {total : TextBudget}
    → check_cross_post s q text ≡ ok total
    → (held_len (VecMap.get_cloned s.taint_levels (record { text = q.rcv })) < 4)
      × (held_len (VecMap.get_cloned s.integ_levels (record { text = q.rcv })) < 4)
unfolding check_cross_post
check_cross_post-room s q text h =
    let source : AgentId = record { text = q.src } in
    let receiver : AgentId = record { text = q.rcv } in
    let conf = VecMap.get_cloned s.taint_levels receiver in
    let integ = VecMap.get_cloned s.integ_levels receiver in
    let conf_more = level_addition (VecMap.get_cloned s.taint_levels source) conf in
    let integ_more = level_addition (VecMap.get_cloned s.integ_levels source) integ in
    let a =
      >>=-ok (check_capacity (VecSet.len s.consumed_crossings) 1 max_consumed_crossings) _ h in
    let b = >>=-ok (check_attestations s (is_some q.evidence)) _ a.2 in
    let c = >>=-ok (check_label_key s.taint_levels receiver) _ b.2 in
    let d = >>=-ok (check_label_key s.integ_levels receiver) _ c.2 in
    let e = >>=-ok (check_capacity (held_len conf) conf_more max_conf_levels) _ d.2 in
    let f = >>=-ok (check_capacity (held_len integ) integ_more max_integ_levels) _ e.2 in
    let le = check_capacity-le (held_len conf) conf_more max_conf_levels e.1 in
    let le' = check_capacity-le (held_len integ) integ_more max_integ_levels f.1 in
    let pos = level_addition-positive (VecMap.get_cloned s.taint_levels source) conf in
    let pos' = level_addition-positive (VecMap.get_cloned s.integ_levels source) integ in
    (omega (arith, le, pos), omega (arith, le', pos'))

-- Preflight refuses every cross_output whose receiver holds four confidentiality levels or four
-- integrity levels, whatever the source holds.
pub cross_output-full :
    (s : KernelState) (sequence : ℕ) (c : CrossOutputCommandN)
    → (held_len (VecMap.get_cloned s.taint_levels (record { text = c.input.rcv })) ≡ 4)
      ⊎ (held_len (VecMap.get_cloned s.integ_levels (record { text = c.input.rcv })) ≡ 4)
    → preflight s sequence (CommandN.cross_output c) ≢ ok tt
unfolding preflight check_post_transition
cross_output-full s sequence c full h =
    let next = >>=-ok (check_next sequence) _ h in
    let text = >>=-ok (checked_state_text s) _ next.2 in
    let fits = >>=-ok (check_command (CommandN.cross_output c)) _ text.2 in
    let post = >>=-ok (check_cross_post s c.input text.0) _ fits.2 in
    let room = check_cross_post-room s c.input text.0 post.1 in
    elim full [ inl p ↦ omega (arith, p, room.0) | inr p ↦ omega (arith, p, room.1) ]
