-- ===== src/Gates/Holds.antt =====
-- The pending records that the holds of `ingest` and `cross_output` look at.
use einsof.Prelude.{
  Bool, true, false, not, ◌&&◌, ◌||◌, ◌==◌, if◌then◌else◌, ◌≡◌, ◌↔◌, ◌⊎◌, inl, inr, refl, arith,
  eq_of_beq, beq_of_eq,
}
use einsof.Background.{BackgroundTheory, flow_allows, flow_inspects}
use einsof.Collections.VecMap.Latches.{items_all, entries_all, entries_all_flat, latch}
use einsof.Collections.VecSet
use einsof.Invariants.{Pends, Accepts, AcceptsInteg}
use einsof.State.{KernelState}
use einsof.Transitions.Holds.{ingest_conf_hold, ingest_clear_hold, ingest_integ_hold, ingest_holds}
use einsof.Types.{
  AgentId, InvocationId, PendingInvocation, ConfLevel, IntegLevel, EgressKind, conf_le, integ_le,
  vouched, agent_id_eq, invocation_id_eq, egress_kind_eq,
}

pub allows_or_vouched :
    (a i v : Bool) → ((a || (i && v)) ≡ true) ↔ ((a ≡ true) ⊎ ((i ≡ true) × (v ≡ true)))
allows_or_vouched true i v = (λ _. inl refl, λ _. refl)
allows_or_vouched false true v = (λ h. inr (refl, h), λ h. ground arith)
allows_or_vouched false false v = (λ h. cc, λ h. ground arith)

-- Every pending record of the agent takes the level.
abbrev pub AllAccept : KernelState → BackgroundTheory → AgentId → ConfLevel → Type 0
AllAccept s bg a l =
    (inv : InvocationId) (j : PendingInvocation) → Pends s inv j → j.agent ≡ a → Accepts bg j l

abbrev pub AllAcceptInteg : KernelState → AgentId → IntegLevel → Type 0
AllAcceptInteg s a l =
    (inv : InvocationId) (j : PendingInvocation) → Pends s inv j → j.agent ≡ a → AcceptsInteg j l

module _ (s : KernelState) (bg : BackgroundTheory) (a : AgentId) (l : ConfLevel) where
  abbrev flow_pass : PendingInvocation → EgressKind → Bool
  flow_pass j eg = flow_allows bg l eg || (flow_inspects bg l eg && vouched j)

  conf_hold_iff : (ingest_conf_hold s bg a l ≡ true) ↔ (
      (true ≡ true)
      × ((inv : InvocationId) (j : PendingInvocation)
          → Pends s inv j
          → (j.agent == a) ≡ true
          → (e : EgressKind) → VecSet.contains j.egress e ≡ true
          → flow_pass j e ≡ true))
  unfolding ingest_conf_hold
  conf_hold_iff =
      entries_all s.pending (λ j. j.agent == a)
        (λ j. (e : EgressKind) → VecSet.contains j.egress e ≡ true → flow_pass j e ≡ true)
        (λ j ok. VecSet.for_items j.egress (λ eg ok. if not (flow_pass j eg) then false else ok) ok)
        (λ j ok. items_all (flow_pass j) j.egress ok) true

  clear_hold_iff : (ingest_clear_hold s a l ≡ true) ↔ (
      (true ≡ true)
      × ((inv : InvocationId) (j : PendingInvocation)
          → Pends s inv j
          → (j.agent == a) ≡ true
          → conf_le l j.policy.conf_clearance ≡ true))
  unfolding ingest_clear_hold
  clear_hold_iff =
      entries_all_flat s.pending (λ j. j.agent == a) (λ j. conf_le l j.policy.conf_clearance) true

  -- The two confidentiality holds pass exactly when every pending record of the agent accepts the
  -- level.
  pub conf_holds-AllAccept :
      ((ingest_conf_hold s bg a l ≡ true) × (ingest_clear_hold s a l ≡ true)) ↔ AllAccept s bg a l
  conf_holds-AllAccept = (
    λ h inv j p mine. record {
      flows = λ e held.
          (allows_or_vouched _ _ _).0 ((conf_hold_iff.0 h.0).1 inv j p (beq_of_eq mine) e held);
      clears = (clear_hold_iff.0 h.1).1 inv j p (beq_of_eq mine);
    },
    λ all. (
      conf_hold_iff.1 (
        refl,
        λ inv j p own e held.
            (allows_or_vouched _ _ _).1 ((all inv j p (eq_of_beq own)).flows e held),
      ),
      clear_hold_iff.1 (refl, λ inv j p own. (all inv j p (eq_of_beq own)).clears),
    ),
  )

module _ (s : KernelState) (a : AgentId) (l : IntegLevel) where
  abbrev integ_pass : PendingInvocation → Bool
  integ_pass j = integ_le j.policy.integ_floor l || (integ_le j.policy.integ_inspect l && vouched j)

  integ_hold_iff : (ingest_integ_hold s a l ≡ true) ↔ (
      (true ≡ true)
      × ((inv : InvocationId) (j : PendingInvocation)
          → Pends s inv j
          → (j.agent == a) ≡ true
          → integ_pass j ≡ true))
  unfolding ingest_integ_hold
  integ_hold_iff =
      entries_all s.pending (λ j. j.agent == a) (λ j. integ_pass j ≡ true)
        (λ j ok. if not (integ_pass j) then false else ok) (λ j ok. latch (integ_pass j) ok) true

  pub integ_hold-AllAcceptInteg : (ingest_integ_hold s a l ≡ true) ↔ AllAcceptInteg s a l
  integ_hold-AllAcceptInteg = (
    λ h inv j p mine. (allows_or_vouched _ _ _).0 ((integ_hold_iff.0 h).1 inv j p (beq_of_eq mine)),
    λ all.
        integ_hold_iff.1
          (refl, λ inv j p own. (allows_or_vouched _ _ _).1 (all inv j p (eq_of_beq own))),
  )

-- The three ingest holds pass exactly when every pending record of the agent accepts both levels.
pub ingest_holds_iff :
    (s : KernelState) (bg : BackgroundTheory) (a : AgentId) (l : ConfLevel) (li : IntegLevel)
    → (ingest_holds s bg a l li ≡ true) ↔ (AllAccept s bg a l × AllAcceptInteg s a li)
unfolding ingest_holds
ingest_holds_iff s bg a l li = (
  λ h. (
    (conf_holds-AllAccept s bg a l).0 (ground arith, ground arith),
    (integ_hold-AllAcceptInteg s a li).0 (ground arith),
  ),
  λ h.
      let c = (conf_holds-AllAccept s bg a l).1 h.0 in
      let i = (integ_hold-AllAcceptInteg s a li).1 h.1 in ground arith,
)
