-- ===== src/Outcomes/Admission.antt =====
-- `begin_invocation` and `authorize_inspected`.
use einsof.Prelude.{
  true, false, ◌&&◌, none, ok, ◌≡◌, ◌≢◌, inl, inr, arith, eq-cases, Result-cases, Option-cases,
}
use einsof.Background.{BackgroundTheory}
use einsof.Collections.VecMap
use einsof.Collections.VecMap.Laws.{contains_key-get}
use einsof.Collections.VecSet
use einsof.Event.{KernelAction}
use einsof.Gates.Egress.{egress-Attested}
use einsof.Invariants.{IsActive, Open, Attested}
use einsof.State.{KernelState}
use einsof.Transitions.Checks.{begin_admissible}
use einsof.Transitions.Begin.{
  BeginInput, begin_guards, begin_verdict, begin_effect, begin_consume, begin_invocation,
}
use einsof.Transitions.Authorize.{authorize_admits, scope_matches, resolved, authorize_inspected}
use einsof.Types.{
  InvocationId, ChallengeScope, InspectionAttestation, integ_le, agent_id_eq, tool_id_eq,
  invocation_id_eq, attestation_id_eq,
}

-- The guards of `begin_invocation`.
pub record BeginGuards (s : KernelState) (bg : BackgroundTheory) (q : BeginInput) : Type 0 where
  pub active : IsActive s q.agent
  pub not_root : q.agent ≢ bg.root_agent
  pub registered : VecSet.contains s.tool_registered q.policy.tool ≡ true
  pub coherent : integ_le q.policy.integ_inspect q.policy.integ_floor ≡ true
  pub not_pending : VecMap.get_cloned s.pending q.inv ≡ none
  pub fresh : VecSet.contains s.consumed_ids q.inv ≡ false
  pub not_open : VecMap.get_cloned s.challenges q.inv ≡ none
  pub attested : Attested q.egress q.policy.declared_egress

pub begin_guards-BeginGuards :
    (s : KernelState) (bg : BackgroundTheory) (q : BeginInput)
    → begin_guards s bg q ≡ ok tt
    → BeginGuards s bg q
unfolding begin_guards
begin_guards-BeginGuards s bg q h = record {
  active = ground arith;
  not_root = ground (arith, eq-cases q.agent bg.root_agent);
  registered = ground arith;
  coherent = ground arith;
  not_pending = ground (arith, contains_key-get s.pending q.inv);
  fresh = ground arith;
  not_open = ground (arith, contains_key-get s.challenges q.inv);
  attested = (egress-Attested q.egress q.policy.declared_egress).0 (ground arith, ground arith);
}

pub begin_invocation-ok :
    (s : KernelState) (bg : BackgroundTheory) (q : BeginInput) {t : KernelState}
    {act : KernelAction}
    → begin_invocation s bg q ≡ ok (t, act)
    → (u : KernelState) × BeginGuards s bg q
      × (begin_effect s bg q (begin_verdict s bg q) bg.mode ≡ ok u)
      × (t ≡ begin_consume u q.inv)
      × (act
          ≡ KernelAction.begin_invocation q.agent q.inv q.policy.tool
              (begin_verdict s bg q)
              q.authorized)
unfolding begin_invocation
begin_invocation-ok s bg q h =
    elim (Result-cases (begin_effect s bg q (begin_verdict s bg q) bg.mode)) [
      | inl (u, e) ↦
          (u, begin_guards-BeginGuards s bg q (ground arith), e, ground arith, ground arith)
      | inr (x, e) ↦ absurd (ground arith)
    ]

-- What `authorize_admits` establishes before the live gate.
pub record Admits (s : KernelState) (bg : BackgroundTheory) (inv : InvocationId)
    (sc : ChallengeScope) : Type 0 where
  pub active : IsActive s sc.agent
  pub not_root : sc.agent ≢ bg.root_agent
  pub registered : VecSet.contains s.tool_registered sc.policy.tool ≡ true
  pub coherent : integ_le sc.policy.integ_inspect sc.policy.integ_floor ≡ true
  pub not_pending : VecMap.get_cloned s.pending inv ≡ none
  pub attested : Attested sc.egress sc.policy.declared_egress
  pub gate : begin_admissible s bg sc.agent sc.policy sc.egress sc.authorized ≡ true

pub authorize_admits-Admits :
    (s : KernelState) (bg : BackgroundTheory) (inv : InvocationId) (sc : ChallengeScope)
    → authorize_admits s bg inv sc ≡ true
    → Admits s bg inv sc
unfolding authorize_admits
authorize_admits-Admits s bg inv sc h = record {
  active = ground arith;
  not_root = ground (arith, eq-cases sc.agent bg.root_agent);
  registered = ground arith;
  coherent = ground arith;
  not_pending = ground (arith, contains_key-get s.pending inv);
  attested = (egress-Attested sc.egress sc.policy.declared_egress).0 (ground arith, ground arith);
  gate = ground arith;
}

pub authorize_inspected-ok :
    (s : KernelState) (bg : BackgroundTheory) (inv : InvocationId) (att : InspectionAttestation)
    {t : KernelState} {act : KernelAction}
    → authorize_inspected s bg inv att ≡ ok (t, act)
    → (sc : ChallengeScope) × Open s inv sc
      × (scope_matches inv sc att ≡ true)
      × (VecSet.contains s.consumed_attestations att.id ≡ false)
      × (t ≡ resolved s inv sc att.id (att.positive && authorize_admits s bg inv sc))
      × (act
          ≡ KernelAction.authorize_inspected inv att.id
              (att.positive && authorize_admits s bg inv sc))
unfolding authorize_inspected
authorize_inspected-ok s bg inv att h = elim (Option-cases (VecMap.get_cloned s.challenges inv)) [
  | inl e ↦ absurd (ground arith)
  | inr (sc, e) ↦ (sc, e, ground arith, ground arith, ground arith, ground arith)
]
