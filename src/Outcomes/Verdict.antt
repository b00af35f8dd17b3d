-- ===== src/Outcomes/Verdict.antt =====
-- The verdict of `begin_invocation`, and what it leads to in each mode.
use einsof.Prelude.{
  true, false, ok, err, ◌≡◌, ◌≢◌, ◌⊎◌, ◌↔◌, inl, inr, refl, sym, subst, ◌∙◌, ◌==◌, if◌then◌else◌,
  some, Bool-cases, arith, eq-cases,
}
use einsof.Background.{BackgroundTheory}
use einsof.Collections.VecMap.Laws.{contains_key-get, get-insert}
use einsof.Collections.VecSet.Laws.{contains-insert}
use einsof.Collections.VecMap
use einsof.Collections.VecSet
use einsof.Error.{
  KernelError, capability_missing, authorizer_denied, clearance_denied, flow_gate_blocked,
  integrity_floor_denied,
}
use einsof.Event.{KernelAction}
use einsof.Gates.Checks.{check_flow_iff, check_integ_iff}
use einsof.Gates.Egress.{egress-Attested}
use einsof.Gates.Fits.{Gate}
use einsof.Outcomes.Admission.{BeginGuards}
use einsof.State.{KernelState}
use einsof.Transitions.Begin.{
  BeginInput, begin_guards, begin_verdict, begin_record, begin_pend, begin_challenge, begin_effect,
  begin_consume, deny_reason, begin_invocation,
}
use einsof.Transitions.Checks.{check_capability, check_clearance, check_flow, check_integ}
use einsof.Types.{
  PendingInvocation, InvocationId, Admission, Disposition, Verdict, Mode, Verdict-discrete, allow,
  inspection_required, deny, enforce, monitor, plain, bypassed, monitor_bypassed, permitted,
  agent_id_eq, invocation_id_eq, conf_level_eq, integ_level_eq, egress_kind_eq, tool_id_eq,
}

module _ (s : KernelState) (bg : BackgroundTheory) where
  check_flow-relax :
      (j : PendingInvocation)
      → check_flow s bg j.agent j.policy j.egress true ≡ true
      → check_flow s bg j.agent j.policy j.egress false ≡ true
  check_flow-relax j h =
      let t = (check_flow_iff s bg j.agent j.policy j.egress true).0 h in
      (check_flow_iff s bg j.agent j.policy j.egress false).1 (
        λ l m e held. ground (arith, t.0 l m e held),
        λ i k p mine e held. ground (arith, t.1 i k p mine e held),
        λ e held. ground (arith, t.2 e held),
      )

  check_integ-relax :
      (j : PendingInvocation)
      → check_integ s j.agent j.policy true ≡ true
      → check_integ s j.agent j.policy false ≡ true
  check_integ-relax j h =
      let t = (check_integ_iff s j.agent j.policy true).0 h in
      (check_integ_iff s j.agent j.policy false).1 (
        λ l m. ground (arith, t.0 l m),
        λ i k p mine. ground (arith, t.1 i k p mine),
        ground (arith, t.2),
      )

  -- What the strict arm admits, the admissible arm admits.
  Gate-relax : (j : PendingInvocation) → Gate bg s j true → Gate bg s j false
  Gate-relax j g = record {
    capability = g.capability;
    authorized = g.authorized;
    clearance = g.clearance;
    flow = check_flow-relax j g.flow;
    integ = check_integ-relax j g.integ;
  }

  module _ (q : BeginInput) where
    abbrev candidate : PendingInvocation
    candidate = begin_record q plain permitted

    allow_iff : (begin_verdict s bg q ≡ allow) ↔ Gate bg s candidate true
    unfolding begin_verdict begin_record Verdict-discrete
    allow_iff = (
      λ h. record {
        capability = ground arith;
        authorized = ground arith;
        clearance = ground arith;
        flow = ground arith;
        integ = ground arith;
      },
      λ g. ground (arith, g.capability, g.authorized, g.clearance, g.flow, g.integ),
    )

    admissible : begin_verdict s bg q ≢ deny → Gate bg s candidate false
    unfolding begin_verdict begin_record Verdict-discrete
    admissible h = record {
      capability = ground arith;
      authorized = ground arith;
      clearance = ground arith;
      flow = ground (arith, check_flow-relax candidate);
      integ = ground (arith, check_integ-relax candidate);
    }

    deny_refuses : begin_verdict s bg q ≡ deny → ¬ Gate bg s candidate false
    unfolding begin_verdict begin_record Verdict-discrete
    deny_refuses h g = ground (arith, g.capability, g.authorized, g.clearance, g.flow, g.integ)

    -- The verdict is allow exactly when all checks pass on the strict arm, and not deny exactly when
    -- all checks pass on the admissible arm.
    pub begin_verdict_iff :
        ((begin_verdict s bg q ≡ allow) ↔ Gate bg s candidate true)
        × ((begin_verdict s bg q ≢ deny) ↔ Gate bg s candidate false)
    begin_verdict_iff = (allow_iff, (admissible, λ g e. deny_refuses e g))

    guards_pass : BeginGuards s bg q → begin_guards s bg q ≡ ok tt
    unfolding begin_guards
    guards_pass g =
        let fit = (egress-Attested q.egress q.policy.declared_egress).1 g.attested in
        ground (
          arith,
          g.active,
          g.not_root,
          g.registered,
          g.coherent,
          g.not_pending,
          g.fresh,
          g.not_open,
          contains_key-get s.pending q.inv,
          contains_key-get s.challenges q.inv,
          eq-cases q.agent bg.root_agent,
          fit.0,
          fit.1,
        )

    -- The record of the command pends, and nothing else changes but that its identifier is consumed.
    pub record Pended (t : KernelState) (admission : Admission) (disposition : Disposition)
        : Type 0 where
      pub pending :
          (i : InvocationId)
          → VecMap.get_cloned t.pending i ≡ (
              if q.inv == i
              then some (record {
                agent = q.agent;
                policy = q.policy;
                egress = q.egress;
                admission = admission;
                disposition = disposition;
                authorized = q.authorized;
                quarantined = false;
              })
              else VecMap.get_cloned s.pending i)
      pub consumed :
          (i : InvocationId)
          → VecSet.contains t.consumed_ids i
            ≡ (if q.inv == i then true else VecSet.contains s.consumed_ids i)
      pub rest : record t { pending = s.pending; consumed_ids = s.consumed_ids } ≡ s

    -- A challenge of the command's scope is open, and nothing else changes but that its identifier
    -- is consumed.
    pub record Challenged (t : KernelState) : Type 0 where
      pub challenges :
          (i : InvocationId)
          → VecMap.get_cloned t.challenges i ≡ (
              if q.inv == i
              then some (record {
                challenge = q.challenge;
                agent = q.agent;
                policy = q.policy;
                egress = q.egress;
                args_hash = q.args_hash;
                authorized = q.authorized;
              })
              else VecMap.get_cloned s.challenges i)
      pub consumed :
          (i : InvocationId)
          → VecSet.contains t.consumed_ids i
            ≡ (if q.inv == i then true else VecSet.contains s.consumed_ids i)
      pub rest : record t { challenges = s.challenges; consumed_ids = s.consumed_ids } ≡ s

    -- The error of the first check that fails, the checks before it passing.
    pub data FirstFailure : KernelError → Type 0 where
      at_capability : check_capability s q.agent q.policy ≡ false → FirstFailure capability_missing
      at_authorizer :
          check_capability s q.agent q.policy ≡ true
          → q.authorized ≡ false
          → FirstFailure authorizer_denied
      at_clearance :
          check_capability s q.agent q.policy ≡ true
          → q.authorized ≡ true
          → check_clearance s q.agent q.policy ≡ false
          → FirstFailure clearance_denied
      at_flow :
          check_capability s q.agent q.policy ≡ true
          → q.authorized ≡ true
          → check_clearance s q.agent q.policy ≡ true
          → check_flow s bg q.agent q.policy q.egress false ≡ false
          → FirstFailure flow_gate_blocked
      at_integ :
          check_capability s q.agent q.policy ≡ true
          → q.authorized ≡ true
          → check_clearance s q.agent q.policy ≡ true
          → check_flow s bg q.agent q.policy q.egress false ≡ true
          → check_integ s q.agent q.policy false ≡ false
          → FirstFailure integrity_floor_denied

    abbrev answer : Verdict → KernelAction
    answer v = KernelAction.begin_invocation q.agent q.inv q.policy.tool v q.authorized

    -- The four answers behind the guards, by the gate on its two arms and the mode.
    pub data BeginAnswer : Type 0 where
      admitted :
          (t : KernelState)
          → Gate bg s candidate true
          → begin_invocation s bg q ≡ ok (t, answer allow)
          → Pended t plain permitted
          → BeginAnswer
      asked :
          (t : KernelState)
          → ¬ Gate bg s candidate true
          → Gate bg s candidate false
          → bg.mode ≡ enforce
          → begin_invocation s bg q ≡ ok (t, answer inspection_required)
          → Challenged t
          → BeginAnswer
      let_through :
          (t : KernelState) (v : Verdict)
          → ¬ Gate bg s candidate true
          → ((v ≡ inspection_required) × Gate bg s candidate false)
            ⊎ ((v ≡ deny) × (¬ Gate bg s candidate false))
          → bg.mode ≡ monitor
          → begin_invocation s bg q ≡ ok (t, answer v)
          → Pended t bypassed monitor_bypassed
          → BeginAnswer
      refused :
          (e : KernelError)
          → ¬ Gate bg s candidate false
          → bg.mode ≡ enforce
          → begin_invocation s bg q ≡ err e
          → FirstFailure e
          → BeginAnswer

    begin_pend-Pended :
        (admission : Admission) (disposition : Disposition)
        → Pended (begin_consume (begin_pend s q admission disposition) q.inv) admission disposition
    unfolding begin_consume begin_pend begin_record
    begin_pend-Pended admission disposition = record {
      pending = λ i. get-insert s.pending q.inv i (begin_record q admission disposition);
      consumed = λ i. contains-insert s.consumed_ids q.inv i;
      rest = refl;
    }

    begin_challenge-Challenged : Challenged (begin_consume (begin_challenge s q) q.inv)
    unfolding begin_consume begin_challenge
    begin_challenge-Challenged = record {
      challenges = λ i. get-insert s.challenges q.inv i _;
      consumed = λ i. contains-insert s.consumed_ids q.inv i;
      rest = refl;
    }

    first_failure :
        {e : KernelError}
        → deny_reason s bg q ≡ e
        → FirstFailure e
        → FirstFailure (deny_reason s bg q)
    first_failure p f = subst FirstFailure (sym p) f

    deny_reason-FirstFailure : begin_verdict s bg q ≡ deny → FirstFailure (deny_reason s bg q)
    unfolding begin_verdict deny_reason Verdict-discrete
    deny_reason-FirstFailure h = elim (Bool-cases (check_capability s q.agent q.policy)) [
      | inr c ↦ first_failure (ground (arith, c)) (at_capability c)
      | inl c ↦ elim (Bool-cases q.authorized) [
        | inr a ↦ first_failure (ground (arith, c, a)) (at_authorizer c a)
        | inl a ↦ elim (Bool-cases (check_clearance s q.agent q.policy)) [
          | inr l ↦ first_failure (ground (arith, c, a, l)) (at_clearance c a l)
          | inl l ↦ elim (Bool-cases (check_flow s bg q.agent q.policy q.egress false)) [
            | inr f ↦ first_failure (ground (arith, c, a, l, f)) (at_flow c a l f)
            | inl f ↦
                first_failure (ground (arith, c, a, l, f))
                  (at_integ c a l f (ground (arith, c, a, l, f, h)))
          ]
        ]
      ]
    ]

    not_strict : {v : Verdict} → begin_verdict s bg q ≡ v → v ≢ allow → ¬ Gate bg s candidate true
    not_strict e n g = n (sym e ∙ allow_iff.1 g)

    begin_answer :
        (v : Verdict) (m : Mode)
        → begin_verdict s bg q ≡ v
        → bg.mode ≡ m
        → BeginGuards s bg q
        → BeginAnswer
    unfolding begin_invocation begin_effect Verdict-discrete
    begin_answer allow m e n g =
        admitted _ (allow_iff.0 e) (rw (guards_pass g, e) refl) (begin_pend-Pended plain permitted)
    begin_answer inspection_required enforce e n g =
        asked _ (not_strict e (λ f. ground arith)) (admissible (λ f. ground arith)) n
          (rw (guards_pass g, e, n) refl) begin_challenge-Challenged
    begin_answer inspection_required monitor e n g =
        let_through _ inspection_required (not_strict e (λ f. ground arith))
          (inl (refl, admissible (λ f. ground arith))) n (rw (guards_pass g, e, n) refl)
          (begin_pend-Pended bypassed monitor_bypassed)
    begin_answer deny enforce e n g =
        refused (deny_reason s bg q) (deny_refuses e) n (rw (guards_pass g, e, n) refl)
          (deny_reason-FirstFailure e)
    begin_answer deny monitor e n g =
        let_through _ deny (not_strict e (λ f. ground arith)) (inr (refl, deny_refuses e)) n
          (rw (guards_pass g, e, n) refl) (begin_pend-Pended bypassed monitor_bypassed)

    -- Behind the structural guards, begin_invocation gives one of four answers. Where the strict
    -- gate passes, the record pends as permitted. Where only the admissible gate passes, enforcement
    -- opens a challenge of the command's scope. Where the admissible gate fails, enforcement refuses
    -- with the error of the first check that fails. Where the strict gate fails, the monitor mode
    -- lets the record pend as bypassed. Each acceptance answers with its verdict, consumes the
    -- identifier and changes nothing else of the state.
    pub begin_invocation_lem : BeginGuards s bg q → BeginAnswer
    begin_invocation_lem g = begin_answer (begin_verdict s bg q) bg.mode refl refl g
