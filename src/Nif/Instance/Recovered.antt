-- ===== src/Nif/Instance/Recovered.antt =====
-- Recovery of a live instance from its envelopes, and the instances that recovery hands over.
use einsof.Prelude.{
  List, [], ◌∷◌, ◌++◌, none, Result, ok, err, ◌≡◌, refl, sym, ap, ◌∙◌, subst, Result-cases, inl,
  inr, require, >>=-ok, ◌==◌, beq_refl, eq_of_beq, eqb,
}
use einsof.Nif.Chain.Link.{Sha256, version}
use einsof.Nif.Event.{ErrorN, invalid_version, final_anchor_mismatch}
use einsof.Nif.Instance.Replay.{require-ok, eqb_eq, eqb_refl}
use einsof.Nif.Instance.Resource.{
  InstanceState, LiveInstance, RecoveryInstance, free, try_lock, recovery_new, replay, status,
  check_anchor, take, finalize,
}
use einsof.Nif.Instance.Sessions.{
  live_at, recovery_at, Session, Recovery, Session-Both, Recovery-Replayed, opened, taken, refused,
  refused_replay, ok-ne-err, answer_injective,
}
use einsof.Nif.Wire.Background.{BackgroundN, background_into_kernel}
use einsof.Nif.Wire.Envelope.{EnvelopeN, ChainN}
use einsof.Nif.Wire.Equality.{digest_n_eq}

finalize_of :
    (v : BackgroundN) (st final : InstanceState) (anchor : ChainN)
    → check_anchor (recovery_at v st) anchor ≡ ok final
    → finalize (recovery_at v st) anchor
      ≡ (record { background = background_into_kernel v; inner = free none }, ok (live_at v final))
unfolding finalize take
finalize_of v st final anchor p = rw p

finalize_err :
    (v : BackgroundN) (st : InstanceState) (e : ErrorN) (anchor : ChainN)
    → check_anchor (recovery_at v st) anchor ≡ err e
    → finalize (recovery_at v st) anchor ≡ (recovery_at v st, err e)
unfolding finalize take
finalize_err v st e anchor p = rw p

-- What the loop goes on with.
proceed :
    Result ErrorN (Unit {0})
    → RecoveryInstance
    → RecoveryInstance × Result ErrorN (Unit {0})
    → RecoveryInstance × Result ErrorN (Unit {0})
proceed (ok _) recovery rest = rest
proceed (err x) recovery rest = (recovery, err x)

module _ (sha : Sha256) where
  -- The recovery loop of a caller: envelope by envelope, up to the first error.
  pub replay_all : RecoveryInstance → List EnvelopeN → RecoveryInstance × Result ErrorN (Unit {0})
  replay_all recovery [] = (recovery, ok tt)
  replay_all recovery (e ∷ es) =
      let after = replay sha recovery e in proceed after.1 after.0 (replay_all after.0 es)

  proceed_split :
      (r : Result ErrorN (Unit {0})) (recovery middle : RecoveryInstance)
      (rest : RecoveryInstance × Result ErrorN (Unit {0}))
      → proceed r recovery rest ≡ (middle, ok tt)
      → (r ≡ ok tt) × (rest ≡ (middle, ok tt))
  unfolding proceed
  proceed_split (ok _) recovery middle rest h = (refl, h)
  proceed_split (err x) recovery middle rest h = absurd (ok-ne-err (ap (λ z. z.1) (sym h)))

  replay_all-append :
      (start middle end : RecoveryInstance) (log : List EnvelopeN) (e : EnvelopeN)
      → replay_all start log ≡ (middle, ok tt)
      → replay sha middle e ≡ (end, ok tt)
      → replay_all start (log ++ e ∷ []) ≡ (end, ok tt)
  unfolding replay_all proceed
  replay_all-append start middle end [] e h step =
      let here : replay sha start e ≡ (end, ok tt) =
        ap (λ r. replay sha r e) (ap (λ x. x.0) h) ∙ step in
      cc here
  replay_all-append start middle end (x ∷ xs) e h step =
      let after = replay sha start x in
      let (fine, tail) = proceed_split after.1 after.0 middle (replay_all after.0 xs) h in
      cc (fine, replay_all-append after.0 middle end xs e tail step)

  abbrev answered : RecoveryInstance → RecoveryInstance × Result ErrorN (Unit {0})
  answered r = (r, ok tt)

  module _ (v : BackgroundN) where
    Recovery-replay_all :
        {recovery : RecoveryInstance} {log : List EnvelopeN}
        → Recovery sha v recovery log
        → replay_all (recovery_new sha v) log ≡ (recovery, ok tt)
    Recovery-replay_all opened = unfold replay_all in refl
    Recovery-replay_all (taken {recovery} {next} {log} e r h) =
        replay_all-append (recovery_new sha v) recovery next log e (Recovery-replay_all r) h
    Recovery-replay_all (refused {recovery} {next} {log} {x} e r h) =
        let b = Recovery-Replayed sha v r in
        let same =
          refused_replay sha v b.state e next x
            (ap (λ r. replay sha r e) (sym b.is_recovery) ∙ h) in
        Recovery-replay_all r ∙ ap (λ (r : RecoveryInstance). answered r) (b.is_recovery ∙ sym same)

    pub finalize-at :
        (st : InstanceState) (anchor : ChainN)
        → status (live_at v st) ≡ ok anchor
        → finalize (recovery_at v st) anchor
          ≡ (record { background = background_into_kernel v; inner = free none }, ok (live_at v st))
    unfolding finalize take check_anchor status try_lock
    finalize-at st anchor h =
        let p = answer_injective h in
        rw (← p) (rw (eqb_refl st.sequence st.sequence refl, beq_refl st.head))

    anchored :
        (st final : InstanceState) (anchor : ChainN)
        → check_anchor (recovery_at v st) anchor ≡ ok final
        → (st ≡ final) × (status (live_at v st) ≡ ok anchor)
    unfolding check_anchor status try_lock
    anchored st final anchor h =
        let ver = >>=-ok (require (eqb anchor.version version) invalid_version) _ h in
        let num =
          >>=-ok (require (eqb anchor.sequence st.sequence) final_anchor_mismatch) _ ver.2 in
        let head = >>=-ok (require (anchor.head == st.head) final_anchor_mismatch) _ num.2 in
        let p0 = eqb_eq anchor.version version (require-ok _ invalid_version ver.1) in
        let p1 = eqb_eq anchor.sequence st.sequence (require-ok _ final_anchor_mismatch num.1) in
        let p2 : anchor.head ≡ st.head = eq_of_beq (require-ok _ final_anchor_mismatch head.1) in
        (
          answer_injective head.2,
          λ i. ok (record { version = sym p0 i; sequence = sym p1 i; head = sym p2 i }),
        )

    -- A new recovery takes, one by one and all of them, the envelopes that a session of apply calls
    -- answered, and finalize with the session's status then answers a live instance that is the
    -- session's own.
    pub finalize-replay_all :
        {live : LiveInstance} {log : List EnvelopeN} {anchor : ChainN}
        → Session sha v live log
        → status live ≡ ok anchor
        → ((replay_all (recovery_new sha v) log).1 ≡ ok tt)
          × ((finalize (replay_all (recovery_new sha v) log).0 anchor).1 ≡ ok live)
    finalize-replay_all {live} {log} {anchor} s h =
        let b = Session-Both sha v s in
        let run = Recovery-replay_all b.recovered in
        let final = finalize-at b.state anchor (ap status (sym b.is_live) ∙ h) in
        (
          ap (λ x. x.1) run,
          ap (λ x. (finalize x.0 anchor).1) run ∙ ap (λ x. x.1) final ∙ ap ok (sym b.is_live),
        )

    -- Whatever replay and finalize are called with, a live instance that finalize hands over is one
    -- that apply calls lead to from a new instance of the same background, and its status is the
    -- anchor that finalize was given.
    pub finalize-Session :
        {recovery after : RecoveryInstance} {log : List EnvelopeN} {anchor : ChainN}
        {live : LiveInstance}
        → Recovery sha v recovery log
        → finalize recovery anchor ≡ (after, ok live)
        → Session sha v live log × (status live ≡ ok anchor)
    finalize-Session {recovery} {after} {log} {anchor} {live} r h =
        let b = Recovery-Replayed sha v r in
        let h' = ap (λ r. finalize r anchor) (sym b.is_recovery) ∙ h in
        elim (Result-cases (check_anchor (recovery_at v b.state) anchor)) [
          | inl (final, p) ↦
              let (same, at) = anchored b.state final anchor p in
              let is_live : live_at v b.state ≡ live =
                ap (live_at v) same
                ∙ answer_injective
                    (ap (λ x. x.1) (sym (finalize_of v b.state final anchor p) ∙ h')) in
              (
                subst (λ l. Session sha v l log) is_live b.lived,
                subst (λ l. status l ≡ ok anchor) is_live at,
              )
          | inr (x, p) ↦
              absurd (ok-ne-err (ap (λ y. y.1) (sym h' ∙ finalize_err v b.state x anchor p)))
        ]
