-- ===== src/Nif/Instance/Sessions.antt =====
-- Sequences of calls: the commands that a live instance is given, and the envelopes that recovery is
-- given.
use einsof.Prelude.{
  List, [], ◌∷◌, ◌++◌, some, Result, ok, err, ◌≡◌, refl, sym, ap, ◌∙◌, subst, arith, Result-cases,
  inl, inr,
}
use einsof.Nif.Chain.Link.{Sha256}
use einsof.Nif.Command.{CommandN}
use einsof.Nif.Event.{ErrorN}
use einsof.Nif.Instance.Replay.{check_recorded_iff, apply-check_recorded}
use einsof.Nif.Instance.Resource.{
  InstanceState, LiveInstance, RecoveryInstance, Applied, free, try_lock, initial, live_new,
  live_apply, commit, recovery_new, replay, commit_replay, check_recorded, apply_without_commit,
}
use einsof.Nif.Wire.Background.{BackgroundN, background_into_kernel}
use einsof.Nif.Wire.Envelope.{EnvelopeN}

-- An instance that no thread holds.
abbrev pub live_at : BackgroundN → InstanceState → LiveInstance
live_at v st = record { background = background_into_kernel v; inner = free st }

abbrev pub recovery_at : BackgroundN → InstanceState → RecoveryInstance
recovery_at v st = record { background = background_into_kernel v; inner = free (some st) }

pub ok-ne-err {ℓ κ} : {E : Type ℓ} {A : Type κ} {a : A} {e : E} → Result.ok a ≡ Result.err e → ⊥
ok-ne-err p = ground arith

pub answer_injective {ℓ κ} :
    {E : Type ℓ} {A : Type κ} {a b : A} → ◌≡◌ {A = Result E A} (ok a) (ok b) → a ≡ b
answer_injective p = cc p

module _ (sha : Sha256) where
  pub live_new-at : (v : BackgroundN) → live_new sha v ≡ live_at v (initial sha v)
  unfolding live_new
  live_new-at v = refl

  pub recovery_new-at : (v : BackgroundN) → recovery_new sha v ≡ recovery_at v (initial sha v)
  unfolding recovery_new
  recovery_new-at v = refl

  -- What `apply` answers on a free instance, by what the application answers.
  live_apply-ok :
      (v : BackgroundN) (st : InstanceState) (command : CommandN) (a : Applied)
      → apply_without_commit sha st (background_into_kernel v) command ≡ ok a
      → live_apply sha (live_at v st) command ≡ (live_at v a.next, ok a.envelope)
  unfolding live_apply commit try_lock
  live_apply-ok v st command a h = rw h

  live_apply-err :
      (v : BackgroundN) (st : InstanceState) (command : CommandN) (e : ErrorN)
      → apply_without_commit sha st (background_into_kernel v) command ≡ err e
      → live_apply sha (live_at v st) command ≡ (live_at v st, err e)
  unfolding live_apply commit try_lock
  live_apply-err v st command e h = rw h

  pub replay-ok :
      (v : BackgroundN) (st next : InstanceState) (recorded : EnvelopeN)
      → check_recorded sha st (background_into_kernel v) recorded ≡ ok next
      → replay sha (recovery_at v st) recorded ≡ (recovery_at v next, ok tt)
  unfolding replay commit_replay try_lock
  replay-ok v st next recorded h = rw h

  replay-err :
      (v : BackgroundN) (st : InstanceState) (recorded : EnvelopeN) (e : ErrorN)
      → check_recorded sha st (background_into_kernel v) recorded ≡ err e
      → replay sha (recovery_at v st) recorded ≡ (recovery_at v st, err e)
  unfolding replay commit_replay try_lock
  replay-err v st recorded e h = rw h

  module _ (v : BackgroundN) where
    -- A live instance after some calls of `apply`, with the envelopes of the accepted ones.
    pub data Session : LiveInstance → List EnvelopeN → Type 0 where
      opened : Session (live_new sha v) []
      accepted :
          {live next : LiveInstance} {log : List EnvelopeN} {envelope : EnvelopeN}
          (command : CommandN)
          → Session live log
          → live_apply sha live command ≡ (next, ok envelope)
          → Session next (log ++ envelope ∷ [])
      refused :
          {live next : LiveInstance} {log : List EnvelopeN} {e : ErrorN} (command : CommandN)
          → Session live log
          → live_apply sha live command ≡ (next, err e)
          → Session next log

    -- A recovery after some calls of `replay`, with the envelopes that it took.
    pub data Recovery : RecoveryInstance → List EnvelopeN → Type 0 where
      opened : Recovery (recovery_new sha v) []
      taken :
          {recovery next : RecoveryInstance} {log : List EnvelopeN} (recorded : EnvelopeN)
          → Recovery recovery log
          → replay sha recovery recorded ≡ (next, ok tt)
          → Recovery next (log ++ recorded ∷ [])
      refused :
          {recovery next : RecoveryInstance} {log : List EnvelopeN} {x : ErrorN}
          (recorded : EnvelopeN)
          → Recovery recovery log
          → replay sha recovery recorded ≡ (next, err x)
          → Recovery next log

    -- One state under both: the live instance with the log, and the recovery that took it.
    pub record Both (live : LiveInstance) (log : List EnvelopeN) : Type 0 where
      pub state : InstanceState
      pub is_live : live ≡ live_at v state
      pub recovered : Recovery (recovery_at v state) log

    pub record Replayed (recovery : RecoveryInstance) (log : List EnvelopeN) : Type 0 where
      pub state : InstanceState
      pub is_recovery : recovery ≡ recovery_at v state
      pub lived : Session (live_at v state) log

    pub accepted_call :
        (st : InstanceState) (command : CommandN) (next : LiveInstance) (envelope : EnvelopeN)
        → live_apply sha (live_at v st) command ≡ (next, ok envelope)
        → (a : Applied) × (apply_without_commit sha st (background_into_kernel v) command ≡ ok a)
          × (next ≡ live_at v a.next)
          × (envelope ≡ a.envelope)
    accepted_call st command next envelope h =
        elim (Result-cases (apply_without_commit sha st (background_into_kernel v) command)) [
          | inl (a, p) ↦
              let q = live_apply-ok v st command a p in
              (a, p, ap (λ x. x.0) (sym h ∙ q), answer_injective (ap (λ x. x.1) (sym h ∙ q)))
          | inr (x, p) ↦
              let q = live_apply-err v st command x p in
              absurd (ok-ne-err (ap (λ x. x.1) (sym h ∙ q)))
        ]

    pub taken_call :
        (st : InstanceState) (recorded : EnvelopeN) (next : RecoveryInstance)
        → replay sha (recovery_at v st) recorded ≡ (next, ok tt)
        → (st' : InstanceState) × (check_recorded sha st (background_into_kernel v) recorded
            ≡ ok st')
          × (next ≡ recovery_at v st')
    taken_call st recorded next h =
        elim (Result-cases (check_recorded sha st (background_into_kernel v) recorded)) [
          | inl (st', p) ↦ (st', p, ap (λ x. x.0) (sym h ∙ replay-ok v st st' recorded p))
          | inr (x, p) ↦ absurd (ok-ne-err (ap (λ x. x.1) (sym h ∙ replay-err v st recorded x p)))
        ]

    pub refused_call :
        (st : InstanceState) (command : CommandN) (next : LiveInstance) (e : ErrorN)
        → live_apply sha (live_at v st) command ≡ (next, err e)
        → next ≡ live_at v st
    refused_call st command next e h =
        elim (Result-cases (apply_without_commit sha st (background_into_kernel v) command)) [
          | inl (a, p) ↦
              absurd (ok-ne-err (ap (λ x. x.1) (sym (live_apply-ok v st command a p) ∙ h)))
          | inr (x, p) ↦ ap (λ x. x.0) (sym h ∙ live_apply-err v st command x p)
        ]

    pub refused_replay :
        (st : InstanceState) (recorded : EnvelopeN) (next : RecoveryInstance) (e : ErrorN)
        → replay sha (recovery_at v st) recorded ≡ (next, err e)
        → next ≡ recovery_at v st
    refused_replay st recorded next e h =
        elim (Result-cases (check_recorded sha st (background_into_kernel v) recorded)) [
          | inl (st', p) ↦
              absurd (ok-ne-err (ap (λ x. x.1) (sym (replay-ok v st st' recorded p) ∙ h)))
          | inr (x, p) ↦ ap (λ x. x.0) (sym h ∙ replay-err v st recorded x p)
        ]

    Both-accepted :
        {live next : LiveInstance} {log : List EnvelopeN} {envelope : EnvelopeN}
        (command : CommandN)
        → Both live log
        → live_apply sha live command ≡ (next, ok envelope)
        → Both next (log ++ envelope ∷ [])
    Both-accepted {live} {next} {log} {envelope} command b h =
        let (a, p, n, e) =
          accepted_call b.state command next envelope
            (ap (λ l. live_apply sha l command) (sym b.is_live) ∙ h) in
        let replayed = apply-check_recorded sha b.state (background_into_kernel v) command a p in
        record {
          state = a.next;
          is_live = n;
          recovered =
              subst (λ x. Recovery (recovery_at v a.next) (log ++ x ∷ [])) (sym e)
                (taken a.envelope b.recovered (replay-ok v b.state a.next a.envelope replayed));
        }

    pub Session-Both :
        {live : LiveInstance} {log : List EnvelopeN} → Session live log → Both live log
    Session-Both opened = record {
      state = initial sha v;
      is_live = live_new-at v;
      recovered = subst (λ r. Recovery r []) (recovery_new-at v) opened;
    }
    Session-Both (accepted command s h) = Both-accepted command (Session-Both s) h
    Session-Both (refused {live} {next} {log} {e} command s h) =
        let b = Session-Both s in
        record {
          state = b.state;
          recovered = b.recovered;
          is_live =
              refused_call b.state command next e
                (ap (λ l. live_apply sha l command) (sym b.is_live) ∙ h);
        }

    Replayed-taken :
        {recovery next : RecoveryInstance} {log : List EnvelopeN} (recorded : EnvelopeN)
        → Replayed recovery log
        → replay sha recovery recorded ≡ (next, ok tt)
        → Replayed next (log ++ recorded ∷ [])
    Replayed-taken {recovery} {next} recorded b h =
        let (st, p, n) =
          taken_call b.state recorded next
            (ap (λ r. replay sha r recorded) (sym b.is_recovery) ∙ h) in
        let applied =
          (check_recorded_iff sha b.state (background_into_kernel v) recorded st).0.0 p in
        record {
          state = st;
          is_recovery = n;
          lived = accepted recorded.command b.lived (
              live_apply-ok v b.state recorded.command (record { next = st; envelope = recorded })
                applied);
        }

    pub Recovery-Replayed :
        {recovery : RecoveryInstance} {log : List EnvelopeN}
        → Recovery recovery log
        → Replayed recovery log
    Recovery-Replayed opened = record {
      state = initial sha v;
      is_recovery = recovery_new-at v;
      lived = subst (λ l. Session l []) (live_new-at v) opened;
    }
    Recovery-Replayed (taken recorded s h) = Replayed-taken recorded (Recovery-Replayed s) h
    Recovery-Replayed (refused {recovery} {next} {log} {x} recorded s h) =
        let b = Recovery-Replayed s in
        record {
          state = b.state;
          lived = b.lived;
          is_recovery =
              refused_replay b.state recorded next x
                (ap (λ r. replay sha r recorded) (sym b.is_recovery) ∙ h);
        }
