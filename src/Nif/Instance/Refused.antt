-- ===== src/Nif/Instance/Refused.antt =====
-- What a refused call leaves, and a recovery that is over.
use einsof.Prelude.{none, Result, ok, err, ◌≡◌, ◌⊎◌, refl, sym, inl, inr}
use einsof.Nif.Chain.Link.{Sha256}
use einsof.Nif.Command.{CommandN}
use einsof.Nif.Event.{ErrorN, recovery_consumed}
use einsof.Nif.Instance.Resource.{
  InstanceState, LiveInstance, RecoveryInstance, Applied, free, try_lock, live_apply, commit,
  replay, commit_replay, finalize, take, check_anchor,
}
use einsof.Nif.Instance.Sessions.{ok-ne-err}
use einsof.Nif.Wire.Envelope.{EnvelopeN, ChainN}

-- The answer is a value, or an error with the resource as it was.
abbrev pub Keeps {ℓ κ} : {A : Type ℓ} {B : Type κ} → A → A × Result ErrorN B → Type (ℓ ⊔ κ)
Keeps {B = B} before call = ((b : B) × (call.1 ≡ ok b)) ⊎ ((e : ErrorN) × (call ≡ (before, err e)))

commit-Keeps :
    (sha : Sha256) (live : LiveInstance) (r : Result ErrorN Applied)
    → Keeps live (commit sha live r)
unfolding commit
commit-Keeps sha live (ok a) = inl (a.envelope, refl)
commit-Keeps sha live (err x) = inr (x, refl)

commit_replay-Keeps :
    (sha : Sha256) (recovery : RecoveryInstance) (r : Result ErrorN InstanceState)
    → Keeps recovery (commit_replay sha recovery r)
unfolding commit_replay
commit_replay-Keeps sha recovery (ok a) = inl (tt, refl)
commit_replay-Keeps sha recovery (err x) = inr (x, refl)

take-Keeps :
    (recovery : RecoveryInstance) (r : Result ErrorN InstanceState)
    → Keeps recovery (take recovery r)
unfolding take
take-Keeps recovery (ok a) = inl (_, refl)
take-Keeps recovery (err x) = inr (x, refl)

-- Each of apply, replay and finalize answers a value, or an error that leaves its resource as it
-- was.
pub calls-Keeps :
    (sha : Sha256) (live : LiveInstance) (recovery : RecoveryInstance) (command : CommandN)
    (recorded : EnvelopeN) (anchor : ChainN)
    → Keeps live (live_apply sha live command)
      × Keeps recovery (replay sha recovery recorded)
      × Keeps recovery (finalize recovery anchor)
unfolding live_apply replay finalize
calls-Keeps sha live recovery command recorded anchor =
    (commit-Keeps sha live _, commit_replay-Keeps sha recovery _, take-Keeps recovery _)

taken_after :
    (recovery : RecoveryInstance) (r : Result ErrorN InstanceState) (live : LiveInstance)
    → (take recovery r).1 ≡ ok live
    → (take recovery r).0.inner ≡ free none
unfolding take
taken_after recovery (ok a) live h = refl
taken_after recovery (err x) live h = absurd (ok-ne-err (sym h))

replay-consumed :
    (sha : Sha256) (recovery : RecoveryInstance) (recorded : EnvelopeN)
    → recovery.inner ≡ free none
    → (replay sha recovery recorded).1 ≡ err recovery_consumed
unfolding replay commit_replay try_lock
replay-consumed sha recovery recorded h = rw h

finalize-consumed :
    (recovery : RecoveryInstance) (anchor : ChainN)
    → recovery.inner ≡ free none
    → (finalize recovery anchor).1 ≡ err recovery_consumed
unfolding finalize take check_anchor try_lock
finalize-consumed recovery anchor h = rw h

-- A recovery hands over one instance: after a finalize that does, replay and finalize answer that
-- the recovery is consumed.
pub finalize-once :
    (sha : Sha256) (recovery : RecoveryInstance) (anchor anchor' : ChainN) (recorded : EnvelopeN)
    (live : LiveInstance)
    → (finalize recovery anchor).1 ≡ ok live
    → ((replay sha (finalize recovery anchor).0 recorded).1 ≡ err recovery_consumed)
      × ((finalize (finalize recovery anchor).0 anchor').1 ≡ err recovery_consumed)
unfolding finalize
finalize-once sha recovery anchor anchor' recorded live h =
    let over = taken_after recovery (check_anchor recovery anchor) live h in
    (
      replay-consumed sha (take recovery (check_anchor recovery anchor)).0 recorded over,
      finalize-consumed (take recovery (check_anchor recovery anchor)).0 anchor' over,
    )
