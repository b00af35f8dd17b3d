-- ===== src/Nif/Instance/Resource.antt =====
-- The state, the two resources and their methods.
use einsof.Prelude.{ℕ, Option, none, some, ◌==◌, eqb, Result, ok, err, ◌>>=◌, ◌>>◌, require, or_err}
use einsof.Background.{BackgroundTheory}
use einsof.State.{KernelState}
use einsof.State
use einsof.Nif.Chain.Link.{Sha256, genesis, link, version}
use einsof.Nif.Command.{CommandN}
use einsof.Nif.Command
use einsof.Nif.Event.{
  ActionN, KernelErrorN, ErrorN, instance_busy, resource_poisoned, sequence_exhausted,
  invalid_version, sequence_mismatch, previous_digest_mismatch, action_mismatch, digest_mismatch,
  replay_refused, recovery_consumed, final_anchor_mismatch,
}
use einsof.Nif.Limits.Budget.{checked_add}
use einsof.Nif.Limits.Preflight.{preflight}
use einsof.Nif.Limits.State.{check_recovery_link}
use einsof.Nif.Wire.Background.{BackgroundN, background_into_kernel}
use einsof.Nif.Wire.Envelope.{DigestN, EnvelopeN, ChainN}
use einsof.Nif.Wire.Equality.{action_n_eq, digest_n_eq}

pub record InstanceState : Type 0 where
  pub kernel : KernelState
  pub sequence : ℕ
  pub head : DigestN

-- A mutex at a call of `try_lock`: free with its content, held by another thread, or poisoned.
pub data Mutex {ℓ} (A : Type ℓ) : Type ℓ where
  free : A → Mutex A
  held : A → Mutex A
  poisoned : A → Mutex A

-- `try_lock().map_err(map_try_lock)`
unfoldable pub try_lock {ℓ} : {A : Type ℓ} → Mutex A → Result ErrorN A
try_lock (free content) = ok content
try_lock (held _) = err instance_busy
try_lock (poisoned _) = err resource_poisoned

pub record LiveInstance : Type 0 where
  pub background : BackgroundTheory
  pub inner : Mutex InstanceState

pub record RecoveryInstance : Type 0 where
  pub background : BackgroundTheory
  pub inner : Mutex (Option InstanceState)

pub record Applied : Type 0 where
  pub next : InstanceState
  pub envelope : EnvelopeN

-- `map_err(ErrorN::kernel)`
unfoldable pub kernel_answer {ℓ} : {A : Type ℓ} → Result KernelErrorN A → Result ErrorN A
kernel_answer (ok a) = ok a
kernel_answer (err e) = err (ErrorN.kernel e)

-- `map_err` of `replay`.
unfoldable pub replay_answer {ℓ} : {A : Type ℓ} → Result ErrorN A → Result ErrorN A
replay_answer (ok a) = ok a
replay_answer (err (ErrorN.kernel cause)) = err (replay_refused cause)
replay_answer (err other) = err other

module _ (sha : Sha256) where
  unfoldable pub initial : BackgroundN → InstanceState
  initial v = record { kernel = State.initial; sequence = 0; head = genesis sha v }

  unfoldable pub applied : InstanceState → ℕ → CommandN → KernelState × ActionN → Applied
  applied current sequence command (kernel, action) =
      let digest = link sha current.head sequence command action in
      record {
        next = record { kernel = kernel; sequence = sequence; head = digest };
        envelope = record {
          version = version;
          sequence = sequence;
          previous_digest = current.head;
          digest = digest;
          command = command;
          action = action;
        };
      }

  unfoldable pub apply_without_commit :
      InstanceState → BackgroundTheory → CommandN → Result ErrorN Applied
  apply_without_commit current background command = do
    preflight current.kernel current.sequence command
    sequence ← checked_add current.sequence 1 sequence_exhausted
    answer ← kernel_answer (Command.apply command current.kernel background)
    ok (applied current sequence command answer)

  unfoldable pub live_new : BackgroundN → LiveInstance
  live_new v = record { background = background_into_kernel v; inner = free (initial v) }

  -- What `apply` does with the answer: the state is replaced only if there is one.
  unfoldable pub commit :
      LiveInstance → Result ErrorN Applied → LiveInstance × Result ErrorN EnvelopeN
  commit live (err e) = (live, err e)
  commit live (ok a) = (record live { inner = free a.next }, ok a.envelope)

  unfoldable pub live_apply : LiveInstance → CommandN → LiveInstance × Result ErrorN EnvelopeN
  live_apply live command =
      commit live
        (do current ← try_lock live.inner; apply_without_commit current live.background command)

  unfoldable pub recovery_new : BackgroundN → RecoveryInstance
  recovery_new v = record { background = background_into_kernel v; inner = free (some (initial v)) }

  -- The checks of `replay` on the recorded envelope against the present state, and the application.
  unfoldable pub check_recorded :
      InstanceState → BackgroundTheory → EnvelopeN → Result ErrorN InstanceState
  check_recorded current background recorded = do
    check_recovery_link current.kernel current.sequence
    require (eqb recorded.version version) invalid_version
    expected_sequence ← checked_add current.sequence 1 sequence_exhausted
    require (eqb recorded.sequence expected_sequence) sequence_mismatch
    require (recorded.previous_digest == current.head) previous_digest_mismatch
    a ← replay_answer (apply_without_commit current background recorded.command)
    require (a.envelope.action == recorded.action) action_mismatch
    require (a.envelope.digest == recorded.digest) digest_mismatch
    ok a.next

  unfoldable pub commit_replay :
      RecoveryInstance → Result ErrorN InstanceState → RecoveryInstance × Result ErrorN (Unit {0})
  commit_replay recovery (err e) = (recovery, err e)
  commit_replay recovery (ok next) = (record recovery { inner = free (some next) }, ok tt)

  unfoldable pub replay : RecoveryInstance → EnvelopeN → RecoveryInstance × Result ErrorN (Unit {0})
  replay recovery recorded = commit_replay recovery (do
    slot ← try_lock recovery.inner
    current ← or_err slot recovery_consumed
    check_recorded current recovery.background recorded)

unfoldable pub status : LiveInstance → Result ErrorN ChainN
status live = do
  current ← try_lock live.inner
  ok (record { version = version; sequence = current.sequence; head = current.head })

-- The checks of `finalize` on the expected anchor.
unfoldable pub check_anchor : RecoveryInstance → ChainN → Result ErrorN InstanceState
check_anchor recovery expected = do
  slot ← try_lock recovery.inner
  current ← or_err slot recovery_consumed
  require (eqb expected.version version) invalid_version
  require (eqb expected.sequence current.sequence) final_anchor_mismatch
  require (expected.head == current.head) final_anchor_mismatch
  ok current

-- The slot is taken, so that a recovery ends once.
unfoldable pub take :
    RecoveryInstance → Result ErrorN InstanceState → RecoveryInstance × Result ErrorN LiveInstance
take recovery (err e) = (recovery, err e)
take recovery (ok state) = (
  record recovery { inner = free none },
  ok (record { background = recovery.background; inner = free state }),
)

unfoldable pub finalize : RecoveryInstance → ChainN → RecoveryInstance × Result ErrorN LiveInstance
finalize recovery expected = take recovery (check_anchor recovery expected)
