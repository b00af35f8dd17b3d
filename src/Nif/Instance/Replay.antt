-- ===== src/Nif/Instance/Replay.antt =====
-- `replay` against `apply`.
use einsof.Prelude.{
  ℕ, ◌+◌, Bool, true, false, ◌==◌, eqb, Result, ok, err, require, >>=-ok, ◌≡◌, ◌↔◌, ◌⊎◌, inl, inr,
  refl, sym, ap, ◌∙◌, arith, eq_of_beq, beq_of_eq, beq_refl, Result-cases,
}
use einsof.Background.{BackgroundTheory}
use einsof.State.{KernelState}
use einsof.Nif.Chain.Link.{Sha256, version}
use einsof.Nif.Command.{CommandN}
use einsof.Nif.Command
use einsof.Nif.Event.{
  ActionN, KernelErrorN, ErrorN, sequence_exhausted, invalid_version, sequence_mismatch,
  previous_digest_mismatch, action_mismatch, digest_mismatch,
}
use einsof.Nif.Instance.Resource.{
  InstanceState, Applied, kernel_answer, replay_answer, applied, apply_without_commit,
  check_recorded,
}
use einsof.Nif.Limits.Budget.{checked_add, check_next}
use einsof.Nif.Limits.Preflight.{preflight}
use einsof.Nif.Limits.State.{checked_state_text, check_state, check_recovery_link}
use einsof.Nif.Wire.Envelope.{EnvelopeN}
use einsof.Nif.Wire.Equality.{action_n_eq, digest_n_eq}

-- A command that passes `preflight` stands at a link that recovery accepts.
preflight-check_recovery_link :
    (s : KernelState) (sequence : ℕ) (command : CommandN)
    → preflight s sequence command ≡ ok tt
    → check_recovery_link s sequence ≡ ok tt
unfolding preflight check_recovery_link check_state
preflight-check_recovery_link s sequence command h =
    ground (arith, Result-cases (check_next sequence), Result-cases (checked_state_text s))

checked_add-ok : (a b : ℕ) (e : ErrorN) {n : ℕ} → checked_add a b e ≡ ok n → n ≡ a + b
unfolding checked_add
checked_add-ok a b e h = ground arith

kernel_answer-ok {ℓ} :
    {A : Type ℓ} (r : Result KernelErrorN A) {a : A} → kernel_answer r ≡ ok a → r ≡ ok a
unfolding kernel_answer
kernel_answer-ok (ok a) h = cc h
kernel_answer-ok (err e) h = ground arith

replay_answer-ok {ℓ} :
    {A : Type ℓ} (r : Result ErrorN A) {a : A} → replay_answer r ≡ ok a → r ≡ ok a
unfolding replay_answer
replay_answer-ok (ok a) h = cc h
replay_answer-ok (err (ErrorN.kernel cause)) h = ground arith
replay_answer-ok (err other) h = ground arith

pub require-ok : (b : Bool) (e : ErrorN) {u : Unit {0}} → require b e ≡ ok u → b ≡ true
require-ok true e h = refl
require-ok false e h = ground arith

pub eqb_eq : (a b : ℕ) → eqb a b ≡ true → a ≡ b
eqb_eq a b h = ground arith

pub eqb_refl : (a b : ℕ) → a ≡ b → eqb a b ≡ true
eqb_refl a b h = ground arith

applied_path :
    (a b : Applied)
    → a.next ≡ b.next
    → a.envelope.version ≡ b.envelope.version
    → a.envelope.sequence ≡ b.envelope.sequence
    → a.envelope.previous_digest ≡ b.envelope.previous_digest
    → a.envelope.digest ≡ b.envelope.digest
    → a.envelope.command ≡ b.envelope.command
    → a.envelope.action ≡ b.envelope.action
    → a ≡ b
applied_path a b n v s p d c t = λ i. record {
  next = n i;
  envelope = record {
    version = v i;
    sequence = s i;
    previous_digest = p i;
    digest = d i;
    command = c i;
    action = t i;
  };
}

module _ (sha : Sha256) where
  -- What an accepted application went through.
  pub record Accepted (current : InstanceState) (bg : BackgroundTheory) (command : CommandN)
      (a : Applied) : Type 0 where
    pub allowed : preflight current.kernel current.sequence command ≡ ok tt
    pub counted : checked_add current.sequence 1 sequence_exhausted ≡ ok (current.sequence + 1)
    pub kernel : KernelState
    pub action : ActionN
    pub stepped : Command.apply command current.kernel bg ≡ ok (kernel, action)
    pub result : a ≡ applied sha current (current.sequence + 1) command (kernel, action)

  pub apply-Accepted :
      (current : InstanceState) (bg : BackgroundTheory) (command : CommandN) {a : Applied}
      → apply_without_commit sha current bg command ≡ ok a
      → Accepted current bg command a
  unfolding apply_without_commit
  apply-Accepted current bg command {a} h =
      let p = >>=-ok (preflight current.kernel current.sequence command) _ h in
      let q = >>=-ok (checked_add current.sequence 1 sequence_exhausted) _ p.2 in
      let r = >>=-ok (kernel_answer (Command.apply command current.kernel bg)) _ q.2 in
      let next = checked_add-ok current.sequence 1 sequence_exhausted q.1 in
      let e : applied sha current (current.sequence + 1) command (r.0) ≡ a = cc (r.2, next) in
      record {
        allowed = cc p.1;
        counted = rw next at q.1;
        kernel = r.0.0;
        action = r.0.1;
        stepped = kernel_answer-ok (Command.apply command current.kernel bg) r.1;
        result = sym e;
      }

  pub apply_of_Accepted :
      (current : InstanceState) (bg : BackgroundTheory) (command : CommandN) {a : Applied}
      → Accepted current bg command a
      → apply_without_commit sha current bg command ≡ ok a
  unfolding apply_without_commit kernel_answer
  apply_of_Accepted current bg command v =
      rw (v.allowed, v.counted, v.stepped) (ap ok (sym v.result))

  -- A step of a replay is an application that yields the recorded envelope.
  replay_applied :
      (current : InstanceState) (bg : BackgroundTheory) (recorded : EnvelopeN)
      (next : InstanceState)
      → check_recorded sha current bg recorded ≡ ok next
      → apply_without_commit sha current bg recorded.command
        ≡ ok (record { next = next; envelope = recorded })
  unfolding check_recorded applied replay_answer
  replay_applied current bg recorded next h =
      let link = >>=-ok (check_recovery_link current.kernel current.sequence) _ h in
      let ver = >>=-ok (require (eqb recorded.version version) invalid_version) _ link.2 in
      let num = >>=-ok (checked_add current.sequence 1 sequence_exhausted) _ ver.2 in
      let seq = >>=-ok (require (eqb recorded.sequence num.0) sequence_mismatch) _ num.2 in
      let prev =
        >>=-ok (require (recorded.previous_digest == current.head) previous_digest_mismatch) _
          seq.2 in
      let run =
        >>=-ok (replay_answer (apply_without_commit sha current bg recorded.command)) _ prev.2 in
      let a : Applied = run.0 in
      let act = >>=-ok (require (a.envelope.action == recorded.action) action_mismatch) _ run.2 in
      let dig = >>=-ok (require (a.envelope.digest == recorded.digest) digest_mismatch) _ act.2 in
      let accepted =
        replay_answer-ok (apply_without_commit sha current bg recorded.command) run.1 in
      let v = apply-Accepted current bg recorded.command accepted in
      let same : a ≡ record { next = next; envelope = recorded } =
        applied_path a (record { next = next; envelope = recorded }) (cc (dig.2))
          (ap (λ (x : Applied). x.envelope.version) v.result
            ∙ sym (eqb_eq recorded.version version (require-ok _ invalid_version ver.1)))
          (ap (λ (x : Applied). x.envelope.sequence) v.result
            ∙ sym (checked_add-ok current.sequence 1 sequence_exhausted num.1)
            ∙ sym (eqb_eq recorded.sequence num.0 (require-ok _ sequence_mismatch seq.1)))
          (ap (λ (x : Applied). x.envelope.previous_digest) v.result
            ∙ sym (eq_of_beq (require-ok _ previous_digest_mismatch prev.1)))
          (eq_of_beq (require-ok _ digest_mismatch dig.1))
          (ap (λ (x : Applied). x.envelope.command) v.result)
          (eq_of_beq (require-ok _ action_mismatch act.1)) in
      accepted ∙ ap ok same

  applied_replay :
      (current : InstanceState) (bg : BackgroundTheory) (recorded : EnvelopeN)
      (next : InstanceState)
      → apply_without_commit sha current bg recorded.command
        ≡ ok (record { next = next; envelope = recorded })
      → check_recorded sha current bg recorded ≡ ok next
  unfolding check_recorded applied replay_answer
  applied_replay current bg recorded next h =
      let v = apply-Accepted current bg recorded.command h in
      let field = v.result in
      let ver =
        eqb_refl recorded.version version (ap (λ (x : Applied). x.envelope.version) field) in
      let seq =
        eqb_refl recorded.sequence (current.sequence + 1)
          (ap (λ (x : Applied). x.envelope.sequence) field) in
      let prev : (recorded.previous_digest == current.head) ≡ true =
        beq_of_eq (ap (λ (x : Applied). x.envelope.previous_digest) field) in
      let link =
        preflight-check_recovery_link current.kernel current.sequence recorded.command v.allowed in
      rw (link, ver, v.counted, seq, prev, h, replay_answer)
        (rw (beq_refl recorded.action, beq_refl recorded.digest))

  -- A state that fails the link check is refused with that check's error, before all else.
  link-cases :
      (current : InstanceState) (bg : BackgroundTheory) (recorded : EnvelopeN)
      → (check_recovery_link current.kernel current.sequence ≡ ok tt)
        ⊎ ((e : ErrorN) × (check_recovery_link current.kernel current.sequence ≡ err e)
            × (check_recorded sha current bg recorded ≡ err e))
  unfolding check_recorded
  link-cases current bg recorded =
      elim (Result-cases (check_recovery_link current.kernel current.sequence)) [
        | inl (u, p) ↦ inl p
        | inr (e, p) ↦ inr (e, p, rw p refl)
      ]

  -- Replay's checks take an envelope and lead to a state exactly when applying the envelope's
  -- command answers that very envelope and that very state; a state that fails the link check is
  -- refused with that check's error.
  pub check_recorded_iff :
      (current : InstanceState) (bg : BackgroundTheory) (recorded : EnvelopeN)
      (next : InstanceState)
      → ((check_recorded sha current bg recorded ≡ ok next) ↔ (
          apply_without_commit sha current bg recorded.command
          ≡ ok (record { next = next; envelope = recorded })))
        × ((check_recovery_link current.kernel current.sequence ≡ ok tt)
            ⊎ ((e : ErrorN) × (check_recovery_link current.kernel current.sequence ≡ err e)
                × (check_recorded sha current bg recorded ≡ err e)))
  check_recorded_iff current bg recorded next = (
    (replay_applied current bg recorded next, applied_replay current bg recorded next),
    link-cases current bg recorded,
  )

  -- The envelope that an application yields replays to the state that it leaves.
  pub apply-check_recorded :
      (current : InstanceState) (bg : BackgroundTheory) (command : CommandN) (a : Applied)
      → apply_without_commit sha current bg command ≡ ok a
      → check_recorded sha current bg a.envelope ≡ ok a.next
  unfolding applied
  apply-check_recorded current bg command a h =
      let v = apply-Accepted current bg command h in
      let own = ap (λ (x : Applied). x.envelope.command) v.result in
      applied_replay current bg a.envelope a.next
        (ap (λ c. apply_without_commit sha current bg c) own ∙ h)
