-- ===== src/Kernel/Commit.antt =====
-- The order of `apply`: its events, the log and the commit.
use einsof.Prelude.{Result, ok, err, ◌≡◌, ◌⊎◌, inl, inr, refl}
use einsof.Error.{KernelError}
use einsof.Event.{KernelAction, KernelEvent}
use einsof.Kernel.{EventStore, Kernel, next_seq, commit, apply}
use einsof.State.{KernelState}

-- A refusal: the transition's own, after which the driver is the same, or the store's, after which only
-- the store is another.
pub record Refused {ℓ κ} {A : Type ℓ} {E : Type κ} (k k' : Kernel A E) : Type (ℓ ⊔ κ) where
  pub same_state : k'.state ≡ k.state
  pub same_sequence : k'.sequence ≡ k.sequence
  pub same_background : k'.background ≡ k.background
  pub same_authorizer : k'.authorizer ≡ k.authorizer

-- An accepted command: the store took the event with the next sequence number, and the driver holds
-- the new state.
pub record Committed {ℓ κ} {A : Type ℓ} {E : Type κ} ⦃store : EventStore E⦄ (k k' : Kernel A E)
    (t : KernelState) (act : KernelAction) (event : KernelEvent) : Type (ℓ ⊔ κ) where
  pub numbered : event ≡ record { sequence = next_seq k; action = act }
  pub appended : store.append k.events event ≡ (k'.events, ok tt)
  pub new_state : k'.state ≡ t
  pub new_sequence : k'.sequence ≡ next_seq k
  pub same_background : k'.background ≡ k.background
  pub same_authorizer : k'.authorizer ≡ k.authorizer

module _ {ℓ κ} {A : Type ℓ} {E : Type κ} ⦃store : EventStore E⦄ (k : Kernel A E) where
  commit_lem :
      (t : KernelState) (act : KernelAction) (answer : E × Result KernelError (Unit {0}))
      → store.append k.events (record { sequence = next_seq k; action = act }) ≡ answer
      → ((e : KernelError) × ((commit k t (record { sequence = next_seq k; action = act }) answer).1
            ≡ err e)
          × Refused k (commit k t (record { sequence = next_seq k; action = act }) answer).0)
        ⊎ ((event : KernelEvent) × ((commit k t
                (record { sequence = next_seq k; action = act })
                answer).1
              ≡ ok event)
            × Committed k
                (commit k t (record { sequence = next_seq k; action = act }) answer).0
                t
                act
                event)
  unfolding commit
  commit_lem t act (events, err e) h = inl (
    e,
    refl,
    record {
      same_state = refl;
      same_sequence = refl;
      same_background = refl;
      same_authorizer = refl;
    },
  )
  commit_lem t act (events, ok _) h = inr (
    record { sequence = next_seq k; action = act },
    refl,
    record {
      numbered = refl;
      appended = h;
      new_state = refl;
      new_sequence = refl;
      same_background = refl;
      same_authorizer = refl;
    },
  )

  -- What `apply` did with a transition's result.
  abbrev pub Applied : Result KernelError (KernelState × KernelAction) → Type (ℓ ⊔ κ)
  Applied r =
      ((e : KernelError) × ((apply k r).1 ≡ err e) × Refused k (apply k r).0)
      ⊎ ((t : KernelState) × (act : KernelAction) × (event : KernelEvent) × (r ≡ ok (t, act))
          × ((apply k r).1 ≡ ok event)
          × Committed k (apply k r).0 t act event)

  -- Either the driver's apply answers with an error and leaves state, sequence, background and
  -- authorizer as they were, or the transition was accepted, the store took the event with the next
  -- sequence number, and the driver holds the new state and that number.
  pub apply_lem : (r : Result KernelError (KernelState × KernelAction)) → Applied r
  unfolding apply
  apply_lem (err e) = inl (
    e,
    refl,
    record {
      same_state = refl;
      same_sequence = refl;
      same_background = refl;
      same_authorizer = refl;
    },
  )
  apply_lem (ok (t, act)) = elim (commit_lem t act _ refl) [
    | inl refused ↦ inl refused
    | inr (event, answer, committed) ↦ inr (t, act, event, refl, answer, committed)
  ]
