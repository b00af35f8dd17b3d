-- ===== src/Kernel.antt =====
-- argus/crates/argus-kernel/src/kernel.rs and traits.rs: the driver, which appends each event before it
-- commits. The authorizer and the event store are the caller's.
pub mod Commit
pub mod Driven
use einsof.Prelude.{ℕ, ◌+◌, ◌%◌, Bool, Option, Result, ok, err}
use einsof.Background.{BackgroundTheory}
use einsof.Capability.{CapKind}
use einsof.Collections.VecSet.{VecSet}
use einsof.Error.{KernelError}
use einsof.Event.{KernelAction, KernelEvent}
use einsof.State.{KernelState, initial}
use einsof.Transitions.Agents
use einsof.Transitions.Authorize
use einsof.Transitions.Begin
use einsof.Transitions.Cross
use einsof.Transitions.Ingest
use einsof.Transitions.Registry
use einsof.Transitions.Settle
use einsof.Types.{
  AgentId, ToolId, InvocationId, ChallengeId, ContentHash, AssignmentDigest, ConfLevel, IntegLevel,
  EgressKind, Outcome, ActionPolicySnapshot, ResolutionAttestation, InspectionAttestation,
  CrossInput,
}

-- The authorizer's and the store's own states are passed on, as `allows` and `append` may change them
-- behind their `&self`.
pub record AuthorizerOracle {ℓ} (A : Type ℓ) : Type ℓ where
  pub allows : A → AgentId → ToolId → InvocationId → KernelState → BackgroundTheory → A × Bool

pub record EventStore {ℓ} (E : Type ℓ) : Type ℓ where
  pub append : E → KernelEvent → E × Result KernelError (Unit {0})

pub record Kernel {ℓ κ} (A : Type ℓ) (E : Type κ) : Type (ℓ ⊔ κ) where
  pub state : KernelState
  pub background : BackgroundTheory
  pub sequence : ℕ
  pub authorizer : A
  pub events : E

module _ {ℓ κ} {A : Type ℓ} {E : Type κ} where
  unfoldable pub new : BackgroundTheory → A → E → Kernel A E
  new background authorizer events = record {
    state = initial;
    background = background;
    sequence = 0;
    authorizer = authorizer;
    events = events;
  }

  -- `u64` addition.
  unfoldable pub next_seq : Kernel A E → ℕ
  next_seq k = (k.sequence + 1) % 18446744073709551616

  -- The end of `apply`: what it does with the answer of the store.
  unfoldable pub commit :
      Kernel A E
      → KernelState
      → KernelEvent
      → E × Result KernelError (Unit {0})
      → Kernel A E × Result KernelError KernelEvent
  commit k new_state event (events, err e) = (record k { events = events }, err e)
  commit k new_state event (events, ok _) =
      (record k { sequence = event.sequence; state = new_state; events = events }, ok event)

  module _ ⦃store : EventStore E⦄ where
    unfoldable pub apply :
        Kernel A E
        → Result KernelError (KernelState × KernelAction)
        → Kernel A E × Result KernelError KernelEvent
    apply k (err e) = (k, err e)
    apply k (ok (new_state, action)) =
        let event : KernelEvent = record { sequence = next_seq k; action = action } in
        commit k new_state event (store.append k.events event)

    unfoldable pub register_tool : Kernel A E → ToolId → Kernel A E × Result KernelError KernelEvent
    register_tool k tool = apply k (Registry.register_tool k.state tool)

    unfoldable pub unregister_tool :
        Kernel A E → ToolId → Kernel A E × Result KernelError KernelEvent
    unregister_tool k tool = apply k (Registry.unregister_tool k.state tool)

    unfoldable pub delegate :
        Kernel A E → AgentId → AgentId → Kernel A E × Result KernelError KernelEvent
    delegate k grantor grantee = apply k (Agents.delegate k.state k.background grantor grantee)

    unfoldable pub grant_capability :
        Kernel A E → AgentId → AgentId → CapKind → Kernel A E × Result KernelError KernelEvent
    grant_capability k parent child cap = apply k (Agents.grant_capability k.state parent child cap)

    unfoldable pub grant_crossing :
        Kernel A E
        → AgentId
        → AgentId
        → AssignmentDigest
        → ℕ
        → Kernel A E × Result KernelError KernelEvent
    grant_crossing k grantor agent assignment n =
        apply k (Agents.grant_crossing k.state k.background grantor agent assignment n)

    unfoldable pub revoke :
        Kernel A E → AgentId → AgentId → Kernel A E × Result KernelError KernelEvent
    revoke k parent target = apply k (Agents.revoke k.state k.background parent target)

    unfoldable pub cascade_revoke :
        Kernel A E → AgentId → AgentId → Kernel A E × Result KernelError KernelEvent
    cascade_revoke k child parent =
        apply k (Agents.cascade_revoke k.state k.background child parent)

    unfoldable pub ingest :
        Kernel A E
        → AgentId
        → Option AgentId
        → ConfLevel
        → IntegLevel
        → Kernel A E × Result KernelError KernelEvent
    ingest k agent src pconf pinteg =
        apply k (Ingest.ingest k.state k.background agent src pconf pinteg)

    unfoldable pub settle_invocation :
        Kernel A E
        → InvocationId
        → Outcome
        → Option ResolutionAttestation
        → Kernel A E × Result KernelError KernelEvent
    settle_invocation k inv outcome att = apply k (Settle.settle_invocation k.state inv outcome att)

    -- The authorizer's verdict is asked of the present state and frozen into the command.
    unfoldable pub begin_invocation :
        ⦃oracle : AuthorizerOracle A⦄
        → Kernel A E
        → AgentId
        → InvocationId
        → ChallengeId
        → ActionPolicySnapshot
        → VecSet EgressKind
        → ContentHash
        → Kernel A E × Result KernelError KernelEvent
    begin_invocation ⦃oracle⦄ k agent inv chal snap attested_egress args_hash =
        let (authorizer, authorized) =
          oracle.allows k.authorizer agent snap.tool inv k.state k.background in
        apply (record k { authorizer = authorizer })
          (Begin.begin_invocation k.state k.background (record {
            agent = agent;
            inv = inv;
            challenge = chal;
            policy = snap;
            egress = attested_egress;
            args_hash = args_hash;
            authorized = authorized;
          }))

    unfoldable pub authorize_inspected :
        Kernel A E
        → InvocationId
        → InspectionAttestation
        → Kernel A E × Result KernelError KernelEvent
    authorize_inspected k inv att =
        apply k (Authorize.authorize_inspected k.state k.background inv att)

    unfoldable pub cross_output :
        Kernel A E → CrossInput → Kernel A E × Result KernelError KernelEvent
    cross_output k q = apply k (Cross.cross_output k.state k.background q)
