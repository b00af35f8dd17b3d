-- ===== src/Kernel/Driven.antt =====
-- The driver's methods, called in any order, with any answers of the authorizer and of the store.
use einsof.Prelude.{ℕ, Option, ok, ◌≡◌, ◌⊎◌, inl, inr, refl, sym, ◌∙◌, ap, subst}
use einsof.Background.{BackgroundTheory}
use einsof.Capability.{CapKind}
use einsof.Collections.VecSet.{VecSet}
use einsof.Command.{Command}
use einsof.Command
use einsof.Command.Reachable.{Run, Reachable, done, step}
use einsof.Event.{KernelAction}
use einsof.Kernel.{AuthorizerOracle, EventStore, Kernel}
use einsof.Kernel
use einsof.Kernel.Commit.{apply_lem}
use einsof.State.{KernelState}
use einsof.Types.{
  AgentId, ToolId, InvocationId, ChallengeId, ContentHash, AssignmentDigest, ConfLevel, IntegLevel,
  EgressKind, Outcome, ActionPolicySnapshot, ResolutionAttestation, InspectionAttestation,
  CrossInput,
}

module _ {ℓ κ} {A : Type ℓ} {E : Type κ} ⦃store : EventStore E⦄ ⦃oracle : AuthorizerOracle A⦄ where
  -- One call of a method.
  pub data Call (k k' : Kernel A E) : Type (ℓ ⊔ κ) where
    register_tool : (tool : ToolId) → (Kernel.register_tool k tool).0 ≡ k' → Call k k'
    unregister_tool : (tool : ToolId) → (Kernel.unregister_tool k tool).0 ≡ k' → Call k k'
    delegate : (grantor grantee : AgentId) → (Kernel.delegate k grantor grantee).0 ≡ k' → Call k k'
    grant_capability :
        (parent child : AgentId) (kind : CapKind)
        → (Kernel.grant_capability k parent child kind).0 ≡ k'
        → Call k k'
    grant_crossing :
        (grantor agent : AgentId) (assignment : AssignmentDigest) (n : ℕ)
        → (Kernel.grant_crossing k grantor agent assignment n).0 ≡ k'
        → Call k k'
    revoke : (parent target : AgentId) → (Kernel.revoke k parent target).0 ≡ k' → Call k k'
    cascade_revoke :
        (child parent : AgentId) → (Kernel.cascade_revoke k child parent).0 ≡ k' → Call k k'
    ingest :
        (agent : AgentId) (src : Option AgentId) (pconf : ConfLevel) (pinteg : IntegLevel)
        → (Kernel.ingest k agent src pconf pinteg).0 ≡ k'
        → Call k k'
    settle_invocation :
        (inv : InvocationId) (outcome : Outcome) (att : Option ResolutionAttestation)
        → (Kernel.settle_invocation k inv outcome att).0 ≡ k'
        → Call k k'
    begin_invocation :
        (agent : AgentId) (inv : InvocationId) (chal : ChallengeId) (snap : ActionPolicySnapshot)
        (egress : VecSet EgressKind) (args_hash : ContentHash)
        → (Kernel.begin_invocation k agent inv chal snap egress args_hash).0 ≡ k'
        → Call k k'
    authorize_inspected :
        (inv : InvocationId) (att : InspectionAttestation)
        → (Kernel.authorize_inspected k inv att).0 ≡ k'
        → Call k k'
    cross_output : (q : CrossInput) → (Kernel.cross_output k q).0 ≡ k' → Call k k'

  pub data Calls (k : Kernel A E) : Kernel A E → Type (ℓ ⊔ κ) where
    no_more : Calls k k
    then_call : {k' k'' : Kernel A E} → Calls k k' → Call k' k'' → Calls k k''

  -- What one call does to the state: nothing, or one accepted command.
  abbrev Moved : Kernel A E → Kernel A E → Type 0
  Moved k k' =
      (k'.background ≡ k.background)
      × ((k'.state ≡ k.state)
          ⊎ ((c : Command) × (act : KernelAction) × (Command.apply c k.state k.background
                ≡ ok (k'.state, act))))

  apply-Moved :
      (k : Kernel A E) (c : Command)
      → Moved k (Kernel.apply k (Command.apply c k.state k.background)).0
  apply-Moved k c = elim (apply_lem k (Command.apply c k.state k.background)) [
    | inl (e, _, refused) ↦ (refused.same_background, inl refused.same_state)
    | inr (t, act, event, accepted, _, committed) ↦ (
      committed.same_background,
      inr (c, act, accepted ∙ ap (λ (u : KernelState). ok (u, act)) (sym committed.new_state)),
    )
  ]

  -- The driver after it has asked the authorizer.
  abbrev asked : Kernel A E → AgentId → ToolId → InvocationId → Kernel A E
  asked k agent tool inv = record k {
    authorizer = (oracle.allows k.authorizer agent tool inv k.state k.background).0;
  }

  pub Call-Moved : {k k' : Kernel A E} → Call k k' → Moved k k'
  unfolding Kernel.register_tool Kernel.unregister_tool Kernel.delegate Kernel.grant_capability
      Kernel.grant_crossing Kernel.revoke Kernel.cascade_revoke Kernel.ingest
      Kernel.settle_invocation Kernel.authorize_inspected Kernel.cross_output
      Kernel.begin_invocation Command.apply
  Call-Moved {k} (register_tool tool e) =
      subst (Moved k) e (apply-Moved k (Command.register_tool tool))
  Call-Moved {k} (unregister_tool tool e) =
      subst (Moved k) e (apply-Moved k (Command.unregister_tool tool))
  Call-Moved {k} (delegate grantor grantee e) =
      subst (Moved k) e (apply-Moved k (Command.delegate grantor grantee))
  Call-Moved {k} (grant_capability parent child kind e) =
      subst (Moved k) e (apply-Moved k (Command.grant_capability parent child kind))
  Call-Moved {k} (grant_crossing grantor agent assignment n e) =
      subst (Moved k) e (apply-Moved k (Command.grant_crossing grantor agent assignment n))
  Call-Moved {k} (revoke parent target e) =
      subst (Moved k) e (apply-Moved k (Command.revoke parent target))
  Call-Moved {k} (cascade_revoke child parent e) =
      subst (Moved k) e (apply-Moved k (Command.cascade_revoke child parent))
  Call-Moved {k} (ingest agent src pconf pinteg e) =
      subst (Moved k) e (apply-Moved k (Command.ingest agent src pconf pinteg))
  Call-Moved {k} (settle_invocation inv outcome att e) =
      subst (Moved k) e (apply-Moved k (Command.settle_invocation inv outcome att))
  Call-Moved {k} (authorize_inspected inv att e) =
      subst (Moved k) e (apply-Moved k (Command.authorize_inspected inv att))
  Call-Moved {k} (cross_output q e) = subst (Moved k) e (apply-Moved k (Command.cross_output q))
  Call-Moved {k} (begin_invocation agent inv chal snap egress args_hash e) = subst (Moved k) e (
      apply-Moved (asked k agent snap.tool inv) (
        Command.begin_invocation (record {
          agent = agent;
          inv = inv;
          challenge = chal;
          policy = snap;
          egress = egress;
          args_hash = args_hash;
          authorized = (oracle.allows k.authorizer agent snap.tool inv k.state k.background).1;
        })))

  Calls-Moved :
      {k k' : Kernel A E}
      → Calls k k'
      → (k'.background ≡ k.background) × Run k.background k.state k'.state
  Calls-Moved no_more = (refl, done)
  Calls-Moved {k} (then_call {k'} {k''} calls call) =
      let (same, run) = Calls-Moved calls in
      let (kept, moved) = Call-Moved call in
      (
        kept ∙ same,
        elim moved [
          | inl still ↦ subst (Run k.background k.state) (sym still) run
          | inr (c, act, accepted) ↦
              step c run
                (subst (λ bg. Command.apply c k'.state bg ≡ ok (k''.state, act)) same accepted)
        ],
      )

  -- Whatever the driver's methods are called with, and whatever the authorizer and the event store
  -- answer, the driver's state is one that accepted commands reach from the initial state.
  pub Calls-Reachable :
      (bg : BackgroundTheory) (authorizer : A) (events : E) {k : Kernel A E}
      → Calls (Kernel.new bg authorizer events) k
      → Reachable bg k.state
  unfolding Kernel.new
  Calls-Reachable bg authorizer events calls = (Calls-Moved calls).1
