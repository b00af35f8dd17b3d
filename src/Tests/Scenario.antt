-- ===== src/Tests/Scenario.antt =====
-- A short life of the kernel: an agent is delegated, invokes a tool, is inspected, is quarantined,
-- resolves, and crosses its output to another agent.
use einsof.Prelude.{Bool, true, false, [], ◌∷◌, none, some, Result, ok, err, ◌≡◌, refl}
use einsof.Background.{BackgroundTheory}
use einsof.Capability.{CapKind}
use einsof.Command.{Command, apply}
use einsof.Error.{KernelError}
use einsof.Event.{KernelAction}
use einsof.State.{KernelState, initial}
use einsof.Transitions.Begin.{BeginInput}
use einsof.Types.{
  AgentId, ToolId, InvocationId, AssignmentDigest, ConfLevel, IntegLevel, EgressKind,
  ActionPolicySnapshot, ResolutionAttestation, InspectionAttestation, ConformanceAttestation,
  CrossInput, Outcome, Fallback, root,
}
use einsof.Background

-- The background: external network egress carries internal data freely, and sensitive data inspected.
abbrev pub bg : BackgroundTheory
bg = Background.build (
    Background.set_egress_ceilings Background.new_builder EgressKind.network_external
      (some ConfLevel.internal) (some ConfLevel.sensitive))

abbrev pub alice : AgentId
alice = record { text = "alice" }

abbrev pub bob : AgentId
bob = record { text = "bob" }

abbrev pub fetch : ToolId
fetch = record { text = "fetch" }

abbrev pub policy : ConfLevel → ActionPolicySnapshot
policy output = record {
  tool = fetch;
  required_caps = record { items = CapKind.network_egress ∷ [] };
  conf_clearance = ConfLevel.restricted;
  integ_floor = IntegLevel.untrusted;
  integ_inspect = IntegLevel.untrusted;
  output_conf = output;
  output_integ = IntegLevel.standard;
  declared_egress = record { items = EgressKind.network_external ∷ [] };
  policy_digest = record { text = "p" };
}

abbrev pub request : InvocationId → ConfLevel → BeginInput
request inv output = record {
  agent = alice;
  inv = inv;
  challenge = record { text = "chal" };
  policy = policy output;
  egress = record { items = EgressKind.network_external ∷ [] };
  args_hash = record { text = "args" };
  authorized = true;
}

abbrev pub first : InvocationId
first = record { text = "i1" }

abbrev pub second : InvocationId
second = record { text = "i2" }

abbrev pub digest : AssignmentDigest
digest = record { text = "d" }

abbrev pub inspection : InspectionAttestation
inspection = record {
  id = record { text = "a1" };
  inv = second;
  challenge = record { text = "chal" };
  args_hash = record { text = "args" };
  policy_digest = record { text = "p" };
  positive = true;
}

abbrev pub resolution : ResolutionAttestation
resolution = record { id = record { text = "a2" }; inv = second; outcome = Outcome.success }

abbrev pub evidence : ConformanceAttestation
evidence = record {
  id = record { text = "a3" };
  output = record { text = "out" };
  src = alice;
  rcv = bob;
  descriptor = record { text = "desc" };
  assignment = digest;
  positive = true;
}

abbrev pub crossing : CrossInput
crossing = record {
  src = alice;
  rcv = bob;
  crossing = record { text = "x1" };
  output_hash = record { text = "out" };
  descriptor = record { text = "desc" };
  fallback = Fallback.fail;
  t_integ = IntegLevel.attested;
  t_conf = none;
  assignment = digest;
  evidence = some evidence;
  released_conf = ConfLevel.sensitive;
  released_integ = IntegLevel.standard;
}

-- The state that a command leaves, and the action that it records.
abbrev pub state_of : Result KernelError (KernelState × KernelAction) → KernelState
state_of (ok (t, _)) = t
state_of (err _) = initial

abbrev pub action_of : Result KernelError (KernelState × KernelAction) → KernelAction
action_of (ok (_, act)) = act
action_of (err _) = KernelAction.register_tool fetch

abbrev pub is_ok : Result KernelError (KernelState × KernelAction) → Bool
is_ok (ok _) = true
is_ok (err _) = false

pub accepted :
    (r : Result KernelError (KernelState × KernelAction))
    → is_ok r ≡ true
    → r ≡ ok (state_of r, action_of r)
accepted (ok (t, act)) h = refl
accepted (err e) h = cc

abbrev pub c1 : Command
c1 = Command.delegate root alice

abbrev pub s1 : KernelState
s1 = state_of (apply c1 initial bg)

abbrev pub c2 : Command
c2 = Command.grant_capability root alice CapKind.network_egress

abbrev pub s2 : KernelState
s2 = state_of (apply c2 s1 bg)

abbrev pub c3 : Command
c3 = Command.register_tool fetch

abbrev pub s3 : KernelState
s3 = state_of (apply c3 s2 bg)

abbrev pub c4 : Command
c4 = Command.begin_invocation (request first ConfLevel.internal)

abbrev pub s4 : KernelState
s4 = state_of (apply c4 s3 bg)

abbrev pub c5 : Command
c5 = Command.settle_invocation first Outcome.success none

abbrev pub s5 : KernelState
s5 = state_of (apply c5 s4 bg)

abbrev pub c6 : Command
c6 = Command.begin_invocation (request second ConfLevel.sensitive)

abbrev pub s6 : KernelState
s6 = state_of (apply c6 s5 bg)

abbrev pub c7 : Command
c7 = Command.authorize_inspected second inspection

abbrev pub s7 : KernelState
s7 = state_of (apply c7 s6 bg)

abbrev pub c8 : Command
c8 = Command.settle_invocation second Outcome.ambiguous none

abbrev pub s8 : KernelState
s8 = state_of (apply c8 s7 bg)

abbrev pub c9 : Command
c9 = Command.settle_invocation second Outcome.success (some resolution)

abbrev pub s9 : KernelState
s9 = state_of (apply c9 s8 bg)

abbrev pub c10 : Command
c10 = Command.delegate root bob

abbrev pub s10 : KernelState
s10 = state_of (apply c10 s9 bg)

abbrev pub c11 : Command
c11 = Command.grant_crossing root bob digest 2

abbrev pub s11 : KernelState
s11 = state_of (apply c11 s10 bg)

abbrev pub c12 : Command
c12 = Command.cross_output crossing

abbrev pub s12 : KernelState
s12 = state_of (apply c12 s11 bg)
