-- ===== src/Tests/Instance.antt =====
-- The properties of instances, at a session of one call.
use einsof.Prelude.{
  ℕ, ◌<◌, arith, ◌+◌, ◌%◌, List, [], ◌∷◌, Option, none, some, Result, ok, err, ◌≡◌, ◌≢◌, ◌⊎◌, inl,
  ◌↔◌, refl, ap,
}
use einsof.Command
use einsof.Capability.{CapKind-discrete}
use einsof.Collections.VecMap
use einsof.Collections.VecSet
use einsof.State
use einsof.State.{KernelState}
use einsof.Transitions.Registry
use einsof.Types.{tool_id_eq}
use einsof.Nif.Chain.Link.{Sha256, genesis, link}
use einsof.Nif.Command.{CommandN, command_into_kernel, reply_from_kernel}
use einsof.Nif.Command as Wire
use einsof.Nif.Event.{ActionN, ErrorN, recovery_consumed, action_from_kernel}
use einsof.Nif.Instance.Recovered.{finalize-at, replay_all, finalize-replay_all, finalize-Session}
use einsof.Nif.Instance.Reaches.{Reaches, Session-Reaches}
use einsof.Nif.Instance.Refused.{Keeps, calls-Keeps, finalize-once}
use einsof.Nif.Instance.Resource.{
  LiveInstance, RecoveryInstance, Applied, free, recovery_new, replay, check_recorded, status,
  finalize, live_new, live_apply, commit, try_lock, apply_without_commit, applied, kernel_answer,
  initial,
}
use einsof.Nif.Instance.Sessions.{
  Session, Recovery, recovery_at, live_at, replay-ok, opened, accepted, taken,
}
use einsof.Nif.Limits.Budget
use einsof.Nif.Limits.Command.{check_command}
use einsof.Nif.Limits.Preflight.{held_len, preflight, check_post_transition}
use einsof.Nif.Limits.State as Shape
use einsof.Nif.Text.{bytes, len}
use einsof.Nif.Wire.Envelope.{DigestN, EnvelopeN, ChainN}
use einsof.Nif.Wire.Background.{background_into_kernel}
use einsof.Nif.Instance.Replay.{Accepted, apply-Accepted, apply-check_recorded, check_recorded_iff}
use einsof.Nif.Chain.Cancel.Actions.{FitsAction}
use einsof.Nif.Chain.Cancel.Commands.{FitsCommand}
use einsof.Nif.Enums.{ConfLevelN, IntegLevelN, FallbackN}
use einsof.Nif.Instance.Chained.{IsChain, Session-IsChain}
use einsof.Nif.Instance.Tamper.{Collides, SameBackground, SameLog, finalize-SameLog}
use einsof.Nif.Limits.Answers.{apply-FitsAction}
use einsof.Nif.Limits.Crossings.{cross_output-full}
use einsof.Nif.Wire.Commands.{CrossOutputCommandN}
use einsof.Types.{ConfLevel, agent_id_eq}
use einsof.Tests.Chain.{background}

abbrev fold : List ℕ → ℕ → ℕ
fold [] sum = sum
fold (b ∷ bs) sum = fold bs ((sum + sum + b) % 256)

fold_lt : (m : List ℕ) (sum : ℕ) → sum < 256 → fold m sum < 256
fold_lt [] sum h = h
fold_lt (b ∷ bs) sum h = fold_lt bs ((sum + sum + b) % 256) (omega arith)

-- A digest of 32 bytes for the tests.
abbrev digest_of : List ℕ → DigestN
digest_of m = record {
  as_bytes =
      fold m 0
      ∷ 0
      ∷ 0
      ∷ 0
      ∷ 0
      ∷ 0
      ∷ 0
      ∷ 0
      ∷ 0
      ∷ 0
      ∷ 0
      ∷ 0
      ∷ 0
      ∷ 0
      ∷ 0
      ∷ 0
      ∷ 0
      ∷ 0
      ∷ 0
      ∷ 0
      ∷ 0
      ∷ 0
      ∷ 0
      ∷ 0
      ∷ 0
      ∷ 0
      ∷ 0
      ∷ 0
      ∷ 0
      ∷ 0
      ∷ 0
      ∷ 0
      ∷ [];
  sized = let h = fold_lt m 0 (omega arith) in ground arith;
}

abbrev sha : Sha256
sha = record { finalize = digest_of }

abbrev register : CommandN
register = CommandN.register_tool (record { tool = "tool" })

abbrev registered : ActionN
registered = ActionN.register_tool (record { tool = "tool" })

abbrev live0 : LiveInstance
live0 = live_new sha background

abbrev live1 : LiveInstance
live1 = (live_apply sha live0 register).0

abbrev envelope_of : Result ErrorN EnvelopeN → Option EnvelopeN
envelope_of (ok e) = some e
envelope_of (err _) = none

abbrev first_call : Option EnvelopeN
first_call = envelope_of (live_apply sha live0 register).1

abbrev envelope1 : EnvelopeN
envelope1 = record {
  version = 5;
  sequence = 1;
  previous_digest = genesis sha background;
  digest = link sha (genesis sha background) 1 register registered;
  command = register;
  action = registered;
}

is_accepted : (live_apply sha live0 register).1 ≡ ok envelope1
unfolding live_new live_apply commit try_lock apply_without_commit applied kernel_answer initial
    preflight Budget.check_next Budget.checked_add Shape.checked_state_text Shape.check_state_shape
    Budget.check_len Budget.check_capacity Budget.checked_capacity Budget.check_each
    Shape.retained_text Budget.add_each Budget.add_all Budget.add Budget.new check_command
    Budget.check_texts check_post_transition Wire.apply reply_from_kernel command_into_kernel
    action_from_kernel Command.apply Registry.register_tool State.initial VecMap.new VecMap.insert
    VecMap.find VecMap.find_from VecMap.len VecSet.new VecSet.insert VecSet.contains
    VecSet.contains_from VecSet.union_from VecSet.len len bytes CapKind-discrete
is_accepted = refl

abbrev session1 : Session sha background live1 (envelope1 ∷ [])
session1 = accepted register opened (λ i. (live1, is_accepted i))

abbrev anchor1 : ChainN
anchor1 = record { version = 5; sequence = 1; head = envelope1.digest }

status1 : status live1 ≡ ok anchor1
unfolding status live_new live_apply commit try_lock apply_without_commit applied kernel_answer
    initial preflight Budget.check_next Budget.checked_add Shape.checked_state_text
    Shape.check_state_shape Budget.check_len Budget.check_capacity Budget.checked_capacity
    Budget.check_each Shape.retained_text Budget.add_each Budget.add_all Budget.add Budget.new
    check_command Budget.check_texts check_post_transition Wire.apply reply_from_kernel
    command_into_kernel action_from_kernel Command.apply Registry.register_tool State.initial
    VecMap.new VecMap.insert VecMap.find VecMap.find_from VecMap.len VecSet.new VecSet.insert
    VecSet.contains VecSet.contains_from VecSet.union_from VecSet.len len bytes CapKind-discrete
status1 = refl

abbrev applied1 : Applied
applied1 = record {
  next = record {
    kernel = record State.initial {
      tool_registered = VecSet.insert State.initial.tool_registered (record { text = "tool" });
    };
    sequence = 1;
    head = envelope1.digest;
  };
  envelope = envelope1;
}

applies1 :
    apply_without_commit sha (initial sha background) (background_into_kernel background) register
    ≡ ok applied1
unfolding live_new live_apply commit try_lock apply_without_commit applied kernel_answer initial
    preflight Budget.check_next Budget.checked_add Shape.checked_state_text Shape.check_state_shape
    Budget.check_len Budget.check_capacity Budget.checked_capacity Budget.check_each
    Shape.retained_text Budget.add_each Budget.add_all Budget.add Budget.new check_command
    Budget.check_texts check_post_transition Wire.apply reply_from_kernel command_into_kernel
    action_from_kernel Command.apply Registry.register_tool State.initial VecMap.new VecMap.insert
    VecMap.find VecMap.find_from VecMap.len VecSet.new VecSet.insert VecSet.contains
    VecSet.contains_from VecSet.union_from VecSet.len len bytes CapKind-discrete
applies1 = refl

replays1 :
    check_recorded sha (initial sha background) (background_into_kernel background) envelope1
    ≡ ok applied1.next
replays1 =
    apply-check_recorded sha (initial sha background) (background_into_kernel background) register
      applied1 applies1

recovery1 : Recovery sha background (recovery_at background applied1.next) (envelope1 ∷ [])
unfolding recovery_new
recovery1 =
    taken envelope1 opened
      (replay-ok sha background (initial sha background) applied1.next envelope1 replays1)

finalize-replay_all_example :
    ((replay_all sha (recovery_new sha background) (envelope1 ∷ [])).1 ≡ ok tt)
    × ((finalize (replay_all sha (recovery_new sha background) (envelope1 ∷ [])).0 anchor1).1
        ≡ ok live1)
finalize-replay_all_example = finalize-replay_all sha background session1 status1

rebuilt_status : status (live_at background applied1.next) ≡ ok anchor1
unfolding status try_lock
rebuilt_status = refl

abbrev over : RecoveryInstance
over = record { background = background_into_kernel background; inner = free none }

finalized1 :
    finalize (recovery_at background applied1.next) anchor1
    ≡ (over, ok (live_at background applied1.next))
finalized1 = finalize-at sha background applied1.next anchor1 rebuilt_status

finalize-Session_example :
    Session sha background (live_at background applied1.next) (envelope1 ∷ [])
    × (status (live_at background applied1.next) ≡ ok anchor1)
finalize-Session_example = finalize-Session sha background recovery1 finalized1

check_recorded_iff_example :
    ((check_recorded sha (initial sha background) (background_into_kernel background) envelope1
        ≡ ok applied1.next)
      ↔ (apply_without_commit sha
            (initial sha background)
            (background_into_kernel background)
            register
          ≡ ok applied1))
    × ((Shape.check_recovery_link (initial sha background).kernel (initial sha background).sequence
          ≡ ok tt)
        ⊎ ((e : ErrorN) × (Shape.check_recovery_link
                (initial sha background).kernel
                (initial sha background).sequence
              ≡ err e)
            × (check_recorded sha
                  (initial sha background)
                  (background_into_kernel background)
                  envelope1
                ≡ err e)))
check_recorded_iff_example =
    check_recorded_iff sha (initial sha background) (background_into_kernel background) envelope1
      applied1.next

Session-Reaches_example : Reaches sha background live1
Session-Reaches_example = Session-Reaches sha background session1

calls-Keeps_example :
    Keeps live1 (live_apply sha live1 register)
    × Keeps
        (recovery_at background applied1.next)
        (replay sha (recovery_at background applied1.next) envelope1)
    × Keeps
        (recovery_at background applied1.next)
        (finalize (recovery_at background applied1.next) anchor1)
calls-Keeps_example =
    calls-Keeps sha live1 (recovery_at background applied1.next) register envelope1 anchor1

finalize-once_example :
    ((replay sha (finalize (recovery_at background applied1.next) anchor1).0 envelope1).1
      ≡ err recovery_consumed)
    × ((finalize (finalize (recovery_at background applied1.next) anchor1).0 anchor1).1
        ≡ err recovery_consumed)
finalize-once_example =
    finalize-once sha (recovery_at background applied1.next) anchor1 anchor1 envelope1
      (live_at background applied1.next) (ap (λ x. x.1) finalized1)

Session-IsChain_example : IsChain sha background live1 (envelope1 ∷ [])
Session-IsChain_example = Session-IsChain sha background session1

finalize-SameLog_example :
    (SameBackground background background × SameLog (envelope1 ∷ []) (envelope1 ∷ []))
    ⊎ Collides sha background background (envelope1 ∷ []) (envelope1 ∷ [])
finalize-SameLog_example =
    finalize-SameLog sha background background session1 status1 recovery1 finalized1 (tt, tt)
      (tt, tt)

abbrev accepted1 :
    Accepted sha (initial sha background) (background_into_kernel background) register applied1
accepted1 =
    apply-Accepted sha (initial sha background) (background_into_kernel background) register
      applies1

apply-FitsAction_example : FitsCommand register × FitsAction accepted1.action
apply-FitsAction_example =
    apply-FitsAction (initial sha background).kernel accepted1.kernel
      (initial sha background).sequence register (background_into_kernel background)
      accepted1.action tt accepted1.allowed accepted1.stepped

abbrev laden : KernelState
laden = record State.initial {
  taint_levels = record {
    entries =
        (
          record { text = "b" },
          record {
            items =
                ConfLevel.public ∷ ConfLevel.internal ∷ ConfLevel.sensitive ∷ ConfLevel.restricted
                ∷ [];
          },
        )
        ∷ [];
  };
}

abbrev crossing : CrossOutputCommandN
crossing = record {
  input = record {
    src = "a";
    rcv = "b";
    crossing = "x";
    output_hash = "h";
    descriptor = "d";
    fallback = FallbackN.fail;
    t_integ = IntegLevelN.standard;
    t_conf = none;
    assignment = "g";
    evidence = none;
    released_conf = ConfLevelN.public;
    released_integ = IntegLevelN.standard;
  };
}

laden_full :
    held_len (VecMap.get_cloned laden.taint_levels (record { text = crossing.input.rcv })) ≡ 4
unfolding held_len VecMap.get_cloned VecMap.find VecMap.find_from VecSet.len
laden_full = refl

cross_output-full_example : preflight laden 0 (CommandN.cross_output crossing) ≢ ok tt
cross_output-full_example = cross_output-full laden 0 crossing (inl laden_full)
