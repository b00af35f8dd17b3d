-- ===== src/Nif/Command.antt =====
-- ex_argus/native/argus_nif/src/command.rs: the commands on the wire and their dispatch to the kernel.
use mathlib.Core.Option
use mathlib.Core.List.{map}
use einsof.Prelude.{ℕ, Result, ok, err}
use einsof.Background.{BackgroundTheory}
use einsof.Collections.VecSet
use einsof.Command.{Command}
use einsof.Command as Kernel
use einsof.Error.{KernelError}
use einsof.Event.{KernelAction}
use einsof.State.{KernelState}
use einsof.Types.{egress_kind_eq}
use einsof.Nif.Enums.{
  conf_level_into_kernel, integ_level_into_kernel, cap_kind_into_kernel, egress_kind_into_kernel,
  outcome_into_kernel,
}
use einsof.Nif.Event.{ActionN, KernelErrorN, action_from_kernel, kernel_error_from_kernel}
use einsof.Nif.Wire.Structs.{
  policy_into_kernel, inspection_into_kernel, resolution_into_kernel, cross_input_into_kernel,
}
use einsof.Nif.Wire.Commands.{
  RegisterToolCommandN, UnregisterToolCommandN, DelegateCommandN, GrantCapabilityCommandN,
  GrantCrossingCommandN, RevokeCommandN, CascadeRevokeCommandN, IngestCommandN,
  BeginInvocationCommandN, AuthorizeInspectedCommandN, SettleInvocationCommandN,
  CrossOutputCommandN,
}

pub data CommandN : Type 0 where
  register_tool : RegisterToolCommandN → CommandN
  unregister_tool : UnregisterToolCommandN → CommandN
  delegate : DelegateCommandN → CommandN
  grant_capability : GrantCapabilityCommandN → CommandN
  grant_crossing : GrantCrossingCommandN → CommandN
  revoke : RevokeCommandN → CommandN
  cascade_revoke : CascadeRevokeCommandN → CommandN
  ingest : IngestCommandN → CommandN
  begin_invocation : BeginInvocationCommandN → CommandN
  authorize_inspected : AuthorizeInspectedCommandN → CommandN
  settle_invocation : SettleInvocationCommandN → CommandN
  cross_output : CrossOutputCommandN → CommandN

unfoldable pub command_tag : CommandN → ℕ
command_tag (CommandN.register_tool _) = 0
command_tag (CommandN.unregister_tool _) = 1
command_tag (CommandN.delegate _) = 2
command_tag (CommandN.grant_capability _) = 3
command_tag (CommandN.grant_crossing _) = 4
command_tag (CommandN.revoke _) = 5
command_tag (CommandN.cascade_revoke _) = 6
command_tag (CommandN.ingest _) = 7
command_tag (CommandN.begin_invocation _) = 8
command_tag (CommandN.authorize_inspected _) = 9
command_tag (CommandN.settle_invocation _) = 10
command_tag (CommandN.cross_output _) = 11

-- The arguments of each transition, converted as the arms of `apply` convert them.
unfoldable pub command_into_kernel : CommandN → Command
command_into_kernel (CommandN.register_tool c) = Command.register_tool (record { text = c.tool })
command_into_kernel (CommandN.unregister_tool c) =
    Command.unregister_tool (record { text = c.tool })
command_into_kernel (CommandN.delegate c) =
    Command.delegate (record { text = c.grantor }) (record { text = c.grantee })
command_into_kernel (CommandN.grant_capability c) =
    Command.grant_capability (record { text = c.parent }) (record { text = c.child })
      (cap_kind_into_kernel c.cap)
command_into_kernel (CommandN.grant_crossing c) =
    Command.grant_crossing (record { text = c.grantor }) (record { text = c.agent })
      (record { text = c.assignment }) c.n
command_into_kernel (CommandN.revoke c) =
    Command.revoke (record { text = c.parent }) (record { text = c.target })
command_into_kernel (CommandN.cascade_revoke c) =
    Command.cascade_revoke (record { text = c.child }) (record { text = c.parent })
command_into_kernel (CommandN.ingest c) =
    Command.ingest (record { text = c.agent }) (Option.map (λ s. record { text = s }) c.src)
      (conf_level_into_kernel c.pconf) (integ_level_into_kernel c.pinteg)
command_into_kernel (CommandN.begin_invocation c) = Command.begin_invocation (record {
  agent = record { text = c.agent };
  inv = record { text = c.inv };
  challenge = record { text = c.challenge };
  policy = policy_into_kernel c.policy;
  egress = VecSet.from_iter (map egress_kind_into_kernel c.egress);
  args_hash = record { text = c.args_hash };
  authorized = c.authorized;
})
command_into_kernel (CommandN.authorize_inspected c) =
    Command.authorize_inspected (record { text = c.inv }) (inspection_into_kernel c.attestation)
command_into_kernel (CommandN.settle_invocation c) =
    Command.settle_invocation (record { text = c.inv }) (outcome_into_kernel c.outcome)
      (Option.map resolution_into_kernel c.resolution)
command_into_kernel (CommandN.cross_output c) =
    Command.cross_output (cross_input_into_kernel c.input)

-- The two maps over the transition's result.
unfoldable pub reply_from_kernel :
    Result KernelError (KernelState × KernelAction) → Result KernelErrorN (KernelState × ActionN)
reply_from_kernel (ok (next, action)) = ok (next, action_from_kernel action)
reply_from_kernel (err e) = err (kernel_error_from_kernel e)

unfoldable pub apply :
    CommandN → KernelState → BackgroundTheory → Result KernelErrorN (KernelState × ActionN)
apply c s bg = reply_from_kernel (Kernel.apply (command_into_kernel c) s bg)
