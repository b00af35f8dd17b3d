-- ===== src/Command/Preserves.antt =====
-- The invariants across a command and across a sequence of commands.
use einsof.Prelude.{ok, ◌≡◌}
use einsof.Background.{BackgroundTheory}
use einsof.Command.{Command, apply}
use einsof.Event.{KernelAction}
use einsof.Invariants.{Inv}
use einsof.Preservation.Authorize.{authorize_inspected-Inv}
use einsof.Preservation.Begin.{begin_invocation-Inv}
use einsof.Preservation.Cross.{cross_output-Inv}
use einsof.Preservation.Delegate.{delegate-Inv}
use einsof.Preservation.Grants.{grant_capability-Inv, grant_crossing-Inv}
use einsof.Preservation.Ingest.{ingest-Inv}
use einsof.Preservation.Registry.{register_tool-Inv, unregister_tool-Inv}
use einsof.Preservation.Revoke.{revoke-Inv, cascade_revoke-Inv}
use einsof.Preservation.Settle.{settle_invocation-Inv}
use einsof.State.{KernelState}

-- Each of the twelve commands, where it is accepted, leads from a state with the invariants to a
-- state with the invariants.
pub apply-Inv :
    {bg : BackgroundTheory} {s t : KernelState} {act : KernelAction} (c : Command)
    → Inv bg s
    → apply c s bg ≡ ok (t, act)
    → Inv bg t
unfolding apply
apply-Inv (Command.register_tool tool) v h = register_tool-Inv tool v h
apply-Inv (Command.unregister_tool tool) v h = unregister_tool-Inv tool v h
apply-Inv (Command.delegate grantor grantee) v h = delegate-Inv grantor grantee v h
apply-Inv (Command.grant_capability parent child cap) v h =
    grant_capability-Inv parent child cap v h
apply-Inv (Command.grant_crossing grantor agent assignment n) v h =
    grant_crossing-Inv grantor agent assignment n v h
apply-Inv (Command.revoke parent target) v h = revoke-Inv parent target v h
apply-Inv (Command.cascade_revoke child parent) v h = cascade_revoke-Inv child parent v h
apply-Inv (Command.ingest agent src pconf pinteg) v h = ingest-Inv agent src pconf pinteg v h
apply-Inv (Command.begin_invocation q) v h = begin_invocation-Inv q v h
apply-Inv (Command.authorize_inspected inv attestation) v h =
    authorize_inspected-Inv inv attestation v h
apply-Inv (Command.settle_invocation inv outcome resolution) v h =
    settle_invocation-Inv inv outcome resolution v h
apply-Inv (Command.cross_output input) v h = cross_output-Inv input v h
