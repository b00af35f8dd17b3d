-- ===== src/Tests/Chain.antt =====
-- The transcripts of chain.rs's own tests, and the properties of the chain at concrete inputs.
use einsof.Prelude.{ℕ, List, [], ◌∷◌, Option, none, some, ◌≡◌, ◌↔◌, refl, arith}
use einsof.Nif.Chain.Actions.{
  write_action, write_action_fields, write_settle_invocation as write_settled,
}
use einsof.Nif.Chain.Commands.{
  write_command, write_command_fields, write_settle_invocation, command_normal,
}
use einsof.Nif.Chain.Link.{
  write_ceilings, write_background, write_genesis, write_link, genesis_transcript, link_transcript,
}
use einsof.Nif.Chain.Structs.{write_resolution}
use einsof.Nif.Chain.Tags.{
  mode_tag, conf_level_tag, egress_kind_tag, integ_level_tag, outcome_tag, disposition_tag,
}
use einsof.Nif.Chain.Transcript.{to_be_bytes, u8, u32, u64, string, tagged, option, normalized}
use einsof.Nif.Command.{CommandN, command_tag}
use einsof.Nif.Enums.{ModeN, ConfLevelN, IntegLevelN, EgressKindN, OutcomeN, DispositionN}
use einsof.Nif.Event.{ActionN, action_tag}
use einsof.Nif.Text.{bytes, len}
use einsof.Nif.Wire.Background.{BackgroundN, ceiling}
use mathlib.Core.Option
use einsof.Background.{flow_allows, flow_inspects}
use einsof.Background.Ceilings.{below}
use einsof.Event.{KernelAction}
use einsof.Types.{ConfLevel}
use einsof.Nif.Enums.{mode_into_kernel, egress_kind_into_kernel, conf_level_into_kernel}
use einsof.Nif.Event.Lossless.{action_from_kernel_injective}
use einsof.Nif.Wire.Background.{background_into_kernel}
use einsof.Nif.Wire.Ceilings.{background_into_kernel-flow}
use einsof.Nif.Wire.Envelope.{DigestN}
use einsof.Collections.VecSet.Laws.{elem}
use einsof.Nif.Chain.Cancel.Actions.{FitsAction}
use einsof.Nif.Chain.Cancel.Commands.{FitsCommand}
use einsof.Nif.Chain.Cancel.Plain.{IsShort}
use einsof.Nif.Chain.Cancel.Tags.{egress_kind_tag_injective}
use einsof.Nif.Chain.Links.{link_transcript_iff, genesis_transcript_iff}
use einsof.Nif.Chain.Sets.{normalized_iff}
use einsof.Nif.Enums.{egress_kind_n_eq}

abbrev pub allow : EgressKindN → Option (Option ConfLevelN)
allow EgressKindN.network_external = some (some ConfLevelN.internal)
allow EgressKindN.network_internal = some none
allow EgressKindN.filesystem_write = some (some ConfLevelN.restricted)
allow EgressKindN.ipc = some (some ConfLevelN.public)

abbrev pub inspect : EgressKindN → Option (Option ConfLevelN)
inspect EgressKindN.network_external = some (some ConfLevelN.sensitive)
inspect EgressKindN.network_internal = some (some ConfLevelN.public)
inspect EgressKindN.filesystem_write = some none
inspect EgressKindN.ipc = some (some ConfLevelN.internal)

abbrev pub background : BackgroundN
background = record { mode = ModeN.monitor; allow_ceiling = allow; inspect_ceiling = inspect }

genesis_pins_canonical_bytes :
    genesis_transcript background
    ≡ 69 ∷ 88 ∷ 65 ∷ 82 ∷ 71 ∷ 85 ∷ 83 ∷ 0 ∷ 71 ∷ 69 ∷ 78 ∷ 69 ∷ 83 ∷ 73 ∷ 83 ∷ 0 ∷ 0 ∷ 0 ∷ 0 ∷ 5
      ∷ 0 ∷ 0 ∷ 0 ∷ 4 ∷ 114 ∷ 111 ∷ 111 ∷ 116 ∷ 1 ∷ 1 ∷ 1 ∷ 0 ∷ 1 ∷ 3 ∷ 1 ∷ 0 ∷ 1 ∷ 2 ∷ 1 ∷ 0 ∷ 0
      ∷ 1 ∷ 1 ∷ []
unfolding genesis_transcript write_genesis write_background write_ceilings ceiling tagged option
    string u8 u32 to_be_bytes bytes len mode_tag conf_level_tag
genesis_pins_canonical_bytes = refl

abbrev previous : DigestN
previous = record {
  as_bytes =
      0 ∷ 1 ∷ 2 ∷ 3 ∷ 4 ∷ 5 ∷ 6 ∷ 7 ∷ 8 ∷ 9 ∷ 10 ∷ 11 ∷ 12 ∷ 13 ∷ 14 ∷ 15 ∷ 16 ∷ 17 ∷ 18 ∷ 19 ∷ 20
      ∷ 21 ∷ 22 ∷ 23 ∷ 24 ∷ 25 ∷ 26 ∷ 27 ∷ 28 ∷ 29 ∷ 30 ∷ 31 ∷ [];
  sized = refl;
}

abbrev settle : CommandN
settle = CommandN.settle_invocation (record {
  inv = "inv";
  outcome = OutcomeN.ambiguous;
  resolution = some (record { id = "res"; inv = "inv"; outcome = OutcomeN.failure });
})

abbrev settled : ActionN
settled = ActionN.settle_invocation (record {
  inv = "inv";
  agent = "agent";
  disposition = DispositionN.monitor_bypassed;
  outcome = OutcomeN.ambiguous;
  clvl = ConfLevelN.sensitive;
  ilvl = IntegLevelN.trusted;
  resolution = some "res";
})

settlement_link_pins_bytes :
    link_transcript previous 42 settle settled
    ≡ 69 ∷ 88 ∷ 65 ∷ 82 ∷ 71 ∷ 85 ∷ 83 ∷ 0 ∷ 69 ∷ 78 ∷ 86 ∷ 69 ∷ 76 ∷ 79 ∷ 80 ∷ 69 ∷ 0 ∷ 0 ∷ 0 ∷ 0
      ∷ 5 ∷ 0 ∷ 1 ∷ 2 ∷ 3 ∷ 4 ∷ 5 ∷ 6 ∷ 7 ∷ 8 ∷ 9 ∷ 10 ∷ 11 ∷ 12 ∷ 13 ∷ 14 ∷ 15 ∷ 16 ∷ 17 ∷ 18 ∷ 19
      ∷ 20 ∷ 21 ∷ 22 ∷ 23 ∷ 24 ∷ 25 ∷ 26 ∷ 27 ∷ 28 ∷ 29 ∷ 30 ∷ 31 ∷ 0 ∷ 0 ∷ 0 ∷ 0 ∷ 0 ∷ 0 ∷ 0 ∷ 42
      ∷ 10 ∷ 0 ∷ 0 ∷ 0 ∷ 3 ∷ 105 ∷ 110 ∷ 118 ∷ 2 ∷ 1 ∷ 0 ∷ 0 ∷ 0 ∷ 3 ∷ 114 ∷ 101 ∷ 115 ∷ 0 ∷ 0 ∷ 0
      ∷ 3 ∷ 105 ∷ 110 ∷ 118 ∷ 1 ∷ 10 ∷ 0 ∷ 0 ∷ 0 ∷ 3 ∷ 105 ∷ 110 ∷ 118 ∷ 0 ∷ 0 ∷ 0 ∷ 5 ∷ 97 ∷ 103
      ∷ 101 ∷ 110 ∷ 116 ∷ 2 ∷ 2 ∷ 2 ∷ 2 ∷ 1 ∷ 0 ∷ 0 ∷ 0 ∷ 3 ∷ 114 ∷ 101 ∷ 115 ∷ []
unfolding link_transcript write_link write_command write_command_fields write_settle_invocation
    write_resolution write_action write_action_fields write_settled command_tag action_tag tagged
    option string u8 u32 u64 to_be_bytes bytes len outcome_tag disposition_tag conf_level_tag
    integ_level_tag
settlement_link_pins_bytes = refl

inv_IsShort : IsShort "inv"
unfolding len bytes
inv_IsShort = omega arith

res_IsShort : IsShort "res"
unfolding len bytes
res_IsShort = omega arith

agent_IsShort : IsShort "agent"
unfolding len bytes
agent_IsShort = omega arith

settle_Fits : FitsCommand settle
settle_Fits = record {
  inv = inv_IsShort;
  resolution = record { id = res_IsShort; inv = inv_IsShort };
}

settled_Fits : FitsAction settled
settled_Fits = record { inv = inv_IsShort; agent = agent_IsShort; resolution = res_IsShort }

abbrev earlier : ℕ
earlier = 42

abbrev later : ℕ
later = 43

link_transcript_iff_example :
    (link_transcript previous earlier settle settled
      ≡ link_transcript previous later settle settled)
    ↔ ((previous ≡ previous)
        × (earlier ≡ later)
        × (command_normal settle ≡ command_normal settle)
        × (settled ≡ settled))
link_transcript_iff_example =
    link_transcript_iff previous previous earlier later settle settle settled settled (omega arith)
      (omega arith) settle_Fits settle_Fits settled_Fits settled_Fits

genesis_transcript_iff_example : (genesis_transcript background ≡ genesis_transcript background) ↔ (
    (background.mode ≡ background.mode)
    × ((k : EgressKindN) → ceiling allow k ≡ ceiling allow k)
    × ((k : EgressKindN) → ceiling inspect k ≡ ceiling inspect k))
genesis_transcript_iff_example = genesis_transcript_iff background background

abbrev both : List EgressKindN
both = EgressKindN.ipc ∷ EgressKindN.network_external ∷ EgressKindN.ipc ∷ []

abbrev once : List EgressKindN
once = EgressKindN.network_external ∷ EgressKindN.ipc ∷ []

normalized_iff_example :
    (normalized egress_kind_tag both ≡ normalized egress_kind_tag once)
    ↔ ((z : EgressKindN) → elem z both ≡ elem z once)
normalized_iff_example = normalized_iff egress_kind_tag egress_kind_tag_injective both once

background_into_kernel-flow_example :
    ((background_into_kernel background).mode ≡ mode_into_kernel background.mode)
    × (flow_allows
          (background_into_kernel background)
          ConfLevel.sensitive
          (egress_kind_into_kernel EgressKindN.filesystem_write)
        ≡ below ConfLevel.sensitive
            (Option.map conf_level_into_kernel (ceiling allow EgressKindN.filesystem_write)))
    × (flow_inspects
          (background_into_kernel background)
          ConfLevel.sensitive
          (egress_kind_into_kernel EgressKindN.filesystem_write)
        ≡ below ConfLevel.sensitive
            (Option.map conf_level_into_kernel (ceiling inspect EgressKindN.filesystem_write)))
background_into_kernel-flow_example =
    background_into_kernel-flow background ConfLevel.sensitive EgressKindN.filesystem_write

abbrev delegated : KernelAction
delegated = KernelAction.delegate (record { text = "root" }) (record { text = "a" })

action_from_kernel_injective_example : delegated ≡ delegated
action_from_kernel_injective_example = action_from_kernel_injective delegated delegated refl
