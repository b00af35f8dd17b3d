-- ===== src/Nif/Chain/Link.antt =====
-- The genesis and the links of a chain: their transcripts, and their digests by SHA-256, which is the
-- caller's.
use einsof.Prelude.{ℕ, List, [], ◌∷◌, ◌++◌}
use einsof.Nif.Chain.Actions.{write_action}
use einsof.Nif.Chain.Commands.{write_command}
use einsof.Nif.Chain.Tags.{mode_tag, conf_level_tag}
use einsof.Nif.Chain.Transcript.{u32, u64, string, tagged, option}
use einsof.Nif.Command.{CommandN}
use einsof.Nif.Enums.{EgressKindN, ConfLevelN, all_egress_kinds}
use einsof.Nif.Event.{ActionN}
use einsof.Nif.Wire.Background.{BackgroundN, ceiling}
use einsof.Nif.Wire.Envelope.{DigestN}
use einsof.Prelude.{Option}

-- `EXARGUS\0GENESIS\0` and `EXARGUS\0ENVELOPE\0`.
abbrev pub genesis_domain : List ℕ
genesis_domain =
    b'E' ∷ b'X' ∷ b'A' ∷ b'R' ∷ b'G' ∷ b'U' ∷ b'S' ∷ 0 ∷ b'G' ∷ b'E' ∷ b'N' ∷ b'E' ∷ b'S' ∷ b'I'
    ∷ b'S' ∷ 0 ∷ []

abbrev pub envelope_domain : List ℕ
envelope_domain =
    b'E' ∷ b'X' ∷ b'A' ∷ b'R' ∷ b'G' ∷ b'U' ∷ b'S' ∷ 0 ∷ b'E' ∷ b'N' ∷ b'V' ∷ b'E' ∷ b'L' ∷ b'O'
    ∷ b'P' ∷ b'E' ∷ 0 ∷ []

abbrev pub version : ℕ
version = 5

-- The digest of the bytes that a hasher was given.
pub record Sha256 : Type 0 where
  pub finalize : List ℕ → DigestN

unfoldable pub write_ceilings :
    (EgressKindN → Option (Option ConfLevelN)) → List EgressKindN → List ℕ → List ℕ
write_ceilings get [] rest = rest
write_ceilings get (egress ∷ more) rest =
    option (tagged conf_level_tag) (ceiling get egress) (write_ceilings get more rest)

unfoldable pub write_background : BackgroundN → List ℕ → List ℕ
write_background v rest = tagged mode_tag v.mode (
    write_ceilings v.allow_ceiling all_egress_kinds
      (write_ceilings v.inspect_ceiling all_egress_kinds rest))

unfoldable pub write_genesis : BackgroundN → List ℕ → List ℕ
write_genesis v rest = genesis_domain ++ u32 version (string "root" (write_background v rest))

unfoldable pub write_link : DigestN → ℕ → CommandN → ActionN → List ℕ → List ℕ
write_link previous sequence command action rest =
    envelope_domain
    ++ u32 version
        (previous.as_bytes ++ u64 sequence (write_command command (write_action action rest)))

unfoldable pub genesis_transcript : BackgroundN → List ℕ
genesis_transcript v = write_genesis v []

unfoldable pub link_transcript : DigestN → ℕ → CommandN → ActionN → List ℕ
link_transcript previous sequence command action = write_link previous sequence command action []

unfoldable pub genesis : Sha256 → BackgroundN → DigestN
genesis sha v = sha.finalize (genesis_transcript v)

unfoldable pub link : Sha256 → DigestN → ℕ → CommandN → ActionN → DigestN
link sha previous sequence command action =
    sha.finalize (link_transcript previous sequence command action)
