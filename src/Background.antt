-- ===== src/Background.antt =====
-- argus/crates/argus-kernel/src/background.rs: the immutable background and its builder.
pub mod Ceilings
use einsof.Prelude.{Bool, false, Option, none, some}
use einsof.Collections.VecMap.{VecMap}
use einsof.Collections.VecMap
use einsof.Types.{AgentId, ConfLevel, EgressKind, Mode, enforce, conf_le, root, egress_kind_eq}

pub record BackgroundTheory : Type 0 where
  pub allow_ceiling : VecMap EgressKind ConfLevel
  pub inspect_ceiling : VecMap EgressKind ConfLevel
  pub mode : Mode
  pub root_agent : AgentId

unfoldable pub flow_allows : BackgroundTheory → ConfLevel → EgressKind → Bool
flow_allows bg level egress = elim (VecMap.get_cloned bg.allow_ceiling egress) [
  | some c ↦ conf_le level c
  | none ↦ false
]

unfoldable pub flow_inspects : BackgroundTheory → ConfLevel → EgressKind → Bool
flow_inspects bg level egress = elim (VecMap.get_cloned bg.inspect_ceiling egress) [
  | some c ↦ conf_le level c
  | none ↦ false
]

-- The builder has the fields of what it builds.
pub record BackgroundTheoryBuilder : Type 0 where
  pub allow_ceiling : VecMap EgressKind ConfLevel
  pub inspect_ceiling : VecMap EgressKind ConfLevel
  pub mode : Mode
  pub root_agent : AgentId

unfoldable pub new_builder : BackgroundTheoryBuilder
new_builder = record {
  allow_ceiling = VecMap.new;
  inspect_ceiling = VecMap.new;
  mode = enforce;
  root_agent = root;
}

-- One arm of `set_egress_ceilings`: a ceiling is set, or cleared with `none`.
unfoldable pub set_ceiling :
    VecMap EgressKind ConfLevel → EgressKind → Option ConfLevel → VecMap EgressKind ConfLevel
set_ceiling m egress (some c) = VecMap.insert m egress c
set_ceiling m egress none = VecMap.remove m egress

unfoldable pub set_egress_ceilings :
    BackgroundTheoryBuilder
    → EgressKind
    → Option ConfLevel
    → Option ConfLevel
    → BackgroundTheoryBuilder
set_egress_ceilings b egress allow inspect = record b {
  allow_ceiling = set_ceiling b.allow_ceiling egress allow;
  inspect_ceiling = set_ceiling b.inspect_ceiling egress inspect;
}

unfoldable pub set_mode : BackgroundTheoryBuilder → Mode → BackgroundTheoryBuilder
set_mode b mode = record b { mode = mode }

unfoldable pub set_root_agent : BackgroundTheoryBuilder → AgentId → BackgroundTheoryBuilder
set_root_agent b agent = record b { root_agent = agent }

unfoldable pub build : BackgroundTheoryBuilder → BackgroundTheory
build b = record {
  allow_ceiling = b.allow_ceiling;
  inspect_ceiling = b.inspect_ceiling;
  mode = b.mode;
  root_agent = b.root_agent;
}
