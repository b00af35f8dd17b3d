-- ===== src/Nif/Wire/Background.antt =====
-- `BackgroundN` of ex_argus/native/argus_nif/src/wire.rs. A `HashMap` is the function that reads it.
use mathlib.Core.Option
use einsof.Prelude.{List, [], ◌∷◌, Option, none, some}
use einsof.Background.{
  BackgroundTheory, BackgroundTheoryBuilder, new_builder, set_mode, set_egress_ceilings, build,
}
use einsof.Nif.Enums.{
  ModeN, EgressKindN, ConfLevelN, mode_into_kernel, egress_kind_into_kernel, conf_level_into_kernel,
  all_egress_kinds,
}

pub record BackgroundN : Type 0 where
  pub mode : ModeN
  pub allow_ceiling : EgressKindN → Option (Option ConfLevelN)
  pub inspect_ceiling : EgressKindN → Option (Option ConfLevelN)

-- `.get(&egress).copied().flatten()`
unfoldable pub ceiling :
    (EgressKindN → Option (Option ConfLevelN)) → EgressKindN → Option ConfLevelN
ceiling get egress = elim (get egress) [ some c ↦ c | none ↦ none ]

-- One round of the loop over the egress kinds.
unfoldable pub set_ceilings_of :
    BackgroundN → EgressKindN → BackgroundTheoryBuilder → BackgroundTheoryBuilder
set_ceilings_of v egress b =
    set_egress_ceilings b (egress_kind_into_kernel egress)
      (Option.map conf_level_into_kernel (ceiling v.allow_ceiling egress))
      (Option.map conf_level_into_kernel (ceiling v.inspect_ceiling egress))

unfoldable pub set_all_ceilings :
    BackgroundN → List EgressKindN → BackgroundTheoryBuilder → BackgroundTheoryBuilder
set_all_ceilings v [] b = b
set_all_ceilings v (egress ∷ rest) b = set_all_ceilings v rest (set_ceilings_of v egress b)

unfoldable pub background_into_kernel : BackgroundN → BackgroundTheory
background_into_kernel v =
    build (set_all_ceilings v all_egress_kinds (set_mode new_builder (mode_into_kernel v.mode)))
