-- ===== src/Nif/Wire/Ceilings.antt =====
-- The background that the wire's ceilings become.
use mathlib.Core.Option
use einsof.Prelude.{Option, ◌≡◌, ◌∙◌, ap, refl, ◌==◌, if◌then◌else◌}
use einsof.Background.{
  flow_allows, flow_inspects, new_builder, set_ceiling, set_mode, set_egress_ceilings, build,
}
use einsof.Background.Ceilings.{below, set_ceiling-get, below-elim}
use einsof.Collections.VecMap.{VecMap}
use einsof.Collections.VecMap
use einsof.Types.{ConfLevel, EgressKind, EgressKind-discrete, egress_kind_eq}
use einsof.Nif.Enums.{
  EgressKindN, ConfLevelN, mode_into_kernel, egress_kind_into_kernel, conf_level_into_kernel,
}
use einsof.Nif.Wire.Background.{
  BackgroundN, ceiling, set_ceilings_of, set_all_ceilings, background_into_kernel,
}

pick :
    Option ConfLevel
    → Option ConfLevel
    → Option ConfLevel
    → Option ConfLevel
    → EgressKind
    → Option ConfLevel
pick a b c d EgressKind.network_external = a
pick a b c d EgressKind.network_internal = b
pick a b c d EgressKind.filesystem_write = c
pick a b c d EgressKind.ipc = d

-- A map after the four rounds of the loop.
set_ceiling-all :
    (m : VecMap EgressKind ConfLevel) (a b c d : Option ConfLevel) (k : EgressKind)
    → VecMap.get_cloned
        (set_ceiling
          (set_ceiling
            (set_ceiling
              (set_ceiling m EgressKind.network_external a)
              EgressKind.network_internal
              b)
            EgressKind.filesystem_write
            c)
          EgressKind.ipc
          d)
        k
      ≡ pick a b c d k
unfolding pick EgressKind-discrete
set_ceiling-all m a b c d k =
    let m1 = set_ceiling m EgressKind.network_external a in
    let m2 = set_ceiling m1 EgressKind.network_internal b in
    let m3 = set_ceiling m2 EgressKind.filesystem_write c in
    rw
      (
        set_ceiling-get m3 EgressKind.ipc k d,
        set_ceiling-get m2 EgressKind.filesystem_write k c,
        set_ceiling-get m1 EgressKind.network_internal k b,
        set_ceiling-get m EgressKind.network_external k a,
      )
      (picked k (VecMap.get_cloned m k))
  where
    picked :
        (k : EgressKind) (o : Option ConfLevel)
        → (if EgressKind.ipc == k
            then d
            else (if EgressKind.filesystem_write == k
                then c
                else (if EgressKind.network_internal == k
                    then b
                    else (if EgressKind.network_external == k then a else o))))
          ≡ pick a b c d k
    picked EgressKind.network_external o = refl
    picked EgressKind.network_internal o = refl
    picked EgressKind.filesystem_write o = refl
    picked EgressKind.ipc o = refl

abbrev level : (EgressKindN → Option (Option ConfLevelN)) → EgressKindN → Option ConfLevel
level get k = Option.map conf_level_into_kernel (ceiling get k)

level-pick :
    (get : EgressKindN → Option (Option ConfLevelN)) (k : EgressKindN)
    → pick
        (level get EgressKindN.network_external)
        (level get EgressKindN.network_internal)
        (level get EgressKindN.filesystem_write)
        (level get EgressKindN.ipc)
        (egress_kind_into_kernel k)
      ≡ level get k
unfolding pick egress_kind_into_kernel
level-pick get EgressKindN.network_external = refl
level-pick get EgressKindN.network_internal = refl
level-pick get EgressKindN.filesystem_write = refl
level-pick get EgressKindN.ipc = refl

-- The background that a wire background becomes has its mode, and decides each egress in both bands
-- by its ceiling for that egress, denying where the key is missing or has no ceiling.
pub background_into_kernel-flow :
    (v : BackgroundN) (l : ConfLevel) (k : EgressKindN)
    → ((background_into_kernel v).mode ≡ mode_into_kernel v.mode)
      × (flow_allows (background_into_kernel v) l (egress_kind_into_kernel k)
          ≡ below l (Option.map conf_level_into_kernel (ceiling v.allow_ceiling k)))
      × (flow_inspects (background_into_kernel v) l (egress_kind_into_kernel k)
          ≡ below l (Option.map conf_level_into_kernel (ceiling v.inspect_ceiling k)))
unfolding background_into_kernel set_all_ceilings set_ceilings_of set_egress_ceilings set_mode build
    new_builder egress_kind_into_kernel flow_allows flow_inspects
background_into_kernel-flow v l k = (
  refl,
  below-elim l _
      ∙ ap (below l) (
          set_ceiling-all VecMap.new _ _ _ _ (egress_kind_into_kernel k)
          ∙ level-pick v.allow_ceiling k),
  below-elim l _
      ∙ ap (below l) (
          set_ceiling-all VecMap.new _ _ _ _ (egress_kind_into_kernel k)
          ∙ level-pick v.inspect_ceiling k),
)
