-- ===== src/Background/Ceilings.antt =====
-- What the builder's ceilings admit.
use einsof.Prelude.{
  Bool, false, Option, none, some, ◌==◌, if◌then◌else◌, ◌≡◌, refl, inl, inr, Bool-cases,
}
use einsof.Background.{
  BackgroundTheoryBuilder, flow_allows, flow_inspects, set_ceiling, set_egress_ceilings, build,
}
use einsof.Collections.VecMap.{VecMap}
use einsof.Collections.VecMap
use einsof.Collections.VecMap.Laws.{get-insert, get-remove}
use einsof.Types.{EgressKind, ConfLevel, conf_le, egress_kind_eq}

-- A level is at or below a ceiling; an absent ceiling denies.
abbrev pub below : ConfLevel → Option ConfLevel → Bool
below l (some c) = conf_le l c
below l none = false

pub set_ceiling-get :
    (m : VecMap EgressKind ConfLevel) (e x : EgressKind) (c : Option ConfLevel)
    → VecMap.get_cloned (set_ceiling m e c) x ≡ (if e == x then c else VecMap.get_cloned m x)
unfolding set_ceiling
set_ceiling-get m e x (some c) = get-insert m e x c
set_ceiling-get m e x none = get-remove m e x

pub below-elim :
    (l : ConfLevel) (c : Option ConfLevel)
    → (elim c [ some d ↦ conf_le l d | none ↦ false ]) ≡ below l c
below-elim l (some c) = refl
below-elim l none = refl

-- One band of the flow gate, over the map of its ceilings.
band :
    (m : VecMap EgressKind ConfLevel) (e x : EgressKind) (c : Option ConfLevel) (l : ConfLevel)
    → (elim (VecMap.get_cloned (set_ceiling m e c) x) [ some d ↦ conf_le l d | none ↦ false ]) ≡ (
        if e == x
        then below l c
        else (elim (VecMap.get_cloned m x) [ some d ↦ conf_le l d | none ↦ false ]))
band m e x c l =
    rw (set_ceiling-get m e x c)
      (elim (Bool-cases (e == x)) [ inl hit ↦ rw hit (below-elim l c) | inr miss ↦ rw miss refl ])

-- Setting an egress's ceilings makes its two bands those ceilings, an absent one denying, and leaves
-- every other egress alone.
pub set_egress_ceilings-flow :
    (b : BackgroundTheoryBuilder) (e x : EgressKind) (allow inspect : Option ConfLevel)
    (l : ConfLevel)
    → (flow_allows (build (set_egress_ceilings b e allow inspect)) l x
        ≡ (if e == x then below l allow else flow_allows (build b) l x))
      × (flow_inspects (build (set_egress_ceilings b e allow inspect)) l x
          ≡ (if e == x then below l inspect else flow_inspects (build b) l x))
unfolding flow_allows flow_inspects build set_egress_ceilings
set_egress_ceilings-flow b e x allow inspect l =
    (band b.allow_ceiling e x allow l, band b.inspect_ceiling e x inspect l)
