-- ===== src/Gates/Egress.antt =====
-- Egress narrowing and coverage.
use einsof.Prelude.{
  true, false, ◌≡◌, ◌↔◌, inl, inr, refl, arith, List, [], ◌∷◌, beq_refl, Bool-cases, leb, length,
}
use einsof.Capability.{cap_kind_eq}
use einsof.Collections.VecMap.Latches.{items_all}
use einsof.Collections.VecSet.{VecSet}
use einsof.Collections.VecSet
use einsof.Collections.VecSet.Laws.{elem, contains-elem}
use einsof.Invariants.{Attested}
use einsof.Transitions.Checks.{egress_narrows, egress_covers}
use einsof.Types.{
  EgressKind, agent_id_eq, invocation_id_eq, egress_kind_eq, conf_level_eq, integ_level_eq,
}

empty-absent :
    (d : VecSet EgressKind) (e : EgressKind)
    → VecSet.is_empty d ≡ true
    → VecSet.contains d e ≡ false
unfolding VecSet.is_empty elem
empty-absent d e h = rw (contains-elem d e) (go d.items h)
  where
    go : (xs : List EgressKind) → leb (length xs) 0 ≡ true → elem e xs ≡ false
    go [] _ = refl
    go (x ∷ xs) p = ground arith

nonempty-member :
    (d : VecSet EgressKind)
    → VecSet.is_empty d ≡ false
    → (x : EgressKind) × (VecSet.contains d x ≡ true)
unfolding VecSet.is_empty elem
nonempty-member d h = go d.items refl
  where
    go : (xs : List EgressKind) → d.items ≡ xs → (x : EgressKind) × (VecSet.contains d x ≡ true)
    go [] p = absurd (ground arith)
    go (x ∷ xs) p = (x, rw (contains-elem d x, p) (ground (arith, beq_refl x)))

-- Narrowing and coverage pass exactly when the attested egress is within the declared one, and is
-- not empty where that is not.
pub egress-Attested :
    (egr declared : VecSet EgressKind)
    → ((egress_narrows egr declared ≡ true) × (egress_covers declared egr ≡ true))
      ↔ Attested egr declared
unfolding egress_narrows egress_covers
egress-Attested egr declared =
    let narrow = items_all (VecSet.contains declared) egr true in
    (
      λ h. record {
        narrows = (narrow.0 h.0).1;
        covers = λ e d. nonempty-member egr (ground (arith, empty-absent declared e));
      },
      λ t. (
        narrow.1 (refl, t.narrows),
        elim (Bool-cases (VecSet.is_empty declared)) [
          | inl p ↦ rw p
          | inr q ↦
              let (e, d) = nonempty-member declared q in
              let (x, m) = t.covers e d in ground (arith, empty-absent egr x)
        ],
      ),
    )
