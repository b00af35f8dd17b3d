-- ===== src/Collections/VecMap/Latches.antt =====
-- The latched scans: a flag that starts true and is cleared by a failed demand, over sets, maps, and
-- the entries of a map that a test selects.
use einsof.Prelude.{
  Bool, true, false, not, ◌&&◌, some, PartialEq, if◌then◌else◌, ◌≡◌, ◌↔◌, refl, arith, inl, inr,
  Bool-cases,
}
use mathlib.Core.Bool.{false≢true}
use einsof.Collections.VecMap.{VecMap, for_entries, get_cloned}
use einsof.Collections.VecMap.Loops.{for_entries_lem}
use einsof.Collections.VecSet.{VecSet}
use einsof.Collections.VecSet
use einsof.Collections.VecSet.Loops.{for_items_lem}

pub latch :
    (p flag : Bool) → ((if not p then false else flag) ≡ true) ↔ ((flag ≡ true) × (p ≡ true))
latch true flag = (λ h. (h, refl), λ h. h.0)
latch false flag = (λ h. cc, λ h. cc)

pub found : (p flag : Bool) → ((if p then true else flag) ≡ false) ↔ ((flag ≡ false) × (p ≡ false))
found true flag = (λ h. cc, λ h. cc)
found false flag = (λ h. (h, refl), λ h. h.0)

pub items_all {ℓ} :
    {T : Type ℓ} ⦃e : PartialEq T⦄ (p : T → Bool) (s : VecSet T) (flag : Bool)
    → (VecSet.for_items s (λ x ok. if not (p x) then false else ok) flag ≡ true)
      ↔ ((flag ≡ true) × ((x : T) → VecSet.contains s x ≡ true → p x ≡ true))
items_all p s flag =
    for_items_lem (λ ok. ok ≡ true) (λ x. p x ≡ true) (λ x ok. if not (p x) then false else ok)
      (λ x ok. latch (p x) ok) s flag

module _ {ℓ κ} {K : Type ℓ} {V : Type κ} ⦃e : PartialEq K⦄ (m : VecMap K V) where
  pub entries_all {μ} :
      (own : V → Bool) (D : V → Type μ) (body : V → Bool → Bool)
      (adds : (v : V) (ok : Bool) → (body v ok ≡ true) ↔ ((ok ≡ true) × D v)) (flag : Bool)
      → (for_entries m (λ _ v ok. if own v then body v ok else ok) flag ≡ true)
        ↔ ((flag ≡ true) × ((k : K) (v : V) → get_cloned m k ≡ some v → own v ≡ true → D v))
  entries_all own D body adds flag =
      for_entries_lem (λ ok. ok ≡ true) (λ _ v. own v ≡ true → D v)
        (λ _ v ok. if own v then body v ok else ok)
        (λ k v ok. elim (Bool-cases (own v)) [
          | inl mine ↦
              rw mine (
                λ h. let r = (adds v ok).0 h in (r.0, λ _. r.1),
                λ h. (adds v ok).1 (h.0, h.1 refl),
              )
          | inr other ↦ rw other (λ h. (h, λ p. absurd (false≢true p)), λ h. h.0)
        ])
        m flag

  pub entries_all_flat :
      (own p : V → Bool) (flag : Bool)
      → (for_entries m (λ _ v ok. if own v && not (p v) then false else ok) flag ≡ true)
        ↔ ((flag ≡ true) × ((k : K) (v : V) → get_cloned m k ≡ some v → own v ≡ true → p v ≡ true))
  entries_all_flat own p flag =
      for_entries_lem (λ ok. ok ≡ true) (λ _ v. own v ≡ true → p v ≡ true)
        (λ _ v ok. if own v && not (p v) then false else ok)
        (λ k v ok. (
          λ h. (ground arith, λ o. ground arith),
          λ h. elim (Bool-cases (own v)) [
            | inl mine ↦ rw (mine, h.1 mine) h.0
            | inr other ↦ rw other h.0
          ],
        ))
        m flag

  -- A scan for an entry that passes a test finds none exactly when no entry does.
  pub entries_none :
      (p : V → Bool) (flag : Bool)
      → (for_entries m (λ _ v found. if p v then true else found) flag ≡ false)
        ↔ ((flag ≡ false) × ((k : K) (v : V) → get_cloned m k ≡ some v → p v ≡ false))
  entries_none p flag =
      for_entries_lem (λ f. f ≡ false) (λ _ v. p v ≡ false) (λ _ v f. if p v then true else f)
        (λ k v f. found (p v) f) m flag
