-- ===== src/Collections/VecMap.antt =====
-- `VecMap` of argus/crates/argus-kernel/src/collections.rs.
pub mod Laws
pub mod Latches
pub mod Loops
pub mod Sets
use einsof.Prelude.{
  ℕ, suc, ◌+◌, Bool, true, false, List, [], ◌∷◌, ◌++◌, Option, none, some, PartialEq, ◌==◌, ◌!=◌,
  if◌then◌else◌, length, get_elem?, set, ltb, leb,
}
use mathlib.Core.Option
use einsof.Collections.VecSet.{VecSet}
use einsof.Collections.VecSet

pub record VecMap {ℓ κ} (K : Type ℓ) (V : Type κ) : Type (ℓ ⊔ κ) where
  pub entries : List (K × V)

module _ {ℓ κ} {K : Type ℓ} {V : Type κ} where
  unfoldable pub new : VecMap K V
  new = record { entries = [] }

  unfoldable pub len : VecMap K V → ℕ
  len m = length m.entries

  unfoldable pub is_empty : VecMap K V → Bool
  is_empty m = leb (length m.entries) 0

module _ {ℓ κ} {K : Type ℓ} {V : Type κ} ⦃e : PartialEq K⦄ where
  unfoldable pub contains_key_from : K → List (K × V) → Bool → Bool
  contains_key_from key [] found = found
  contains_key_from key (x ∷ xs) found =
      contains_key_from key xs (if x.0 == key then true else found)

  unfoldable pub contains_key : VecMap K V → K → Bool
  contains_key m key = contains_key_from key m.entries false

  -- The loop that `get`, `insert`, `get_cloned` and the set methods share: `idx` ends at the last
  -- position of the key, or stays at the length.
  unfoldable pub find_from : K → List (K × V) → ℕ → ℕ → ℕ
  find_from key [] i idx = idx
  find_from key (x ∷ xs) i idx = find_from key xs (i + 1) (if x.0 == key then i else idx)

  unfoldable pub find : VecMap K V → K → ℕ
  find m key = find_from key m.entries 0 (length m.entries)

  unfoldable pub get_cloned : VecMap K V → K → Option V
  get_cloned m key =
      if ltb (find m key) (length m.entries)
      then Option.map (λ x. x.1) (get_elem? m.entries (find m key))
      else none

  unfoldable pub insert : VecMap K V → K → V → VecMap K V
  insert m key value =
      if ltb (find m key) (length m.entries)
      then record { entries = set m.entries (find m key) (key, value) }
      else record { entries = m.entries ++ (key, value) ∷ [] }

  unfoldable pub keep_from : K → List (K × V) → List (K × V) → List (K × V)
  keep_from key [] kept = kept
  keep_from key (x ∷ xs) kept = keep_from key xs (if x.0 != key then kept ++ x ∷ [] else kept)

  unfoldable pub remove : VecMap K V → K → VecMap K V
  remove m key = record { entries = keep_from key m.entries [] }

  -- A loop of a caller over the positions of a map, `let inv = m.key_at(i).clone(); if let Some(j) =
  -- m.get_cloned(&inv) { .. }`, with its state passed along.
  unfoldable pub for_from {ι} : {S : Type ι} → VecMap K V → (K → V → S → S) → List (K × V) → S → S
  for_from m body [] state = state
  for_from m body ((k, _) ∷ xs) state =
      for_from m body xs (elim (get_cloned m k) [ none ↦ state | some v ↦ body k v state ])

  unfoldable pub for_entries {ι} : {S : Type ι} → VecMap K V → (K → V → S → S) → S → S
  for_entries m body state = for_from m body m.entries state

module _ {ℓ κ} {K : Type ℓ} {T : Type κ} ⦃e : PartialEq K⦄ ⦃f : PartialEq T⦄ where
  -- The set at a key, or the empty set.
  unfoldable pub get_set_or_empty : VecMap K (VecSet T) → K → VecSet T
  get_set_or_empty m key = elim (get_cloned m key) [ some set ↦ set | none ↦ VecSet.new ]

  unfoldable pub set_contains : VecMap K (VecSet T) → K → T → Bool
  set_contains m key x = elim (get_cloned m key) [ some set ↦ VecSet.contains set x | none ↦ false ]

  unfoldable pub insert_into : VecMap K (VecSet T) → K → T → VecMap K (VecSet T)
  insert_into m key x =
      if ltb (find m key) (length m.entries)
      then (elim (get_elem? m.entries (find m key)) [
        | some (_, s) ↦ record { entries = set m.entries (find m key) (key, VecSet.insert s x) }
        | none ↦ m
      ])
      else record { entries = m.entries ++ (key, VecSet.insert VecSet.new x) ∷ [] }

  unfoldable pub extend_into : VecMap K (VecSet T) → K → VecSet T → VecMap K (VecSet T)
  extend_into m key other =
      if ltb (find m key) (length m.entries)
      then (elim (get_elem? m.entries (find m key)) [
        | some (_, s) ↦ record {
          entries = set m.entries (find m key) (key, VecSet.union_with s other);
        }
        | none ↦ m
      ])
      else record { entries = m.entries ++ (key, VecSet.union_with VecSet.new other) ∷ [] }

  unfoldable pub remove_from : VecMap K (VecSet T) → K → T → VecMap K (VecSet T)
  remove_from m key x =
      if ltb (find m key) (length m.entries)
      then (elim (get_elem? m.entries (find m key)) [
        | some (k, s) ↦ record { entries = set m.entries (find m key) (k, VecSet.remove s x) }
        | none ↦ m
      ])
      else m
