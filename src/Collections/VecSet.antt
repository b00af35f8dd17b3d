-- ===== src/Collections/VecSet.antt =====
-- `VecSet` of argus/crates/argus-kernel/src/collections.rs.
pub mod Laws
pub mod Loops
use einsof.Prelude.{
  ℕ, Bool, true, false, not, List, [], ◌∷◌, ◌++◌, PartialEq, ◌==◌, ◌!=◌, if◌then◌else◌, length, leb,
  ltb,
}

pub record VecSet {ℓ} (T : Type ℓ) : Type ℓ where
  pub items : List T

unfoldable pub new {ℓ} : {T : Type ℓ} → VecSet T
new = record { items = [] }

unfoldable pub len {ℓ} : {T : Type ℓ} → VecSet T → ℕ
len s = length s.items

unfoldable pub is_empty {ℓ} : {T : Type ℓ} → VecSet T → Bool
is_empty s = leb (length s.items) 0

-- A loop of a caller over the positions of a set, with its state passed along.
unfoldable pub for_from {ℓ κ} : {T : Type ℓ} {S : Type κ} → (T → S → S) → List T → S → S
for_from body [] state = state
for_from body (x ∷ xs) state = for_from body xs (body x state)

unfoldable pub for_items {ℓ κ} : {T : Type ℓ} {S : Type κ} → VecSet T → (T → S → S) → S → S
unfolding for_from
for_items s body state = for_from body s.items state

module _ {ℓ} {T : Type ℓ} ⦃e : PartialEq T⦄ where
  unfoldable pub contains_from : T → List T → Bool → Bool
  contains_from x [] found = found
  contains_from x (y ∷ ys) found = contains_from x ys (if y == x then true else found)

  unfoldable pub contains : VecSet T → T → Bool
  unfolding contains_from
  contains s x = contains_from x s.items false

  unfoldable pub insert : VecSet T → T → VecSet T
  insert s x = if not (contains s x) then record { items = s.items ++ x ∷ [] } else s

  unfoldable pub remove_from : T → List T → List T → List T
  remove_from x [] kept = kept
  remove_from x (y ∷ ys) kept = remove_from x ys (if y != x then kept ++ y ∷ [] else kept)

  unfoldable pub remove : VecSet T → T → VecSet T
  unfolding remove_from
  remove s x = record { items = remove_from x s.items [] }

  unfoldable pub union_from : List T → VecSet T → VecSet T
  union_from [] s = s
  union_from (x ∷ xs) s = union_from xs (insert s x)

  unfoldable pub union_with : VecSet T → VecSet T → VecSet T
  unfolding union_from
  union_with s other = union_from other.items s

  -- `collect()` into a set.
  unfoldable pub from_iter : List T → VecSet T
  unfolding union_from
  from_iter xs = union_from xs new
