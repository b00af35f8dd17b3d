-- ===== src/Collections/VecMap/Sets.antt =====
-- Maps of sets: what each operation does to `set_contains`.
use einsof.Prelude.{
  true, false, List, [], ◌∷◌, PartialEq, ◌==◌, if◌then◌else◌, ◌≡◌, inl, inr, arith, eq-cases,
}
use einsof.Collections.VecSet.{VecSet}
use einsof.Collections.VecSet
use einsof.Collections.VecSet.Laws.{
  elem, contains-elem, contains-insert, contains-new, contains-remove,
}
use einsof.Collections.VecMap.{
  VecMap, insert, remove, get_set_or_empty, set_contains, insert_into, extend_into, remove_from,
}
use einsof.Collections.VecMap.Laws.{find-cases, get_cloned-lookup, get-insert, get-remove}

module _ {ℓ κ} {K : Type ℓ} {T : Type κ} ⦃e : PartialEq K⦄ ⦃f : PartialEq T⦄
    (m : VecMap K (VecSet T)) where
  -- `entry(key).or_default().insert(elem)` is a read, an insertion into the set, and a write.
  pub insert_into-insert :
      (k : K) (x : T) → insert_into m k x ≡ insert m k (VecSet.insert (get_set_or_empty m k) x)
  unfolding insert_into insert get_set_or_empty
  insert_into-insert k x = elim (find-cases m k) [
    | inl (miss, r) ↦ ground (arith, miss, r, get_cloned-lookup m k)
    | inr h ↦ ground (arith, h.within, h.at_n, h.last, get_cloned-lookup m k)
  ]

  pub set_contains-get :
      (k : K) (y : T) → VecSet.contains (get_set_or_empty m k) y ≡ set_contains m k y
  unfolding set_contains get_set_or_empty
  set_contains-get k y = ground (arith, contains-new y)

  -- After insert_into, the key's set has the new element besides its old ones, and every other key's
  -- set is as before.
  pub set_contains-insert_into :
      (k j : K) (x y : T)
      → set_contains (insert_into m k x) j y
        ≡ (if k == j then (if x == y then true else set_contains m j y) else set_contains m j y)
  unfolding set_contains
  set_contains-insert_into k j x y = rw (insert_into-insert k x) (
      ground (
        arith,
        get-insert m k j (VecSet.insert (get_set_or_empty m k) x),
        contains-insert (get_set_or_empty m k) x y,
        set_contains-get k y,
        eq-cases k j,
      ))

  pub set_contains-remove :
      (k j : K) (y : T)
      → set_contains (remove m k) j y ≡ (if k == j then false else set_contains m j y)
  unfolding set_contains
  set_contains-remove k j y = ground (arith, get-remove m k j)

  pub extend_into-insert :
      (k : K) (t : VecSet T)
      → extend_into m k t ≡ insert m k (VecSet.union_with (get_set_or_empty m k) t)
  unfolding extend_into insert get_set_or_empty
  extend_into-insert k t = elim (find-cases m k) [
    | inl (miss, r) ↦ ground (arith, miss, r, get_cloned-lookup m k)
    | inr h ↦ ground (arith, h.within, h.at_n, h.last, get_cloned-lookup m k)
  ]

  -- After remove_from, the key's set has lost the element and nothing else, and every other key's
  -- set is as before.
  pub set_contains-remove_from :
      (k j : K) (x y : T)
      → set_contains (remove_from m k x) j y
        ≡ (if k == j then (if x == y then false else set_contains m j y) else set_contains m j y)
  unfolding set_contains remove_from
  set_contains-remove_from k j x y = elim (find-cases m k) [
    | inl (miss, r) ↦ ground (arith, miss, r, get_cloned-lookup m k, eq-cases k j)
    | inr h ↦
        rw (h.at_n, remove_from)
          (ground (
            arith,
            h.within,
            h.key,
            h.last,
            h.write j (VecSet.remove h.entry.1 x),
            get_cloned-lookup m k,
            get_cloned-lookup m j,
            get_cloned-lookup (remove_from m k x) j,
            contains-remove h.entry.1 x y,
            eq-cases k j,
          ))
  ]

module _ {ℓ κ} {K : Type ℓ} {T : Type κ} ⦃e : PartialEq K⦄ ⦃f : PartialEq T⦄ (k j : K) (y : T) where
  gather_from-elem :
      (xs : List T) (m : VecMap K (VecSet T))
      → set_contains (VecSet.for_from (λ x t. insert_into t k x) xs m) j y
        ≡ (if k == j then (if elem y xs then true else set_contains m j y) else set_contains m j y)
  unfolding VecSet.for_from elem
  gather_from-elem [] m = ground arith
  gather_from-elem (x ∷ xs) m =
      ground (arith, gather_from-elem xs (insert_into m k x), set_contains-insert_into m k j x y)

  -- A loop that adds each member of a set to the entry of one key.
  pub set_contains-gather :
      (xs : VecSet T) (m : VecMap K (VecSet T))
      → set_contains (VecSet.for_items xs (λ x t. insert_into t k x) m) j y ≡ (
          if k == j
          then (if VecSet.contains xs y then true else set_contains m j y)
          else set_contains m j y)
  unfolding VecSet.for_items
  set_contains-gather xs m = rw (contains-elem xs y) (gather_from-elem xs.items m)
