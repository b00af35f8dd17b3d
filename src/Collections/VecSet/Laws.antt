-- ===== src/Collections/VecSet/Laws.antt =====
-- Membership and uniqueness across the operations of the vector set.
use einsof.Prelude.{
  Bool, true, false, List, [], ◌∷◌, ◌++◌, PartialEq, ◌==◌, ◌!=◌, if◌then◌else◌, ◌≡◌, refl, ◌∙◌, inl,
  inr, arith, eq-cases, Bool-cases,
}
use einsof.Collections.VecSet.{
  VecSet, new, contains_from, contains, insert, remove_from, remove, union_from, union_with,
}

module _ {ℓ} {T : Type ℓ} ⦃e : PartialEq T⦄ where
  -- Membership read off the list.
  unfoldable pub elem : T → List T → Bool
  elem x [] = false
  elem x (y ∷ ys) = if y == x then true else elem x ys

  contains_from-elem :
      (x : T) (ys : List T) (found : Bool)
      → contains_from x ys found ≡ (if found then true else elem x ys)
  unfolding contains_from elem
  contains_from-elem x [] found = ground arith
  contains_from-elem x (y ∷ ys) found =
      contains_from-elem x ys (if y == x then true else found) ∙ ground arith

  pub contains-elem : (s : VecSet T) (x : T) → contains s x ≡ elem x s.items
  unfolding contains
  contains-elem s x = contains_from-elem x s.items false

  pub elem-append :
      (x : T) (ys zs : List T) → elem x (ys ++ zs) ≡ (if elem x ys then true else elem x zs)
  unfolding elem
  elem-append x [] zs = refl
  elem-append x (y ∷ ys) zs = ground (arith, elem-append x ys zs)

  pub contains-new : (x : T) → contains new x ≡ false
  unfolding contains contains_from new
  contains-new x = refl

  insert-elem :
      (s : VecSet T) (x y : T)
      → elem y (insert s x).items ≡ (if x == y then true else elem y s.items)
  unfolding insert elem
  insert-elem s x y = elim (Bool-cases (contains s x)) [
    | inl old ↦ rw (old, insert) (ground (arith, eq-cases x y, contains-elem s x))
    | inr new ↦ rw (new, insert) (ground (arith, eq-cases x y, elem-append y s.items (x ∷ [])))
  ]

  pub contains-insert :
      (s : VecSet T) (x y : T) → contains (insert s x) y ≡ (if x == y then true else contains s y)
  contains-insert s x y =
      ground (arith, contains-elem (insert s x) y, contains-elem s y, insert-elem s x y)

  remove_from-elem :
      (x y : T) (zs kept : List T)
      → elem y (remove_from x zs kept)
        ≡ (if elem y kept then true else if x == y then false else elem y zs)
  unfolding remove_from elem
  remove_from-elem x y [] kept = ground arith
  remove_from-elem x y (z ∷ zs) kept = ground (
    arith,
    remove_from-elem x y zs (if z != x then kept ++ z ∷ [] else kept),
    elem-append y kept (z ∷ []),
    eq-cases z x,
    eq-cases z y,
    eq-cases x y,
  )

  pub contains-remove :
      (s : VecSet T) (x y : T) → contains (remove s x) y ≡ (if x == y then false else contains s y)
  unfolding remove elem
  contains-remove s x y =
      ground
        (arith, contains-elem (remove s x) y, remove_from-elem x y s.items [], contains-elem s y)

  union_from-elem :
      (xs : List T) (s : VecSet T) (y : T)
      → contains (union_from xs s) y ≡ (if elem y xs then true else contains s y)
  unfolding union_from elem
  union_from-elem [] s y = refl
  union_from-elem (x ∷ xs) s y =
      ground (arith, union_from-elem xs (insert s x) y, contains-insert s x y, eq-cases x y)

  -- A union has exactly the members of the two sets.
  pub contains-union_with :
      (s t : VecSet T) (y : T)
      → contains (union_with s t) y ≡ (if contains t y then true else contains s y)
  unfolding union_with
  contains-union_with s t y = ground (arith, union_from-elem t.items s y, contains-elem t y)
