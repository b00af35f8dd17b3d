-- ===== src/Collections/VecMap/Laws.antt =====
-- Lookups across the operations of the vector map.
use einsof.Prelude.{
  ℕ, suc, ◌+◌, ◌<◌, Bool, true, false, List, [], ◌∷◌, ◌++◌, Option, none, some, PartialEq, ◌==◌,
  ◌!=◌, if◌then◌else◌, length, get_elem?, set, ◌≡◌, ◌⊎◌, inl, inr, refl, arith, eq-cases,
}
use einsof.Collections.VecMap.{
  VecMap, new, contains_key_from, contains_key, find_from, find, get_cloned, insert, keep_from,
  remove,
}

module _ {ℓ κ} {K : Type ℓ} {V : Type κ} ⦃e : PartialEq K⦄ where
  -- The value at the last entry of a key.
  unfoldable pub lookup : K → List (K × V) → Option V
  lookup k [] = none
  lookup k (x ∷ xs) = elim (lookup k xs) [
    | some v ↦ some v
    | none ↦ if x.0 == k then some x.1 else none
  ]

  -- What the loop returns: nothing was found, or the position of the last entry of the key, at which
  -- a write changes that key alone.
  pub record Hit (k : K) (xs : List (K × V)) (n : ℕ) : Type (ℓ ⊔ κ) where
    pub entry : K × V
    pub within : n < length xs
    pub at_n : get_elem? xs n ≡ some entry
    pub key : entry.0 ≡ k
    pub last : lookup k xs ≡ some entry.1
    pub write :
        (j : K) (v : V) → lookup j (set xs n (k, v)) ≡ (if k == j then some v else lookup j xs)

  abbrev Found : K → List (K × V) → ℕ → ℕ → ℕ → Type (ℓ ⊔ κ)
  Found k xs i idx r = ((lookup k xs ≡ none) × (r ≡ idx)) ⊎ ((n : ℕ) × (r ≡ i + n) × Hit k xs n)

  Hit-here :
      (k : K) (x : K × V) (xs : List (K × V)) → lookup k xs ≡ none → (x.0 ≡ k) → Hit k (x ∷ xs) 0
  unfolding lookup
  Hit-here k x xs h p = record {
    entry = x;
    within = omega arith;
    at_n = refl;
    key = p;
    last = ground (arith, eq-cases x.0 k);
    write = λ j v. ground (arith, eq-cases x.0 j, eq-cases k j, eq-cases x.0 k);
  }

  Hit-later : (k : K) (x : K × V) (xs : List (K × V)) (n : ℕ) → Hit k xs n → Hit k (x ∷ xs) (suc n)
  unfolding lookup
  Hit-later k x xs n h = record {
    entry = h.entry;
    within = omega (arith, h.within);
    at_n = h.at_n;
    key = h.key;
    last = ground (arith, h.last);
    write = λ j v. ground (arith, h.write j v, eq-cases k j, h.last);
  }

  find_from-Found :
      (k : K) (xs : List (K × V)) (i idx : ℕ) → Found k xs i idx (find_from k xs i idx)
  unfolding find_from lookup
  find_from-Found k [] i idx = inl (refl, refl)
  find_from-Found k (x ∷ xs) i idx =
      elim (find_from-Found k xs (i + 1) (if x.0 == k then i else idx)) [
        | inl (miss, r) ↦ elim (eq-cases x.0 k) [
          | inl (t, p) ↦ inr (0, ground arith, Hit-here k x xs miss p)
          | inr (f, n) ↦ inl (ground arith, ground arith)
        ]
        | inr (n, r, h) ↦ inr (suc n, omega (arith, r), Hit-later k x xs n h)
      ]

  -- Nothing is found, or the last entry.
  pub find-cases :
      (m : VecMap K V) (k : K)
      → ((lookup k m.entries ≡ none) × (find m k ≡ length m.entries)) ⊎ Hit k m.entries (find m k)
  unfolding find
  find-cases m k = elim (find_from-Found k m.entries 0 (length m.entries)) [
    | inl p ↦ inl p
    | inr (n, r, h) ↦
        let p : find_from k m.entries 0 (length m.entries) ≡ n = omega (arith, r) in inr (rw p h)
  ]

  -- `get` and `get_cloned` read the last entry of a key.
  pub get_cloned-lookup : (m : VecMap K V) (k : K) → get_cloned m k ≡ lookup k m.entries
  unfolding get_cloned
  get_cloned-lookup m k = elim (find-cases m k) [
    | inl (miss, r) ↦ ground (arith, miss, r)
    | inr h ↦ ground (arith, h.within, h.at_n, h.last)
  ]

  lookup-append :
      (j : K) (xs ys : List (K × V))
      → lookup j (xs ++ ys) ≡ (elim (lookup j ys) [ some v ↦ some v | none ↦ lookup j xs ])
  unfolding lookup
  lookup-append j [] ys = ground arith
  lookup-append j (x ∷ xs) ys = ground (arith, lookup-append j xs ys)

  pub lookup-insert :
      (m : VecMap K V) (k j : K) (v : V)
      → lookup j (insert m k v).entries ≡ (if k == j then some v else lookup j m.entries)
  unfolding insert lookup
  lookup-insert m k j v = elim (find-cases m k) [
    | inl (miss, r) ↦ ground (arith, miss, r, lookup-append j m.entries ((k, v) ∷ []), eq-cases k j)
    | inr h ↦ ground (arith, h.within, h.write j v)
  ]

  -- After an insertion, the inserted key reads the inserted value and every other key reads as
  -- before.
  pub get-insert :
      (m : VecMap K V) (k j : K) (v : V)
      → get_cloned (insert m k v) j ≡ (if k == j then some v else get_cloned m j)
  get-insert m k j v =
      ground
        (arith, get_cloned-lookup (insert m k v) j, get_cloned-lookup m j, lookup-insert m k j v)

  keep_from-lookup :
      (k j : K) (xs kept : List (K × V))
      → lookup j (keep_from k xs kept) ≡ (
          if k == j
          then lookup j kept
          else elim (lookup j xs) [ some v ↦ some v | none ↦ lookup j kept ])
  unfolding keep_from lookup
  keep_from-lookup k j [] kept = ground arith
  keep_from-lookup k j (x ∷ xs) kept = ground (
    arith,
    keep_from-lookup k j xs (if x.0 != k then kept ++ x ∷ [] else kept),
    lookup-append j kept (x ∷ []),
    eq-cases x.0 k,
    eq-cases x.0 j,
    eq-cases k j,
  )

  -- After a removal, the removed key reads nothing and every other key reads as before.
  pub get-remove :
      (m : VecMap K V) (k j : K)
      → get_cloned (remove m k) j ≡ (if k == j then none else get_cloned m j)
  unfolding remove lookup
  get-remove m k j = ground (
    arith,
    get_cloned-lookup (remove m k) j,
    get_cloned-lookup m j,
    keep_from-lookup k j m.entries [],
  )

  contains_key_from-lookup :
      (k : K) (xs : List (K × V)) (found : Bool)
      → contains_key_from k xs found
        ≡ (if found then true else elim (lookup k xs) [ some v ↦ true | none ↦ false ])
  unfolding contains_key_from lookup
  contains_key_from-lookup k [] found = ground arith
  contains_key_from-lookup k (x ∷ xs) found =
      ground (arith, contains_key_from-lookup k xs (if x.0 == k then true else found))

  pub contains_key-get :
      (m : VecMap K V) (k : K)
      → contains_key m k ≡ (elim (get_cloned m k) [ some v ↦ true | none ↦ false ])
  unfolding contains_key
  contains_key-get m k =
      ground (arith, get_cloned-lookup m k, contains_key_from-lookup k m.entries false)

  pub get-new : (k : K) → get_cloned (new {K = K} {V = V}) k ≡ none
  unfolding get_cloned find find_from new
  get-new k = refl
