-- ===== src/Nif/Chain/Sets.antt =====
-- The normal form of a set's list: sorted by tag, each member once.
use einsof.Prelude.{
  ℕ, ◌≤◌, ◌<◌, true, false, List, [], ◌∷◌, PartialEq, ◌==◌, ◌≡◌, ◌↔◌, inl, inr, refl, sym, ◌∙◌, ap,
  arith, if◌then◌else◌, Bool-cases, eq-cases, beq_refl, leb, ltb, eqb,
}
use einsof.Collections.VecSet.Laws.{elem}
use einsof.Nif.Chain.Transcript.{insert_by, sort_by, dedup_after, dedup_by_key, normalized}

module _ {A : Type 0} ⦃e : PartialEq A⦄ (key : A → ℕ) where
  -- All keys at least `k`, in ascending order; all above `k`, in strictly ascending order.
  abbrev Ascends : ℕ → List A → Type 0
  Ascends k [] = Unit {0}
  Ascends k (x ∷ xs) = (k ≤ key x) × Ascends (key x) xs

  abbrev Above : ℕ → List A → Type 0
  Above k [] = Unit {0}
  Above k (x ∷ xs) = (k < key x) × Above (key x) xs

  abbrev Rises : List A → Type 0
  Rises [] = Unit {0}
  Rises (x ∷ xs) = Above (key x) xs

  Above-Rises : (k : ℕ) (xs : List A) → Above k xs → Rises xs
  Above-Rises k [] a = tt
  Above-Rises k (x ∷ xs) a = a.1

  elem-insert_by :
      (z x : A) (ys : List A) → elem z (insert_by key x ys) ≡ (if x == z then true else elem z ys)
  unfolding elem insert_by
  elem-insert_by z x [] = refl
  elem-insert_by z x (y ∷ ys) = ground (arith, elem-insert_by z x ys)

  elem-sort_by : (z : A) (xs : List A) → elem z (sort_by key xs) ≡ elem z xs
  unfolding elem sort_by
  elem-sort_by z [] = refl
  elem-sort_by z (x ∷ xs) = ground (arith, elem-insert_by z x (sort_by key xs), elem-sort_by z xs)

  insert_by-Ascends :
      (k : ℕ) (x : A) (ys : List A) → k ≤ key x → Ascends k ys → Ascends k (insert_by key x ys)
  unfolding insert_by
  insert_by-Ascends k x [] h a = (h, tt)
  insert_by-Ascends k x (y ∷ ys) h a = elim (Bool-cases (leb (key x) (key y))) [
    | inl p ↦ rw p (h, (ground arith, a.1))
    | inr q ↦ rw q (a.0, insert_by-Ascends (key y) x ys (ground arith) a.1)
  ]

  sort_by-Ascends : (xs : List A) → Ascends 0 (sort_by key xs)
  unfolding sort_by
  sort_by-Ascends [] = tt
  sort_by-Ascends (x ∷ xs) =
      insert_by-Ascends 0 x (sort_by key xs) (omega arith) (sort_by-Ascends xs)

  dedup_after-Above : (k : ℕ) (xs : List A) → Ascends k xs → Above k (dedup_after key k xs)
  unfolding dedup_after
  dedup_after-Above k [] a = tt
  dedup_after-Above k (x ∷ xs) a = elim (Bool-cases (eqb (key x) k)) [
    | inl p ↦
        let same : key x ≡ k = ground arith in rw p (rw (← same) (dedup_after-Above (key x) xs a.1))
    | inr q ↦ rw q (ground arith, dedup_after-Above (key x) xs a.1)
  ]

  dedup_by_key-Rises : (xs : List A) → Ascends 0 xs → Rises (dedup_by_key key xs)
  unfolding dedup_by_key
  dedup_by_key-Rises [] a = tt
  dedup_by_key-Rises (x ∷ xs) a = dedup_after-Above (key x) xs a.1

  Above-elem : (k : ℕ) (z : A) (xs : List A) → Above k xs → key z ≤ k → elem z xs ≡ false
  unfolding elem
  Above-elem k z [] a h = refl
  Above-elem k z (x ∷ xs) a h =
      let tail = Above-elem (key x) z xs a.1 (omega (arith, a.0)) in
      elim (eq-cases x z) [
        | inl (_, p) ↦ absurd (omega (arith, a.0, ap key p))
        | inr (q, _) ↦ rw q tail
      ]

  module _ (inj : (a b : A) → key a ≡ key b → a ≡ b) where
    elem-dedup_after :
        (z x : A) (ys : List A) → elem z (x ∷ dedup_after key (key x) ys) ≡ elem z (x ∷ ys)
    unfolding elem dedup_after
    elem-dedup_after z x [] = refl
    elem-dedup_after z x (y ∷ ys) = elim (Bool-cases (eqb (key y) (key x))) [
      | inl p ↦
          let same = inj y x (ground arith) in rw p (ground (arith, elem-dedup_after z y ys, same))
      | inr q ↦ rw q (ground (arith, elem-dedup_after z y ys))
    ]

    elem-normalized : (z : A) (xs : List A) → elem z (normalized key xs) ≡ elem z xs
    unfolding normalized dedup_by_key
    elem-normalized z xs = deduped (sort_by key xs) ∙ elem-sort_by z xs
      where
        deduped : (ys : List A) → elem z (dedup_by_key key ys) ≡ elem z ys
        deduped [] = refl
        deduped (y ∷ ys) = elem-dedup_after z y ys

    head_le : (x y : A) (ys : List A) → Rises (y ∷ ys) → elem x (y ∷ ys) ≡ true → key y ≤ key x
    head_le x y ys b h = elim (Bool-cases (ltb (key x) (key y))) [
      | inl p ↦
          let out = Above-elem (key x) x (y ∷ ys) (ground arith, b) (omega arith) in
          absurd (ground (arith, out))
      | inr q ↦ ground arith
    ]

    same_tail :
        (x y z : A) (xs ys : List A)
        → x ≡ y
        → Rises (x ∷ xs)
        → Rises (y ∷ ys)
        → elem z (x ∷ xs) ≡ elem z (y ∷ ys)
        → elem z xs ≡ elem z ys
    unfolding elem
    same_tail x y z xs ys p a b h = elim (eq-cases x z) [
      | inl (_, q) ↦
          Above-elem (key x) z xs a (omega (arith, ap key q))
          ∙ sym (Above-elem (key y) z ys b (omega (arith, ap key q, ap key p)))
      | inr (q, _) ↦ ground (arith, q, p)
    ]

    Rises-unique :
        (xs ys : List A) → Rises xs → Rises ys → ((z : A) → elem z xs ≡ elem z ys) → xs ≡ ys
    unfolding elem
    Rises-unique [] [] a b h = refl
    Rises-unique [] (y ∷ ys) a b h = ground (arith, h y, beq_refl y)
    Rises-unique (x ∷ xs) [] a b h = ground (arith, h x, beq_refl x)
    Rises-unique (x ∷ xs) (y ∷ ys) a b h =
        let le = head_le y x xs a (ground (arith, h y, beq_refl y)) in
        let ge = head_le x y ys b (ground (arith, h x, beq_refl x)) in
        let same = inj x y (omega arith) in
        let rest =
          Rises-unique xs ys (Above-Rises (key x) xs a) (Above-Rises (key y) ys b)
            (λ z. same_tail x y z xs ys same a b (h z)) in
        cc (same, rest)

    -- For tags that tell members apart, two lists have one normal form (sorted by tag, each member
    -- once) exactly when they have the same members.
    pub normalized_iff :
        (xs ys : List A)
        → (normalized key xs ≡ normalized key ys) ↔ ((z : A) → elem z xs ≡ elem z ys)
    unfolding normalized
    normalized_iff xs ys = (
      λ p z. sym (elem-normalized z xs) ∙ ap (elem z) p ∙ elem-normalized z ys,
      λ h.
          Rises-unique (normalized key xs) (normalized key ys)
            (dedup_by_key-Rises (sort_by key xs) (sort_by-Ascends xs))
            (dedup_by_key-Rises (sort_by key ys) (sort_by-Ascends ys))
            (λ z. elem-normalized z xs ∙ h z ∙ sym (elem-normalized z ys)),
    )
