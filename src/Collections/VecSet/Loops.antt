-- ===== src/Collections/VecSet/Loops.antt =====
-- One rule for every loop of a caller over a set: if each round adds one demand to a property of the
-- loop's state, the loop adds the demands of all members.
use einsof.Prelude.{
  true, List, [], ◌∷◌, PartialEq, ◌≡◌, ◌↔◌, subst, arith, eq-cases, beq_refl, inl, inr,
}
use einsof.Collections.VecSet.{VecSet, for_from, for_items, contains}
use einsof.Collections.VecSet.Laws.{elem, contains-elem}

module _ {ℓ κ ι μ} {T : Type ℓ} ⦃e : PartialEq T⦄ {S : Type κ} (Q : S → Type ι) (P : T → Type μ)
    (body : T → S → S) (adds : (x : T) (t : S) → Q (body x t) ↔ (Q t × P x)) where
  for_from_lem :
      (xs : List T) (t : S) → Q (for_from body xs t) ↔ (Q t × ((x : T) → elem x xs ≡ true → P x))
  unfolding for_from elem
  for_from_lem [] t = (λ q. (q, λ x h. ground arith), λ q. q.0)
  for_from_lem (y ∷ ys) t = (
    λ q.
        let ih = (for_from_lem ys (body y t)).0 q in
        let here = (adds y t).0 ih.0 in
        (
          here.0,
          λ x h. elim (eq-cases y x) [
            | inl (_, p) ↦ subst P p here.1
            | inr (f, _) ↦ ih.1 x (ground arith)
          ],
        ),
    λ q.
        (for_from_lem ys (body y t)).1
          ((adds y t).1 (q.0, q.1 y (ground (arith, beq_refl y))), λ x h. q.1 x (ground arith)),
  )

  pub for_items_lem :
      (s : VecSet T) (t : S)
      → Q (for_items s body t) ↔ (Q t × ((x : T) → contains s x ≡ true → P x))
  unfolding for_items
  for_items_lem s t =
      let both = for_from_lem s.items t in
      (
        λ q. let r = both.0 q in (r.0, λ x h. r.1 x (ground (arith, contains-elem s x))),
        λ q. both.1 (q.0, λ x h. q.1 x (ground (arith, contains-elem s x))),
      )
