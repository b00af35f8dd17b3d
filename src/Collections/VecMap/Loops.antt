-- ===== src/Collections/VecMap/Loops.antt =====
-- Rules for the loops of callers over a map: a loop that collects demands, and a loop that rebuilds
-- the map from the entries that it keeps. Both speak of lookups, not of positions.
use einsof.Prelude.{
  Bool, List, [], ◌∷◌, Option, none, some, PartialEq, if◌then◌else◌, ◌≡◌, ◌↔◌, refl, sym, ◌∙◌,
  subst, arith, eq-cases, beq_refl, inl, inr, Option-cases,
}
use einsof.Collections.VecMap.{VecMap, new, for_from, for_entries, get_cloned, insert}
use einsof.Collections.VecMap.Laws.{lookup, get_cloned-lookup, get-insert, get-new}

lookup_head {ℓ κ} :
    {K : Type ℓ} {V : Type κ} ⦃e : PartialEq K⦄ (x : K × V) (xs : List (K × V))
    → (w : V) × (lookup x.0 (x ∷ xs) ≡ some w)
unfolding lookup
lookup_head x xs = elim (Option-cases (lookup x.0 xs)) [
  | inl miss ↦ (x.1, ground (arith, beq_refl x.0))
  | inr (w, h) ↦ (w, ground arith)
]

module _ {ℓ κ ι μ ν} {K : Type ℓ} {V : Type κ} ⦃e : PartialEq K⦄ {S : Type ι} (Q : S → Type μ)
    (P : K → V → Type ν) (body : K → V → S → S)
    (adds : (k : K) (v : V) (t : S) → Q (body k v t) ↔ (Q t × P k v)) (m : VecMap K V) where
  abbrev Demands : List (K × V) → Type (ℓ ⊔ κ ⊔ ν)
  Demands xs = (k : K) (v w : V) → lookup k xs ≡ some w → get_cloned m k ≡ some v → P k v

  for_from_lem : (xs : List (K × V)) (t : S) → Q (for_from m body xs t) ↔ (Q t × Demands xs)
  unfolding for_from lookup
  for_from_lem [] t = (λ q. (q, λ k v w h g. ground arith), λ q. q.0)
  for_from_lem (x ∷ xs) t = elim (Option-cases (get_cloned m x.0)) [
    | inl miss ↦ (
      λ q.
          let r = (for_from_lem xs t).0 (rw (miss, for_from) at q) in
          (r.0, λ k v w h g. r.1 k v w (ground (arith, eq-cases x.0 k)) g),
      λ q.
          rw (miss, for_from)
            ((for_from_lem xs t).1
              (q.0, λ k v w h g. q.1 k v w (ground (arith, eq-cases x.0 k)) g)),
    )
    | inr (u, hit) ↦ (
      λ q.
          let r = (for_from_lem xs (body x.0 u t)).0 (rw (hit, for_from) at q) in
          let here = (adds x.0 u t).0 r.0 in
          (
            here.0,
            λ k v w h g. elim (eq-cases x.0 k) [
              | inl (_, p) ↦ subst (λ i. P k i) (ground arith) (subst (λ i. P i u) p here.1)
              | inr (f, n) ↦ r.1 k v w (ground (arith, n)) g
            ],
          ),
      λ q.
          rw (hit, for_from)
            ((for_from_lem xs (body x.0 u t)).1 (
              (adds x.0 u t).1 (q.0, let (w, h) = lookup_head x xs in q.1 x.0 u w h hit),
              λ k v w h g. q.1 k v w (ground (arith, h)) g,
            )),
    )
  ]

  pub for_entries_lem :
      (t : S)
      → Q (for_entries m body t) ↔ (Q t × ((k : K) (v : V) → get_cloned m k ≡ some v → P k v))
  unfolding for_entries
  for_entries_lem t =
      let both = for_from_lem m.entries t in
      (
        λ q. let r = both.0 q in (r.0, λ k v g. r.1 k v v (sym (get_cloned-lookup m k) ∙ g) g),
        λ q. both.1 (q.0, λ k v w h g. q.1 k v g),
      )

module _ {ℓ κ ι} {K : Type ℓ} {V : Type κ} {W : Type ι} ⦃e : PartialEq K⦄ (keep : K → V → Bool)
    (change : K → V → W) (m : VecMap K V) where
  abbrev rebuild_body : K → V → VecMap K W → VecMap K W
  rebuild_body k v kept = if keep k v then insert kept k (change k v) else kept

  abbrev kept_at : K → V → Option W → Option W
  kept_at k v rest = if keep k v then some (change k v) else rest

  rebuild_from_lem :
      (xs : List (K × V)) (acc : VecMap K W) (k : K)
      → get_cloned (for_from m rebuild_body xs acc) k ≡ (elim (lookup k xs) [
        | none ↦ get_cloned acc k
        | some _ ↦ elim (get_cloned m k) [
          | none ↦ get_cloned acc k
          | some v ↦ kept_at k v (get_cloned acc k)
        ]
      ])
  unfolding for_from lookup
  rebuild_from_lem [] acc k = refl
  rebuild_from_lem (x ∷ xs) acc k = elim (Option-cases (get_cloned m x.0)) [
    | inl miss ↦ rw (miss, for_from) (ground (arith, rebuild_from_lem xs acc k, eq-cases x.0 k))
    | inr (u, hit) ↦
        rw (hit, for_from)
          (ground (
            arith,
            rebuild_from_lem xs (rebuild_body x.0 u acc) k,
            eq-cases x.0 k,
            get-insert acc x.0 k (change x.0 u),
          ))
  ]

  -- A rebuilt map holds, at each key, what the loop keeps of the entry there.
  pub get-rebuild :
      (k : K)
      → get_cloned (for_entries m rebuild_body new) k
        ≡ (elim (get_cloned m k) [ none ↦ none | some v ↦ kept_at k v none ])
  unfolding for_entries
  get-rebuild k =
      ground (arith, rebuild_from_lem m.entries new k, get_cloned-lookup m k, get-new {V = W} k)
