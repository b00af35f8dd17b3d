-- ===== src/Nif/Chain/Cancel/Plain.antt =====
-- Plain values, read back.
use Prim.Native.Nat.{◌/◌}
use native.Mathlib.Nat.{pow-suc}
use einsof.Prelude.{
  ℕ, zero, suc, ◌%◌, ◌<◌, ◌≤◌, ◌^◌, String, List, [], ◌∷◌, ◌++◌, Option, none, some, ◌≡◌, refl, ap,
  arith, length,
}
use einsof.Nif.Chain.Transcript.{
  to_be_bytes, u8, u32, u64, string, bool, tagged, option, each, list, insert_by, sort_by,
  dedup_after, dedup_by_key, normalized, canonical_set,
}
use einsof.Nif.Text.{bytes, len, bytes_injective}

-- Equal bytes come from values with equal views, and leave equal remainders.
abbrev pub Cancels : {A B : Type 0} → (A → List ℕ → List ℕ) → (A → Type 0) → (A → B) → Type 0
Cancels {A} w Fits view =
    (a b : A) → Fits a → Fits b → (r s : List ℕ) → w a r ≡ w b s → (view a ≡ view b) × (r ≡ s)

abbrev pub IsU32 : ℕ → Type 0
IsU32 n = n < 4294967296

abbrev pub IsU64 : ℕ → Type 0
IsU64 n = n < 18446744073709551616

abbrev pub IsShort : String → Type 0
IsShort s = IsU32 (len s)

div_lt : (k a : ℕ) → a < 256 ^ suc k → a / 256 < 256 ^ k
div_lt k a h = omega (arith, pow-suc 256 k)

to_be_bytes-cancel :
    (k a b : ℕ) (r s : List ℕ)
    → a < 256 ^ k
    → b < 256 ^ k
    → to_be_bytes k a r ≡ to_be_bytes k b s
    → (a ≡ b) × (r ≡ s)
unfolding to_be_bytes
to_be_bytes-cancel zero a b r s ha hb e = (omega arith, e)
to_be_bytes-cancel (suc k) a b r s ha hb e =
    let ih =
      to_be_bytes-cancel k (a / 256) (b / 256) ((a % 256) ∷ r) ((b % 256) ∷ s) (div_lt k a ha)
        (div_lt k b hb) e in
    let head : a % 256 ≡ b % 256 = cc (ih.1) in (omega (arith, ih.0), cc (ih.1))

pub u32-cancel : Cancels u32 IsU32 (λ n. n)
unfolding u32
u32-cancel a b ga gb r s e = to_be_bytes-cancel 4 a b r s ga gb e

pub u64-cancel : Cancels u64 IsU64 (λ n. n)
unfolding u64
u64-cancel a b ga gb r s e = to_be_bytes-cancel 8 a b r s ga gb e

pub append-cancel {ℓ} :
    {A : Type ℓ} (xs ys r s : List A)
    → length xs ≡ length ys
    → xs ++ r ≡ ys ++ s
    → (xs ≡ ys) × (r ≡ s)
append-cancel [] [] r s l e = (refl, e)
append-cancel [] (y ∷ ys) r s l e = absurd (omega (arith, l))
append-cancel (x ∷ xs) [] r s l e = absurd (omega (arith, l))
append-cancel (x ∷ xs) (y ∷ ys) r s l e =
    let ih = append-cancel xs ys r s (omega (arith, l)) (cc e) in (cc (ih.0, e), ih.1)

pub string-cancel : Cancels string IsShort (λ v. v)
unfolding string len
string-cancel a b ga gb r s e =
    let head =
      u32-cancel (len a % 4294967296) (len b % 4294967296) (omega arith) (omega arith) _ _ e in
    let tail = append-cancel (bytes a) (bytes b) r s (omega (arith, head.0)) head.1 in
    (bytes_injective a b tail.0, tail.1)

pub bool-cancel : Cancels bool (λ _. Unit {0}) (λ v. v)
unfolding bool u8
bool-cancel a b ga gb r s e = ground arith

module _ {A : Type 0} where
  pub tagged-cancel :
      (canonical_tag : A → ℕ)
      → ((a b : A) → canonical_tag a ≡ canonical_tag b → a ≡ b)
      → Cancels (tagged canonical_tag) (λ _. Unit {0}) (λ v. v)
  unfolding tagged u8
  tagged-cancel canonical_tag inj a b ga gb r s e = (inj a b (cc e), cc e)

  abbrev pub FitsOption : (A → Type 0) → Option A → Type 0
  FitsOption Fits none = Unit {0}
  FitsOption Fits (some v) = Fits v

  pub option-cancel :
      (w : A → List ℕ → List ℕ) (Fits : A → Type 0)
      → Cancels w Fits (λ v. v)
      → Cancels (option w) (FitsOption Fits) (λ v. v)
  unfolding option u8
  option-cancel w Fits c none none ga gb r s e = (refl, cc e)
  option-cancel w Fits c none (some b) ga gb r s e = ground arith
  option-cancel w Fits c (some a) none ga gb r s e = ground arith
  option-cancel w Fits c (some a) (some b) ga gb r s e =
      let both = c a b ga gb r s (cc e) in (ap some both.0, both.1)

  each-cancel :
      (w : A → List ℕ → List ℕ)
      → Cancels w (λ _. Unit {0}) (λ v. v)
      → (xs ys : List A) (r s : List ℕ) → length xs ≡ length ys
      → each w xs r ≡ each w ys s
      → (xs ≡ ys) × (r ≡ s)
  unfolding each
  each-cancel w c [] [] r s l e = (refl, e)
  each-cancel w c [] (y ∷ ys) r s l e = absurd (omega (arith, l))
  each-cancel w c (x ∷ xs) [] r s l e = absurd (omega (arith, l))
  each-cancel w c (x ∷ xs) (y ∷ ys) r s l e =
      let head = c x y tt tt (each w xs r) (each w ys s) e in
      let tail = each-cancel w c xs ys r s (omega (arith, l)) head.1 in
      (cc (head.0, tail.0), tail.1)

  length-insert_by :
      (key : A → ℕ) (x : A) (ys : List A) → length (insert_by key x ys) ≡ suc (length ys)
  unfolding insert_by
  length-insert_by key x [] = refl
  length-insert_by key x (y ∷ ys) = ground (arith, length-insert_by key x ys)

  length-sort_by : (key : A → ℕ) (xs : List A) → length (sort_by key xs) ≡ length xs
  unfolding sort_by
  length-sort_by key [] = refl
  length-sort_by key (x ∷ xs) =
      omega (arith, length-insert_by key x (sort_by key xs), length-sort_by key xs)

  dedup_after-le : (key : A → ℕ) (k : ℕ) (xs : List A) → length (dedup_after key k xs) ≤ length xs
  unfolding dedup_after
  dedup_after-le key k [] = omega arith
  dedup_after-le key k (x ∷ xs) = ground (arith, dedup_after-le key (key x) xs)

  dedup_by_key-le : (key : A → ℕ) (xs : List A) → length (dedup_by_key key xs) ≤ length xs
  unfolding dedup_by_key
  dedup_by_key-le key [] = omega arith
  dedup_by_key-le key (x ∷ xs) = omega (arith, dedup_after-le key (key x) xs)

  normalized-le : (key : A → ℕ) (xs : List A) → length (normalized key xs) ≤ length xs
  unfolding normalized
  normalized-le key xs = omega (arith, dedup_by_key-le key (sort_by key xs), length-sort_by key xs)

  pub canonical_set-cancel :
      (canonical_tag : A → ℕ)
      → ((a b : A) → canonical_tag a ≡ canonical_tag b → a ≡ b)
      → Cancels (canonical_set canonical_tag) (λ xs. IsU32 (length xs)) (normalized canonical_tag)
  unfolding canonical_set list
  canonical_set-cancel canonical_tag inj a b ga gb r s e =
      let na = normalized canonical_tag a in
      let nb = normalized canonical_tag b in
      let la = normalized-le canonical_tag a in
      let lb = normalized-le canonical_tag b in
      let head =
        u32-cancel (length na % 4294967296) (length nb % 4294967296) (omega arith) (omega arith) _ _
          e in
      each-cancel (tagged canonical_tag) (tagged-cancel canonical_tag inj) na nb r s
        (omega (arith, head.0)) head.1
