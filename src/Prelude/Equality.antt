-- ===== src/Prelude/Equality.antt =====
-- Decidable equality as an interface (`PartialEq`), and its case split.
use Prim.Native.String.{String}
use mathlib.Core.Bool.{Bool, true, false, not}
use mathlib.Core.Logic.{◌↔◌, ◌⊎◌, ◌≢◌, inl, inr}
use mathlib.Core.Path.{◌≡◌, refl}
use native.Mathlib.Omega.{arith}
use text.Mathlib.Text.{◌==◌ as str_eq}
use text.Mathlib.TextEquality.{eq_iff}
use einsof.Prelude.Tests.{Bool-cases}

pub record PartialEq {ℓ} (A : Type ℓ) : Type ℓ where
  pub eq : A → A → Bool
  pub lawful : (a b : A) → (eq a b ≡ true) ↔ (a ≡ b)

abbrev pub dec_beq {ℓ} : {A : Type ℓ} → Discrete A → A → A → Bool
dec_beq d a b = elim (d a b) [ yes _ ↦ true | no _ ↦ false ]

pub dec_beq_iff {ℓ} : {A : Type ℓ} (d : Discrete A) (a b : A) → (dec_beq d a b ≡ true) ↔ (a ≡ b)
dec_beq_iff d a b = (λ h. ground arith, λ h. ground arith)

infix 50 ◌==◌ ◌!=◌
abbrev pub ◌==◌ {ℓ} : {A : Type ℓ} ⦃e : PartialEq A⦄ → A → A → Bool
◌==◌ ⦃e⦄ = e.eq

abbrev pub ◌!=◌ {ℓ} : {A : Type ℓ} ⦃e : PartialEq A⦄ → A → A → Bool
a != b = not (a == b)

-- A derived equality of an enumeration.
abbrev pub of_discrete {ℓ} : {A : Type ℓ} → Discrete A → PartialEq A
of_discrete d = record { eq = dec_beq d; lawful = dec_beq_iff d }

-- `String`'s own equality.
instance abbrev pub string_eq : PartialEq String
string_eq = record { eq = str_eq; lawful = eq_iff }

module _ {ℓ} {A : Type ℓ} ⦃e : PartialEq A⦄ where
  pub beq_refl : (a : A) → (a == a) ≡ true
  beq_refl a = (e.lawful a a).1 refl

  pub eq_of_beq : {a b : A} → (a == b) ≡ true → a ≡ b
  eq_of_beq {a} {b} h = (e.lawful a b).0 h

  pub beq_of_eq : {a b : A} → a ≡ b → (a == b) ≡ true
  beq_of_eq {a} {b} h = (e.lawful a b).1 h

  pub ne_of_beq : {a b : A} → (a == b) ≡ false → a ≢ b
  ne_of_beq {a} {b} h p = ground (arith, beq_of_eq p)

  pub beq_of_ne : {a b : A} → a ≢ b → (a == b) ≡ false
  beq_of_ne {a} {b} h = elim (Bool-cases (a == b)) [ inl p ↦ absurd (h (eq_of_beq p)) | inr q ↦ q ]

  -- To split on a test with both readings of it at hand.
  pub eq-cases : (a b : A) → (((a == b) ≡ true) × (a ≡ b)) ⊎ (((a == b) ≡ false) × (a ≢ b))
  eq-cases a b = elim (Bool-cases (a == b)) [
    | inl p ↦ inl (p, eq_of_beq p)
    | inr q ↦ inr (q, ne_of_beq q)
  ]
