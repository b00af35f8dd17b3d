-- ===== src/Orders.antt =====
-- The derived orders of the two label types of types.rs.
use einsof.Prelude.{Bool, true, ◌≡◌, ◌⊎◌, arith}
use einsof.Types.{conf_rank, conf_le, integ_rank, integ_le}

-- A Boolean test that decides a total order.
pub record TotalOrder {ℓ} {A : Type ℓ} (le : A → A → Bool) : Type ℓ where
  pub reflexive : (a : A) → le a a ≡ true
  pub transitive : (a b c : A) → le a b ≡ true → le b c ≡ true → le a c ≡ true
  pub antisymmetric : (a b : A) → le a b ≡ true → le b a ≡ true → a ≡ b
  pub total : (a b : A) → (le a b ≡ true) ⊎ (le b a ≡ true)

-- The confidentiality comparison is a total order.
pub conf_le-TotalOrder : TotalOrder conf_le
unfolding conf_le conf_rank
conf_le-TotalOrder = record {
  reflexive = λ a. ground arith;
  transitive = λ a b c p q. ground arith;
  antisymmetric = λ a b p q. ground arith;
  total = λ a b. ground arith;
}

-- The integrity comparison is a total order.
pub integ_le-TotalOrder : TotalOrder integ_le
unfolding integ_le integ_rank
integ_le-TotalOrder = record {
  reflexive = λ a. ground arith;
  transitive = λ a b c p q. ground arith;
  antisymmetric = λ a b p q. ground arith;
  total = λ a b. ground arith;
}
