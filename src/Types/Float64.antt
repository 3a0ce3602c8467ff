-- ===== src/Types/Float64.antt =====
-- Go's float64, as far as the program computes with it. There are no floats in the logic, so the
-- type and its operations are given, with no law.
use atomic_swap.Base.{ℕ, Bool}

pub record Float64 : Type 1 where
  pub Carrier : Type 0
  -- `a < b`; false where either is not a number
  pub lt : Carrier → Carrier → Bool
  -- `a <= b`
  pub le : Carrier → Carrier → Bool
  -- `a == b`
  pub eq : Carrier → Carrier → Bool
  pub mul : Carrier → Carrier → Carrier
  pub div : Carrier → Carrier → Carrier
  -- `float64(n)` of a uint64, and `uint64(x)`
  pub of_u64 : ℕ → Carrier
  pub to_u64 : Carrier → ℕ
  -- the conversions through big.Float that package common makes
  pub ether_to_wei : Carrier → ℕ
  pub wei_to_ether : ℕ → Carrier
