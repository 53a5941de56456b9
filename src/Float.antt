-- ===== src/Float.antt =====
-- Double-precision numbers, f64 in Rust and DOUBLE PRECISION in PostgreSQL, as a parameter: no float is
-- computed here. The laws that a theorem needs are hypotheses of their own.
use neuralmesh.Common.{true, false, ◌≡◌, Bool, ℕ}
use neuralmesh.Common.Int.{ℤ}

pub record Float : Type 1 where
  pub F : Type 0
  pub add : F → F → F
  pub sub : F → F → F
  pub mul : F → F → F
  pub div : F → F → F
  pub neg : F → F
  -- `f64::min`, and GREATEST and LEAST of PostgreSQL
  pub min_f64 : F → F → F
  pub greatest : F → F → F
  pub least : F → F → F
  -- the comparisons are false where an operand is not a number
  pub lt : F → F → Bool
  pub le : F → F → Bool
  -- `f64::MAX`, an integer `as f64`, a float `as i32`, and the literal m / 10^k
  pub max_value : F
  pub of_int : ℤ → F
  pub to_i32 : F → ℤ
  pub lit : ℕ → ℕ → F

-- The comparison of numbers among which there is no NaN.
pub record IsOrdered (R : Float) : Type 0 where
  pub irrefl : (a : R.F) → R.lt a a ≡ false
  pub asym : (a b : R.F) → R.lt a b ≡ true → R.lt b a ≡ false
  pub not_lt_trans : (a b c : R.F) → R.lt a b ≡ false → R.lt b c ≡ false → R.lt a c ≡ false
