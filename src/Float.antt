-- ===== src/Float.antt =====
-- `f64`, which the library leaves to the machine: the operations that the code calls, and the law
-- that the cast to `i64` saturates, so that its result is an `i64`.
pub mod Fixed
use vericonomy_sdk.Base.{ℕ, Bool}
use vericonomy_sdk.Int.{ℤ}
use vericonomy_sdk.Int.I64.{IsI64}

pub record Float : Type 1 where
  pub Carrier : Type 0
  -- `x as f64`, and the literals without a fraction
  pub of_int : ℤ → Carrier
  -- the literal `m * 10 ^ -k`
  pub decimal : ℕ → ℕ → Carrier
  pub mul : Carrier → Carrier → Carrier
  pub div : Carrier → Carrier → Carrier
  pub neg : Carrier → Carrier
  pub round : Carrier → Carrier
  -- `x as i64`
  pub to_i64 : Carrier → ℤ
  -- `a < b`
  pub lt : Carrier → Carrier → Bool
  pub to_i64-IsI64 : (x : Carrier) → IsI64 (to_i64 x)
