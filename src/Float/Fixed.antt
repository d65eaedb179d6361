-- ===== src/Float/Fixed.antt =====
-- Decimals with eight places as a stand-in for `f64`, so that the code runs in tests.
use Prim.Native.Nat.{min}
use vericonomy_sdk.Base.{ℕ, ◌+◌, ◌-◌, ◌*◌, ◌/◌, ◌^◌, arith}
use vericonomy_sdk.Int.{ℤ, pos, negsuc, ltb_ℤ, ◌-ℤ◌, ◌*ℤ◌}
use vericonomy_sdk.Int.I64.{IsI64}
use vericonomy_sdk.Float.{Float}

abbrev pub scale : ℕ
scale = 10 ^ 8

-- Division of an integer by a number, towards zero.
abbrev pub quotient : ℤ → ℕ → ℤ
quotient (pos n) d = pos (n / d)
quotient (negsuc n) d = pos 0 -ℤ pos ((n + 1) / d)

abbrev pub magnitude : ℤ → ℕ
magnitude (pos n) = n
magnitude (negsuc n) = n + 1

abbrev pub saturate : ℤ → ℤ
saturate (pos n) = pos (min n (2 ^ 63 - 1))
saturate (negsuc n) = negsuc (min n (2 ^ 63 - 1))

pub saturate-IsI64 : (x : ℤ) → IsI64 (saturate x)
saturate-IsI64 (pos n) = omega arith
saturate-IsI64 (negsuc n) = omega arith

abbrev pub halves : ℤ → ℤ
halves (pos n) = pos ((n + scale / 2) / scale * scale)
halves (negsuc n) = pos 0 -ℤ pos ((n + 1 + scale / 2) / scale * scale)

abbrev pub fixed : Float
fixed = record {
  Carrier = ℤ;
  of_int = λ x. x *ℤ pos scale;
  decimal = λ m k. pos (m * scale / 10 ^ k);
  mul = λ a b. quotient (a *ℤ b) scale;
  div = λ a b. quotient (a *ℤ pos scale) (magnitude b);
  neg = λ a. pos 0 -ℤ a;
  round = halves;
  to_i64 = λ a. saturate (quotient a scale);
  lt = ltb_ℤ;
  to_i64-IsI64 = λ a. saturate-IsI64 (quotient a scale);
}
