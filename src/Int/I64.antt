-- ===== src/Int/I64.antt =====
-- Rust's `i64` in a release build: two's complement, every operation wraps.
use vericonomy_sdk.Base.{
  ℕ, ◌+◌, ◌-◌, ◌*◌, ◌/◌, ◌%◌, ◌^◌, ◌≤◌, ◌<◌, ◌≡◌, arith, ltb, leb, if◌then◌else◌,
}
use vericonomy_sdk.Int.{ℤ, pos, negsuc, pos_part, neg_part, ◌+ℤ◌, ◌-ℤ◌, ◌*ℤ◌}

-- The 64 bits that stand for an integer, and the integer that 64 bits stand for.
abbrev pub bits : ℤ → ℕ
bits (pos n) = n % 2 ^ 64
bits (negsuc n) = 2 ^ 64 - 1 - n % 2 ^ 64

abbrev pub of_bits : ℕ → ℤ
of_bits b = if ltb b (2 ^ 63) then pos b else negsuc (2 ^ 64 - 1 - b)

unfoldable pub wrap : ℤ → ℤ
wrap x = of_bits (bits x)

unfoldable pub add : ℤ → ℤ → ℤ
add a b = wrap (a +ℤ b)

unfoldable pub sub : ℤ → ℤ → ℤ
sub a b = wrap (a -ℤ b)

unfoldable pub mul : ℤ → ℤ → ℤ
mul a b = wrap (a *ℤ b)

-- Division by a positive constant, towards zero.
unfoldable pub div : ℤ → ℕ → ℤ
div (pos n) d = pos (n / d)
div (negsuc n) d = pos 0 -ℤ pos ((n + 1) / d)

unfoldable pub max : ℤ → ℤ → ℤ
max a b = if leb (pos_part a + neg_part b) (pos_part b + neg_part a) then b else a

-- A value that the type holds.
abbrev pub IsI64 : ℤ → Type 0
IsI64 x = (pos_part x < 2 ^ 63) × (neg_part x ≤ 2 ^ 63)

pub wrap-IsI64 : (x : ℤ) → IsI64 (wrap x)
unfolding wrap
wrap-IsI64 (pos n) = ground arith
wrap-IsI64 (negsuc n) = ground arith

pub wrap_of_IsI64 : (x : ℤ) → IsI64 x → wrap x ≡ x
unfolding wrap
wrap_of_IsI64 (pos n) h = ground arith
wrap_of_IsI64 (negsuc n) h = ground arith

pub add-IsI64 : (a b : ℤ) → IsI64 (add a b)
unfolding add
add-IsI64 a b = wrap-IsI64 (a +ℤ b)

-- Within range the operations are those of the integers.
pub add_exact : (a b : ℤ) → IsI64 (a +ℤ b) → add a b ≡ a +ℤ b
unfolding add
add_exact a b h = wrap_of_IsI64 (a +ℤ b) h

pub sub_exact : (a b : ℤ) → IsI64 (a -ℤ b) → sub a b ≡ a -ℤ b
unfolding sub
sub_exact a b h = wrap_of_IsI64 (a -ℤ b) h

-- The same for amounts, which are numbers.
pub add-pos : (a b : ℕ) → a + b < 2 ^ 63 → add (pos a) (pos b) ≡ pos (a + b)
unfolding add wrap ◌+ℤ◌
add-pos a b h = ground arith

pub sub-pos : (a b : ℕ) → b ≤ a → a < 2 ^ 63 → sub (pos a) (pos b) ≡ pos (a - b)
unfolding sub wrap ◌-ℤ◌
sub-pos a b h k = ground arith

pub mul-pos : (a b : ℕ) → a * b < 2 ^ 63 → mul (pos a) (pos b) ≡ pos (a * b)
unfolding mul wrap ◌*ℤ◌
mul-pos a b h = ground arith

-- A difference below zero.
pub sub-pos_lt : (a b : ℕ) → a < b → b < 2 ^ 63 → sub (pos a) (pos b) ≡ negsuc (b - a - 1)
unfolding sub wrap ◌-ℤ◌
sub-pos_lt a b h k = ground arith

pub sub-negsuc : (a b : ℕ) → a + b < 2 ^ 63 → sub (negsuc a) (pos b) ≡ negsuc (a + b)
unfolding sub wrap ◌-ℤ◌
sub-negsuc a b k = ground arith
