-- ===== src/Engine/Plan/Change.antt =====
-- When a send plan has a change output, in plain arithmetic.
use vericonomy_sdk.Base.{ℕ, ◌+◌, ◌-◌, ◌^◌, ◌≤◌, ◌<◌, ◌≡◌, arith, ltb, inl, inr, Bool-cases}
use vericonomy_sdk.Int.{pos}
use vericonomy_sdk.Int.I64.{sub-pos, sub-pos_lt, sub-negsuc}
use vericonomy_sdk.Engine.Plan.{change_will_be_included}

-- The difference that is tested against the dust limit, below zero or not.
pub change_will_be_included-eq :
    (t a fee : ℕ)
    → t < 2 ^ 63
    → a + fee < 2 ^ 63
    → change_will_be_included (pos t) (pos a) (pos fee) ≡ ltb (a + fee + 546) t
unfolding change_will_be_included
change_will_be_included-eq t a fee h k = elim (Bool-cases (ltb t a)) [
  | inl below ↦
      let lt : t < a = ground arith in
      rw (sub-pos_lt t a lt (omega arith), sub-negsuc (a - t - 1) fee (omega arith)) (ground arith)
  | inr covers ↦
      let le : a ≤ t = ground arith in
      rw (sub-pos t a le h) (elim (Bool-cases (ltb (t - a) fee)) [
        | inl below ↦
            let lt : t - a < fee = ground arith in
            rw (sub-pos_lt (t - a) fee lt (omega arith)) (ground arith)
        | inr enough ↦
            let ge : fee ≤ t - a = ground arith in
            rw (sub-pos (t - a) fee ge (omega arith)) (ground arith)
      ])
]
