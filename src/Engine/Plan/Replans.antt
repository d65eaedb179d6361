-- ===== src/Engine/Plan/Replans.antt =====
-- The fee for inputs that are already chosen, in plain arithmetic: at most two fees come up, the one
-- without a change output and the one with it.
use vericonomy_sdk.Base.{
  ℕ, zero, suc, ◌+◌, ◌^◌, ◌≤◌, ◌<◌, ◌≡◌, refl, subst, arith, List, [], ◌∷◌, ◌∙◌, length, true,
  false, ltb, if◌then◌else◌, inl, inr, Bool-cases,
}
use Prim.Native.Nat.{max}
use vericonomy_sdk.Int.{ℤ, pos, eqb_ℤ}
use vericonomy_sdk.Int.I64.{add-pos}
use vericonomy_sdk.Float.{Float}
use vericonomy_sdk.Errors.{Result, ok, err, other, insufficient_funds}
use vericonomy_sdk.Chain.{Utxo}
use vericonomy_sdk.Engine.Fees.{fee_for_rate, coins_per_kb_to_sats_per_k}
use vericonomy_sdk.Engine.Fees.Exact.{tx_bytes, fee_spec, fee_spec_mono, fee_for_rate-eq}
use vericonomy_sdk.Engine.Money.{total, MoneyRange, sum_values-pos}
use vericonomy_sdk.Engine.Plan.Change.{change_will_be_included-eq}
use vericonomy_sdk.Engine.Plan.{
  outputs_for, next_fee, replan_rounds, replan_fee_for_selected, replan_diverges, replan_short,
}

-- What happens to inputs of the total `t`, where `low` is the fee without a change output and `high`
-- the fee with one. The change is more than dust after the larger fee, or only after the smaller one,
-- or after neither; in the last case the inputs may be short.
abbrev pub fee_to_settle : ℕ → ℕ → ℕ → ℕ → Result ℤ
fee_to_settle a low high t =
    if ltb (a + high + 546) t
    then ok (pos high)
    else (if ltb (a + low + 546) t
        then err (other replan_diverges)
        else (if ltb t (a + low)
            then err (insufficient_funds (replan_short (pos (a + low)) (pos t)))
            else ok (pos low)))

module _ (f : Float) (rate : f.Carrier) (s : ℕ)
    (sats_rate : coins_per_kb_to_sats_per_k f rate ≡ pos s) (selected : List Utxo)
    (range : MoneyRange selected) (a r : ℕ) (bytes : tx_bytes (length selected) (r + 1) < 2 ^ 63)
    (fits : a + fee_spec s (length selected) (r + 1) < 2 ^ 63) where
  low-le-high : fee_spec s (length selected) r ≤ fee_spec s (length selected) (r + 1)
  low-le-high =
      fee_spec_mono s (length selected) (length selected) r (r + 1) (omega arith) (omega arith)

  fee_for_rate-low : fee_for_rate f rate (length selected) r ≡ pos (fee_spec s (length selected) r)
  fee_for_rate-low =
      fee_for_rate-eq f rate s (length selected) r sats_rate (omega arith)
        (omega (arith, low-le-high))

  fee_for_rate-high :
      fee_for_rate f rate (length selected) (r + 1) ≡ pos (fee_spec s (length selected) (r + 1))
  fee_for_rate-high =
      fee_for_rate-eq f rate s (length selected) (r + 1) sats_rate bytes (omega arith)

  next_fee-high :
      (guess : ℕ)
      → guess ≤ fee_spec s (length selected) (r + 1)
      → a + guess + 546 < total selected
      → next_fee f (pos a) rate r selected (pos guess) ≡ pos (fee_spec s (length selected) (r + 1))
  unfolding next_fee outputs_for
  next_fee-high guess le change =
      let t : ltb (a + guess + 546) (total selected) ≡ true = ground arith in
      rw
        (
          sum_values-pos selected range,
          change_will_be_included-eq (total selected) a guess range.1 (omega arith),
          t,
        )
        fee_for_rate-high

  next_fee-low :
      (guess : ℕ)
      → guess ≤ fee_spec s (length selected) (r + 1)
      → total selected ≤ a + guess + 546
      → next_fee f (pos a) rate r selected (pos guess) ≡ pos (fee_spec s (length selected) r)
  unfolding next_fee outputs_for
  next_fee-low guess le dust =
      let t : ltb (a + guess + 546) (total selected) ≡ false = ground arith in
      rw
        (
          sum_values-pos selected range,
          change_will_be_included-eq (total selected) a guess range.1 (omega arith),
          t,
        )
        fee_for_rate-low

  -- A guess that is confirmed ends the loop.
  stays_high :
      (k : ℕ)
      → a + fee_spec s (length selected) (r + 1) + 546 < total selected
      → replan_rounds f (pos a) rate r (suc k) selected (pos (fee_spec s (length selected) (r + 1)))
        ≡ ok (pos (fee_spec s (length selected) (r + 1)))
  unfolding replan_rounds
  stays_high k change =
      rw
        (
          next_fee-high (fee_spec s (length selected) (r + 1)) (omega arith) change,
          sum_values-pos selected range,
          add-pos a (fee_spec s (length selected) (r + 1)) fits,
        )
        (ground arith)

  stays_low :
      (k : ℕ)
      → total selected ≤ a + fee_spec s (length selected) r + 546
      → replan_rounds f (pos a) rate r (suc k) selected (pos (fee_spec s (length selected) r))
        ≡ fee_to_settle a
            (fee_spec s (length selected) r)
            (fee_spec s (length selected) (r + 1))
            (total selected)
  unfolding replan_rounds
  stays_low k dust =
      rw
        (
          next_fee-low (fee_spec s (length selected) r) low-le-high dust,
          sum_values-pos selected range,
          add-pos a (fee_spec s (length selected) r) (omega (arith, low-le-high)),
        )
        (ground (arith, low-le-high))

  -- The guess with a change output leads to the fee without one.
  step_low :
      (k : ℕ)
      → fee_spec s (length selected) r < fee_spec s (length selected) (r + 1)
      → total selected ≤ a + fee_spec s (length selected) (r + 1) + 546
      → replan_rounds f (pos a) rate r (suc k) selected (pos (fee_spec s (length selected) (r + 1)))
        ≡ replan_rounds f (pos a) rate r k selected (pos (fee_spec s (length selected) r))
  unfolding replan_rounds
  step_low k lt dust =
      let moved : eqb_ℤ (pos (fee_spec s (length selected) r))
            (pos (fee_spec s (length selected) (r + 1)))
          ≡ false =
        ground arith in
      rw (next_fee-low (fee_spec s (length selected) (r + 1)) (omega arith) dust, moved) refl

  -- The guess without a change output leads to the fee with one.
  step_high :
      (k : ℕ)
      → fee_spec s (length selected) r < fee_spec s (length selected) (r + 1)
      → a + fee_spec s (length selected) r + 546 < total selected
      → replan_rounds f (pos a) rate r (suc k) selected (pos (fee_spec s (length selected) r))
        ≡ replan_rounds f (pos a) rate r k selected (pos (fee_spec s (length selected) (r + 1)))
  unfolding replan_rounds
  step_high k lt change =
      let moved : eqb_ℤ (pos (fee_spec s (length selected) (r + 1)))
            (pos (fee_spec s (length selected) r))
          ≡ false =
        ground arith in
      rw (next_fee-high (fee_spec s (length selected) r) low-le-high change, moved) refl

  -- Between the two fees every number of rounds is used up.
  both_diverge :
      (k : ℕ)
      → a + fee_spec s (length selected) r + 546 < total selected
      → total selected ≤ a + fee_spec s (length selected) (r + 1) + 546
      → (replan_rounds f (pos a) rate r k selected (pos (fee_spec s (length selected) r))
          ≡ err (other replan_diverges))
        × (replan_rounds f (pos a) rate r k selected (pos (fee_spec s (length selected) (r + 1)))
            ≡ err (other replan_diverges))
  unfolding replan_rounds
  both_diverge zero change dust = (refl, refl)
  both_diverge (suc k) change dust =
      let (from_low, from_high) = both_diverge k change dust in
      let lt : fee_spec s (length selected) r < fee_spec s (length selected) (r + 1) =
        omega arith in
      (step_high k lt change ∙ from_high, step_low k lt dust ∙ from_low)

  replan_rounds-fee_to_settle :
      (k : ℕ)
      → replan_rounds f
          (pos a)
          rate
          r
          (suc (suc k))
          selected
          (pos (fee_spec s (length selected) (r + 1)))
        ≡ fee_to_settle a
            (fee_spec s (length selected) r)
            (fee_spec s (length selected) (r + 1))
            (total selected)
  replan_rounds-fee_to_settle k =
      let low = fee_spec s (length selected) r in
      let high = fee_spec s (length selected) (r + 1) in
      elim (Bool-cases (ltb (a + high + 546) (total selected))) [
        | inl t ↦ rw (stays_high (suc k) (ground arith), t) refl
        | inr t ↦
            let no_change : total selected ≤ a + high + 546 = ground arith in
            elim (Bool-cases (ltb (a + low + 546) (total selected))) [
              | inl u ↦ rw ((both_diverge (suc (suc k)) (ground arith) no_change).1, t, u) refl
              | inr u ↦
                  let dust : total selected ≤ a + low + 546 = ground arith in
                  elim (Bool-cases (ltb low high)) [
                    | inl lt ↦ step_low (suc k) (ground arith) no_change ∙ stays_low k dust
                    | inr ge ↦
                        let le : high ≤ low = ground arith in
                        let same : low ≡ high = omega (arith, low-le-high) in
                        subst
                          (λ x.
                            replan_rounds f (pos a) rate r (suc (suc k)) selected (pos x)
                            ≡ fee_to_settle a low high (total selected))
                          same (stays_low (suc k) dust)
                  ]
            ]
      ]

-- For one or more inputs in the money range, a rate that is not negative in satoshis, a size that
-- fits an i64, and a payment whose amount together with the fee for a change output fits one too: if
-- the inputs leave more than 546 satoshis after the amount and the fee for a change output, that fee
-- is returned. Else, if they leave more than that after the amount and the fee without a change
-- output, the call fails with the error of a fee that does not converge. Else the fee without a
-- change output is returned if the inputs cover it and the amount, and the call fails with the
-- insufficient-funds error if they do not.
pub replan_fee_for_selected-fee_to_settle :
    (f : Float) (rate : f.Carrier) (s : ℕ) (selected : List Utxo) (a recipient_outputs : ℕ)
    → coins_per_kb_to_sats_per_k f rate ≡ pos s
    → MoneyRange selected
    → 0 < length selected
    → tx_bytes (length selected) (max recipient_outputs 1 + 1) < 2 ^ 63
    → a + fee_spec s (length selected) (max recipient_outputs 1 + 1) < 2 ^ 63
    → replan_fee_for_selected f selected (pos a) rate recipient_outputs
      ≡ fee_to_settle a
          (fee_spec s (length selected) (max recipient_outputs 1))
          (fee_spec s (length selected) (max recipient_outputs 1 + 1))
          (total selected)
unfolding replan_fee_for_selected
replan_fee_for_selected-fee_to_settle f rate s [] a n sats_rate range h bytes fits =
    absurd (omega arith)
replan_fee_for_selected-fee_to_settle f rate s (u ∷ us) a n sats_rate range h bytes fits =
    rw (fee_for_rate-high f rate s sats_rate (u ∷ us) range a (max n 1) bytes fits)
      (replan_rounds-fee_to_settle f rate s sats_rate (u ∷ us) range a (max n 1) bytes fits 6)
