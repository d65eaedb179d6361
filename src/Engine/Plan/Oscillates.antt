-- ===== src/Engine/Plan/Oscillates.antt =====
-- Inputs for which the fee loop never settles: a change output would cost one more kilobyte, and
-- the change that is left after that fee is dust.
use vericonomy_sdk.Base.{ℕ, ◌+◌, ◌^◌, ◌≤◌, ◌<◌, ◌≡◌, refl, arith, List, length, true, false, ltb}
use Prim.Native.Nat.{max}
use vericonomy_sdk.Int.{pos}
use vericonomy_sdk.Float.{Float}
use vericonomy_sdk.Errors.{err, other}
use vericonomy_sdk.Chain.{Utxo}
use vericonomy_sdk.Engine.Fees.{coins_per_kb_to_sats_per_k}
use vericonomy_sdk.Engine.Fees.Exact.{tx_bytes, fee_units, fee_spec}
use vericonomy_sdk.Engine.Money.{total, MoneyRange}
use vericonomy_sdk.Engine.Plan.Replans.{replan_fee_for_selected-fee_to_settle}
use vericonomy_sdk.Engine.Plan.{replan_fee_for_selected, replan_diverges}

module _ (f : Float) (rate : f.Carrier) (s : ℕ)
    (sats_rate : coins_per_kb_to_sats_per_k f rate ≡ pos s) (selected : List Utxo)
    (range : MoneyRange selected) (a d : ℕ)
    (steps : fee_units (length selected) 2 ≡ fee_units (length selected) 1 + 1) (dust : d ≤ 546)
    (funds : total selected ≡ a + fee_spec s (length selected) 2 + d)
    (bytes : tx_bytes (length selected) 2 < 2 ^ 63) where
  step_up : max s 100000 + fee_spec s (length selected) 1 ≡ fee_spec s (length selected) 2
  step_up = rw steps (omega arith)

  -- Take inputs in the money range for which a change output starts one more kilobyte, and whose
  -- total is the amount, the fee with that kilobyte and at most 546 satoshis. They cover the
  -- amount and that fee, but the fee for them is never settled: the call fails.
  pub replan_oscillates :
      0 < length selected
      → replan_fee_for_selected f selected (pos a) rate 1 ≡ err (other replan_diverges)
  replan_oscillates h =
      let high = fee_spec s (length selected) 2 in
      let fits : a + high < 2 ^ 63 = omega (arith, funds, range.1) in
      let kept_back : ltb (a + high + 546) (total selected) ≡ false = ground (arith, funds) in
      let left_over : ltb (a + fee_spec s (length selected) 1 + 546) (total selected) ≡ true =
        ground (arith, funds, step_up) in
      rw
        (
          replan_fee_for_selected-fee_to_settle f rate s selected a 1 sats_rate range h bytes fits,
          kept_back,
          left_over,
        )
        refl
