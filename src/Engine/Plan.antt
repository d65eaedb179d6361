-- ===== src/Engine/Plan.antt =====
-- vericonomy-wallet-engine/src/utxo_selector.rs: the send plan, which settles the fee and the inputs
-- together, and the fee for inputs that are already chosen.
pub mod Change
pub mod Sound
pub mod Settles
pub mod Oscillates
pub mod Replans
use Prim.Native.Nat.{max}
use vericonomy_sdk.Base.{
  ℕ, zero, suc, ◌+◌, ◌≡◌, Bool, true, false, not, ◌||◌, List, [], ◌∷◌, ◌++◌, length, if◌then◌else◌,
}
use vericonomy_sdk.Int.{ℤ, pos, ltb_ℤ, eqb_ℤ}
use vericonomy_sdk.Int.I64
use vericonomy_sdk.Text.{Text, codes, show_i64}
use vericonomy_sdk.Float.{Float}
use vericonomy_sdk.Errors.{Result, ok, err, ◌>>=◌, other, insufficient_funds}
use vericonomy_sdk.Chain.{Utxo}
use vericonomy_sdk.Engine.Fees.{dust_change_sats, fee_for_rate}
use vericonomy_sdk.Engine.Money.{sum_values}
use vericonomy_sdk.Engine.Select.{select_utxos}

unfoldable pub change_will_be_included : ℤ → ℤ → ℤ → Bool
change_will_be_included input_sum amount_sats fee_sats =
    ltb_ℤ dust_change_sats (I64.sub (I64.sub input_sum amount_sats) fee_sats)

-- The outputs that a transaction with these inputs and this fee has.
unfoldable pub outputs_for : ℕ → ℤ → ℤ → ℤ → ℕ
outputs_for recipients input_sum amount_sats fee_sats =
    if change_will_be_included input_sum amount_sats fee_sats then recipients + 1 else recipients

abbrev pub fee_plan_diverges : Text
fee_plan_diverges = codes "could not converge send fee plan"

abbrev pub replan_diverges : Text
replan_diverges = codes "could not converge send fee after refreshing inputs"

abbrev pub replan_short : ℤ → ℤ → Text
replan_short needed input_sum =
    codes "insufficient funds: need "
    ++ (show_i64 needed
        ++ (codes " sats (amount + fee) but inputs total "
            ++ (show_i64 input_sum ++ codes " sats")))

module _ (f : Float) (amount_sats : ℤ) (rate : f.Carrier) (recipients : ℕ) where
  -- The fee of a transaction with these inputs whose fee was guessed as `fee_sats`.
  unfoldable pub next_fee : List Utxo → ℤ → ℤ
  next_fee selected fee_sats =
      fee_for_rate f rate (length selected)
        (outputs_for recipients (sum_values selected) amount_sats fee_sats)

  -- `for _ in 0..8`, with the rounds that are left
  unfoldable pub plan_rounds : ℕ → List Utxo → List Utxo → ℤ → Result (List Utxo × ℤ)
  plan_rounds zero utxos selected fee_sats = err (other fee_plan_diverges)
  plan_rounds (suc k) utxos selected fee_sats =
      let new_fee = next_fee selected fee_sats in
      let again = (select_utxos utxos amount_sats new_fee) >>= λ selected'.
      plan_rounds k utxos selected' new_fee in
      if not (eqb_ℤ new_fee fee_sats) || ltb_ℤ (sum_values selected) (I64.add amount_sats new_fee)
      then again
      else ok (selected, fee_sats)

  unfoldable pub replan_rounds : ℕ → List Utxo → ℤ → Result ℤ
  replan_rounds zero selected fee_sats = err (other replan_diverges)
  replan_rounds (suc k) selected fee_sats =
      let new_fee = next_fee selected fee_sats in
      let again = replan_rounds k selected new_fee in
      if eqb_ℤ new_fee fee_sats
      then (if ltb_ℤ (sum_values selected) (I64.add amount_sats new_fee)
          then err (
              insufficient_funds (replan_short (I64.add amount_sats new_fee) (sum_values selected)))
          else ok new_fee)
      else again

module _ (f : Float) where
  unfoldable pub plan_send_utxos : List Utxo → ℤ → f.Carrier → ℕ → Result (List Utxo × ℤ)
  plan_send_utxos utxos amount_sats rate recipient_outputs =
      let recipients = max recipient_outputs 1 in
      let fee_sats = fee_for_rate f rate 1 (recipients + 1) in
      (select_utxos utxos amount_sats fee_sats) >>= λ selected.
      plan_rounds f amount_sats rate recipients 8 utxos selected fee_sats

  unfoldable pub replan_fee_for_selected : List Utxo → ℤ → f.Carrier → ℕ → Result ℤ
  replan_fee_for_selected [] amount_sats rate recipient_outputs =
      err (other (codes "no inputs selected for send"))
  replan_fee_for_selected (u ∷ us) amount_sats rate recipient_outputs =
      let recipients = max recipient_outputs 1 in
      let fee_sats = fee_for_rate f rate (length (u ∷ us)) (recipients + 1) in
      replan_rounds f amount_sats rate recipients 8 (u ∷ us) fee_sats
