-- ===== src/Engine/Plan/Sound.antt =====
-- What a send plan that is returned guarantees, and when the loop settles.
use vericonomy_sdk.Base.{
  ℕ, zero, suc, ◌+◌, ◌≡◌, refl, inl, inr, arith, List, [], ◌∷◌, ◌∙◌, subst, subst₂, false, not,
  ◌||◌, Bool-cases,
}
use Prim.Native.Nat.{max}
use vericonomy_sdk.Int.{ℤ, ◌≤ℤ◌, ltb_ℤ, eqb_ℤ, eq_of_parts}
use vericonomy_sdk.Int.I64
use vericonomy_sdk.Float.{Float}
use vericonomy_sdk.Errors.{Result, ok, and_then-ok}
use vericonomy_sdk.Chain.{Utxo}
use vericonomy_sdk.Engine.Fees.{fee_for_rate}
use vericonomy_sdk.Engine.Money.{sum_values}
use vericonomy_sdk.Engine.Select.{select_utxos}
use vericonomy_sdk.Engine.Plan.{
  next_fee, plan_rounds, replan_rounds, plan_send_utxos, replan_fee_for_selected,
}

module _ (f : Float) (amount_sats : ℤ) (rate : f.Carrier) (recipients : ℕ) where
  -- A plan is settled: its fee is the fee of the transaction that it describes, its inputs cover
  -- the amount and the fee, and they are what the selection for that fee returns.
  pub record Settled (utxos selected : List Utxo) (fee_sats : ℤ) : Type 0 where
    pub fee_fits : next_fee f amount_sats rate recipients selected fee_sats ≡ fee_sats
    pub covers : I64.add amount_sats fee_sats ≤ℤ sum_values selected
    pub chosen : select_utxos utxos amount_sats fee_sats ≡ ok selected

  exit-Settled :
      (utxos selected : List Utxo) (fee_sats new_fee : ℤ)
      → next_fee f amount_sats rate recipients selected fee_sats ≡ new_fee
      → select_utxos utxos amount_sats fee_sats ≡ ok selected
      → not (eqb_ℤ new_fee fee_sats) || ltb_ℤ (sum_values selected) (I64.add amount_sats new_fee)
        ≡ false
      → Settled utxos selected fee_sats
  exit-Settled utxos selected fee_sats new_fee e c t =
      let same : new_fee ≡ fee_sats = eq_of_parts _ _ (ground arith) in
      let fits : I64.add amount_sats new_fee ≤ℤ sum_values selected = ground arith in
      record {
        fee_fits = e ∙ same;
        covers = subst (λ x. I64.add amount_sats x ≤ℤ sum_values selected) same fits;
        chosen = c;
      }

  plan_rounds-Settled :
      (k : ℕ) (utxos selected : List Utxo) (fee_sats : ℤ)
      → select_utxos utxos amount_sats fee_sats ≡ ok selected
      → (sel : List Utxo) (fee : ℤ)
      → plan_rounds f amount_sats rate recipients k utxos selected fee_sats ≡ ok (sel, fee)
      → Settled utxos sel fee
  unfolding plan_rounds
  plan_rounds-Settled zero utxos selected fee_sats c sel fee e = cc
  plan_rounds-Settled (suc k) utxos selected fee_sats c sel fee e =
      let new_fee = next_fee f amount_sats rate recipients selected fee_sats in
      let needed = I64.add amount_sats new_fee in
      elim (Bool-cases (not (eqb_ℤ new_fee fee_sats) || ltb_ℤ (sum_values selected) needed)) [
        | inl t ↦
            let (sel', s, r) =
              and_then-ok (select_utxos utxos amount_sats new_fee)
                (λ l. plan_rounds f amount_sats rate recipients k utxos l new_fee) (rw t at e) in
            plan_rounds-Settled k utxos sel' new_fee s sel fee r
        | inr t ↦
            let r : ◌≡◌ {A = Result (List Utxo × ℤ)} (ok (selected, fee_sats)) (ok (sel, fee)) =
              rw t at e in
            let same_sel : selected ≡ sel = cc in
            let same_fee : fee_sats ≡ fee = cc in
            subst₂ (Settled utxos) same_sel same_fee
              (exit-Settled utxos selected fee_sats new_fee refl c t)
      ]

module _ (f : Float) where
  -- A plan that is returned is settled, for at least one recipient output.
  pub plan_send_utxos-Settled :
      (utxos : List Utxo) (amount_sats : ℤ) (rate : f.Carrier) (recipient_outputs : ℕ)
      (selected : List Utxo) (fee_sats : ℤ)
      → plan_send_utxos f utxos amount_sats rate recipient_outputs ≡ ok (selected, fee_sats)
      → Settled f amount_sats rate (max recipient_outputs 1) utxos selected fee_sats
  unfolding plan_send_utxos
  plan_send_utxos-Settled utxos amount_sats rate n selected fee_sats e =
      let recipients = max n 1 in
      let first_fee = fee_for_rate f rate 1 (recipients + 1) in
      let (sel, s, r) =
        and_then-ok (select_utxos utxos amount_sats first_fee)
          (λ l. plan_rounds f amount_sats rate recipients 8 utxos l first_fee) e in
      plan_rounds-Settled f amount_sats rate recipients 8 utxos sel first_fee s selected fee_sats r

  replan_rounds-fits :
      (amount_sats : ℤ) (rate : f.Carrier) (recipients k : ℕ) (selected : List Utxo) (guess fee : ℤ)
      → replan_rounds f amount_sats rate recipients k selected guess ≡ ok fee
      → (next_fee f amount_sats rate recipients selected fee ≡ fee)
        × (I64.add amount_sats fee ≤ℤ sum_values selected)
  unfolding replan_rounds
  replan_rounds-fits amount_sats rate recipients zero selected guess fee e = cc
  replan_rounds-fits amount_sats rate recipients (suc k) selected guess fee e = ground (
    arith,
    replan_rounds-fits amount_sats rate recipients k selected
        (next_fee f amount_sats rate recipients selected guess) fee,
    eq_of_parts (next_fee f amount_sats rate recipients selected guess) guess,
  )

  -- The test with which the loop ends, on the sum as the code computes it.
  pub replan_fee_for_selected-fits :
      (selected : List Utxo) (amount_sats : ℤ) (rate : f.Carrier) (recipient_outputs : ℕ) (fee : ℤ)
      → replan_fee_for_selected f selected amount_sats rate recipient_outputs ≡ ok fee
      → (next_fee f amount_sats rate (max recipient_outputs 1) selected fee ≡ fee)
        × (I64.add amount_sats fee ≤ℤ sum_values selected)
  unfolding replan_fee_for_selected
  replan_fee_for_selected-fits [] amount_sats rate n fee e = cc
  replan_fee_for_selected-fits (u ∷ us) amount_sats rate n fee e =
      replan_rounds-fits amount_sats rate (max n 1) 8 (u ∷ us) _ fee e
