-- ===== src/Engine/Assemble/Conserves.antt =====
-- Where the money of an assembled transaction goes, and the fee that it pays.
use vericonomy_sdk.Base.{
  ℕ, ◌+◌, ◌-◌, ◌^◌, ◌≤◌, ◌<◌, ◌≡◌, refl, sym, ap, ◌∙◌, subst, arith, Bool, true, false, Bool-cases,
  inl, inr, Option, List, [], ◌∷◌, ◌++◌, All, length, length-append, if◌then◌else◌,
}
use vericonomy_sdk.Int.{ℤ, pos, ltb_ℤ}
use vericonomy_sdk.Int.I64
use vericonomy_sdk.Float.{Float}
use vericonomy_sdk.Text.{Text}
use vericonomy_sdk.Hex.{Hex}
use vericonomy_sdk.Errors.{ok, and_then-ok}
use vericonomy_sdk.Params.{CoinId}
use vericonomy_sdk.Hd.{Hd}
use vericonomy_sdk.Chain.{Utxo}
use vericonomy_sdk.Tx.Wire.{TxIn, TxOut, VeriumMutableTx}
use vericonomy_sdk.Engine.Fees.{dust_change_sats, fee_for_rate}
use vericonomy_sdk.Engine.Money.{total, MoneyRange, sum_values-pos}
use vericonomy_sdk.Engine.Plan.{
  change_will_be_included, outputs_for, next_fee, replan_fee_for_selected,
}
use vericonomy_sdk.Engine.Plan.Sound.{replan_fee_for_selected-fits}
use vericonomy_sdk.Engine.Assemble.{
  ParseTxid, sum_outputs_from, assemble_inputs, assemble_outputs, change_output, with_outputs,
  assemble_transaction,
}
use vericonomy_sdk.Engine.Assemble.Inputs.{SpendsAll, assemble_inputs-Assembled}
use vericonomy_sdk.Engine.Assemble.Change.{
  outs_total, IsPayment, out_values, out_values-append, sum_outputs_from-pos, change-of,
  assemble_outputs-values, change_output-value,
}

ok_eq : {A : Type 0} {x y : A} → ok x ≡ ok y → x ≡ y
ok_eq e = cc

-- The change that the code computes from these sums.
abbrev change_sats : ℕ → ℕ → ℕ → ℤ
change_sats t o f = I64.sub (I64.sub (pos t) (pos o)) (pos f)

outputs_with : (b : Bool) (n : ℕ) → n ≡ 1 + (if b then 1 else 0) → n ≡ (if b then 2 else 1)
outputs_with true n e = e
outputs_with false n e = e

module _ (hd : Hd) (hex : Hex) (parse : ParseTxid) (coin : CoinId) (mnemonic : Text)
    (passphrase : Option Text) (now : ℕ) where
  -- What a transaction that is put together consists of.
  pub record Finished (inputs : List TxIn) (outputs : List (Text × ℤ)) (change_address : Text)
      (change_sats : ℤ) (tx : VeriumMutableTx) : Type 0 where
    pub not_short : ltb_ℤ change_sats (pos 0) ≡ false
    pub outs : List TxOut
    pub change : List TxOut
    pub outputs_done : assemble_outputs hd hex parse coin mnemonic passphrase outputs ≡ ok outs
    pub change_done :
        change_output hd hex parse coin mnemonic passphrase change_address change_sats ≡ ok change
    pub outputs_are : tx.outputs ≡ outs ++ change
    pub inputs_are : tx.inputs ≡ inputs

  pub with_outputs-Finished :
      (inputs : List TxIn) (ks : List Text) (outputs : List (Text × ℤ)) (change_address : Text)
      (change_sats : ℤ) (tx : VeriumMutableTx) (keys : List Text)
      → with_outputs hd hex parse coin mnemonic passphrase now inputs ks outputs change_address
          change_sats
        ≡ ok (tx, keys)
      → Finished inputs outputs change_address change_sats tx
  unfolding with_outputs
  with_outputs-Finished inputs ks outputs addr c tx keys e = elim (Bool-cases (ltb_ℤ c (pos 0))) [
    | inl short ↦ cc (rw short at e)
    | inr enough ↦
        let (outs, e1, e2) =
          and_then-ok (assemble_outputs hd hex parse coin mnemonic passphrase outputs) _
            (rw enough at e) in
        let (change, e3, e4) =
          and_then-ok (change_output hd hex parse coin mnemonic passphrase addr c) _ e2 in
        let r = ap (λ (t : VeriumMutableTx × List Text). t.0) (ok_eq e4) in
        record {
          not_short = enough;
          outs = outs;
          change = change;
          outputs_done = e1;
          change_done = e3;
          outputs_are = sym (ap (λ (t : VeriumMutableTx). t.outputs) r);
          inputs_are = sym (ap (λ (t : VeriumMutableTx). t.inputs) r);
        }
  ]

  assemble_transaction-Finished :
      (utxos : List Utxo) (outputs : List (Text × ℤ)) (change_address : Text) (F : ℕ)
      (tx : VeriumMutableTx) (keys : List Text)
      → MoneyRange utxos
      → All IsPayment outputs
      → outs_total outputs < 2 ^ 63
      → assemble_transaction hd hex parse coin mnemonic passphrase now utxos outputs change_address
          (pos F)
        ≡ ok (tx, keys)
      → (inputs : List TxIn) × SpendsAll parse inputs utxos
        × Finished inputs outputs change_address
            (change_sats (total utxos) (outs_total outputs) F)
            tx
  unfolding assemble_transaction
  assemble_transaction-Finished utxos outputs addr F tx keys h ho hf e =
      let ((inputs, ks, sum), e1, e2) =
        and_then-ok (assemble_inputs hd hex parse coin mnemonic passphrase utxos [] [] (pos 0)) _
          e in
      let a =
        assemble_inputs-Assembled hd hex parse coin mnemonic passphrase utxos [] [] 0 inputs ks sum
          h.0 (omega (arith, h.1)) e1 in
      let sum_is : sum ≡ pos (total utxos) = a.summed ∙ ap pos (omega arith) in
      let paid : sum_outputs_from (pos 0) outputs ≡ pos (outs_total outputs) =
        sum_outputs_from-pos 0 outputs ho (omega (arith, hf)) ∙ ap pos (omega arith) in
      let c_is =
        ap (λ s. I64.sub (I64.sub s (sum_outputs_from (pos 0) outputs)) (pos F)) sum_is
        ∙ ap (λ o. I64.sub (I64.sub (pos (total utxos)) o) (pos F)) paid in
      (
        inputs,
        subst (λ l. SpendsAll parse l utxos) (sym a.appended) a.spends,
        with_outputs-Finished inputs ks outputs addr
            (change_sats (total utxos) (outs_total outputs) F) tx keys
            (subst
              (λ c.
                with_outputs hd hex parse coin mnemonic passphrase now inputs ks outputs addr c
                ≡ ok (tx, keys))
              c_is e2),
      )

  -- For coins in the money range and payments that are not negative, whose sum with the fee fits an
  -- i64: a transaction that assemble_transaction returns spends exactly the coins, in their order,
  -- and what the coins hold is what its outputs pay, the fee, and at most 546 satoshis of dust.
  pub assemble-conserves :
      (utxos : List Utxo) (outputs : List (Text × ℤ)) (change_address : Text) (F : ℕ)
      (tx : VeriumMutableTx) (keys : List Text)
      → MoneyRange utxos
      → All IsPayment outputs
      → outs_total outputs + F < 2 ^ 63
      → assemble_transaction hd hex parse coin mnemonic passphrase now utxos outputs change_address
          (pos F)
        ≡ ok (tx, keys)
      → (dust : ℕ) × (dust ≤ 546)
        × (total utxos ≡ out_values tx.outputs + F + dust)
        × SpendsAll parse tx.inputs utxos
  assemble-conserves utxos outputs addr F tx keys h ho hf e =
      let (inputs, spends, done) =
        assemble_transaction-Finished utxos outputs addr F tx keys h ho (omega (arith, hf)) e in
      let (covers, change_is) =
        change-of (total utxos) (outs_total outputs) F h.1 hf done.not_short in
      let (values, count) =
        assemble_outputs-values hd hex parse coin mnemonic passphrase outputs done.outs
          done.outputs_done in
      let (dust, small, pays, more) =
        change_output-value hd hex parse coin mnemonic passphrase addr
          (total utxos - (outs_total outputs + F)) done.change (rw change_is at done.change_done) in
      let together = ap out_values done.outputs_are ∙ out_values-append done.outs done.change in
      (
        dust,
        small,
        omega (arith, together, values, pays, covers),
        subst (λ l. SpendsAll parse l utxos) (sym done.inputs_are) spends,
      )

  SpendsAll-length :
      (inputs : List TxIn) (utxos : List Utxo)
      → SpendsAll parse inputs utxos
      → length inputs ≡ length utxos
  SpendsAll-length [] [] h = refl
  SpendsAll-length [] (u ∷ us) h = absurd h
  SpendsAll-length (i ∷ is) [] h = absurd h
  SpendsAll-length (i ∷ is) (u ∷ us) (a, b, c) = omega (arith, SpendsAll-length is us c)

  -- For coins in the money range and one payment whose amount and fee fit an i64: when the fee is
  -- the one that replan_fee_for_selected returns for these coins, the transaction that
  -- assemble_transaction puts together pays exactly the fee for its own numbers of inputs and outputs.
  pub assemble-pays_planned_fee :
      (f : Float) (rate : f.Carrier) (utxos : List Utxo) (address change_address : Text) (a F : ℕ)
      (tx : VeriumMutableTx) (keys : List Text)
      → MoneyRange utxos
      → a + F < 2 ^ 63
      → replan_fee_for_selected f utxos (pos a) rate 1 ≡ ok (pos F)
      → assemble_transaction hd hex parse coin mnemonic passphrase now utxos
          ((address, pos a) ∷ [])
          change_address
          (pos F)
        ≡ ok (tx, keys)
      → fee_for_rate f rate (length tx.inputs) (length tx.outputs) ≡ pos F
  unfolding next_fee outputs_for change_will_be_included
  assemble-pays_planned_fee f rate utxos address addr a F tx keys h hf planned e =
      let outputs = (address, pos a) ∷ [] in
      let (inputs, spends, done) =
        assemble_transaction-Finished utxos outputs addr F tx keys h (omega arith)
          (omega (arith, hf)) e in
      let (covers, change_is) =
        change-of (total utxos) (outs_total outputs) F h.1 (omega (arith, hf)) done.not_short in
      let (values, count) =
        assemble_outputs-values hd hex parse coin mnemonic passphrase outputs done.outs
          done.outputs_done in
      let (dust, small, pays, more) =
        change_output-value hd hex parse coin mnemonic passphrase addr
          (total utxos - (outs_total outputs + F)) done.change
          (subst (λ c. change_output hd hex parse coin mnemonic passphrase addr c ≡ ok done.change)
            change_is done.change_done) in
      let fits = (replan_fee_for_selected-fits f utxos (pos a) rate 1 (pos F) planned).0 in
      let ins : length tx.inputs ≡ length utxos =
        ap length done.inputs_are ∙ SpendsAll-length inputs utxos spends in
      let together = ap length done.outputs_are ∙ length-append done.outs done.change in
      let outs =
        outputs_with (ltb_ℤ dust_change_sats (pos (total utxos - (outs_total outputs + F))))
          (length tx.outputs) (omega (arith, together, count, more)) in
      let rest_is =
        ap (λ s. I64.sub (I64.sub s (pos a)) (pos F)) (sum_values-pos utxos h)
        ∙ ap (λ n. I64.sub (I64.sub (pos (total utxos)) (pos n)) (pos F)) (omega arith)
        ∙ change_is in
      ap (λ n. fee_for_rate f rate n (length tx.outputs)) ins
      ∙ ap (fee_for_rate f rate (length utxos)) outs
      ∙ ap (λ c. fee_for_rate f rate (length utxos) (if ltb_ℤ dust_change_sats c then 2 else 1))
          (sym rest_is)
      ∙ fits
