-- ===== src/Facade/Verify/Accepts.antt =====
-- The check accepts the payments of an assembled transaction.
use mathlib.Core.List.{append_assoc}
use vericonomy_sdk.Base.{
  ℕ, ◌≡◌, refl, sym, subst, arith, Bool, true, false, Bool-cases, inl, inr, Option, List, [], ◌∷◌,
  ◌++◌, All, any, ◌==◌,
}
use vericonomy_sdk.Int.{ℤ, pos, pos_part, ltb_ℤ}
use vericonomy_sdk.Text.{Text, text_eq_iff}
use vericonomy_sdk.Errors.{Result, ok, ◌>>◌, and_then-ok}
use vericonomy_sdk.Hex.{Hex}
use vericonomy_sdk.Params.{CoinId}
use vericonomy_sdk.Hd.{Hd}
use vericonomy_sdk.Chain.{Utxo}
use vericonomy_sdk.Tx.Script.{Bytes}
use vericonomy_sdk.Tx.Wire.{TxOut, VeriumMutableTx}
use vericonomy_sdk.Engine.Assemble.{
  ParseTxid, assemble_outputs, assemble_transaction, assemble_inputs, sum_outputs_from,
}
use vericonomy_sdk.Int.I64
use vericonomy_sdk.Engine.Assemble.Conserves.{with_outputs-Finished}
use vericonomy_sdk.Facade.Verify.{pays, verify_payment, verify_payments}

abbrev pub IsPositive : Text × ℤ → Type 0
IsPositive (addr, value) = ltb_ℤ (pos 0) value ≡ true

any-middle :
    (p : TxOut → Bool) (xs ys : List TxOut) (o : TxOut) → p o ≡ true → any p (xs ++ (o ∷ ys)) ≡ true
any-middle p [] ys o h = rw h refl
any-middle p (x ∷ xs) ys o h = elim (Bool-cases (p x)) [
  | inl e ↦ rw e refl
  | inr e ↦ rw e (any-middle p xs ys o h)
]

pays-itself :
    (script : Bytes) (n : ℕ) → pays script n (record { value = n; script_pubkey = script }) ≡ true
pays-itself script n =
    let s = (text_eq_iff script script).1 refl in
    let t : (n == n) ≡ true = ground arith in rw (s, t) refl

not_below : (v : ℤ) → ltb_ℤ (pos 0) v ≡ true → ltb_ℤ v (pos 0) ≡ false
not_below v h = ground arith

then_ok : {a b : Result (Unit {0})} → a ≡ ok tt → b ≡ ok tt → (a >> b) ≡ ok tt
then_ok {a} {b} h k = rw h k

verify_payment-ok :
    (hd : Hd) (coin : CoinId) (outputs : List TxOut) (addr : Text) (v : ℤ) (script : Bytes)
    → ltb_ℤ (pos 0) v ≡ true
    → hd.address_to_script_pubkey coin addr ≡ ok script
    → any (pays script (pos_part v)) outputs ≡ true
    → verify_payment hd coin outputs addr v ≡ ok tt
unfolding verify_payment
verify_payment-ok hd coin outputs addr v script h e a = rw (h, e, not_below v h, a) refl

module _ (hd : Hd) (hex : Hex) (parse : ParseTxid) (coin : CoinId) (mnemonic : Text)
    (passphrase : Option Text) where
  verify_payments-assemble_outputs :
      (payments : List (Text × ℤ)) (pre os post : List TxOut)
      → All IsPositive payments
      → assemble_outputs hd hex parse coin mnemonic passphrase payments ≡ ok os
      → verify_payments hd coin (pre ++ (os ++ post)) payments ≡ ok tt
  unfolding verify_payments assemble_outputs
  verify_payments-assemble_outputs [] pre os post h e = refl
  verify_payments-assemble_outputs ((addr, v) ∷ payments) pre os post h e =
      let (script, e1, e2) = and_then-ok (hd.address_to_script_pubkey coin addr) _ e in
      let (os', e3, e4) =
        and_then-ok (assemble_outputs hd hex parse coin mnemonic passphrase payments)
          (λ l. ok (record { value = pos_part v; script_pubkey = script } ∷ l)) e2 in
      let o : TxOut = record { value = pos_part v; script_pubkey = script } in
      let r : o ∷ os' ≡ os = cc in
      let here =
        any-middle (pays script (pos_part v)) pre (os' ++ post) o
          (pays-itself script (pos_part v)) in
      let rest =
        subst (λ l. verify_payments hd coin l payments ≡ ok tt)
          (append_assoc pre (o ∷ []) (os' ++ post))
          (verify_payments-assemble_outputs payments (pre ++ o ∷ []) os' post h.1 e3) in
      subst
        (λ l.
          (verify_payment hd coin (pre ++ (l ++ post)) addr v
            >> verify_payments hd coin (pre ++ (l ++ post)) payments)
          ≡ ok tt)
        r
        (then_ok (verify_payment-ok hd coin (pre ++ (o ∷ (os' ++ post))) addr v script h.0 e1 here)
          rest)

  -- The check of the payments accepts every transaction that is put together for them, provided that
  -- each of them is positive.
  pub assemble_transaction-verify_payments :
      (now : ℕ) (utxos : List Utxo) (payments : List (Text × ℤ)) (change_address : Text)
      (fee_sats : ℤ) (tx : VeriumMutableTx) (keys : List Text)
      → All IsPositive payments
      → assemble_transaction hd hex parse coin mnemonic passphrase now utxos payments change_address
          fee_sats
        ≡ ok (tx, keys)
      → verify_payments hd coin tx.outputs payments ≡ ok tt
  unfolding assemble_transaction
  assemble_transaction-verify_payments now utxos payments addr fee tx keys h e =
      let ((inputs, ks, sum), e1, e2) =
        and_then-ok (assemble_inputs hd hex parse coin mnemonic passphrase utxos [] [] (pos 0)) _
          e in
      let done =
        with_outputs-Finished hd hex parse coin mnemonic passphrase now inputs ks payments addr
          (I64.sub (I64.sub sum (sum_outputs_from (pos 0) payments)) fee) tx keys e2 in
      subst (λ l. verify_payments hd coin l payments ≡ ok tt) (sym done.outputs_are)
        (verify_payments-assemble_outputs payments [] done.outs done.change h done.outputs_done)
