-- ===== src/Facade/Send/Checked.antt =====
-- What a send hands to the network.
use vericonomy_sdk.Base.{
  ℕ, ◌≡◌, sym, ap, subst, ◌∙◌, false, not, inl, inr, ◌⊎◌, List, [], ◌∷◌, is_empty, if◌then◌else◌,
}
use vericonomy_sdk.Int.{ℤ}
use vericonomy_sdk.Int.I64
use vericonomy_sdk.Float.{Float}
use vericonomy_sdk.Text.{Text, trim, codes}
use vericonomy_sdk.Hex.{Hex}
use vericonomy_sdk.Errors.{Result, ok, err, and_then, is_ok, insufficient_funds}
use vericonomy_sdk.Action.{lift-either, resume}
use vericonomy_sdk.Params.{CoinId}
use vericonomy_sdk.Hd.{Hd}
use vericonomy_sdk.Chain.{Utxo}
use vericonomy_sdk.Tx.Script.{Bytes}
use vericonomy_sdk.Tx.Wire.{Wire, VeriumMutableTx, decode_verium_tx}
use vericonomy_sdk.Tx.Sign.{Secp}
use vericonomy_sdk.Engine.Money.{sum_values}
use vericonomy_sdk.Engine.Plan.{plan_send_utxos, replan_fee_for_selected}
use vericonomy_sdk.Engine.Address.{validate_send_address}
use vericonomy_sdk.Engine.Assemble.{ParseTxid, SignedTx, sign_transaction}
use vericonomy_sdk.Facade.Verify.{verify_send_outputs}
use vericonomy_sdk.Facade.Verify.Paid.{IsPaid, verify_send_outputs-IsPaid}
use vericonomy_sdk.Facade.Prepare.{prepare_utxos_for_signing}
use vericonomy_sdk.Facade.Prepare.Sound.{ArePrepared, prepare_utxos_for_signing-ArePrepared}
use vericonomy_sdk.Facade.Signatures.{P2pkh, verify_signed_p2pkh_inputs}
use vericonomy_sdk.Facade.Signatures.Signed.{AreSigned, verify_signed_p2pkh_inputs-AreSigned}
use vericonomy_sdk.Facade.Send.{
  SendPaymentParams, SendResult, Backend, broadcast, rate_or_default, send_signed, send_planned,
  send_payment,
}

module _ (f : Float) (w : Wire) (sha256 : Bytes → Bytes) (hex : Hex) (parse : ParseTxid)
    (secp : Secp) (p : P2pkh) (hd : Hd) (backend : Backend) (now : ℕ) (coin : CoinId)
    (mnemonic : Text) where
  -- The transaction that was handed over decodes, pays the recipient the amount, and spends and is
  -- signed for the coins `selected`; the answer of the backend decides the result.
  pub record Broadcast (params : SendPaymentParams f.Carrier) (selected : List Utxo) (fee_sats : ℤ)
      (before after : List Text) (result : Result SendResult) : Type 0 where
    pub raw : Text
    pub bytes : Bytes
    pub tx : VeriumMutableTx
    pub handed_over : after ≡ raw ∷ before
    pub answered :
        result
        ≡ and_then
            (λ txid. ok (record {
              txid = txid;
              raw_hex = raw;
              fee_sats = fee_sats;
              change_sats = I64.sub (I64.sub (sum_values selected) params.amount_sats) fee_sats;
              spent_utxos = selected;
            }))
            (backend.broadcast_tx raw)
    pub digits : hex.decode (trim raw) ≡ inr bytes
    pub decoded : decode_verium_tx w bytes ≡ ok tx
    pub paid : IsPaid hd coin tx.outputs (params.recipient, params.amount_sats)
    pub signed : AreSigned w sha256 hex parse secp p tx 0 tx.inputs selected

  -- The coins of the transaction come from the plan and were prepared, and its fee is planned for them.
  pub record Sent (params : SendPaymentParams f.Carrier) (before after : List Text)
      (result : Result SendResult) : Type 0 where
    pub planned : List Utxo
    pub selected : List Utxo
    pub first_fee : ℤ
    pub fee_sats : ℤ
    pub plan :
        plan_send_utxos f params.utxos params.amount_sats
          (rate_or_default f params.fee_rate_coins_per_kb)
          1
        ≡ ok (planned, first_fee)
    pub prepared : ArePrepared w sha256 hex parse hd coin backend.get_raw_tx_hex 0 planned selected
    pub fee :
        replan_fee_for_selected f selected params.amount_sats
          (rate_or_default f params.fee_rate_coins_per_kb)
          1
        ≡ ok fee_sats
    pub transaction : Broadcast params selected fee_sats before after result

  -- Nothing was handed over, and the result is an error.
  abbrev pub Unsent : List Text → List Text → Result SendResult → Type 0
  Unsent before after result = (is_ok result ≡ false) × (after ≡ before)

  answer :
      {A : Type 0} (r : Result A) (k : A → SendResult) {before after : List Text}
      {result : Result SendResult}
      → ◌≡◌ {A = Result SendResult × List Text}
          (resume (λ a s. (ok (k a), s)) (r, before))
          (result, after)
      → (after ≡ before) × (result ≡ and_then (λ a. ok (k a)) r)
  answer (err x) k h = (sym (ap (λ q. q.1) h), sym (ap (λ q. q.0) h))
  answer (ok a) k h = (sym (ap (λ q. q.1) h), sym (ap (λ q. q.0) h))

  -- Both checks decode the same hex.
  same_tx :
      (raw : Text) (b b' : Bytes) (t t' : VeriumMutableTx)
      → hex.decode (trim raw) ≡ inr b
      → hex.decode (trim raw) ≡ inr b'
      → decode_verium_tx w b ≡ ok t
      → decode_verium_tx w b' ≡ ok t'
      → t' ≡ t
  same_tx raw b b' t t' d d' c c' =
      let bytes : b' ≡ b = cc in
      let decoded : ok t' ≡ ok t = sym c' ∙ (ap (decode_verium_tx w) bytes ∙ c) in cc

  send_signed-Broadcast :
      (params : SendPaymentParams f.Carrier) (selected : List Utxo) (fee_sats : ℤ)
      (signed : SignedTx) (before after : List Text) (result : Result SendResult)
      → send_signed f w sha256 hex parse secp p hd backend now coin mnemonic params selected
          fee_sats signed before
        ≡ (result, after)
      → Unsent before after result ⊎ Broadcast params selected fee_sats before after result
  unfolding send_signed broadcast
  send_signed-Broadcast params selected fee_sats signed before after result e =
      elim (lift-either
        (verify_send_outputs w hex hd coin signed.hex ((params.recipient, params.amount_sats) ∷ []))
        _ e) [
          | inl unsent ↦ inl unsent
          | inr (u, checked, e1) ↦
              elim (lift-either
                (verify_signed_p2pkh_inputs w sha256 hex parse secp p signed.hex selected) _ e1) [
                  | inl unsent ↦ inl unsent
                  | inr (v, checked2, e2) ↦
                      let (bytes, tx, d, c, paid) =
                        verify_send_outputs-IsPaid w hex hd coin signed.hex _ checked in
                      let (bytes2, tx2, d2, c2, good) =
                        verify_signed_p2pkh_inputs-AreSigned w sha256 hex parse secp p signed.hex
                          selected checked2 in
                      let (handed, answered) =
                        answer (backend.broadcast_tx signed.hex)
                          (λ txid. record {
                            txid = txid;
                            raw_hex = signed.hex;
                            fee_sats = fee_sats;
                            change_sats =
                                I64.sub (I64.sub (sum_values selected) params.amount_sats) fee_sats;
                            spent_utxos = selected;
                          })
                          e2 in
                      inr (record {
                        raw = signed.hex;
                        bytes = bytes;
                        tx = tx;
                        handed_over = handed;
                        answered = answered;
                        digits = d;
                        decoded = c;
                        paid = paid.0;
                        signed =
                            subst (λ t. AreSigned w sha256 hex parse secp p t 0 t.inputs selected)
                              (same_tx signed.hex bytes bytes2 tx tx2 d d2 c c2) good;
                      })
                ]
        ]

  send_planned-Sent :
      (params : SendPaymentParams f.Carrier) (planned : List Utxo) (first_fee : ℤ)
      (before after : List Text) (result : Result SendResult)
      → plan_send_utxos f params.utxos params.amount_sats
          (rate_or_default f params.fee_rate_coins_per_kb)
          1
        ≡ ok (planned, first_fee)
      → send_planned f w sha256 hex parse secp p hd backend now coin mnemonic params
          (rate_or_default f params.fee_rate_coins_per_kb)
          planned
          before
        ≡ (result, after)
      → Unsent before after result ⊎ Sent params before after result
  unfolding send_planned
  send_planned-Sent params planned first_fee before after result plan e =
      let rate = rate_or_default f params.fee_rate_coins_per_kb in
      elim (lift-either
        (prepare_utxos_for_signing w sha256 hex parse hd coin backend.get_raw_tx_hex planned) _
        {v = before} e) [
          | inl unsent ↦ inl unsent
          | inr (selected, prepared, e1) ↦
              elim (lift-either (replan_fee_for_selected f selected params.amount_sats rate 1) _
                {v = before} e1) [
                  | inl unsent ↦ inl unsent
                  | inr (fee_sats, fee, e2) ↦
                      elim (lift-either
                        (sign_transaction hd hex parse coin mnemonic params.bip39_passphrase w
                          sha256 secp now selected ((params.recipient, params.amount_sats) ∷ [])
                          params.change_address fee_sats)
                        _ {v = before} e2) [
                          | inl unsent ↦ inl unsent
                          | inr (signed, signing, e3) ↦
                              elim (send_signed-Broadcast params selected fee_sats signed before
                                after result e3) [
                                  | inl unsent ↦ inl unsent
                                  | inr transaction ↦ inr (record {
                                    planned = planned;
                                    selected = selected;
                                    first_fee = first_fee;
                                    fee_sats = fee_sats;
                                    plan = plan;
                                    prepared =
                                        prepare_utxos_for_signing-ArePrepared w sha256 hex parse hd
                                          coin backend.get_raw_tx_hex planned selected prepared;
                                    fee = fee;
                                    transaction = transaction;
                                  })
                                ]
                        ]
                ]
        ]

  -- Whatever happens, a send either hands nothing to the network and fails, or it hands over one
  -- transaction, whose answer decides the result. That transaction pays the amount to the recipient
  -- in some output, and its inputs are the coins that were planned for the payment and then prepared,
  -- each with a signature that verifies; the fee is planned again for the prepared coins.
  pub send_payment-Sent :
      (params : SendPaymentParams f.Carrier) (before after : List Text) (result : Result SendResult)
      → send_payment f w sha256 hex parse secp p hd backend now coin mnemonic params before
        ≡ (result, after)
      → Unsent before after result ⊎ Sent params before after result
  unfolding send_payment
  send_payment-Sent params before after result e =
      let rate = rate_or_default f params.fee_rate_coins_per_kb in
      let coins_given =
        if not (is_empty params.utxos)
        then ok tt
        else err (insufficient_funds (codes "no spendable coins in wallet")) in
      elim (lift-either (validate_send_address hd coin params.recipient) _ {v = before} e) [
        | inl unsent ↦ inl unsent
        | inr (u, valid, e1) ↦ elim (lift-either coins_given _ {v = before} e1) [
          | inl unsent ↦ inl unsent
          | inr (v, given, e2) ↦
              elim (lift-either (plan_send_utxos f params.utxos params.amount_sats rate 1) _
                {v = before} e2) [
                  | inl unsent ↦ inl unsent
                  | inr ((planned, first_fee), plan, e3) ↦
                      send_planned-Sent params planned first_fee before after result plan e3
                ]
        ]
      ]
