-- ===== src/Engine/Assemble.antt =====
-- vericonomy-wallet-engine/src/signer.rs: the unsigned transaction of a send, and its signing.
pub mod Inputs
pub mod Change
pub mod Conserves
pub mod Payment
mod Tests
use vericonomy_sdk.Base.{
  ℕ, ◌+◌, ◌-◌, ◌^◌, Bool, true, false, Option, List, [], ◌∷◌, ◌++◌, if◌then◌else◌, is_empty, map,
  ◌⊎◌,
}
use vericonomy_sdk.Int.{ℤ, pos, pos_part, ltb_ℤ}
use vericonomy_sdk.Int.I64
use vericonomy_sdk.Text.{Text, codes, trim}
use vericonomy_sdk.Hex.{Hex, or_fail}
use vericonomy_sdk.Errors.{
  Result, ok, err, ◌>>=◌, ◌>>◌, ensure, other, transaction, insufficient_funds,
}
use vericonomy_sdk.Params.{CoinId}
use vericonomy_sdk.Hd.{Hd}
use vericonomy_sdk.Chain.{Utxo}
use vericonomy_sdk.Tx.Script.{Bytes}
use vericonomy_sdk.Tx.Wire.{Wire, TxIn, TxOut, VeriumMutableTx, serialize_verium_tx}
use vericonomy_sdk.Tx.Sign.{Secp, SignInput, build_signed_tx_hex, display_txid_from_raw}
use vericonomy_sdk.Engine.Fees.{dust_change_sats}
use vericonomy_sdk.Engine.Keys.{find_signing_key}

pub record SignedTx : Type 0 where
  pub hex : Text
  pub txid : Text

-- `Txid::from_str` of the `bitcoin` crate
abbrev pub ParseTxid : Type 0
ParseTxid = Text → Text ⊎ Bytes

unfoldable pub parse_display_txid : ParseTxid → Text → Result Bytes
parse_display_txid parse txid_hex =
    or_fail (parse txid_hex)
      (λ e. transaction (codes "invalid txid " ++ (txid_hex ++ (codes ": " ++ e))))

-- `outputs.iter().map(|(_, v)| *v).sum()`
unfoldable pub sum_outputs_from : ℤ → List (Text × ℤ) → ℤ
sum_outputs_from sum [] = sum
sum_outputs_from sum ((addr, value) ∷ rest) = sum_outputs_from (I64.add sum value) rest

unfoldable pub input_of : Bytes → ℕ → TxIn
input_of txid vout = record {
  previous_output = record { txid = txid; vout = vout };
  script_sig = [];
  sequence = 2 ^ 32 - 1;
}

module _ (hd : Hd) (hex : Hex) (parse : ParseTxid) (coin : CoinId) (mnemonic : Text)
    (passphrase : Option Text) where
  -- The input and the key of one coin.
  unfoldable pub input_with_key : Utxo → Result (TxIn × Text)
  input_with_key utxo = do
    ensure (if is_empty utxo.script_hex then false else true)
        (other (codes "utxo missing script for signing"))
    txid ← parse_display_txid parse utxo.txid
    script_bytes ←
        or_fail (hex.decode (trim utxo.script_hex)) (λ e. other (codes "utxo script hex: " ++ e))
    (secret, pubkey) ← find_signing_key hd coin mnemonic passphrase utxo.address script_bytes
    ok (input_of txid utxo.vout, secret)

  -- `for utxo in utxos`: the inputs, the keys and the sum so far.
  unfoldable pub assemble_inputs :
      List Utxo → List TxIn → List Text → ℤ → Result (List TxIn × List Text × ℤ)
  assemble_inputs [] inputs keys sum = ok (inputs, keys, sum)
  assemble_inputs (u ∷ us) inputs keys sum = (input_with_key u) >>= λ k.
      assemble_inputs us (inputs ++ k.0 ∷ []) (keys ++ k.1 ∷ []) (I64.add sum u.value_sats)

  -- `for (addr, value) in outputs`; `value.max(0) as u64`
  unfoldable pub assemble_outputs : List (Text × ℤ) → Result (List TxOut)
  assemble_outputs [] = ok []
  assemble_outputs ((addr, value) ∷ rest) = (hd.address_to_script_pubkey coin addr) >>= λ script.
      (assemble_outputs rest) >>= λ outs.
      ok (record { value = pos_part value; script_pubkey = script } ∷ outs)

  -- The change output, above the dust threshold only.
  unfoldable pub change_output : Text → ℤ → Result (List TxOut)
  change_output change_address change_sats =
      if ltb_ℤ dust_change_sats change_sats
      then ((hd.address_to_script_pubkey coin change_address) >>= λ script.
          ok (record { value = pos_part change_sats; script_pubkey = script } ∷ []))
      else ok []

  -- From the check of the change on. `now` is the time stamp of the transaction.
  unfoldable pub with_outputs :
      ℕ → List TxIn → List Text → List (Text × ℤ) → Text → ℤ → Result (VeriumMutableTx × List Text)
  with_outputs now inputs keys outputs change_address change_sats =
      if ltb_ℤ change_sats (pos 0)
      then err (insufficient_funds (codes "insufficient funds for outputs + fee"))
      else ((assemble_outputs outputs) >>= λ outs.
          (change_output change_address change_sats) >>= λ change. ok (
            record {
              version = pos 1;
              n_time = now;
              inputs = inputs;
              outputs = outs ++ change;
              lock_time = 0;
            },
            keys,
          ))

  unfoldable pub assemble_transaction :
      ℕ → List Utxo → List (Text × ℤ) → Text → ℤ → Result (VeriumMutableTx × List Text)
  assemble_transaction now utxos outputs change_address fee_sats = do
    (inputs, keys, input_sum) ← assemble_inputs utxos [] [] (pos 0)
    let change_sats = I64.sub (I64.sub input_sum (sum_outputs_from (pos 0) outputs)) fee_sats
    with_outputs now inputs keys outputs change_address change_sats

  module _ (w : Wire) (sha256 : Bytes → Bytes) (secp : Secp) where
    unfoldable pub build_unsigned_hex : ℕ → List Utxo → List (Text × ℤ) → Text → ℤ → Result Text
    build_unsigned_hex now utxos outputs change_address fee_sats = do
      (tx, keys) ← assemble_transaction now utxos outputs change_address fee_sats
      bytes ← serialize_verium_tx w tx
      ok (hex.encode bytes)

    unfoldable pub sign_transaction : ℕ → List Utxo → List (Text × ℤ) → Text → ℤ → Result SignedTx
    sign_transaction now utxos outputs change_address fee_sats = do
      (tx, keys) ← assemble_transaction now utxos outputs change_address fee_sats
      signed ←
          build_signed_tx_hex w sha256 hex secp tx
            (map (λ (u : Utxo). record { script_hex = u.script_hex }) utxos) keys
      raw ← or_fail (hex.decode signed) (λ e. other (codes "signed tx hex: " ++ e))
      ok (record { hex = signed; txid = display_txid_from_raw w sha256 hex raw })
