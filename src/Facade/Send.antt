-- ===== src/Facade/Send.antt =====
-- vericonomy-wallet-facade/src/send.rs: a payment, from its plan to the network. The state is the list
-- of the transactions that the backend was told to broadcast, the last one first.
pub mod Checked
mod Tests
use vericonomy_sdk.Base.{ℕ, Bool, not, Option, List, [], ◌∷◌, is_empty, if◌then◌else◌}
use vericonomy_sdk.Int.{ℤ, pos}
use vericonomy_sdk.Int.I64
use vericonomy_sdk.Float.{Float}
use vericonomy_sdk.Text.{Text, codes}
use vericonomy_sdk.Hex.{Hex}
use vericonomy_sdk.Errors.{Result, ok, err, insufficient_funds}
use vericonomy_sdk.Action.{Action, ◌>>=◌, ◌>>◌, done, lift, require}
use vericonomy_sdk.Params.{CoinId}
use vericonomy_sdk.Hd.{Hd}
use vericonomy_sdk.Chain.{Utxo}
use vericonomy_sdk.Tx.Script.{Bytes}
use vericonomy_sdk.Tx.Wire.{Wire}
use vericonomy_sdk.Tx.Sign.{Secp}
use vericonomy_sdk.Engine.Money.{sum_values}
use vericonomy_sdk.Engine.Plan.{plan_send_utxos, replan_fee_for_selected}
use vericonomy_sdk.Engine.Address.{validate_send_address}
use vericonomy_sdk.Engine.Assemble.{ParseTxid, SignedTx, sign_transaction}
use vericonomy_sdk.Facade.Verify.{verify_send_outputs}
use vericonomy_sdk.Facade.Prepare.{prepare_utxos_for_signing}
use vericonomy_sdk.Facade.Signatures.{P2pkh, verify_signed_p2pkh_inputs}

-- `F` stands for `f64`.
pub record SendPaymentParams (F : Type 0) : Type 0 where
  pub recipient : Text
  pub amount_sats : ℤ
  pub fee_rate_coins_per_kb : F
  pub utxos : List Utxo
  pub change_address : Text
  pub bip39_passphrase : Option Text

pub record SendResult : Type 0 where
  pub txid : Text
  pub raw_hex : Text
  pub fee_sats : ℤ
  pub change_sats : ℤ
  pub spent_utxos : List Utxo

-- DEFAULT_TX_FEE_COINS_PER_KB
abbrev pub default_tx_fee_coins_per_kb : (f : Float) → f.Carrier
default_tx_fee_coins_per_kb f = f.decimal 1 3

-- The rate of the payment, or the default one.
abbrev pub rate_or_default : (f : Float) → f.Carrier → f.Carrier
rate_or_default f rate =
    if f.lt (f.of_int (pos 0)) rate then rate else default_tx_fee_coins_per_kb f

-- What the backend does: `get_raw_tx_hex i` answers while the coin `i` is prepared.
pub record Backend : Type 0 where
  pub get_raw_tx_hex : ℕ → Text → Result Text
  pub broadcast_tx : Text → Result Text

unfoldable pub broadcast : Backend → Text → Action (List Text) Text
broadcast backend raw_hex sent = (backend.broadcast_tx raw_hex, raw_hex ∷ sent)

module _ (f : Float) (w : Wire) (sha256 : Bytes → Bytes) (hex : Hex) (parse : ParseTxid)
    (secp : Secp) (p : P2pkh) (hd : Hd) (backend : Backend) (now : ℕ) (coin : CoinId)
    (mnemonic : Text) where
  -- From the signed transaction on.
  unfoldable pub send_signed :
      SendPaymentParams f.Carrier → List Utxo → ℤ → SignedTx → Action (List Text) SendResult
  unfolding broadcast
  send_signed params selected fee_sats signed = do
    lift
        (verify_send_outputs w hex hd coin signed.hex ((params.recipient, params.amount_sats) ∷ []))
    lift (verify_signed_p2pkh_inputs w sha256 hex parse secp p signed.hex selected)
    txid ← broadcast backend signed.hex
    done (record {
      txid = txid;
      raw_hex = signed.hex;
      fee_sats = fee_sats;
      change_sats = I64.sub (I64.sub (sum_values selected) params.amount_sats) fee_sats;
      spent_utxos = selected;
    })

  -- From the planned coins on.
  unfoldable pub send_planned :
      SendPaymentParams f.Carrier → f.Carrier → List Utxo → Action (List Text) SendResult
  unfolding send_signed
  send_planned params rate planned = do
    selected ←
        lift (prepare_utxos_for_signing w sha256 hex parse hd coin backend.get_raw_tx_hex planned)
    fee_sats ← lift (replan_fee_for_selected f selected params.amount_sats rate 1)
    signed ← lift (
        sign_transaction hd hex parse coin mnemonic params.bip39_passphrase w sha256 secp now
          selected ((params.recipient, params.amount_sats) ∷ []) params.change_address fee_sats)
    send_signed params selected fee_sats signed

  unfoldable pub send_payment : SendPaymentParams f.Carrier → Action (List Text) SendResult
  unfolding send_planned
  send_payment params = do
    lift (validate_send_address hd coin params.recipient)
    let rate = rate_or_default f params.fee_rate_coins_per_kb
    require (not (is_empty params.utxos))
        (insufficient_funds (codes "no spendable coins in wallet"))
    plan ← lift (plan_send_utxos f params.utxos params.amount_sats rate 1)
    send_planned params rate plan.0
