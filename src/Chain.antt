-- ===== src/Chain.antt =====
-- vericonomy-chain/src/types.rs: the values that backends and wallets exchange.
pub mod HistoryRows
pub mod MultiServer
pub mod Throttle
use vericonomy_sdk.Base.{ℕ, Option}
use vericonomy_sdk.Int.{ℤ}
use vericonomy_sdk.Int.I64
use vericonomy_sdk.Text.{Text}

pub record WalletBalance : Type 0 where
  pub confirmed_sats : ℤ
  pub unconfirmed_sats : ℤ
  pub immature_sats : ℤ

unfoldable pub total_sats : WalletBalance → ℤ
total_sats b = I64.add (I64.add b.confirmed_sats b.unconfirmed_sats) b.immature_sats

unfoldable pub spendable_sats : WalletBalance → ℤ
spendable_sats b = I64.add b.confirmed_sats b.unconfirmed_sats

pub record Utxo : Type 0 where
  pub txid : Text
  pub vout : ℕ
  pub value_sats : ℤ
  pub height : ℕ
  pub address : Text
  pub script_hex : Text
  pub confirmations : ℕ

-- `F` stands for `f64`.
pub record WalletTx (F : Type 0) : Type 0 where
  pub txid : Text
  pub height : ℤ
  pub fee_sats : Option ℤ
  pub category : Text
  pub amount : F
  pub address : Option Text
  pub confirmations : ℤ
  pub time : Option ℕ
  pub blockhash : Option Text
  pub blockheight : Option ℕ
