-- ===== src/Facade/Verify.antt =====
-- vericonomy-wallet-facade/src/verify.rs: the check of the payments before a transaction is sent.
pub mod Accepts
pub mod Paid
mod Tests
use vericonomy_sdk.Base.{
  ℕ, Bool, ◌&&◌, ◌||◌, not, List, [], ◌∷◌, ◌++◌, ◌==◌, any, is_empty, if◌then◌else◌,
}
use vericonomy_sdk.Int.{ℤ, pos, pos_part, ltb_ℤ}
use vericonomy_sdk.Text.{Text, codes, text_eq, trim, eq_ignore_ascii_case, show_i64}
use vericonomy_sdk.Hex.{Hex, or_fail}
use vericonomy_sdk.Errors.{Result, ok, err, ◌>>=◌, ◌>>◌, ensure, other, to_string}
use vericonomy_sdk.Params.{CoinId}
use vericonomy_sdk.Hd.{Hd}
use vericonomy_sdk.Tx.Script.{Bytes}
use vericonomy_sdk.Tx.Wire.{Wire, TxOut, VeriumMutableTx, decode_verium_tx}

unfoldable pub script_pays_to : Text → Text → Bool
script_pays_to script_hex expected_script_hex =
    eq_ignore_ascii_case (trim script_hex) (trim expected_script_hex)

-- The closure of `tx.outputs.iter().any(…)`.
abbrev pub pays : Bytes → ℕ → TxOut → Bool
pays script amount out = text_eq out.script_pubkey script && out.value == amount

-- `.map_err(|e| WalletError::other(e.to_string()))`
unfoldable pub as_other : {A : Type 0} → Result A → Result A
unfolding to_string
as_other (ok a) = ok a
as_other (err e) = err (other (to_string e))

abbrev pub not_paid : ℤ → Text → Text
not_paid amount_sats addr =
    codes "signed transaction does not pay "
    ++ (show_i64 amount_sats ++ (codes " sats to " ++ addr))

-- `u64::try_from(*amount_sats)`
abbrev pub amount_u64 : Text → ℤ → Result ℕ
amount_u64 addr amount_sats =
    if ltb_ℤ amount_sats (pos 0)
    then err (other (codes "amount overflow for " ++ addr))
    else ok (pos_part amount_sats)

module _ (hd : Hd) (coin : CoinId) (outputs : List TxOut) where
  -- One round of `for (addr, amount_sats) in expected`
  unfoldable pub verify_payment : Text → ℤ → Result (Unit {0})
  verify_payment addr amount_sats = do
    ensure (ltb_ℤ (pos 0) amount_sats) (other (codes "invalid amount for " ++ addr))
    script ← hd.address_to_script_pubkey coin addr
    amount ← amount_u64 addr amount_sats
    ensure (any (pays script amount) outputs) (other (not_paid amount_sats addr))

  unfoldable pub verify_payments : List (Text × ℤ) → Result (Unit {0})
  unfolding verify_payment
  verify_payments [] = ok tt
  verify_payments ((addr, amount_sats) ∷ rest) =
      (verify_payment addr amount_sats) >> (verify_payments rest)

unfoldable pub verify_send_outputs :
    Wire → Hex → Hd → CoinId → Text → List (Text × ℤ) → Result (Unit {0})
unfolding verify_payments as_other
verify_send_outputs w hex hd coin raw_hex expected = do
  bytes ← or_fail (hex.decode (trim raw_hex)) (λ e. other (codes "tx hex decode: " ++ e))
  tx ← as_other (decode_verium_tx w bytes)
  ensure (not (is_empty tx.inputs || is_empty tx.outputs))
      (other (codes "transaction has no inputs or outputs"))
  verify_payments hd coin tx.outputs expected
