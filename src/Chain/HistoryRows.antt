-- ===== src/Chain/HistoryRows.antt =====
-- vericonomy-chain/src/history_rows.rs: the rows of the history that a transaction gives. The address of
-- a script comes from vericonomy-hd/src/lib.rs, and is a parameter.
pub mod Rows
mod Tests
use mathlib.Core.List.{reverse}
use vericonomy_sdk.Base.{
  ℕ, ◌+◌, ◌-◌, ◌%◌, ◌^◌, Bool, true, false, not, Option, none, some, List, [], ◌∷◌, ◌++◌, any,
  filter, map, ltb, leb, ◌==◌, is_empty, if◌then◌else◌,
}
use vericonomy_sdk.Int.{ℤ, pos, negsuc, ltb_ℤ, leb_ℤ}
use vericonomy_sdk.Int.I64
use vericonomy_sdk.Float.{Float}
use vericonomy_sdk.Text.{Text, codes, text_eq}
use vericonomy_sdk.Hex.{Hex}
use vericonomy_sdk.Params.{CoinId, maturity_confirmations}
use vericonomy_sdk.Chain.{WalletTx}
use vericonomy_sdk.Tx.Script.{Bytes}
use vericonomy_sdk.Tx.Wire.{TxIn, TxOut, VeriumMutableTx, is_coinbase_tx}
use vericonomy_sdk.Tx.Sighash.{as_u32}

-- `n as i32` of a `u32`
abbrev pub as_i32 : ℕ → ℤ
as_i32 n = if ltb n (2 ^ 31) then pos n else negsuc (2 ^ 32 - 1 - n)

abbrev pub or_empty : Option Text → Text
or_empty none = []
or_empty (some t) = t

unfoldable pub wallet_tx_row_key : {F : Type 0} → WalletTx F → Text
wallet_tx_row_key tx = tx.txid ++ (codes ":" ++ (tx.category ++ (codes ":" ++ or_empty tx.address)))

-- `tip` is a `u32` and `block_height` a `u64`.
unfoldable pub confirmations_for : Option ℕ → Option ℕ → ℤ
confirmations_for (some tip) (some bh) =
    if leb (bh % 2 ^ 32) tip then as_i32 ((tip - bh % 2 ^ 32 + 1) % 2 ^ 32) else pos 0
confirmations_for (some tip) none = pos 0
confirmations_for none bh = pos 0

unfoldable pub category_receive : ℤ → Text
category_receive height = if leb_ℤ height (pos 0) then codes "unconfirmed" else codes "receive"

unfoldable pub category_for_incoming_credit : CoinId → ℤ → ℤ → Bool → Bool → Text
unfolding category_receive maturity_confirmations
category_for_incoming_credit coin height confirmations is_coinbase is_coinstake =
    if is_coinstake
    then codes "stake"
    else if is_coinbase
    then (if leb_ℤ height (pos 0)
        then codes "unconfirmed"
        else if leb_ℤ confirmations (pos 0)
        then codes "orphan"
        else if ltb_ℤ confirmations (pos (maturity_confirmations coin + 1))
        then codes "immature"
        else codes "generate")
    else category_receive height

pub record OutputView : Type 0 where
  pub address : Text
  pub value_sats : ℤ

-- `max_by_key(|o| o.value_sats)`, which keeps the last of the largest. `best` is the one so far.
abbrev pub max_by_value : OutputView → List OutputView → OutputView
max_by_value best [] = best
max_by_value best (o ∷ rest) =
    max_by_value (if leb_ℤ best.value_sats o.value_sats then o else best) rest

unfoldable pub change_output_address : List OutputView → Option Text
change_output_address [] = none
change_output_address (o ∷ rest) = some (max_by_value o rest).address

-- `change_addr.as_deref() != Some(address)`
abbrev pub differs_from : Option Text → Text → Bool
differs_from none address = true
differs_from (some change) address = not (text_eq change address)

-- What all rows of a transaction share.
pub record RowContext : Type 0 where
  pub txid : Text
  pub height : ℤ
  pub blockheight : Option ℕ
  pub time : Option ℕ
  pub blockhash : Option Text
  pub confirmations : ℤ

module _ (f : Float) (coin : CoinId) where
  -- `sats_to_coins`
  abbrev pub sats_to_coins : ℤ → f.Carrier
  sats_to_coins sats = f.div (f.of_int sats) (f.of_int (pos 100000000))

  abbrev pub make_row : RowContext → Text → f.Carrier → Text → WalletTx f.Carrier
  make_row at category amount_coins address = record {
    txid = at.txid;
    height = at.height;
    fee_sats = none;
    category = category;
    amount = amount_coins;
    address = some address;
    confirmations = at.confirmations;
    time = at.time;
    blockhash = at.blockhash;
    blockheight = at.blockheight;
  }

  -- The row of a credit, and the one of a debit.
  abbrev pub credit_row : RowContext → Bool → OutputView → WalletTx f.Carrier
  credit_row at is_coinbase out =
      make_row at (category_for_incoming_credit coin at.height at.confirmations is_coinbase false)
        (sats_to_coins out.value_sats) out.address

  abbrev pub debit_row : RowContext → OutputView → WalletTx f.Carrier
  debit_row at out = make_row at (codes "send") (f.neg (sats_to_coins out.value_sats)) out.address

  -- The loop over the wallet's outputs of a transaction that spends from the wallet.
  unfoldable pub spend_rows :
      RowContext → Bool → Option Text → List OutputView → List (WalletTx f.Carrier)
  spend_rows at is_coinbase change_addr [] = []
  spend_rows at is_coinbase change_addr (out ∷ rest) =
      let more = spend_rows at is_coinbase change_addr rest in
      credit_row at is_coinbase out
      ∷ (if differs_from change_addr out.address then debit_row at out ∷ more else more)

  unfoldable pub rows_from_outputs :
      RowContext
      → (is_spend is_coinbase : Bool) (wallet_outputs external_outputs : List OutputView)
      → List (WalletTx f.Carrier)
  unfolding spend_rows change_output_address
  rows_from_outputs at is_spend is_coinbase wallet_outputs external_outputs =
      if not is_spend
      then map (credit_row at is_coinbase) wallet_outputs
      else (spend_rows at is_coinbase (change_output_address wallet_outputs) wallet_outputs
          ++ map (debit_row at) external_outputs)

  module _ (hex : Hex) (p2pkh_script_to_address : CoinId → Bytes → Option Text)
      (wallet_scripts : List Bytes) (wallet_addresses : List Text)
      (prev_output_is_ours : List (Text × ℕ)) where
    abbrev pub script_matches_wallet : Bytes → Bool
    script_matches_wallet script = any (λ s. text_eq s script) wallet_scripts

    -- The view of an output, whose value is an `i64` of the `u64`.
    abbrev pub view_of : TxOut → OutputView
    view_of out = record {
      address = or_empty (p2pkh_script_to_address coin out.script_pubkey);
      value_sats = I64.wrap (pos out.value);
    }

    -- `for out in &decoded.outputs`: the wallet's outputs, and the others.
    unfoldable pub split_outputs : List TxOut → List OutputView × List OutputView
    split_outputs [] = ([], [])
    split_outputs (out ∷ rest) =
        let (wallet, external) = split_outputs rest in
        let view = view_of out in
        if leb_ℤ view.value_sats (pos 0)
        then (wallet, external)
        else if script_matches_wallet out.script_pubkey
        then (view ∷ wallet, external)
        else if not (is_empty view.address)
        then (wallet, view ∷ external)
        else (wallet, external)

    -- `prev_output_is_ours.contains(…)` for an input
    abbrev pub spends_ours : TxIn → Bool
    spends_ours input =
        any
          (λ (o : Text × ℕ).
            if text_eq o.0 (hex.encode (reverse input.previous_output.txid))
            then o.1 == input.previous_output.vout
            else false)
          prev_output_is_ours

    abbrev pub is_spend_of : VeriumMutableTx → Bool
    is_spend_of decoded = any spends_ours decoded.inputs

    abbrev pub context_of : Text → VeriumMutableTx → ℤ → Option ℕ → RowContext
    context_of txid decoded height tip =
        let blockheight : Option ℕ = if ltb_ℤ (pos 0) height then some (as_u32 height) else none in
        record {
          txid = txid;
          height = height;
          blockheight = blockheight;
          time = some decoded.n_time;
          blockhash = none;
          confirmations = confirmations_for tip blockheight;
        }

    unfoldable pub rows_from_decoded_tx :
        Text → VeriumMutableTx → ℤ → Option ℕ → List (WalletTx f.Carrier)
    unfolding rows_from_outputs split_outputs is_coinbase_tx confirmations_for
    rows_from_decoded_tx txid decoded height tip =
        let (wallet, external) = split_outputs decoded.outputs in
        rows_from_outputs (context_of txid decoded height tip) (is_spend_of decoded)
          (is_coinbase_tx decoded)
          (filter (λ (o : OutputView). any (text_eq o.address) wallet_addresses) wallet) external
