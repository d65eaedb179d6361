-- ===== src/Facade/History.antt =====
-- vericonomy-wallet-facade/src/history.rs: the merge of the cached history with pending rows.
pub mod Merged
mod Tests
use vericonomy_sdk.Base.{
  ℕ, Bool, true, false, not, ◌&&◌, ◌||◌, Option, none, some, List, [], ◌∷◌, ltb, ◌==◌,
  if◌then◌else◌,
}
use vericonomy_sdk.Base.Sort.{sort_by}
use vericonomy_sdk.Int.{ℤ, pos, ltb_ℤ, leb_ℤ}
use vericonomy_sdk.Text.{Text}
use vericonomy_sdk.TextMap.{get, put}
use vericonomy_sdk.Chain.{WalletTx}
use vericonomy_sdk.Chain.HistoryRows.{wallet_tx_row_key}

-- `is_some()`, and `unwrap_or(0)`
abbrev pub is_some : {A : Type 0} → Option A → Bool
is_some none = false
is_some (some a) = true

abbrev pub or_zero : Option ℕ → ℕ
or_zero none = 0
or_zero (some n) = n

module _ {F : Type 0} where
  unfoldable pub tx_history_confirmed : WalletTx F → Bool
  tx_history_confirmed tx = ltb_ℤ (pos 0) tx.height || is_some tx.blockheight

  -- `base.into_iter().map(…).collect()`, on top of the rows so far
  unfoldable pub collect_rows :
      List (Text × WalletTx F) → List (WalletTx F) → List (Text × WalletTx F)
  collect_rows rows [] = rows
  collect_rows rows (tx ∷ txs) = collect_rows (put (wallet_tx_row_key tx) tx rows) txs

  -- The body of `for tx in pending`, when the row with its key is `existing`
  unfoldable pub add_over :
      Option (WalletTx F) → WalletTx F → List (Text × WalletTx F) → List (Text × WalletTx F)
  add_over none tx rows = put (wallet_tx_row_key tx) tx rows
  add_over (some existing) tx rows =
      if tx_history_confirmed existing && not (tx_history_confirmed tx)
      then rows
      else put (wallet_tx_row_key tx) tx rows

  unfoldable pub add_pending : List (Text × WalletTx F) → WalletTx F → List (Text × WalletTx F)
  unfolding add_over
  add_pending rows tx = add_over (get (wallet_tx_row_key tx) rows) tx rows

  unfoldable pub add_all : List (Text × WalletTx F) → List (WalletTx F) → List (Text × WalletTx F)
  unfolding add_pending
  add_all rows [] = rows
  add_all rows (tx ∷ txs) = add_all (add_pending rows tx) txs

  -- `tb.cmp(&ta).then(b.height.cmp(&a.height))` is not `Greater`: the later one first, and of one time
  -- the higher one.
  abbrev pub newer : WalletTx F → WalletTx F → Bool
  newer a b =
      if ltb (or_zero b.time) (or_zero a.time)
      then true
      else if or_zero a.time == or_zero b.time
      then leb_ℤ b.height a.height
      else false

  -- `into_values` is `values`: a `HashMap` gives its values in any order.
  unfoldable pub merge_tx_history :
      (List (Text × WalletTx F) → List (WalletTx F))
      → List (WalletTx F)
      → List (WalletTx F)
      → List (WalletTx F)
  unfolding collect_rows add_all
  merge_tx_history values base pending =
      sort_by newer (values (add_all (collect_rows [] base) pending))
