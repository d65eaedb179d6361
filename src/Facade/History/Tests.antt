-- ===== src/Facade/History/Tests.antt =====
-- The merges that the code tests.
use mathlib.Core.List.{Perm}
use mathlib.Core.List.Perm
use vericonomy_sdk.Base.{ℕ, ◌≡◌, refl, none, some, List, [], ◌∷◌, All, map}
use vericonomy_sdk.Base.Sort.{IsSortedBy}
use vericonomy_sdk.Int.{pos}
use vericonomy_sdk.Text.{Text, codes, text_eq}
use vericonomy_sdk.TextMap.{get, put}
use vericonomy_sdk.Chain.{WalletTx}
use vericonomy_sdk.Chain.HistoryRows.{wallet_tx_row_key}
use vericonomy_sdk.Facade.History.{
  tx_history_confirmed, collect_rows, add_all, newer, merge_tx_history,
}
use vericonomy_sdk.Facade.History.Merged.{Kept, merge_tx_history-Merged}

abbrev tx : Text → ℕ → WalletTx ℕ
tx txid height = record {
  txid = txid;
  height = pos height;
  fee_sats = none;
  category = codes "receive";
  amount = 1;
  address = none;
  confirmations = pos height;
  time = some 1;
  blockhash = none;
  blockheight = none;
}

abbrev values : List (Text × WalletTx ℕ) → List (WalletTx ℕ)
values = map (λ r. r.1)

prefers_confirmed :
    merge_tx_history values (tx (codes "abc") 100 ∷ []) (tx (codes "abc") 0 ∷ [])
    ≡ tx (codes "abc") 100 ∷ []
unfolding merge_tx_history get put text_eq wallet_tx_row_key tx_history_confirmed
prefers_confirmed = refl

includes_new :
    merge_tx_history values (tx (codes "abc") 100 ∷ []) (tx (codes "def") 0 ∷ [])
    ≡ tx (codes "abc") 100 ∷ tx (codes "def") 0 ∷ []
unfolding merge_tx_history get put text_eq wallet_tx_row_key
includes_new = refl

abbrev base : List (WalletTx ℕ)
base = tx (codes "abc") 100 ∷ []

abbrev pending : List (WalletTx ℕ)
pending = tx (codes "abc") 0 ∷ tx (codes "def") 0 ∷ []

merge_tx_history-Merged_example :
    IsSortedBy newer (merge_tx_history values base pending)
    × Perm
        (merge_tx_history values base pending)
        (map (λ r. r.1) (add_all (collect_rows [] base) pending))
    × ((k : Text)
        → Kept (get k (collect_rows [] base)) (get k (add_all (collect_rows [] base) pending)))
    × All
        (λ tx. Kept (some tx) (get (wallet_tx_row_key tx) (add_all (collect_rows [] base) pending)))
        pending
merge_tx_history-Merged_example = merge_tx_history-Merged values base pending (λ rows. Perm.refl _)
