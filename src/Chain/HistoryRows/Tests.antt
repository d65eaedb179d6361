-- ===== src/Chain/HistoryRows/Tests.antt =====
-- Rows of a payment with change.
use vericonomy_sdk.Int.I64
use vericonomy_sdk.Base.{◌≡◌, refl, true, false, none, some, Option, List, [], ◌∷◌, All}
use vericonomy_sdk.Int.{ℤ, pos}
use vericonomy_sdk.Float.Fixed.{fixed}
use vericonomy_sdk.Text.{Text, codes, text_eq}
use vericonomy_sdk.Params.{CoinId, verium}
use vericonomy_sdk.Chain.{WalletTx}
use vericonomy_sdk.Tx.Script.{Bytes}
use vericonomy_sdk.Tx.Wire.{VeriumMutableTx}
use vericonomy_sdk.Tx.Toy.{toy_hex}
use vericonomy_sdk.Chain.HistoryRows.{
  category_for_incoming_credit, rows_from_decoded_tx, wallet_tx_row_key,
}
use vericonomy_sdk.Chain.HistoryRows.Rows.{IsRow, rows_from_decoded_tx-IsRow}

-- A script of toys is its address behind one byte.
abbrev address_of : CoinId → Bytes → Option Text
address_of coin [] = none
address_of coin (b ∷ address) = some address

abbrev payment : VeriumMutableTx
payment = record {
  version = pos 1;
  n_time = 1700000000;
  inputs =
      record { previous_output = record { txid = 9 ∷ []; vout = 0 }; script_sig = []; sequence = 0 }
      ∷ [];
  outputs =
      record { value = 80000000; script_pubkey = 0x76 ∷ 50 ∷ [] }
      ∷ record { value = 9900000; script_pubkey = 0x76 ∷ 60 ∷ [] }
      ∷ [];
  lock_time = 0;
}

abbrev rows : List (WalletTx ℤ)
rows =
    rows_from_decoded_tx fixed verium toy_hex address_of ((0x76 ∷ 60 ∷ []) ∷ []) ((60 ∷ []) ∷ [])
      ((9 ∷ [], 0) ∷ []) (codes "t") payment (pos 5) (some 7)

abbrev keys_of : List (WalletTx ℤ) → List Text
keys_of [] = []
keys_of (r ∷ rs) = wallet_tx_row_key r ∷ keys_of rs

-- The change comes as a receipt, and the payment as a send.
change_is_received : keys_of rows ≡ (codes "t:receive:<" ∷ codes "t:send:2" ∷ [])
unfolding rows_from_decoded_tx text_eq I64.wrap wallet_tx_row_key category_for_incoming_credit
change_is_received = refl

rows_from_decoded_tx-IsRow_example :
    All
      (IsRow fixed verium toy_hex address_of
        ((0x76 ∷ 60 ∷ []) ∷ [])
        ((60 ∷ []) ∷ [])
        ((9 ∷ [], 0) ∷ [])
        (codes "t")
        payment
        (pos 5)
        (some 7))
      rows
rows_from_decoded_tx-IsRow_example =
    rows_from_decoded_tx-IsRow fixed verium toy_hex address_of ((0x76 ∷ 60 ∷ []) ∷ [])
      ((60 ∷ []) ∷ []) ((9 ∷ [], 0) ∷ []) (codes "t") payment (pos 5) (some 7)

mature_coinbase_is_generate :
    category_for_incoming_credit verium (pos 100) (pos 101) true false ≡ codes "generate"
unfolding category_for_incoming_credit
mature_coinbase_is_generate = refl

immature_coinbase_before_maturity :
    category_for_incoming_credit verium (pos 100) (pos 50) true false ≡ codes "immature"
unfolding category_for_incoming_credit
immature_coinbase_before_maturity = refl

plain_receive_unchanged :
    category_for_incoming_credit verium (pos 100) (pos 10) false false ≡ codes "receive"
unfolding category_for_incoming_credit
plain_receive_unchanged = refl
