-- ===== src/Engine/Assemble/Payment.antt =====
-- One payment from a wallet of toy keys.
use vericonomy_sdk.Base.{ℕ, ◌≡◌, refl, none, List, [], ◌∷◌, inr}
use vericonomy_sdk.Int.{pos, ◌+ℤ◌, ◌-ℤ◌}
use vericonomy_sdk.Int.I64
use vericonomy_sdk.Text.{Text, text_eq, trim}
use vericonomy_sdk.Errors.{ok}
use vericonomy_sdk.Params.{verium}
use vericonomy_sdk.Chain.{Utxo}
use vericonomy_sdk.Tx.Wire.{VeriumMutableTx}
use vericonomy_sdk.Tx.Toy.{toy_hex}
use vericonomy_sdk.Engine.Toy.{toy_hd, phrase}
use vericonomy_sdk.Engine.Keys.{find_signing_key, find_on_chain, key_at}
use vericonomy_sdk.Engine.Assemble.{
  ParseTxid, parse_display_txid, assemble_transaction, assemble_inputs, assemble_outputs,
  change_output, with_outputs, input_with_key, input_of, sum_outputs_from,
}

abbrev pub parse : ParseTxid
parse = inr

abbrev pub coin : ℕ → ℕ → Utxo
coin index value = record {
  txid = 9 ∷ index ∷ [];
  vout = index;
  value_sats = pos value;
  height = 1;
  address = 86 ∷ index ∷ [];
  script_hex = 0x76 ∷ 86 ∷ index ∷ [];
  confirmations = 1;
}

abbrev pub coins : List Utxo
coins = coin 0 40000000 ∷ coin 1 50000000 ∷ []

abbrev pub sent : VeriumMutableTx
sent = record {
  version = pos 1;
  n_time = 1700000000;
  inputs = input_of (9 ∷ 0 ∷ []) 0 ∷ input_of (9 ∷ 1 ∷ []) 1 ∷ [];
  outputs =
      record { value = 80000000; script_pubkey = 0x76 ∷ 86 ∷ 50 ∷ [] }
      ∷ record { value = 9900000; script_pubkey = 0x76 ∷ 86 ∷ 60 ∷ [] }
      ∷ [];
  lock_time = 0;
}

abbrev pub keys : List Text
keys = (0 ∷ 0 ∷ []) ∷ (0 ∷ 1 ∷ []) ∷ []

pub assembled :
    assemble_transaction toy_hd toy_hex parse verium phrase none 1700000000 coins
      ((86 ∷ 50 ∷ [], pos 80000000) ∷ [])
      (86 ∷ 60 ∷ [])
      (pos 100000)
    ≡ ok (sent, keys)
unfolding assemble_transaction assemble_inputs assemble_outputs change_output with_outputs
    input_with_key input_of parse_display_txid sum_outputs_from find_signing_key find_on_chain
    key_at text_eq trim I64.add I64.sub I64.wrap ◌+ℤ◌ ◌-ℤ◌
assembled = refl
