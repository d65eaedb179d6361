-- ===== src/Facade/Send/Tests.antt =====
-- A payment from two coins of toy keys.
use mathlib.Core.List.{reverse}
use vericonomy_sdk.Engine.Keys.{find_signing_key}
use vericonomy_sdk.Facade.Verify.{script_pays_to, verify_send_outputs}
use vericonomy_sdk.Tx.Sighash.{
  double_sha256, verium_signature_hash, mask_outputs, mask_inputs, signing_copy,
}
use vericonomy_sdk.Tx.Sign.{
  display_txid_from_raw, wire_txid_from_raw, build_signed_tx_hex, sign_loop, input_script,
  sign_script_sig,
}
use vericonomy_sdk.Engine.Money.{sum_values}
use vericonomy_sdk.Engine.Fees.{
  fee_for_rate, verium_fee_for_size, coins_per_kb_to_sats_per_k, estimate_tx_size,
}
use vericonomy_sdk.Int.I64
use vericonomy_sdk.Engine.Select.{select_utxos}
use vericonomy_sdk.Engine.Plan.{
  plan_send_utxos, plan_rounds, next_fee, outputs_for, change_will_be_included,
  replan_fee_for_selected, replan_rounds,
}
use vericonomy_sdk.Engine.Address.{validate_send_address}
use vericonomy_sdk.Base.{
  ℕ, zero, suc, ◌≡◌, refl, true, none, some, Option, List, [], ◌∷◌, ◌++◌, ◌⊎◌, inr, take, drop,
  replicate,
}
use vericonomy_sdk.Int.{ℤ, pos, ◌+ℤ◌, ◌*ℤ◌, ◌-ℤ◌}
use vericonomy_sdk.Float.Fixed.{fixed}
use vericonomy_sdk.Text.{Text, codes, trim, text_eq, eq_ignore_ascii_case}
use vericonomy_sdk.Errors.{Result, ok, is_ok, found_or}
use vericonomy_sdk.Params.{verium}
use vericonomy_sdk.Hd.{Hd}
use vericonomy_sdk.Chain.{Utxo}
use vericonomy_sdk.Tx.Script.{
  Bytes, find_and_delete_code_separators, next_script_instruction, byte_at,
}
use vericonomy_sdk.Tx.Wire.{
  VeriumMutableTx, TxOut, decode_verium_tx, read_field, serialize_verium_tx,
}
use vericonomy_sdk.Tx.Toy.{toy_wire, toy_hex, toy_sha256, toy_secp}
use vericonomy_sdk.Engine.Toy.{toy_hd, phrase}
use vericonomy_sdk.Engine.Assemble.{
  ParseTxid, parse_display_txid, sign_transaction, assemble_transaction, assemble_inputs,
  input_with_key, with_outputs, sum_outputs_from, assemble_outputs, change_output, input_of,
}
use vericonomy_sdk.Facade.Prepare.{prepare_utxos_for_signing, in_context}
use vericonomy_sdk.Facade.Prepare.Sound.{ArePrepared, prepare_utxos_for_signing-ArePrepared}
use vericonomy_sdk.Facade.Signatures.{
  P2pkh, verify_signed_p2pkh_inputs, p2pkh_pubkey_hash, parse_p2pkh_script_sig, split_last,
}
use vericonomy_sdk.Facade.Signatures.Shape.{p2pkh_script}
use vericonomy_sdk.Facade.Signatures.Signed.{AreSigned, verify_signed_p2pkh_inputs-AreSigned}
use vericonomy_sdk.Facade.Send.{SendPaymentParams, SendResult, Backend, send_payment}
use vericonomy_sdk.Facade.Send.Checked.{Unsent, Sent, send_payment-Sent}

abbrev hash_of : Bytes → Bytes
hash_of address = take 20 (address ++ replicate 20 0)

abbrev hash_hd : Hd
hash_hd = record toy_hd {
  address_to_script_pubkey = λ coin address. ok (p2pkh_script (hash_of address));
}

abbrev backward : ParseTxid
backward txid = inr (reverse txid)

-- Pushes behind their length.
abbrev pushes_from : ℕ → Bytes → List (Text ⊎ Option Bytes)
pushes_from zero bytes = []
pushes_from (suc fuel) [] = []
pushes_from (suc fuel) (n ∷ bytes) = inr (some (take n bytes)) ∷ pushes_from fuel (drop n bytes)

abbrev toy_p2pkh : P2pkh
toy_p2pkh = record {
  instructions_minimal = pushes_from 5;
  public_key = inr;
  hash160 = λ key. hash_of (86 ∷ drop 2 key);
  signature_from_der = inr;
}

abbrev recipient : Text
recipient = codes "V111111111111111111111111111111111"

abbrev script_for : ℕ → Bytes
script_for index = p2pkh_script (hash_of (86 ∷ index ∷ []))

abbrev parent_outputs : List TxOut
parent_outputs =
    record { value = 40000000; script_pubkey = script_for 0 }
    ∷ record { value = 50000000; script_pubkey = script_for 1 }
    ∷ []

abbrev parent_raw : Bytes
parent_raw =
    toy_wire.i32.consensus_encode (pos 1)
    ++ (1700000000 ∷ [] ++ (0 ∷ [] ++ (toy_wire.tx_outs.consensus_encode parent_outputs ++ 0 ∷ [])))

abbrev coin : ℕ → ℕ → Utxo
coin index value = record {
  txid = 9 ∷ index ∷ [];
  vout = index;
  value_sats = pos value;
  height = 1;
  address = 86 ∷ index ∷ [];
  script_hex = script_for index;
  confirmations = 1;
}

abbrev coins : List Utxo
coins = coin 0 40000000 ∷ coin 1 50000000 ∷ []

abbrev backend : Backend
backend = record {
  get_raw_tx_hex = λ i txid. ok parent_raw;
  broadcast_tx = λ raw. ok (codes "sent");
}

abbrev params : SendPaymentParams ℤ
params = record {
  recipient = recipient;
  amount_sats = pos 80000000;
  fee_rate_coins_per_kb = fixed.decimal 1 3;
  utxos = coins;
  change_address = 86 ∷ 60 ∷ [];
  bip39_passphrase = none;
}

abbrev run : Result SendResult × List Text
run =
    send_payment fixed toy_wire toy_sha256 toy_hex backward toy_secp toy_p2pkh hash_hd backend
      1700000000 verium phrase params []

send_payment-Sent_example :
    Unsent fixed toy_wire toy_sha256 toy_hex backward toy_secp toy_p2pkh hash_hd backend 1700000000
      verium phrase [] run.1 run.0
    ⊎ Sent fixed toy_wire toy_sha256 toy_hex backward toy_secp toy_p2pkh hash_hd backend 1700000000
        verium phrase params [] run.1 run.0
send_payment-Sent_example =
    send_payment-Sent fixed toy_wire toy_sha256 toy_hex backward toy_secp toy_p2pkh hash_hd backend
      1700000000 verium phrase params [] run.1 run.0 refl

delivered : is_ok run.0 ≡ true
unfolding send_payment validate_send_address plan_send_utxos select_utxos I64.add I64.wrap ◌+ℤ◌
    fee_for_rate I64.max verium_fee_for_size I64.mul ◌*ℤ◌ coins_per_kb_to_sats_per_k I64.div
    estimate_tx_size plan_rounds next_fee outputs_for change_will_be_included I64.sub ◌-ℤ◌
    sum_values prepare_utxos_for_signing parse_display_txid text_eq display_txid_from_raw
    double_sha256 wire_txid_from_raw in_context decode_verium_tx read_field found_or script_pays_to
    eq_ignore_ascii_case replan_fee_for_selected replan_rounds sign_transaction assemble_transaction
    assemble_inputs input_with_key find_signing_key with_outputs sum_outputs_from assemble_outputs
    change_output build_signed_tx_hex sign_loop input_script verium_signature_hash mask_outputs
    serialize_verium_tx sign_script_sig verify_send_outputs input_of mask_inputs signing_copy
    find_and_delete_code_separators next_script_instruction byte_at verify_signed_p2pkh_inputs
    p2pkh_pubkey_hash parse_p2pkh_script_sig split_last
delivered = refl

abbrev prepared : List Utxo
prepared =
    record (coin 0 40000000) { txid = reverse parent_raw }
    ∷ record (coin 1 50000000) { txid = reverse parent_raw }
    ∷ []

prepares :
    prepare_utxos_for_signing toy_wire toy_sha256 toy_hex backward hash_hd verium
      backend.get_raw_tx_hex coins
    ≡ ok prepared
unfolding prepare_utxos_for_signing trim parse_display_txid text_eq display_txid_from_raw
    double_sha256 wire_txid_from_raw in_context decode_verium_tx read_field found_or script_pays_to
    eq_ignore_ascii_case I64.wrap
prepares = refl

prepare_utxos_for_signing-ArePrepared_example :
    ArePrepared toy_wire toy_sha256 toy_hex backward hash_hd verium backend.get_raw_tx_hex 0 coins
      prepared
prepare_utxos_for_signing-ArePrepared_example =
    prepare_utxos_for_signing-ArePrepared toy_wire toy_sha256 toy_hex backward hash_hd verium
      backend.get_raw_tx_hex coins prepared prepares

-- One input that spends the output 0 of the transaction 9, with its two pushes, and one output.
abbrev signed_raw : Bytes
signed_raw =
    0 ∷ 1 ∷ 1700000000 ∷ 1 ∷ 1 ∷ 9 ∷ 0 ∷ 7 ∷ 2 ∷ 5 ∷ 1 ∷ 3 ∷ 7 ∷ 0 ∷ 0 ∷ 77 ∷ 1 ∷ 80000000 ∷ 1 ∷ 99
    ∷ 0 ∷ []

abbrev spent : List Utxo
spent = record (coin 0 40000000) { txid = 9 ∷ [] } ∷ []

signatures_hold :
    verify_signed_p2pkh_inputs toy_wire toy_sha256 toy_hex inr toy_secp toy_p2pkh signed_raw spent
    ≡ ok tt
unfolding verify_signed_p2pkh_inputs decode_verium_tx read_field trim parse_display_txid text_eq
    found_or p2pkh_pubkey_hash parse_p2pkh_script_sig split_last verium_signature_hash mask_outputs
    serialize_verium_tx
signatures_hold = refl

verify_signed_p2pkh_inputs-AreSigned_example :
    (bytes : Bytes) × (tx : VeriumMutableTx) × (toy_hex.decode (trim signed_raw) ≡ inr bytes)
    × (decode_verium_tx toy_wire bytes ≡ ok tx)
    × AreSigned toy_wire toy_sha256 toy_hex inr toy_secp toy_p2pkh tx 0 tx.inputs spent
verify_signed_p2pkh_inputs-AreSigned_example =
    verify_signed_p2pkh_inputs-AreSigned toy_wire toy_sha256 toy_hex inr toy_secp toy_p2pkh
      signed_raw spent signatures_hold
