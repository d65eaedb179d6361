-- ===== src/Tx/Tests.antt =====
-- Transactions, scripts and signatures on concrete values.
use vericonomy_sdk.Base.{ℕ, ◌≡◌, refl, arith, inr, List, [], ◌∷◌}
use vericonomy_sdk.Int.{pos}
use vericonomy_sdk.Errors.{ok, ◌>>=◌}
use vericonomy_sdk.Tx.Script.{find_and_delete_code_separators}
use vericonomy_sdk.Tx.Script.Deletes.{
  Instruction, op, push, push_data1, script_of, find_and_delete_code_separators-script_of,
}
use vericonomy_sdk.Tx.Wire.{TxIn, VeriumMutableTx, serialize_verium_tx, decode_verium_tx}
use vericonomy_sdk.Tx.Wire.RoundTrip.{decode-serialize}
use vericonomy_sdk.Tx.Sighash.{set_script, verium_signature_hash}
use vericonomy_sdk.Tx.Sighash.Laws.{
  with_inputs, verium_signature_hash-set_script, verium_signature_hash_alone,
}
use vericonomy_sdk.Tx.Sign.{SignInput, sign_loop}
use vericonomy_sdk.Tx.Sign.Refines.{set_scripts, scripts_of, sign_loop-scripts_of}
use vericonomy_sdk.Tx.Toy.{toy_wire, toy_hex, toy_sha256, toy_secp}

-- A separator, a push that carries the byte of a separator, a separator, and OP_CHECKSIG.
abbrev separated : List Instruction
separated = op 0xab ∷ push (0xab ∷ 0x02 ∷ []) ∷ push_data1 (0x4c ∷ []) ∷ op 0xab ∷ op 0xac ∷ []

find_and_delete_code_separators-script_of_example :
    find_and_delete_code_separators (script_of separated)
    ≡ 0x02 ∷ 0xab ∷ 0x02 ∷ 0x4c ∷ 0x01 ∷ 0x4c ∷ 0xac ∷ []
find_and_delete_code_separators-script_of_example =
    find_and_delete_code_separators-script_of separated (
      inr (omega arith),
      ((omega arith, omega arith), (omega arith, (inr (omega arith), (inr (omega arith), tt)))),
    )

abbrev input : ℕ → TxIn
input n = record {
  previous_output = record { txid = n ∷ n ∷ []; vout = n };
  script_sig = [];
  sequence = 4294967295;
}

abbrev payment : VeriumMutableTx
payment = record {
  version = pos 1;
  n_time = 1700000000;
  inputs = input 3 ∷ input 4 ∷ [];
  outputs = record { value = 500; script_pubkey = 0x76 ∷ 0xa9 ∷ [] } ∷ [];
  lock_time = 0;
}

decode-serialize_example :
    (serialize_verium_tx toy_wire payment >>= decode_verium_tx toy_wire) ≡ ok payment
decode-serialize_example = decode-serialize toy_wire payment (record {
  version = (tt, tt);
  n_time = tt;
  inputs = ((((tt, (tt, tt)), tt), (tt, tt)), ((((tt, (tt, tt)), tt), (tt, tt)), tt));
  outputs = ((tt, (tt, (tt, tt))), tt);
  lock_time = tt;
})

verium_signature_hash-set_script_example :
    verium_signature_hash toy_wire toy_sha256
      (with_inputs payment (set_script payment.inputs 0 (0xab ∷ [])))
      1
      (0x76 ∷ [])
      (pos 1)
    ≡ verium_signature_hash toy_wire toy_sha256 payment 1 (0x76 ∷ []) (pos 1)
verium_signature_hash-set_script_example =
    verium_signature_hash-set_script toy_wire toy_sha256 payment 0 (0xab ∷ []) 1 (0x76 ∷ []) (pos 1)

-- SIGHASH_ALL with SIGHASH_ANYONECANPAY, with the other input replaced
verium_signature_hash_alone_example :
    verium_signature_hash toy_wire toy_sha256
      (with_inputs payment (input 3 ∷ input 4 ∷ []))
      1
      (0x76 ∷ [])
      (pos 0x81)
    ≡ verium_signature_hash toy_wire toy_sha256
        (with_inputs payment (input 9 ∷ input 4 ∷ input 5 ∷ []))
        1
        (0x76 ∷ [])
        (pos 0x81)
verium_signature_hash_alone_example =
    verium_signature_hash_alone toy_wire toy_sha256 payment (input 3 ∷ input 4 ∷ [])
      (input 9 ∷ input 4 ∷ input 5 ∷ []) 1 (0x76 ∷ []) (pos 0x81) refl (omega arith) (omega arith)
      (omega arith)

abbrev spent : SignInput
spent = record { script_hex = 0x76 ∷ 0xa9 ∷ [] }

sign_loop-scripts_of_example :
    sign_loop toy_wire toy_sha256 toy_hex toy_secp payment 0
      (spent ∷ spent ∷ [])
      ((1 ∷ []) ∷ (2 ∷ []) ∷ [])
    ≡ (scripts_of toy_wire toy_sha256 toy_hex toy_secp payment 0
          (spent ∷ spent ∷ [])
          ((1 ∷ []) ∷ (2 ∷ []) ∷ [])
        >>= λ scripts. ok (with_inputs payment (set_scripts payment.inputs 0 scripts)))
sign_loop-scripts_of_example =
    sign_loop-scripts_of toy_wire toy_sha256 toy_hex toy_secp payment 0 (spent ∷ spent ∷ [])
      ((1 ∷ []) ∷ (2 ∷ []) ∷ [])
