-- ===== src/Tx/Sighash.antt =====
-- vericonomy-tx/src/lib.rs: `verium_signature_hash`. SHA-256 is a parameter.
pub mod Laws
use vericonomy_sdk.Base.{
  ℕ, zero, suc, ◌+◌, ◌/◌, ◌%◌, ◌^◌, ◌-◌, ◌≡◌, Bool, Option, none, some, List, [], ◌∷◌, ◌++◌, length,
  set, take, map, replicate, get_elem?, leb, ◌==◌, if◌then◌else◌,
}
use vericonomy_sdk.Int.{ℤ, pos, negsuc}
use vericonomy_sdk.Text.{codes}
use vericonomy_sdk.Errors.{Result, ok, err, ◌>>=◌, other}
use vericonomy_sdk.Tx.Script.{Bytes, find_and_delete_code_separators}
use vericonomy_sdk.Tx.Wire.{Wire, TxIn, TxOut, VeriumMutableTx, serialize_verium_tx}

-- `hash_type as u32`
abbrev pub as_u32 : ℤ → ℕ
as_u32 (pos n) = n % 2 ^ 32
as_u32 (negsuc n) = 2 ^ 32 - 1 - n % 2 ^ 32

-- `to_le_bytes` of 32 bits
abbrev pub le_bytes : ℕ → Bytes
le_bytes n = n % 256 ∷ n / 256 % 256 ∷ n / 65536 % 256 ∷ n / 16777216 % 256 ∷ []

-- `TxOut::NULL`: the value of all ones and an empty script
abbrev pub null_out : TxOut
null_out = record { value = 2 ^ 64 - 1; script_pubkey = [] }

abbrev pub with_script : Bytes → TxIn → TxIn
with_script script i = record i { script_sig = script }

abbrev pub with_zero_sequence : TxIn → TxIn
with_zero_sequence i = record i { sequence = 0 }

-- `for input in &mut tmp.inputs { input.script_sig = … }`
abbrev pub clear_scripts : List TxIn → List TxIn
clear_scripts [] = []
clear_scripts (i ∷ is) = with_script [] i ∷ clear_scripts is

-- `tmp.inputs[index].script_sig = script`
abbrev pub set_script : List TxIn → ℕ → Bytes → List TxIn
set_script [] index script = []
set_script (i ∷ is) zero script = with_script script i ∷ is
set_script (i ∷ is) (suc index) script = i ∷ set_script is index script

-- `if i != input_index { input.sequence = Sequence::ZERO }` over all inputs
abbrev pub zero_others : List TxIn → ℕ → List TxIn
zero_others [] index = []
zero_others (i ∷ is) zero = i ∷ map with_zero_sequence is
zero_others (i ∷ is) (suc index) = with_zero_sequence i ∷ zero_others is index

-- `tmp.outputs.truncate(index + 1)` and `TxOut::NULL` in the places before `index`
abbrev pub single_output : List TxOut → ℕ → List TxOut
single_output [] index = []
single_output (o ∷ os) zero = o ∷ []
single_output (o ∷ os) (suc index) = null_out ∷ single_output os index

-- The copy that SIGHASH_NONE and SIGHASH_SINGLE hash; `none` is the early return of ones.
unfoldable pub mask_outputs : VeriumMutableTx → ℕ → ℕ → Option VeriumMutableTx
mask_outputs tmp input_index sighash_type =
    if (sighash_type % 32) == 0x02
    then some (record tmp { inputs = zero_others tmp.inputs input_index })
    else if (sighash_type % 32) == 0x03
    then (if leb (length tmp.outputs) input_index
        then none
        else some (record tmp {
          inputs = zero_others tmp.inputs input_index;
          outputs = single_output tmp.outputs input_index;
        }))
    else some tmp

-- SIGHASH_ANYONECANPAY keeps the signed input alone.
unfoldable pub mask_inputs : VeriumMutableTx → ℕ → ℕ → VeriumMutableTx
mask_inputs tmp input_index sighash_type =
    if (sighash_type / 128 % 2) == 0 then tmp else record tmp {
      inputs = elim (get_elem? tmp.inputs input_index) [ none ↦ [] | some i ↦ i ∷ [] ];
    }

-- The copy of the transaction with the script of the input that is signed and no other.
unfoldable pub signing_copy : VeriumMutableTx → ℕ → Bytes → VeriumMutableTx
signing_copy tx input_index script_code = record tx {
  inputs =
      set_script (clear_scripts tx.inputs) input_index
        (find_and_delete_code_separators script_code);
}

module _ (w : Wire) (sha256 : Bytes → Bytes) where
  unfoldable pub double_sha256 : Bytes → Bytes
  double_sha256 bytes = sha256 (sha256 bytes)

  -- The hash of the copy, or the early return of ones.
  unfoldable pub hash_copy : ℕ → ℕ → Option VeriumMutableTx → Result Bytes
  unfolding double_sha256
  hash_copy input_index sighash_type none = ok (replicate 32 1)
  hash_copy input_index sighash_type (some tmp) =
      (serialize_verium_tx w (mask_inputs tmp input_index sighash_type)) >>= λ bytes.
      ok (double_sha256 (bytes ++ le_bytes sighash_type))

  unfoldable pub verium_signature_hash : VeriumMutableTx → ℕ → Bytes → ℤ → Result Bytes
  unfolding hash_copy
  verium_signature_hash tx input_index script_code hash_type =
      if leb (length tx.inputs) input_index
      then err (other (codes "signature hash input index out of range"))
      else hash_copy input_index (as_u32 hash_type)
          (mask_outputs (signing_copy tx input_index script_code) input_index (as_u32 hash_type))
