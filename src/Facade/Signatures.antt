-- ===== src/Facade/Signatures.antt =====
-- vericonomy-wallet-facade/src/verify.rs: the check of the signatures before a transaction is sent.
-- Scripts, keys and signatures of the `bitcoin` crate are parameters.
pub mod Shape
pub mod Signed
use mathlib.Core.List.{reverse}
use vericonomy_sdk.Base.{
  ℕ, zero, suc, ◌+◌, Bool, not, ◌&&◌, Option, none, some, List, [], ◌∷◌, ◌++◌, ◌⊎◌, inl, inr,
  length, get_elem?, take, drop, ◌==◌, is_empty, if◌then◌else◌, false,
}
use vericonomy_sdk.Int.{ℤ, pos}
use vericonomy_sdk.Text.{Text, codes, text_eq, trim, show_nat}
use vericonomy_sdk.Hex.{Hex, or_fail}
use vericonomy_sdk.Errors.{Result, ok, err, ◌>>=◌, ◌>>◌, ensure, found_or, WalletError, other}
use vericonomy_sdk.Chain.{Utxo}
use vericonomy_sdk.Tx.Script.{Bytes}
use vericonomy_sdk.Tx.Wire.{Wire, TxIn, TxOut, VeriumMutableTx, decode_verium_tx}
use vericonomy_sdk.Tx.Sighash.{verium_signature_hash}
use vericonomy_sdk.Tx.Sign.{Secp, sighash_all}
use vericonomy_sdk.Engine.Assemble.{ParseTxid, parse_display_txid}
use vericonomy_sdk.Facade.Verify.{script_pays_to, as_other}
use vericonomy_sdk.Facade.Prepare.{outpoint_text}

-- What the check reads of the `bitcoin` crate.
pub record P2pkh : Type 0 where
  -- `instructions_minimal`: an error, the bytes of a push, or another instruction
  pub instructions_minimal : Bytes → List (Text ⊎ Option Bytes)
  -- `PublicKey::from_slice`, and its `inner`
  pub public_key : Bytes → Text ⊎ Bytes
  pub hash160 : Bytes → Bytes
  pub signature_from_der : Bytes → Text ⊎ Bytes

abbrev pub byte_is : Bytes → ℕ → ℕ → Bool
byte_is bytes i b = elim (get_elem? bytes i) [ none ↦ false | some c ↦ c == b ]

unfoldable pub p2pkh_pubkey_hash : Bytes → Option Bytes
p2pkh_pubkey_hash script =
    if length script == 25
      && (byte_is script 0 0x76
          && (byte_is script 1 0xa9
              && (byte_is script 2 0x14 && (byte_is script 23 0x88 && byte_is script 24 0xac))))
    then some (take 20 (drop 3 script))
    else none

-- `for result in script_sig.instructions_minimal()`
unfoldable pub collect_pushes : List (Text ⊎ Option Bytes) → Result (List Bytes)
collect_pushes [] = ok []
collect_pushes (inl e ∷ rest) = err (other (codes "scriptSig parse: " ++ e))
collect_pushes (inr none ∷ rest) = collect_pushes rest
collect_pushes (inr (some bytes) ∷ rest) = (collect_pushes rest) >>= λ pushes. ok (bytes ∷ pushes)

-- `pushes.len() != 2`, and the two
unfoldable pub two_pushes : List Bytes → Result (Bytes × Bytes)
two_pushes (sig ∷ pk ∷ []) = ok (sig, pk)
two_pushes pushes =
    err (other (codes "expected P2PKH scriptSig with 2 pushes, got " ++ show_nat (length pushes)))

-- The bytes before the last one, and the last one.
unfoldable pub split_last : Bytes → Option (Bytes × ℕ)
split_last [] = none
split_last (b ∷ bytes) = elim (split_last bytes) [
  | none ↦ some ([], b)
  | some r ↦ some (b ∷ r.0, r.1)
]

-- `Display` of a `Txid`
abbrev pub show_txid : Hex → Bytes → Text
show_txid hex txid = hex.encode (reverse txid)

module _ (w : Wire) (sha256 : Bytes → Bytes) (hex : Hex) (parse : ParseTxid) (secp : Secp)
    (p : P2pkh) where
  unfoldable pub parse_p2pkh_script_sig : Bytes → Result (Bytes × Bytes)
  unfolding collect_pushes two_pushes
  parse_p2pkh_script_sig script_sig =
      (collect_pushes (p.instructions_minimal script_sig)) >>= λ pushes. two_pushes pushes

  -- Which coin the input spends.
  unfoldable pub verify_outpoint : ℕ → TxIn → Utxo → Result (Unit {0})
  verify_outpoint i input utxo = do
    expected ← parse_display_txid parse utxo.txid
    ensure (text_eq input.previous_output.txid expected) (
        other (
          codes "input "
          ++ (show_nat i
              ++ (codes " references wrong parent txid (expected "
                  ++ (utxo.txid
                      ++ (codes ", got "
                          ++ (show_txid hex input.previous_output.txid ++ codes ")")))))))
    ensure (input.previous_output.vout == utxo.vout) (
        other (
          codes "input "
          ++ (show_nat i
              ++ (codes " references wrong vout (expected "
                  ++ (show_nat utxo.vout
                      ++ (codes ", got " ++ (show_nat input.previous_output.vout ++ codes ")")))))))

  -- The message of an input's error.
  abbrev pub input_error : ℕ → Text → WalletError
  input_error i text = other (codes "input " ++ (show_nat i ++ text))

  -- The signature of the input, on the script of the coin with this key hash.
  unfoldable pub verify_signature : VeriumMutableTx → ℕ → TxIn → Bytes → Bytes → Result (Unit {0})
  verify_signature tx i input script_pubkey pubkey_hash = do
    (sig_bytes, pk_bytes) ← parse_p2pkh_script_sig input.script_sig
    (der_sig, sighash_type) ←
        found_or (input_error i (codes " has empty signature")) (split_last sig_bytes)
    ensure (sighash_type == sighash_all)
        (input_error i (codes " uses unsupported sighash type " ++ show_nat sighash_type))
    pk ← or_fail (p.public_key pk_bytes) (λ e. input_error i (codes " pubkey invalid: " ++ e))
    ensure (text_eq (p.hash160 pk_bytes) pubkey_hash)
        (input_error i (codes " pubkey does not match output script (wrong signing key)"))
    sighash ← verium_signature_hash w sha256 tx i script_pubkey (pos sighash_all)
    msg ← or_fail (secp.message sighash) (λ e. other (codes "sighash message: " ++ e))
    sig ←
        or_fail (p.signature_from_der der_sig)
          (λ e. input_error i (codes " DER signature invalid: " ++ e))
    or_fail (secp.verify_ecdsa msg sig pk) (λ e. input_error i (codes " signature invalid: " ++ e))

  -- The body of `for (i, utxo) in utxos.iter().enumerate()`
  unfoldable pub verify_input : VeriumMutableTx → ℕ → TxIn → Utxo → Result (Unit {0})
  unfolding verify_outpoint verify_signature
  verify_input tx i input utxo = do
    verify_outpoint i input utxo
    script_pubkey ←
        or_fail (hex.decode (trim utxo.script_hex)) (λ e. other (codes "utxo script hex: " ++ e))
    pubkey_hash ←
        found_or
          (input_error i
            (codes " spends non-P2PKH script (only standard P2PKH sends are supported)"))
          (p2pkh_pubkey_hash script_pubkey)
    verify_signature tx i input script_pubkey pubkey_hash

  -- The inputs from `i` on with their coins. The code reads `tx.inputs[i]`, and stops with a panic where
  -- there is none, which the count that it checks before rules out.
  unfoldable pub verify_inputs : VeriumMutableTx → ℕ → List TxIn → List Utxo → Result (Unit {0})
  unfolding verify_input
  verify_inputs tx i inputs [] = ok tt
  verify_inputs tx i [] (utxo ∷ utxos) = err (other (codes "index out of bounds"))
  verify_inputs tx i (input ∷ inputs) (utxo ∷ utxos) =
      (verify_input tx i input utxo) >> (verify_inputs tx (i + 1) inputs utxos)

  unfoldable pub verify_signed_p2pkh_inputs : Text → List Utxo → Result (Unit {0})
  unfolding verify_inputs as_other
  verify_signed_p2pkh_inputs raw_hex utxos = do
    bytes ← or_fail (hex.decode (trim raw_hex)) (λ e. other (codes "tx hex decode: " ++ e))
    tx ← as_other (decode_verium_tx w bytes)
    ensure (length tx.inputs == length utxos)
        (other (codes "signed input count does not match utxos"))
    verify_inputs tx 0 tx.inputs utxos

unfoldable pub utxo_script_matches_parent_tx : Hex → Utxo → VeriumMutableTx → Result (Unit {0})
utxo_script_matches_parent_tx hex utxo parent = do
  out ←
      found_or (other (codes "parent tx missing vout " ++ show_nat utxo.vout))
        (get_elem? parent.outputs utxo.vout)
  ensure (script_pays_to (hex.encode out.script_pubkey) utxo.script_hex) (
      other (
        codes "UTXO "
        ++ (outpoint_text utxo ++ codes " on-chain script does not match wallet script")))
