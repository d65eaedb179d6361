-- ===== src/Tx/Sign.antt =====
-- vericonomy-tx/src/lib.rs: signing of every input. secp256k1 and script building are parameters.
pub mod Refines
use Prim.Native.Nat.{◌≤◌}
use mathlib.Core.List.{reverse}
use vericonomy_sdk.Base.{
  ℕ, zero, suc, ◌+◌, ◌≡◌, Bool, not, ◌&&◌, List, [], ◌∷◌, ◌++◌, length, ◌==◌, ◌⊎◌, if◌then◌else◌,
}
use vericonomy_sdk.Int.{ℤ, pos}
use vericonomy_sdk.Text.{Text, codes, trim}
use vericonomy_sdk.Hex.{Hex, or_fail}
use vericonomy_sdk.Errors.{Result, ok, err, ◌>>=◌, ◌>>◌, ensure, other}
use vericonomy_sdk.Tx.Script.{Bytes}
use vericonomy_sdk.Tx.Wire.{Wire, VeriumMutableTx, serialize_verium_tx}
use vericonomy_sdk.Tx.Sighash.{set_script, double_sha256, verium_signature_hash}

-- `bitcoin::secp256k1` and `bitcoin::script`: keys and signatures as bytes.
pub record Secp : Type 0 where
  pub message : Bytes → Text ⊎ Bytes
  pub secret_key : Bytes → Text ⊎ Bytes
  pub public_key : Bytes → Bytes
  -- the DER form of the signature of a message under a secret key
  pub sign_ecdsa : Bytes → Bytes → Bytes
  pub verify_ecdsa : Bytes → Bytes → Bytes → Text ⊎ Unit {0}
  -- whether a script can push the bytes, and the script that does
  pub can_push : Bytes → Bool
  pub push_slice : Bytes → Bytes

pub record SignInput : Type 0 where
  pub script_hex : Text

abbrev pub sighash_all : ℕ
sighash_all = 1

unfoldable pub reverse_display_txid_hex : Hex → Text → Result Text
reverse_display_txid_hex hex txid_hex = do
  bytes ← or_fail (hex.decode (trim txid_hex)) (λ e. other (codes "txid hex decode: " ++ e))
  ensure (length bytes == 32) (other (codes "txid must be 32 bytes"))
  ok (hex.encode (reverse bytes))

unfoldable pub display_txid_from_raw : Wire → (Bytes → Bytes) → Hex → Bytes → Text
display_txid_from_raw w sha256 hex raw = hex.encode (reverse (double_sha256 w sha256 raw))

-- A `Txid` is its bytes in wire order.
unfoldable pub wire_txid_from_raw : Wire → (Bytes → Bytes) → Bytes → Bytes
wire_txid_from_raw w sha256 raw = double_sha256 w sha256 raw

unfoldable pub sign_script_sig : Secp → Bytes → Bytes → Result Bytes
sign_script_sig secp secret_bytes sighash = do
  msg ← or_fail (secp.message sighash) (λ e. other (codes "message: " ++ e))
  sk ← or_fail (secp.secret_key secret_bytes) (λ e. other (codes "secret key: " ++ e))
  let pk = secp.public_key sk
  let sig = secp.sign_ecdsa msg sk
  or_fail (secp.verify_ecdsa msg sig pk) (λ e. other (codes "local signature verify failed: " ++ e))
  let sig_bytes = sig ++ sighash_all ∷ []
  ensure (secp.can_push sig_bytes) (other (codes "signature too long for script push"))
  ensure (secp.can_push pk) (other (codes "pubkey too long for script push"))
  ok (secp.push_slice sig_bytes ++ secp.push_slice pk)

module _ (w : Wire) (sha256 : Bytes → Bytes) (hex : Hex) (secp : Secp) where
  -- The script that input `i` of `tx` is given.
  unfoldable pub input_script : VeriumMutableTx → ℕ → SignInput → Bytes → Result Bytes
  input_script tx i input secret = do
    script ← or_fail (hex.decode (trim input.script_hex)) (λ e. other (codes "script: " ++ e))
    sighash ← verium_signature_hash w sha256 tx i script (pos sighash_all)
    sign_script_sig secp secret sighash

  -- `for (i, secret) in secrets.iter().enumerate()`, from index `i` on
  unfoldable pub sign_loop :
      VeriumMutableTx → ℕ → List SignInput → List Bytes → Result VeriumMutableTx
  sign_loop tx i (input ∷ inputs) (secret ∷ secrets) =
      (input_script tx i input secret) >>= λ script.
      sign_loop (record tx { inputs = set_script tx.inputs i script }) (i + 1) inputs secrets
  sign_loop tx i [] secrets = ok tx
  sign_loop tx i (input ∷ inputs) [] = ok tx

  unfoldable pub build_signed_tx_hex : VeriumMutableTx → List SignInput → List Bytes → Result Text
  build_signed_tx_hex tx inputs secrets = do
    ensure (length secrets == length tx.inputs && length inputs == length tx.inputs)
        (other (codes "signing input count mismatch"))
    signed ← sign_loop tx 0 inputs secrets
    bytes ← serialize_verium_tx w signed
    ok (hex.encode bytes)
