-- ===== src/Tx/Sign/Refines.antt =====
-- Signing input after input, in place, is signing every input of the unsigned transaction.
use vericonomy_sdk.Base.{ℕ, ◌+◌, ◌≡◌, refl, ◌∙◌, List, [], ◌∷◌}
use vericonomy_sdk.Hex.{Hex}
use vericonomy_sdk.Errors.{Result, ok, err, ◌>>=◌}
use vericonomy_sdk.Tx.Script.{Bytes}
use vericonomy_sdk.Tx.Wire.{Wire, TxIn, VeriumMutableTx}
use vericonomy_sdk.Tx.Sighash.{set_script}
use vericonomy_sdk.Tx.Sighash.Laws.{with_inputs, verium_signature_hash-set_script}
use vericonomy_sdk.Tx.Sign.{Secp, SignInput, input_script, sign_loop}

-- Scripts put into the inputs from index `i` on.
abbrev pub set_scripts : List TxIn → ℕ → List Bytes → List TxIn
set_scripts is i [] = is
set_scripts is i (s ∷ ss) = set_scripts (set_script is i s) (i + 1) ss

module _ (w : Wire) (sha256 : Bytes → Bytes) (hex : Hex) (secp : Secp) where
  -- The scripts of all inputs, each computed from the one transaction `tx`.
  unfoldable pub scripts_of :
      VeriumMutableTx → ℕ → List SignInput → List Bytes → Result (List Bytes)
  scripts_of tx i (input ∷ inputs) (secret ∷ secrets) =
      (input_script w sha256 hex secp tx i input secret) >>= λ script.
      (scripts_of tx (i + 1) inputs secrets) >>= λ scripts. ok (script ∷ scripts)
  scripts_of tx i [] secrets = ok []
  scripts_of tx i (input ∷ inputs) [] = ok []

  input_script-set_script :
      (tx : VeriumMutableTx) (j : ℕ) (s : Bytes) (i : ℕ) (input : SignInput) (secret : Bytes)
      → input_script w sha256 hex secp (with_inputs tx (set_script tx.inputs j s)) i input secret
        ≡ input_script w sha256 hex secp tx i input secret
  unfolding input_script
  input_script-set_script tx j s i input secret = simp (verium_signature_hash-set_script w sha256)

  scripts_of-set_script :
      (tx : VeriumMutableTx) (j : ℕ) (s : Bytes) (i : ℕ) (inputs : List SignInput)
      (secrets : List Bytes)
      → scripts_of (with_inputs tx (set_script tx.inputs j s)) i inputs secrets
        ≡ scripts_of tx i inputs secrets
  unfolding scripts_of
  scripts_of-set_script tx j s i [] secrets = refl
  scripts_of-set_script tx j s i (x ∷ inputs) [] = refl
  scripts_of-set_script tx j s i (x ∷ inputs) (secret ∷ secrets) = rw (
    input_script-set_script tx j s i x secret,
    scripts_of-set_script tx j s (i + 1) inputs secrets,
  )

  -- The loop of `build_signed_tx_hex`, which writes each script into the transaction before it
  -- hashes for the next input, fails or ends exactly as computing all scripts from the unsigned
  -- transaction and writing them afterwards.
  pub sign_loop-scripts_of :
      (tx : VeriumMutableTx) (i : ℕ) (inputs : List SignInput) (secrets : List Bytes)
      → sign_loop w sha256 hex secp tx i inputs secrets ≡ (
          scripts_of tx i inputs secrets >>= λ scripts.
          ok (with_inputs tx (set_scripts tx.inputs i scripts)))
  unfolding sign_loop scripts_of
  sign_loop-scripts_of tx i [] secrets = refl
  sign_loop-scripts_of tx i (x ∷ inputs) [] = refl
  sign_loop-scripts_of tx i (x ∷ inputs) (secret ∷ secrets) =
      step (input_script w sha256 hex secp tx i x secret) (λ script.
        sign_loop-scripts_of (with_inputs tx (set_script tx.inputs i script)) (i + 1) inputs
          secrets)
    where
      onward :
          (script : Bytes) (r : Result (List Bytes))
          → (r >>= λ scripts.
              ok (with_inputs tx (set_scripts (set_script tx.inputs i script) (i + 1) scripts)))
            ≡ ((r >>= λ scripts. ok (script ∷ scripts)) >>= λ scripts.
                ok (with_inputs tx (set_scripts tx.inputs i scripts)))
      onward script (err e) = refl
      onward script (ok scripts) = refl

      step :
          (r : Result Bytes)
          → ((script : Bytes)
              → sign_loop w sha256 hex secp
                  (with_inputs tx (set_script tx.inputs i script))
                  (i + 1)
                  inputs
                  secrets
                ≡ (scripts_of
                      (with_inputs tx (set_script tx.inputs i script))
                      (i + 1)
                      inputs
                      secrets
                    >>= λ scripts. ok (
                        with_inputs tx
                          (set_scripts (set_script tx.inputs i script) (i + 1) scripts))))
          → (r >>= λ script.
              sign_loop w sha256 hex secp
                (with_inputs tx (set_script tx.inputs i script))
                (i + 1)
                inputs
                secrets)
            ≡ ((r >>= λ script.
                  scripts_of tx (i + 1) inputs secrets >>= λ scripts. ok (script ∷ scripts))
                >>= λ scripts. ok (with_inputs tx (set_scripts tx.inputs i scripts)))
      step (err e) ih = refl
      step (ok script) ih =
          ih script
          ∙ rw (scripts_of-set_script tx i script (i + 1) inputs secrets)
              (onward script (scripts_of tx (i + 1) inputs secrets))
