-- ===== src/Storage/Crypto.antt =====
-- vericonomy-storage/src/crypto.rs: sealing with a passphrase. Argon2 and AES-GCM are parameters; the
-- random salt and nonce are arguments.
use vericonomy_sdk.Base.{◌≡◌, refl, ◌++◌, ◌⊎◌, inr}
use vericonomy_sdk.Text.{Text, codes}
use vericonomy_sdk.Hex.{or_fail, or_fail-ok}
use vericonomy_sdk.Errors.{Result, ok, ◌>>=◌, other, wrong_passphrase, and_then-ok}
use vericonomy_sdk.Errors.{code_wrong_passphrase}
use vericonomy_sdk.Tx.Script.{Bytes}

-- What decrypts under a key and a nonce is what was encrypted under them.
pub record Aead : Type 1 where
  -- `Params::new(…)` with the fixed parameters, and `hash_password_into`
  pub argon_params : Text ⊎ Unit {0}
  pub hash_password : Text → Bytes → Text ⊎ Bytes
  pub Cipher : Type 0
  pub new_from_slice : Bytes → Text ⊎ Cipher
  pub encrypt : Cipher → Bytes → Bytes → Text ⊎ Bytes
  pub decrypt : Cipher → Bytes → Bytes → Text ⊎ Bytes
  pub decrypt-encrypt :
      (cipher : Cipher) (nonce plain sealed : Bytes)
      → encrypt cipher nonce plain ≡ inr sealed
      → decrypt cipher nonce sealed ≡ inr plain

module _ (a : Aead) where
  open a use {argon_params, hash_password, Cipher, new_from_slice, encrypt, decrypt}

  unfoldable pub derive_key_from_passphrase : Text → Bytes → Result Bytes
  derive_key_from_passphrase passphrase salt = do
    params ← or_fail argon_params (λ e. other (codes "argon2 params: " ++ e))
    or_fail (hash_password passphrase salt) (λ e. other (codes "argon2 derive: " ++ e))

  unfoldable pub cipher_of : Text → Bytes → Result Cipher
  unfolding derive_key_from_passphrase
  cipher_of passphrase salt = do
    key ← derive_key_from_passphrase passphrase salt
    or_fail (new_from_slice key) (λ e. other (codes "cipher init: " ++ e))

  -- The ciphertext with the salt and the nonce that `fill_bytes` gave.
  unfoldable pub encrypt_with_passphrase :
      Bytes → Bytes → Bytes → Text → Result (Bytes × Bytes × Bytes)
  encrypt_with_passphrase salt nonce plaintext passphrase = do
    cipher ← cipher_of passphrase salt
    ciphertext ←
        or_fail (encrypt cipher nonce plaintext) (λ e. other (codes "encrypt failed: " ++ e))
    ok (ciphertext, salt, nonce)

  -- A nonce that is not 12 bytes long, on which `Nonce::from_slice` panics, is left to the parameter.
  unfoldable pub decrypt_with_passphrase : Bytes → Bytes → Bytes → Text → Result Bytes
  decrypt_with_passphrase ciphertext salt nonce passphrase = do
    cipher ← cipher_of passphrase salt
    or_fail (decrypt cipher nonce ciphertext) (λ e. wrong_passphrase code_wrong_passphrase)

  -- What was sealed with a passphrase is what the passphrase opens.
  pub decrypt_with_passphrase-encrypt :
      (salt nonce plain : Bytes) (passphrase : Text) (c s n : Bytes)
      → encrypt_with_passphrase salt nonce plain passphrase ≡ ok (c, s, n)
      → decrypt_with_passphrase c s n passphrase ≡ ok plain
  unfolding encrypt_with_passphrase decrypt_with_passphrase
  decrypt_with_passphrase-encrypt salt nonce plain pass c s n h =
      let (cipher, e1, e2) = and_then-ok (cipher_of pass salt) _ h in
      let (sealed, e3, e4) = and_then-ok (or_fail (encrypt cipher nonce plain) _) _ e2 in
      let opened = a.decrypt-encrypt cipher nonce plain sealed (or_fail-ok _ _ sealed e3) in
      let cs : sealed ≡ c = cc in
      let ss : salt ≡ s = cc in
      let ns : nonce ≡ n = cc in rw (← cs, ← ss, ← ns) (rw (e1, opened) refl)
