-- ===== src/Storage/Keystore/Records.antt =====
-- vericonomy-storage/src/light_keystore.rs: the helpers that seal, open and fill a wallet's record.
use vericonomy_sdk.Base.{
  ℕ, zero, suc, ◌+◌, false, Option, none, some, List, [], ◌∷◌, ◌++◌, if◌then◌else◌,
}
use vericonomy_sdk.Text.{Text, codes, trim}
use vericonomy_sdk.TextMap.{get, put}
use vericonomy_sdk.Hex.{Hex, or_fail}
use vericonomy_sdk.Errors.{Result, ok, ◌>>=◌, other}
use vericonomy_sdk.Params.{CoinId, as_str}
use vericonomy_sdk.Hd.{Hd, HdChain, external, internal}
use vericonomy_sdk.Tx.Script.{Bytes}
use vericonomy_sdk.Storage.Types.{LightWalletRecord, LightKeystore}
use vericonomy_sdk.Storage.Crypto.{Aead, encrypt_with_passphrase, decrypt_with_passphrase}

abbrev pub gap_precache_max : ℕ
gap_precache_max = 80

-- `unwrap_or_else` and `unwrap_or`
abbrev pub unwrap_or : {A : Type 0} → Option A → A → A
unwrap_or none default = default
unwrap_or (some a) default = a

module _ (a : Aead) (hex : Hex) where
  -- A fresh record. `now` is the time, and `salt` and `nonce` the random bytes of the encryption.
  unfoldable pub seal_wallet_record :
      (now : ℕ) (salt nonce : Bytes) (coin : CoinId) (seed_secret passphrase : Text)
      (label : Option Text) (preserve_created_at : Option ℕ)
      → Result LightWalletRecord
  seal_wallet_record now salt nonce coin seed_secret passphrase label preserve_created_at = do
    (encrypted, salt', nonce') ← encrypt_with_passphrase a salt nonce seed_secret passphrase
    ok (record {
      coin = as_str coin;
      encrypted_mnemonic = hex.encode encrypted;
      salt = hex.encode salt';
      nonce = hex.encode nonce';
      created_at = unwrap_or preserve_created_at now;
      next_receive_index = 0;
      label = unwrap_or label [];
      cached_script_hexes = [];
      addresses_scan_complete = false;
      funded_script_hexes = [];
      index_precache_offset = 0;
      index_gap_external = 0;
      index_gap_external_done = false;
      index_gap_internal = 0;
      index_gap_internal_done = false;
    })

  -- `hex::decode(field.trim()).map_err(…)?`
  unfoldable pub decode_field : Text → Result Bytes
  decode_field field =
      or_fail (hex.decode (trim field)) (λ e. other (codes "keystore corrupt: " ++ e))

  -- `utf8` is `String::from_utf8`.
  unfoldable pub decrypt_mnemonic : (Bytes → Result Text) → LightWalletRecord → Text → Result Text
  unfolding decode_field
  decrypt_mnemonic utf8 r passphrase = do
    encrypted ← decode_field r.encrypted_mnemonic
    salt ← decode_field r.salt
    nonce ← decode_field r.nonce
    plain ← decrypt_with_passphrase a encrypted salt nonce passphrase
    utf8 plain

module _ (hd : Hd) (hex : Hex) (coin : CoinId) (seed_secret : Text) where
  -- `for index in 0..=GAP_PRECACHE_MAX` of one chain, with the indices that are left
  unfoldable pub precache_chain : HdChain → ℕ → ℕ → Result (List Text)
  precache_chain chain zero index = ok []
  precache_chain chain (suc left) index =
      (hd.derive_address_on_chain coin seed_secret none chain index) >>= λ addr.
      (hd.address_to_script_pubkey coin addr) >>= λ script.
      (precache_chain chain left (index + 1)) >>= λ scripts. ok (hex.encode script ∷ scripts)

  unfoldable pub precache_scripts : Result (List Text)
  unfolding precache_chain
  precache_scripts = (precache_chain external (gap_precache_max + 1) 0) >>= λ outer.
      if hd.uses_core_hd_paths coin seed_secret
      then ((precache_chain internal (gap_precache_max + 1) 0) >>= λ inner. ok (outer ++ inner))
      else ok outer

  unfoldable pub precache_light_wallet_scripts : LightKeystore → Result LightKeystore
  unfolding precache_scripts
  precache_light_wallet_scripts store = do
    scripts ← precache_scripts
    ok (elim (get (as_str coin) store.wallets) [
      | none ↦ store
      | some r ↦ record store {
        wallets = put (as_str coin) (record r { cached_script_hexes = scripts }) store.wallets;
      }
    ])
