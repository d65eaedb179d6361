-- ===== src/Storage/Keystore/Opens.antt =====
-- What a wallet that was created or imported gives back.
use vericonomy_sdk.Base.{
  ℕ, ◌<◌, ◌≡◌, refl, sym, ap, subst, arith, true, false, Option, some, [], is_empty, ltb,
}
use vericonomy_sdk.Text.{Text, trim}
use vericonomy_sdk.TextMap.{get, put, contains_key, get-put_self}
use vericonomy_sdk.Hex.{Hex}
use vericonomy_sdk.Errors.{Result, ok, and_then-ok}
use vericonomy_sdk.Params.{CoinId, as_str}
use vericonomy_sdk.Hd.{Hd}
use vericonomy_sdk.Tx.Script.{Bytes}
use vericonomy_sdk.Storage.Types.{LightWalletRecord, LightKeystore, KeystoreStore}
use vericonomy_sdk.Storage.Crypto.{Aead, encrypt_with_passphrase, decrypt_with_passphrase-encrypt}
use vericonomy_sdk.Storage.Keystore.Records.{
  seal_wallet_record, decode_field, decrypt_mnemonic, precache_scripts,
  precache_light_wallet_scripts,
}
use vericonomy_sdk.Storage.Keystore.Sessions.{
  World, load, is_unlocked, unlocked_mnemonic, mnemonic_from_store, wallet_exists,
}
use vericonomy_sdk.Storage.Keystore.Saved.{load-same_disk, session-phrase}

ok_eq : {A : Type 0} {x y : A} → ok x ≡ ok y → x ≡ y
ok_eq e = cc

module _ (a : Aead) (hex : Hex) (utf8 : Bytes → Result Text) where
  decode_field-encode :
      (b : Bytes) → trim (hex.encode b) ≡ hex.encode b → decode_field a hex (hex.encode b) ≡ ok b
  unfolding decode_field
  decode_field-encode b h = rw (h, hex.decode-encode b) refl

  -- Sealing a secret and opening the record with the same passphrase gives the secret back.
  pub decrypt_mnemonic-seal :
      (now : ℕ) (salt nonce : Bytes) (coin : CoinId) (seed passphrase : Text) (label : Option Text)
      (created : Option ℕ) (r : LightWalletRecord)
      → ((b : Bytes) → trim (hex.encode b) ≡ hex.encode b)
      → utf8 seed ≡ ok seed
      → seal_wallet_record a hex now salt nonce coin seed passphrase label created ≡ ok r
      → decrypt_mnemonic a hex utf8 r passphrase ≡ ok seed
  unfolding seal_wallet_record decrypt_mnemonic
  decrypt_mnemonic-seal now salt nonce coin seed pass label created r h u e =
      let ((c, s, n), e1, e2) = and_then-ok (encrypt_with_passphrase a salt nonce seed pass) _ e in
      let opened = decrypt_with_passphrase-encrypt a salt nonce seed pass c s n e1 in
      subst (λ x. decrypt_mnemonic a hex utf8 x pass ≡ ok seed) (ok_eq e2)
        (rw
          (
            decode_field-encode c (h c),
            decode_field-encode s (h s),
            decode_field-encode n (h n),
            opened,
          )
          u)

  module _ (hd : Hd) (coin : CoinId) (seed : Text) where
    -- Filling in the scripts leaves the secret and the unlock times alone.
    pub filled-decrypts :
        (store filled : LightKeystore) (r : LightWalletRecord) (passphrase : Text)
        → get (as_str coin) store.wallets ≡ some r
        → decrypt_mnemonic a hex utf8 r passphrase ≡ ok seed
        → precache_light_wallet_scripts hd hex coin seed store ≡ ok filled
        → (r' : LightWalletRecord) × (get (as_str coin) filled.wallets ≡ some r')
          × (decrypt_mnemonic a hex utf8 r' passphrase ≡ ok seed)
          × (filled.unlocked_until_by_coin ≡ store.unlocked_until_by_coin)
    unfolding precache_light_wallet_scripts decrypt_mnemonic
    filled-decrypts store filled r pass g d e =
        let (scripts, e1, e2) = and_then-ok (precache_scripts hd hex coin seed) _ e in
        let r' = record r { cached_script_hexes = scripts } in
        let same : record store { wallets = put (as_str coin) r' store.wallets } ≡ filled =
          ok_eq (rw g at e2) in
        (
          r',
          subst (λ (x : LightKeystore). get (as_str coin) x.wallets ≡ some r') same
              (get-put_self (as_str coin) r' store.wallets),
          d,
          ap (λ (x : LightKeystore). x.unlocked_until_by_coin) (sym same),
        )

  module _ (ks : KeystoreStore) (coin : CoinId) (seed passphrase : Text) where
    -- The wallet is there, its session is open with the secret, and after the sessions are gone the
    -- passphrase opens the stored record to the same secret.
    pub record Opened (w : World ks.State) : Type 0 where
      pub stored : wallet_exists ks coin w ≡ (ok true, w)
      pub unlocked : is_unlocked ks coin w ≡ (ok true, w)
      pub in_session : unlocked_mnemonic ks a hex utf8 coin [] w ≡ (ok seed, w)
      pub from_disk :
          (unlocked_mnemonic ks a hex utf8 coin passphrase (record w { sessions = [] })).0 ≡ ok seed

    exists-stored :
        (w : World ks.State) (store : LightKeystore) (r : LightWalletRecord)
        → load ks w ≡ (ok store, w)
        → get (as_str coin) store.wallets ≡ some r
        → wallet_exists ks coin w ≡ (ok true, w)
    unfolding wallet_exists contains_key
    exists-stored w store r l g = rw (l, wallet_exists, g, contains_key) refl

    unlocked-later :
        (w : World ks.State) (store : LightKeystore) (until : ℕ)
        → load ks w ≡ (ok store, w)
        → get (as_str coin) store.unlocked_until_by_coin ≡ some until
        → w.clock < until
        → is_unlocked ks coin w ≡ (ok true, w)
    unfolding is_unlocked
    unlocked-later w store until l u late =
        let t : ltb w.clock until ≡ true = ground arith in rw (l, is_unlocked, u, t) refl

    from_store-phrase :
        (w : World ks.State) (store : LightKeystore) (r : LightWalletRecord)
        → is_empty passphrase ≡ false
        → load ks w ≡ (ok store, w)
        → get (as_str coin) store.wallets ≡ some r
        → decrypt_mnemonic a hex utf8 r passphrase ≡ ok seed
        → is_unlocked ks coin w ≡ (ok true, w)
        → (mnemonic_from_store ks a hex utf8 coin passphrase w).0 ≡ ok seed
    unfolding mnemonic_from_store
    from_store-phrase w store r p l g d u = rw (mnemonic_from_store, p, l, g, d, u) refl

    pub reopens :
        (w : World ks.State) (store : LightKeystore) (r : LightWalletRecord) (until : ℕ)
        → is_empty passphrase ≡ false
        → load ks w ≡ (ok store, w)
        → get (as_str coin) store.wallets ≡ some r
        → decrypt_mnemonic a hex utf8 r passphrase ≡ ok seed
        → get (as_str coin) store.unlocked_until_by_coin ≡ some until
        → w.clock < until
        → get (as_str coin) w.sessions ≡ some seed
        → Opened w
    unfolding unlocked_mnemonic get
    reopens w store r until p l g d u late s =
        let l' = load-same_disk ks store w (record w { sessions = [] }) refl l in
        let x = record w { sessions = [] } in
        record {
          stored = exists-stored w store r l g;
          unlocked = unlocked-later w store until l u late;
          in_session = session-phrase ks a hex utf8 coin w seed [] s;
          from_disk = from_store-phrase x store r p l' g d (unlocked-later x store until l' u late);
        }
