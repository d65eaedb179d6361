-- ===== src/Storage/Keystore/Made.antt =====
-- A wallet that was created or imported is open, and its passphrase opens it again.
use vericonomy_sdk.Base.{
  ℕ, ◌+◌, ◌%◌, ◌^◌, ◌<◌, ◌≡◌, refl, sym, subst, ◌∙◌, arith, false, not, Option, none, some,
  is_empty,
}
use vericonomy_sdk.Text.{Text, trim, codes}
use vericonomy_sdk.TextMap.{get, put, remove, contains_key, get-put_self}
use vericonomy_sdk.Hex.{Hex}
use vericonomy_sdk.Errors.{Result, ok, invalid_mnemonic, code_invalid_mnemonic}
use vericonomy_sdk.Action.{lift, ◌>>=◌}
use vericonomy_sdk.Params.{CoinId, as_str}
use vericonomy_sdk.Hd.{Hd}
use vericonomy_sdk.Recovery.{Bip39, validate_mnemonic}
use vericonomy_sdk.Tx.Script.{Bytes}
use vericonomy_sdk.Storage.Types.{LightWalletRecord, LightKeystore, KeystoreStore}
use vericonomy_sdk.Storage.Crypto.{Aead}
use vericonomy_sdk.Storage.Keystore.Records.{seal_wallet_record, precache_light_wallet_scripts}
use vericonomy_sdk.Storage.Keystore.Sessions.{
  World, load, save, day, unlock_until, create_wallet, import_wallet, created_at_of, create_sealed,
  create_loaded, import_sealed, import_loaded, exists_already, unix_now, clear_unlock_session,
}
use vericonomy_sdk.Storage.Keystore.Saved.{
  Saved, save-Saved, after_load, after_lift, after_require, after_save,
}
use vericonomy_sdk.Storage.Keystore.Opens.{decrypt_mnemonic-seal, filled-decrypts, Opened, reopens}

module _ (ks : KeystoreStore) (a : Aead) (hex : Hex) (utf8 : Bytes → Result Text) (hd : Hd)
    (bip39 : Bip39) (salt nonce : Bytes) (coin : CoinId) where
  -- The end of both methods: the record is sealed and the store with it is filled in and saved.
  finish-Opened :
      (seed passphrase : Text) (label : Option Text) (created : Option ℕ) (r : LightWalletRecord)
      (store filled : LightKeystore) (v w : World ks.State) (now : ℕ)
      → ((b : Bytes) → trim (hex.encode b) ≡ hex.encode b)
      → utf8 seed ≡ ok seed
      → is_empty passphrase ≡ false
      → now + day < 2 ^ 64
      → seal_wallet_record a hex now salt nonce coin seed passphrase label created ≡ ok r
      → get (as_str coin) store.wallets ≡ some r
      → get (as_str coin) store.unlocked_until_by_coin ≡ some ((now + day) % 2 ^ 64)
      → precache_light_wallet_scripts hd hex coin seed store ≡ ok filled
      → Saved ks filled v w
      → v.clock ≡ now
      → get (as_str coin) v.sessions ≡ some seed
      → Opened a hex utf8 ks coin seed passphrase w
  finish-Opened seed pass label created r store filled v w now h u p soon sealed g t f s c q =
      let d =
        decrypt_mnemonic-seal a hex utf8 now salt nonce coin seed pass label created r h u sealed in
      let (r', g', d', same) = filled-decrypts a hex utf8 hd coin seed store filled r pass g d f in
      let until = subst (λ m. get (as_str coin) m ≡ some ((now + day) % 2 ^ 64)) (sym same) t in
      let here : w.clock ≡ now = s.same_clock ∙ c in
      reopens a hex utf8 ks coin seed pass w filled r' ((now + day) % 2 ^ 64) p s.reloads g' d'
        until (omega (arith, here, soon))
        (subst (λ m. get (as_str coin) m ≡ some seed) (sym s.same_sessions) q)

  create_sealed-Opened :
      (seed passphrase : Text) (label : Option Text) (r : LightWalletRecord) (store : LightKeystore)
      (v w : World ks.State)
      → ((b : Bytes) → trim (hex.encode b) ≡ hex.encode b)
      → utf8 seed ≡ ok seed
      → is_empty passphrase ≡ false
      → v.clock + day < 2 ^ 64
      → seal_wallet_record a hex v.clock salt nonce coin seed passphrase label none ≡ ok r
      → create_sealed ks a hex utf8 hd bip39 salt nonce coin seed store r v ≡ (ok tt, w)
      → Opened a hex utf8 ks coin seed passphrase w
  unfolding create_sealed unlock_until
  create_sealed-Opened seed pass label r store v w h u p soon sealed e =
      let opened = record v { sessions = put (as_str coin) seed v.sessions } in
      let store' =
        unlock_until v.clock coin day
          (record store { wallets = put (as_str coin) r store.wallets }) in
      let (mid, s1, e1) =
        after_save ks store'
          (lift (precache_light_wallet_scripts hd hex coin seed store') >>= save ks) opened w tt
          e in
      let (filled, f, e2) =
        after_lift ks (precache_light_wallet_scripts hd hex coin seed store') (save ks) mid w tt
          e1 in
      let s2 = save-Saved ks filled mid w e2 in
      finish-Opened seed pass label none r store' filled mid w v.clock h u p soon sealed
        (get-put_self (as_str coin) r store.wallets)
        (get-put_self (as_str coin) ((v.clock + day) % 2 ^ 64) store.unlocked_until_by_coin) f s2
        s1.same_clock
        (subst (λ m. get (as_str coin) m ≡ some seed) (sym s1.same_sessions)
          (get-put_self (as_str coin) seed v.sessions))

  -- For an encoding in hex whose digits are no white space: a wallet that is created successfully,
  -- from a phrase that is UTF-8, with a passphrase that is not empty and a day from now still a 64-bit
  -- time, is stored and unlocked, its session gives the phrase, and after the sessions
  -- are gone the passphrase gives the phrase.
  pub create_wallet-Opened :
      (mnemonic passphrase : Text) (label : Option Text) (v w : World ks.State)
      → ((b : Bytes) → trim (hex.encode b) ≡ hex.encode b)
      → utf8 mnemonic ≡ ok mnemonic
      → is_empty passphrase ≡ false
      → v.clock + day < 2 ^ 64
      → create_wallet ks a hex utf8 hd bip39 salt nonce coin mnemonic passphrase label v
        ≡ (ok tt, w)
      → Opened a hex utf8 ks coin mnemonic passphrase w
  unfolding create_wallet create_loaded unix_now
  create_wallet-Opened seed pass label v w h u p soon e =
      let (valid, e1) =
        after_require ks (validate_mnemonic bip39 seed)
          (invalid_mnemonic code_invalid_mnemonic (codes "invalid mnemonic phrase"))
          (load ks >>= create_loaded ks a hex utf8 hd bip39 salt nonce coin seed pass label) v w tt
          e in
      let (store, l, e2) =
        after_load ks (create_loaded ks a hex utf8 hd bip39 salt nonce coin seed pass label) v w tt
          e1 in
      let sealing =
        λ (now : ℕ). seal_wallet_record a hex now salt nonce coin seed pass label none in
      let go = create_sealed ks a hex utf8 hd bip39 salt nonce coin seed store in
      let (absent, e3) =
        after_require ks (not (contains_key (as_str coin) store.wallets))
          (exists_already ks a hex utf8 hd bip39 salt nonce coin)
          (unix_now >>= λ now. lift (sealing now) >>= go) v w tt e2 in
      let (r, sealed, e4) = after_lift ks (sealing v.clock) go v w tt e3 in
      create_sealed-Opened seed pass label r store v w h u p soon sealed e4

  -- For an encoding in hex whose digits are no white space: a seed that is imported successfully,
  -- being UTF-8, with a passphrase that is not empty and a day from now still a 64-bit time, is stored and unlocked in place of whatever wallet was there, its session gives the
  -- seed, and after the sessions are gone the passphrase gives the seed.
  pub import_wallet-Opened :
      (seed passphrase : Text) (label : Option Text) (v w : World ks.State)
      → ((b : Bytes) → trim (hex.encode b) ≡ hex.encode b)
      → utf8 seed ≡ ok seed
      → is_empty passphrase ≡ false
      → v.clock + day < 2 ^ 64
      → import_wallet ks a hex utf8 hd bip39 salt nonce coin seed passphrase label v ≡ (ok tt, w)
      → Opened a hex utf8 ks coin seed passphrase w
  unfolding import_wallet import_loaded import_sealed unlock_until clear_unlock_session
  import_wallet-Opened seed pass label v w h u p soon e =
      let cleared = record v { sessions = remove (as_str coin) v.sessions } in
      let (store, l, e1) =
        after_load ks (import_loaded ks a hex utf8 hd bip39 salt nonce coin seed pass label) cleared
          w tt e in
      let created = created_at_of (get (as_str coin) store.wallets) in
      let sealing = seal_wallet_record a hex v.clock salt nonce coin seed pass label created in
      let (r, sealed, e2) =
        after_lift ks sealing (import_sealed ks a hex utf8 hd bip39 salt nonce coin seed store)
          cleared w tt e1 in
      let opened = record v {
        sessions = put (as_str coin) seed (remove (as_str coin) v.sessions);
      } in
      let store' = unlock_until v.clock coin day (record {
        wallets = put (as_str coin) r store.wallets;
        unlocked_until_by_coin = remove (as_str coin) store.unlocked_until_by_coin;
      }) in
      let (filled, f, e3) =
        after_lift ks (precache_light_wallet_scripts hd hex coin seed store') (save ks) opened w tt
          e2 in
      finish-Opened seed pass label created r store' filled opened w v.clock h u p soon sealed
        (get-put_self (as_str coin) r store.wallets)
        (get-put_self (as_str coin) ((v.clock + day) % 2 ^ 64)
          (remove (as_str coin) store.unlocked_until_by_coin))
        f (save-Saved ks filled opened w e3) refl
        (get-put_self (as_str coin) seed (remove (as_str coin) v.sessions))
