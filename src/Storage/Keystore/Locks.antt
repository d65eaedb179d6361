-- ===== src/Storage/Keystore/Locks.antt =====
-- vericonomy-storage/src/light_keystore.rs: what stays open after a lock, after an unlock has run
-- out, and after an import that fails.
use vericonomy_sdk.Base.{
  ℕ, ◌+◌, ◌%◌, ◌^◌, ◌<◌, ◌≡◌, refl, sym, arith, ap, subst, ◌∙◌, false, Option, none, some, [], ltb,
  Bool-cases, inl, inr,
}
use vericonomy_sdk.Text.{Text}
use vericonomy_sdk.TextMap.{
  get, put, remove, contains_key, get-put_self, get-remove_self, get-absent, contains_key-absent,
}
use vericonomy_sdk.Hex.{Hex}
use vericonomy_sdk.Errors.{Result, ok, err, WalletError, locked_wallet, code_locked_wallet}
use vericonomy_sdk.Params.{CoinId, as_str}
use vericonomy_sdk.Hd.{Hd}
use vericonomy_sdk.Recovery.{Bip39}
use vericonomy_sdk.Tx.Script.{Bytes}
use vericonomy_sdk.Storage.Types.{LightWalletRecord, LightKeystore, KeystoreStore}
use vericonomy_sdk.Storage.Crypto.{Aead}
use vericonomy_sdk.Storage.Keystore.Records.{
  seal_wallet_record, decrypt_mnemonic, precache_scripts, precache_light_wallet_scripts,
}
use vericonomy_sdk.Storage.Keystore.Sessions.{
  World, load, is_unlocked, lock_wallet, unlocked_mnemonic, mnemonic_from_store,
  signing_session_active, loaded, import_wallet, import_loaded, import_sealed, created_at_of,
  set_session, clear_unlock_session, persist_unlock_in_store, unix_now, unlock_until, unlock_wallet,
}
use vericonomy_sdk.Storage.Keystore.Saved.{
  Saved, same_result, save-Saved, load-same_disk, session-phrase, after_load, after_expect,
  after_lift,
}

module _ (ks : KeystoreStore) (coin : CoinId) where
  not_listed-locked :
      (w : World ks.State) (store : LightKeystore)
      → load ks w ≡ (ok store, w)
      → get (as_str coin) store.unlocked_until_by_coin ≡ none
      → is_unlocked ks coin w ≡ (ok false, w)
  unfolding is_unlocked
  not_listed-locked w store l g = rw (l, is_unlocked, g) refl

  -- A world whose store was unlocked at the time `since`.
  unlocked_up_to :
      (w : World ks.State) (store : LightKeystore) (since seconds now : ℕ)
      → load ks w ≡ (ok (unlock_until since coin seconds store), w)
      → since + seconds < 2 ^ 64
      → is_unlocked ks coin (record w { clock = now })
        ≡ (ok (ltb now (since + seconds)), record w { clock = now })
  unfolding is_unlocked unlock_until
  unlocked_up_to w store since seconds now l h =
      let whole : (since + seconds) % 2 ^ 64 ≡ since + seconds = omega arith in
      rw
        (
          load-same_disk ks _ w (record w { clock = now }) refl l,
          is_unlocked,
          get-put_self (as_str coin) ((since + seconds) % 2 ^ 64) store.unlocked_until_by_coin,
          whole,
        )
        refl

  -- Neither the store nor the sessions know the coin.
  closed :
      (a : Aead) (hex : Hex) (utf8 : Bytes → Result Text) (w : World ks.State)
      (store : LightKeystore)
      → load ks w ≡ (ok store, w)
      → get (as_str coin) store.unlocked_until_by_coin ≡ none
      → get (as_str coin) w.sessions ≡ none
      → (is_unlocked ks coin w ≡ (ok false, w))
        × (signing_session_active coin w ≡ false)
        × (unlocked_mnemonic ks a hex utf8 coin [] w ≡ (err (locked_wallet code_locked_wallet), w))
  unfolding signing_session_active unlocked_mnemonic mnemonic_from_store
  closed a hex utf8 w store l g s = (
    not_listed-locked w store l g,
    contains_key-absent (as_str coin) w.sessions s,
    rw (unlocked_mnemonic, s) refl,
  )

  -- After a lock that succeeds the wallet is not unlocked, it has no signing session, and its phrase
  -- is not given without a passphrase.
  pub lock_wallet-locks :
      (a : Aead) (hex : Hex) (utf8 : Bytes → Result Text) (v w : World ks.State)
      → lock_wallet ks coin v ≡ (ok tt, w)
      → (is_unlocked ks coin w ≡ (ok false, w))
        × (signing_session_active coin w ≡ false)
        × (unlocked_mnemonic ks a hex utf8 coin [] w ≡ (err (locked_wallet code_locked_wallet), w))
  unfolding lock_wallet
  lock_wallet-locks a hex utf8 v w e =
      let key = as_str coin in
      let cleared = record v { sessions = remove key v.sessions } in
      let gone : get key cleared.sessions ≡ none = get-remove_self key v.sessions in
      let (store, l, f) = after_load ks _ cleared w tt e in
      elim (Bool-cases (contains_key key store.unlocked_until_by_coin)) [
        | inl listed ↦
            let saved = save-Saved ks _ cleared w (rw listed at f) in
            closed a hex utf8 w _ saved.reloads (get-remove_self key store.unlocked_until_by_coin)
              (ap (get key) saved.same_sessions ∙ gone)
        | inr absent ↦
            let (u, same_w) = same_result (rw absent at f) in
            subst
              (λ x.
                (is_unlocked ks coin x ≡ (ok false, x))
                × (signing_session_active coin x ≡ false)
                × (unlocked_mnemonic ks a hex utf8 coin [] x
                    ≡ (err (locked_wallet code_locked_wallet), x)))
              same_w
              (closed a hex utf8 cleared store l
                (get-absent key store.unlocked_until_by_coin absent) gone)
      ]

  -- An unlock that succeeds, whose end is still a 64-bit time, has opened the stored record with the
  -- passphrase. From then on, while nothing but the clock changes, the wallet counts as unlocked
  -- before that end and not from it on, but the phrase of the record is given at any time and for
  -- any passphrase.
  pub unlock_wallet_expires :
      (a : Aead) (hex : Hex) (utf8 : Bytes → Result Text) (passphrase : Text) (seconds : ℕ)
      (v w : World ks.State) (now : ℕ) (other : Text)
      → unlock_wallet ks a hex utf8 coin passphrase seconds v ≡ (ok tt, w)
      → v.clock + seconds < 2 ^ 64
      → (store : LightKeystore) × (r : LightWalletRecord) × (phrase : Text) × (load ks v
          ≡ (ok store, v))
        × (get (as_str coin) store.wallets ≡ some r)
        × (decrypt_mnemonic a hex utf8 r passphrase ≡ ok phrase)
        × (is_unlocked ks coin (record w { clock = now })
            ≡ (ok (ltb now (v.clock + seconds)), record w { clock = now }))
        × (unlocked_mnemonic ks a hex utf8 coin other (record w { clock = now })
            ≡ (ok phrase, record w { clock = now }))
  unfolding unlock_wallet persist_unlock_in_store set_session unix_now
  unlock_wallet_expires a hex utf8 pass seconds v w now other e h =
      let (store, l, f) = after_load ks _ v w tt e in
      let (r, g, f') = after_expect ks _ _ _ v w tt f in
      let (phrase, d, f2) = after_lift ks _ _ v w tt f' in
      let opened = record v { sessions = put (as_str coin) phrase v.sessions } in
      let saved : Saved ks (unlock_until v.clock coin seconds store) opened w =
        save-Saved ks _ opened w f2 in
      (
        store,
        r,
        phrase,
        l,
        g,
        d,
        unlocked_up_to w store v.clock seconds now saved.reloads h,
        session-phrase ks a hex utf8 coin (record w { clock = now }) phrase other
            (ap (get (as_str coin)) saved.same_sessions
              ∙ get-put_self (as_str coin) phrase v.sessions),
      )

  -- An import whose scripts cannot be derived fails and writes nothing, but the phrase it was given
  -- stays in the session and is handed out for any passphrase.
  pub import_wallet-underivable :
      (a : Aead) (hex : Hex) (utf8 : Bytes → Result Text) (hd : Hd) (bip39 : Bip39)
      (salt nonce : Bytes) (phrase passphrase other : Text) (label : Option Text)
      (v : World ks.State) (store : LightKeystore) (sealed : LightWalletRecord) (x : WalletError)
      → loaded (ks.load_keystore v.disk) ≡ ok store
      → seal_wallet_record a hex v.clock salt nonce coin phrase passphrase label
          (created_at_of (get (as_str coin) store.wallets))
        ≡ ok sealed
      → precache_scripts hd hex coin phrase ≡ err x
      → (result : Result (Unit {0})) (w : World ks.State)
      → import_wallet ks a hex utf8 hd bip39 salt nonce coin phrase passphrase label v ≡ (result, w)
      → (result ≡ err x)
        × (w.disk ≡ v.disk)
        × (unlocked_mnemonic ks a hex utf8 coin other w ≡ (ok phrase, w))
  unfolding import_wallet import_loaded import_sealed load precache_light_wallet_scripts set_session
      clear_unlock_session persist_unlock_in_store unix_now
  import_wallet-underivable a hex utf8 hd bip39 salt nonce phrase pass other label v store sealed x
        l s e r w i =
      let f =
        rw (import_wallet, l, import_loaded, s, import_sealed, precache_light_wallet_scripts, e) at
          i in
      let same_w = ap (λ (p : Result (Unit {0}) × World ks.State). p.1) f in
      (
        sym (ap (λ (p : Result (Unit {0}) × World ks.State). p.0) f),
        ap (λ (y : World ks.State). y.disk) (sym same_w),
        session-phrase ks a hex utf8 coin w phrase other (
            ap (λ (y : World ks.State). get (as_str coin) y.sessions) (sym same_w)
            ∙ get-put_self (as_str coin) phrase (remove (as_str coin) v.sessions)),
      )
