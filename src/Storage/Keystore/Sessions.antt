-- ===== src/Storage/Keystore/Sessions.antt =====
-- vericonomy-storage/src/light_keystore.rs: creating, importing, unlocking and locking a wallet.
use vericonomy_sdk.Base.{
  ℕ, ◌+◌, ◌*◌, ◌%◌, ◌^◌, Bool, false, not, Option, none, some, List, [], ◌++◌, ltb, is_empty,
  if◌then◌else◌,
}
use vericonomy_sdk.Text.{Text, codes}
use vericonomy_sdk.TextMap.{get, put, remove, contains_key}
use vericonomy_sdk.Hex.{Hex}
use vericonomy_sdk.Errors.{
  Result, ok, err, WalletError, invalid_mnemonic, locked_wallet, other, code_invalid_mnemonic,
  code_locked_wallet,
}
use vericonomy_sdk.Action.{Action, ◌>>=◌, ◌>>◌, done, lift, require, expect}
use vericonomy_sdk.Params.{CoinId, as_str}
use vericonomy_sdk.Hd.{Hd}
use vericonomy_sdk.Recovery.{Bip39, validate_mnemonic}
use vericonomy_sdk.Tx.Script.{Bytes}
use vericonomy_sdk.Storage.Types.{LightWalletRecord, LightKeystore, KeystoreStore}
use vericonomy_sdk.Storage.Crypto.{Aead}
use vericonomy_sdk.Storage.Keystore.Records.{
  unwrap_or, seal_wallet_record, decrypt_mnemonic, precache_light_wallet_scripts,
}

-- `sessions` is SESSION_MNEMONICS, which is empty until it is first used; `clock` is what `unix_now`
-- reads, and stands still during one method.
pub record World (State : Type 0) : Type 0 where
  pub disk : State
  pub sessions : List (Text × Text)
  pub clock : ℕ

abbrev pub empty_keystore : LightKeystore
empty_keystore = record { wallets = []; unlocked_until_by_coin = [] }

abbrev pub not_found : WalletError
not_found = other (codes "light wallet not found")

abbrev pub day : ℕ
day = 24 * 60 * 60

abbrev pub loaded : Result (Option LightKeystore) → Result LightKeystore
loaded (err e) = err e
loaded (ok store) = ok (unwrap_or store empty_keystore)

-- `store.wallets.get(…).map(|r| r.created_at)`
abbrev pub created_at_of : Option LightWalletRecord → Option ℕ
created_at_of none = none
created_at_of (some r) = some r.created_at

-- `store.unlocked_until_by_coin.insert(…)` of `persist_unlock_in_store`, at the time `now`
unfoldable pub unlock_until : ℕ → CoinId → ℕ → LightKeystore → LightKeystore
unlock_until now coin seconds store = record store {
  unlocked_until_by_coin =
      put (as_str coin) ((now + seconds) % 2 ^ 64) store.unlocked_until_by_coin;
}

module _ {State : Type 0} where
  unfoldable pub set_session : CoinId → Text → Action (World State) (Unit {0})
  set_session coin phrase w = (ok tt, record w { sessions = put (as_str coin) phrase w.sessions })

  unfoldable pub clear_unlock_session : CoinId → Action (World State) (Unit {0})
  clear_unlock_session coin w = (ok tt, record w { sessions = remove (as_str coin) w.sessions })

  unfoldable pub session_of : CoinId → Action (World State) (Option Text)
  session_of coin w = (ok (get (as_str coin) w.sessions), w)

  unfoldable pub unix_now : Action (World State) ℕ
  unix_now w = (ok w.clock, w)

  unfoldable pub signing_session_active : CoinId → World State → Bool
  signing_session_active coin w = contains_key (as_str coin) w.sessions

  unfoldable pub persist_unlock_in_store :
      LightKeystore → CoinId → Text → ℕ → Action (World State) LightKeystore
  unfolding unlock_until unix_now set_session
  persist_unlock_in_store store coin seed_secret seconds = do
    now ← unix_now
    set_session coin seed_secret
    done (unlock_until now coin seconds store)

module _ (ks : KeystoreStore) where
  unfoldable pub load : Action (World ks.State) LightKeystore
  load w = (loaded (ks.load_keystore w.disk), w)

  unfoldable pub save : LightKeystore → Action (World ks.State) (Unit {0})
  save store w = let (r, after) = ks.save_keystore store w.disk in (r, record w { disk = after })

  unfoldable pub wallet_exists : CoinId → Action (World ks.State) Bool
  unfolding load
  wallet_exists coin = do store ← load; done (contains_key (as_str coin) store.wallets)

  unfoldable pub is_unlocked : CoinId → Action (World ks.State) Bool
  unfolding load unix_now
  is_unlocked coin = do
    store ← load
    now ← unix_now
    done (elim (get (as_str coin) store.unlocked_until_by_coin) [
      | none ↦ false
      | some until ↦ ltb now until
    ])

  unfoldable pub lock_wallet : CoinId → Action (World ks.State) (Unit {0})
  unfolding load save clear_unlock_session
  lock_wallet coin = do
    clear_unlock_session coin
    store ← load
    if contains_key (as_str coin) store.unlocked_until_by_coin
        then save (record store {
          unlocked_until_by_coin = remove (as_str coin) store.unlocked_until_by_coin;
        })
        else done tt

  module _ (a : Aead) (hex : Hex) (utf8 : Bytes → Result Text) where
    unfoldable pub unlock_wallet : CoinId → Text → ℕ → Action (World ks.State) (Unit {0})
    unfolding load save persist_unlock_in_store
    unlock_wallet coin passphrase seconds = do
      store ← load
      sealed ← expect (get (as_str coin) store.wallets) not_found
      phrase ← lift (decrypt_mnemonic a hex utf8 sealed passphrase)
      store' ← persist_unlock_in_store store coin phrase seconds
      save store'

    -- From the test of the passphrase on.
    unfoldable pub mnemonic_from_store : CoinId → Text → Action (World ks.State) Text
    unfolding load is_unlocked set_session
    mnemonic_from_store coin passphrase = do
      require (not (is_empty passphrase)) (locked_wallet code_locked_wallet)
      store ← load
      sealed ← expect (get (as_str coin) store.wallets) not_found
      phrase ← lift (decrypt_mnemonic a hex utf8 sealed passphrase)
      unlocked ← is_unlocked coin
      if unlocked then set_session coin phrase else done tt
      done phrase

    unfoldable pub unlocked_mnemonic : CoinId → Text → Action (World ks.State) Text
    unfolding mnemonic_from_store session_of
    unlocked_mnemonic coin passphrase = do
      session ← session_of coin
      elim session [ some phrase ↦ done phrase | none ↦ mnemonic_from_store coin passphrase ]

    module _ (hd : Hd) (bip39 : Bip39) (salt nonce : Bytes) (coin : CoinId) where
      abbrev pub exists_already : WalletError
      exists_already = other (as_str coin ++ codes " light wallet already exists")

      -- `create_wallet` from the sealed record on.
      unfoldable pub create_sealed :
          Text → LightKeystore → LightWalletRecord → Action (World ks.State) (Unit {0})
      unfolding persist_unlock_in_store
      create_sealed mnemonic store sealed = do
        store' ←
            persist_unlock_in_store
              (record store { wallets = put (as_str coin) sealed store.wallets }) coin mnemonic day
        save store'
        filled ← lift (precache_light_wallet_scripts hd hex coin mnemonic store')
        save filled

      -- `create_wallet` from the loaded store on.
      unfoldable pub create_loaded :
          Text → Text → Option Text → LightKeystore → Action (World ks.State) (Unit {0})
      unfolding create_sealed unix_now
      create_loaded mnemonic passphrase label store = do
        require (not (contains_key (as_str coin) store.wallets)) exists_already
        now ← unix_now
        sealed ← lift (seal_wallet_record a hex now salt nonce coin mnemonic passphrase label none)
        create_sealed mnemonic store sealed

      unfoldable pub create_wallet : Text → Text → Option Text → Action (World ks.State) (Unit {0})
      unfolding load save create_loaded
      create_wallet mnemonic passphrase label = do
        require (validate_mnemonic bip39 mnemonic)
            (invalid_mnemonic code_invalid_mnemonic (codes "invalid mnemonic phrase"))
        store ← load
        create_loaded mnemonic passphrase label store

      -- `import_wallet` from the sealed record on.
      unfoldable pub import_sealed :
          Text → LightKeystore → LightWalletRecord → Action (World ks.State) (Unit {0})
      unfolding persist_unlock_in_store
      import_sealed seed_secret store sealed = do
        store' ←
            persist_unlock_in_store
              (record {
                wallets = put (as_str coin) sealed store.wallets;
                unlocked_until_by_coin = remove (as_str coin) store.unlocked_until_by_coin;
              })
              coin seed_secret day
        filled ← lift (precache_light_wallet_scripts hd hex coin seed_secret store')
        save filled

      unfoldable pub import_loaded :
          Text → Text → Option Text → LightKeystore → Action (World ks.State) (Unit {0})
      unfolding import_sealed unix_now
      import_loaded seed_secret passphrase label store = do
        now ← unix_now
        sealed ← lift (
            seal_wallet_record a hex now salt nonce coin seed_secret passphrase label
              (created_at_of (get (as_str coin) store.wallets)))
        import_sealed seed_secret store sealed

      unfoldable pub import_wallet : Text → Text → Option Text → Action (World ks.State) (Unit {0})
      unfolding load save import_loaded clear_unlock_session
      import_wallet seed_secret passphrase label = do
        clear_unlock_session coin
        store ← load
        import_loaded seed_secret passphrase label store
