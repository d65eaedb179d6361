-- ===== src/Storage/Keystore/Tests.antt =====
-- Wallets that are created, unlocked and locked on a disk in memory.
use vericonomy_sdk.Base.{
  ℕ, ◌≡◌, refl, arith, true, false, Option, none, some, List, [], ◌∷◌, ◌<◌, ◌≤◌, ◌^◌,
}
use vericonomy_sdk.Text.{Text, codes, trim, trim_start, text_eq}
use vericonomy_sdk.TextMap.{get, put, remove, contains_key}
use vericonomy_sdk.Errors.{Result, ok, err, other, locked_wallet, code_locked_wallet}
use vericonomy_sdk.Params.{verium, as_str}
use vericonomy_sdk.Hd.{Hd}
use vericonomy_sdk.Recovery.{validate_mnemonic}
use vericonomy_sdk.Engine.Toy.{toy_hd, phrase}
use vericonomy_sdk.Storage.Types.{LightWalletRecord, LightKeystore, IndexingProgress}
use vericonomy_sdk.Storage.Crypto.{
  derive_key_from_passphrase, cipher_of, encrypt_with_passphrase, decrypt_with_passphrase,
}
use vericonomy_sdk.Storage.Keystore.Records.{
  seal_wallet_record, decrypt_mnemonic, precache_chain, precache_scripts,
  precache_light_wallet_scripts,
}
use vericonomy_sdk.Storage.Keystore.Sessions.{
  World, created_at_of, load, save, persist_unlock_in_store, unlock_until, set_session, unix_now,
  create_wallet, create_loaded, create_sealed, import_wallet, lock_wallet, unlocked_mnemonic,
  is_unlocked, signing_session_active, clear_unlock_session, import_loaded, import_sealed,
  unlock_wallet,
}
use vericonomy_sdk.Storage.Keystore.Indices.{
  bump_receive_index, peek_receive_index, set_receive_index_at_least, indexing_progress,
  set_indexing_progress, has_progress,
}
use vericonomy_sdk.Storage.Keystore.Requests.{Request, bump, at_least, serve_all, serve_all-refines}
use vericonomy_sdk.Storage.Keystore.Opens.{Opened}
use vericonomy_sdk.Storage.Keystore.Made.{create_wallet-Opened, import_wallet-Opened}
use vericonomy_sdk.Storage.Keystore.Locks.{
  lock_wallet-locks, unlock_wallet_expires, import_wallet-underivable,
}
use vericonomy_sdk.Storage.Keystore.Progress.{set_indexing_progress-shown}
use vericonomy_sdk.Storage.Keystore.Toy.{shift_hex, trim-shift, toy_aead, toy_bip39, toy_store}

abbrev password : Text
password = codes "pw"

abbrev blank : World (Option LightKeystore)
blank = record { disk = none; sessions = []; clock = 1000 }

-- A wallet with a phrase, open until the time 5000.
abbrev kept : LightWalletRecord
kept = record {
  coin = codes "verium";
  encrypted_mnemonic = shift_hex.encode phrase;
  salt = shift_hex.encode (1 ∷ []);
  nonce = shift_hex.encode (2 ∷ []);
  created_at = 10;
  next_receive_index = 4;
  label = codes "Verium";
  cached_script_hexes = [];
  addresses_scan_complete = false;
  funded_script_hexes = [];
  index_precache_offset = 0;
  index_gap_external = 0;
  index_gap_external_done = false;
  index_gap_internal = 0;
  index_gap_internal_done = false;
}

abbrev store : LightKeystore
store = record {
  wallets = (as_str verium, kept) ∷ [];
  unlocked_until_by_coin = (as_str verium, 5000) ∷ [];
}

abbrev open_world : ℕ → World (Option LightKeystore)
open_world now = record { disk = some store; sessions = (as_str verium, phrase) ∷ []; clock = now }

abbrev create : World (Option LightKeystore) → Result (Unit {0}) × World (Option LightKeystore)
create =
    create_wallet toy_store toy_aead shift_hex ok toy_hd toy_bip39 (1 ∷ []) (2 ∷ []) verium phrase
      password none

created : create blank ≡ (ok tt, (create blank).1)
unfolding create_wallet create_loaded create_sealed load save persist_unlock_in_store unlock_until
    set_session unix_now validate_mnemonic trim trim_start get put remove contains_key text_eq
    as_str seal_wallet_record encrypt_with_passphrase cipher_of derive_key_from_passphrase
    precache_light_wallet_scripts precache_scripts precache_chain
created = refl

create_wallet-Opened_example :
    Opened toy_aead shift_hex ok toy_store verium phrase password (create blank).1
create_wallet-Opened_example =
    create_wallet-Opened toy_store toy_aead shift_hex ok toy_hd toy_bip39 (1 ∷ []) (2 ∷ []) verium
      phrase password none blank (create blank).1 trim-shift refl refl (omega arith) created

abbrev imported_phrase : Text
imported_phrase = codes "zoo"

abbrev import : World (Option LightKeystore) → Result (Unit {0}) × World (Option LightKeystore)
import =
    import_wallet toy_store toy_aead shift_hex ok toy_hd toy_bip39 (1 ∷ []) (2 ∷ []) verium
      imported_phrase password none

imported : import (open_world 6000) ≡ (ok tt, (import (open_world 6000)).1)
unfolding import_wallet import_loaded import_sealed clear_unlock_session create_wallet create_loaded
    create_sealed load save persist_unlock_in_store unlock_until set_session unix_now
    validate_mnemonic trim trim_start get put remove contains_key text_eq as_str seal_wallet_record
    encrypt_with_passphrase cipher_of derive_key_from_passphrase precache_light_wallet_scripts
    precache_scripts precache_chain
imported = refl

import_wallet-Opened_example :
    Opened toy_aead shift_hex ok toy_store verium imported_phrase password
      (import (open_world 6000)).1
import_wallet-Opened_example =
    import_wallet-Opened toy_store toy_aead shift_hex ok toy_hd toy_bip39 (1 ∷ []) (2 ∷ []) verium
      imported_phrase password none (open_world 6000) (import (open_world 6000)).1 trim-shift refl
      refl (omega arith) imported

abbrev lock : World (Option LightKeystore) → Result (Unit {0}) × World (Option LightKeystore)
lock = lock_wallet toy_store verium

locked : lock (open_world 2000) ≡ (ok tt, (lock (open_world 2000)).1)
unfolding lock_wallet load save clear_unlock_session get put remove contains_key text_eq as_str
locked = refl

lock_wallet-locks_example :
    (is_unlocked toy_store verium (lock (open_world 2000)).1
      ≡ (ok false, (lock (open_world 2000)).1))
    × (signing_session_active verium (lock (open_world 2000)).1 ≡ false)
    × (unlocked_mnemonic toy_store toy_aead shift_hex ok verium [] (lock (open_world 2000)).1
        ≡ (err (locked_wallet code_locked_wallet), (lock (open_world 2000)).1))
lock_wallet-locks_example =
    lock_wallet-locks toy_store verium toy_aead shift_hex ok (open_world 2000)
      (lock (open_world 2000)).1 locked

abbrev shut_world : World (Option LightKeystore)
shut_world = record (open_world 6000) { sessions = [] }

abbrev unlock : Result (Unit {0}) × World (Option LightKeystore)
unlock = unlock_wallet toy_store toy_aead shift_hex ok verium password 60 shut_world

unlocked : unlock ≡ (ok tt, unlock.1)
unfolding unlock_wallet decrypt_mnemonic decrypt_with_passphrase load save persist_unlock_in_store
    unlock_until set_session unix_now get put text_eq as_str cipher_of derive_key_from_passphrase
unlocked = refl

-- After the end of the unlock.
abbrev much_later : World (Option LightKeystore)
much_later = record unlock.1 { clock = 9000 }

unlock_wallet_expires_example :
    (l : LightKeystore) × (r : LightWalletRecord) × (seed : Text) × (load toy_store shut_world
      ≡ (ok l, shut_world))
    × (get (as_str verium) l.wallets ≡ some r)
    × (decrypt_mnemonic toy_aead shift_hex ok r password ≡ ok seed)
    × (is_unlocked toy_store verium much_later ≡ (ok false, much_later))
    × (unlocked_mnemonic toy_store toy_aead shift_hex ok verium (codes "wrong") much_later
        ≡ (ok seed, much_later))
unlock_wallet_expires_example =
    unlock_wallet_expires toy_store verium toy_aead shift_hex ok password 60 shut_world unlock.1
      9000 (codes "wrong") unlocked (omega arith)

-- Keys that cannot be derived.
abbrev keyless : Hd
keyless = record toy_hd {
  derive_address_on_chain = λ coin secret pass chain index. err (other (codes "bad phrase"));
}

abbrev failed_import : Result (Unit {0}) × World (Option LightKeystore)
failed_import =
    import_wallet toy_store toy_aead shift_hex ok keyless toy_bip39 (1 ∷ []) (2 ∷ []) verium
      imported_phrase password none (open_world 2000)

abbrev resealed : LightWalletRecord
resealed = record kept {
  encrypted_mnemonic = shift_hex.encode imported_phrase;
  next_receive_index = 0;
  label = [];
}

sealed_again :
    seal_wallet_record toy_aead shift_hex 2000
      (1 ∷ [])
      (2 ∷ [])
      verium
      imported_phrase
      password
      none
      (created_at_of (get (as_str verium) store.wallets))
    ≡ ok resealed
unfolding seal_wallet_record encrypt_with_passphrase cipher_of derive_key_from_passphrase get
    text_eq as_str
sealed_again = refl

underivable :
    precache_scripts keyless shift_hex verium imported_phrase ≡ err (other (codes "bad phrase"))
unfolding precache_scripts precache_chain
underivable = refl

import_wallet-underivable_example :
    (failed_import.0 ≡ err (other (codes "bad phrase")))
    × (failed_import.1.disk ≡ some store)
    × (unlocked_mnemonic toy_store toy_aead shift_hex ok verium [] failed_import.1
        ≡ (ok imported_phrase, failed_import.1))
import_wallet-underivable_example =
    import_wallet-underivable toy_store verium toy_aead shift_hex ok keyless toy_bip39 (1 ∷ [])
      (2 ∷ []) imported_phrase password [] none (open_world 2000) store resealed
      (other (codes "bad phrase")) refl sealed_again underivable failed_import.0 failed_import.1
      refl

abbrev requests : List Request
requests = bump ∷ at_least 9 ∷ at_least 3 ∷ bump ∷ []

abbrev served : Result (Unit {0}) × World (Option LightKeystore)
served = serve_all toy_store verium requests (open_world 2000)

first_index : peek_receive_index toy_store verium (open_world 2000) ≡ (ok 4, open_world 2000)
unfolding peek_receive_index load get text_eq as_str
first_index = refl

all_served : served ≡ (ok tt, served.1)
unfolding bump_receive_index set_receive_index_at_least load save get put remove text_eq as_str
all_served = refl

serve_all-refines_example :
    (peek_receive_index toy_store verium served.1 ≡ (ok 10, served.1)) × (4 ≤ 10) × (10 < 2 ^ 32)
serve_all-refines_example =
    serve_all-refines toy_store verium requests (open_world 2000) served.1 4
      (tt, (omega arith, (omega arith, (tt, tt)))) (omega arith) first_index all_served

abbrev half_way : IndexingProgress
half_way = record {
  precache_offset = 7;
  gap_external = 12;
  gap_external_done = false;
  gap_internal = 3;
  gap_internal_done = false;
}

abbrev noted : Result (Unit {0}) × World (Option LightKeystore)
noted = set_indexing_progress toy_store verium half_way (open_world 2000)

noted_ok : noted ≡ (ok tt, noted.1)
unfolding set_indexing_progress has_progress load save get put remove text_eq as_str
noted_ok = refl

set_indexing_progress-shown_example :
    indexing_progress toy_store verium noted.1
    ≡ (ok (record half_way { gap_external_done = true }), noted.1)
set_indexing_progress-shown_example =
    set_indexing_progress-shown toy_store verium (open_world 2000) noted.1 half_way noted_ok
