-- ===== src/Storage/Types.antt =====
-- vericonomy-storage/src/types.rs and traits.rs: what a wallet keeps, and the interface of the store
-- that persists it.
use vericonomy_sdk.Base.{ℕ, ◌≡◌, Bool, Option, some, List}
use vericonomy_sdk.Text.{Text}
use vericonomy_sdk.Errors.{Result, ok}

pub record LightWalletRecord : Type 0 where
  pub coin : Text
  pub encrypted_mnemonic : Text
  pub salt : Text
  pub nonce : Text
  pub created_at : ℕ
  pub next_receive_index : ℕ
  pub label : Text
  pub cached_script_hexes : List Text
  pub addresses_scan_complete : Bool
  pub funded_script_hexes : List Text
  pub index_precache_offset : ℕ
  pub index_gap_external : ℕ
  pub index_gap_external_done : Bool
  pub index_gap_internal : ℕ
  pub index_gap_internal_done : Bool

pub record LightKeystore : Type 0 where
  pub wallets : List (Text × LightWalletRecord)
  pub unlocked_until_by_coin : List (Text × ℕ)

pub record IndexingProgress : Type 0 where
  pub precache_offset : ℕ
  pub gap_external : ℕ
  pub gap_external_done : Bool
  pub gap_internal : ℕ
  pub gap_internal_done : Bool

-- The trait `KeystoreStore`, with the state of a store as a value. A save that succeeds is what the
-- next load returns, with the entries of the two maps in the same order: a `HashMap` promises none,
-- and the methods look at them by `get`, `put`, `remove` and `contains_key` only.
pub record KeystoreStore : Type 1 where
  pub State : Type 0
  pub load_keystore : State → Result (Option LightKeystore)
  pub save_keystore : LightKeystore → State → Result (Unit {0}) × State
  pub load-save :
      (store : LightKeystore) (state after : State)
      → save_keystore store state ≡ (ok tt, after)
      → load_keystore after ≡ ok (some store)

pub record SecretBlob : Type 0 where
  pub ciphertext : List ℕ
  pub salt : List ℕ
  pub nonce : List ℕ
