-- ===== src/Storage/FileStore.antt =====
-- vericonomy-storage-file/src/lib.rs: the key store in files. The file system and serde_json are
-- parameters.
pub mod Kept
mod Tests
use vericonomy_sdk.Base.{
  ℕ, ◌≡◌, Bool, true, false, ◌||◌, Option, none, some, List, [], ◌⊎◌, inl, inr, is_empty,
  if◌then◌else◌, ◌++◌,
}
use vericonomy_sdk.Text.{Text, codes, trim}
use vericonomy_sdk.Hex.{or_fail}
use vericonomy_sdk.Errors.{Result, ok, err, and_then, WalletError, io, serde, code_io, code_serde}
use vericonomy_sdk.Action.{Action, ◌>>=◌, ◌>>◌, done, lift}
use vericonomy_sdk.Tx.Script.{Bytes}
use vericonomy_sdk.Storage.Types.{LightKeystore, SecretBlob}

abbrev pub keystore_label : Text
keystore_label = codes "light-wallet-keystore"

-- `std::fs` and `std::path`. A write that succeeds is what the file then holds.
pub record Fs (State : Type 0) : Type 0 where
  pub join : Text → Text → Text
  pub parent : Text → Option Text
  pub exists : Text → State → Bool
  pub read : Text → State → Text ⊎ Bytes
  pub read_to_string : Text → State → Text ⊎ Text
  pub write : Text → Bytes → State → (Text ⊎ Unit {0}) × State
  pub create_dir_all : Text → State → (Text ⊎ Unit {0}) × State
  pub remove_file : Text → State → (Text ⊎ Unit {0}) × State
  pub write-read :
      (path : Text) (content : Bytes) (before after : State)
      → write path content before ≡ (inr tt, after)
      → (exists path after ≡ true) × (read path after ≡ inr content)

-- `serde_json` on the store, and `String::from_utf8`. What was written is UTF-8 and is read back.
pub record Serde : Type 0 where
  pub to_vec : LightKeystore → Text ⊎ Bytes
  pub from_utf8 : Bytes → Text ⊎ Text
  pub from_str : Text → Text ⊎ LightKeystore
  pub to_vec-from_str :
      (store : LightKeystore) (json : Bytes)
      → to_vec store ≡ inr json
      → (text : Text) × (from_utf8 json ≡ inr text) × (from_str text ≡ inr store)

-- The trait `SecretStore`. The key store needs the ciphertext back, and nothing else of a blob.
pub record SecretStore (State : Type 0) : Type 0 where
  pub load_secret : Text → State → Result (Option SecretBlob)
  pub save_secret : Text → SecretBlob → Action State (Unit {0})
  pub delete_secret : Text → Action State (Unit {0})
  pub save-load :
      (key : Text) (blob : SecretBlob) (before after : State)
      → save_secret key blob before ≡ (ok tt, after)
      → (found : SecretBlob) × (load_secret key after ≡ ok (some found))
        × (found.ciphertext ≡ blob.ciphertext)

abbrev pub io_error : Text → WalletError
io_error message = io code_io message

abbrev pub serde_error : Text → WalletError
serde_error message = serde code_serde message

-- `.map_err(|e| WalletError::Io { … })?` of a call that changes the file system
abbrev pub io_result : {State : Type 0} → (Text ⊎ Unit {0}) × State → Result (Unit {0}) × State
io_result (outcome, s) = (or_fail outcome io_error, s)

-- `let _ = …`
abbrev pub ignored :
    {State : Type 0} → (State → (Text ⊎ Unit {0}) × State) → Action State (Unit {0})
ignored call s = (ok tt, (call s).1)

abbrev pub blob_of : Bytes → SecretBlob
blob_of content = record { ciphertext = content; salt = []; nonce = [] }

module _ {State : Type 0} (fs : Fs State) (path : Text) where
  -- `self.path.join(format!("{key}.enc"))`
  abbrev pub secret_path : Text → Text
  secret_path key = fs.join path (key ++ codes ".enc")

  unfoldable pub load_secret : Text → State → Result (Option SecretBlob)
  load_secret key s =
      if fs.exists (secret_path key) s
      then and_then (λ content. ok (some (blob_of content)))
          (or_fail (fs.read (secret_path key) s) io_error)
      else ok none

  -- `if let Some(parent) = self.path.parent()`
  unfoldable pub create_parent : Option Text → Action State (Unit {0})
  create_parent none = done tt
  create_parent (some dir) = λ s. io_result (fs.create_dir_all dir s)

  unfoldable pub save_secret : Text → SecretBlob → Action State (Unit {0})
  unfolding create_parent
  save_secret key blob = do
    create_parent (fs.parent path)
    λ s. io_result (fs.write (secret_path key) blob.ciphertext s)

  unfoldable pub delete_secret : Text → Action State (Unit {0})
  delete_secret key s =
      if fs.exists (secret_path key) s
      then io_result (fs.remove_file (secret_path key) s)
      else (ok tt, s)

module _ {State : Type 0} (fs : Fs State) (json : Serde) (secrets : SecretStore State)
    (base_dir : Text) where
  abbrev pub secure_dir : Text
  secure_dir = fs.join base_dir (codes "secure")

  abbrev pub encrypted_path : Text
  encrypted_path = fs.join secure_dir (keystore_label ++ codes ".enc")

  abbrev pub plaintext_path : Text
  plaintext_path = fs.join base_dir (codes "light-keystore.json")

  -- `serde_json::from_str(…).map_err(…)?`
  abbrev pub parse_store : Text → Result (Option LightKeystore)
  parse_store text = and_then (λ store. ok (some store)) (or_fail (json.from_str text) serde_error)

  -- The file of an older version, which was not encrypted.
  unfoldable pub load_plaintext : State → Result (Option LightKeystore)
  load_plaintext s =
      if fs.exists plaintext_path s
      then and_then (λ raw. if is_empty (trim raw) then ok none else parse_store raw)
          (or_fail (fs.read_to_string plaintext_path s) io_error)
      else ok none

  unfoldable pub load_found : Option SecretBlob → State → Result (Option LightKeystore)
  unfolding load_plaintext
  load_found none s = load_plaintext s
  load_found (some blob) s =
      and_then parse_store (or_fail (json.from_utf8 blob.ciphertext) serde_error)

  unfoldable pub load_keystore : State → Result (Option LightKeystore)
  unfolding load_found
  load_keystore s = and_then (λ found. load_found found s) (secrets.load_secret keystore_label s)

  -- `if let Some(parent) = self.secure_dir().parent()`
  unfoldable pub create_base : Option Text → Action State (Unit {0})
  create_base none = done tt
  create_base (some dir) = ignored (fs.create_dir_all dir)

  unfoldable pub save_keystore : LightKeystore → Action State (Unit {0})
  unfolding create_base
  save_keystore store = do
    content ← lift (or_fail (json.to_vec store) serde_error)
    create_base (fs.parent secure_dir)
    ignored (fs.create_dir_all secure_dir)
    secrets.save_secret keystore_label (blob_of content)

  unfoldable pub keystore_exists : State → Bool
  keystore_exists s = fs.exists encrypted_path s || fs.exists plaintext_path s
