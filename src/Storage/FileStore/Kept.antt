-- ===== src/Storage/FileStore/Kept.antt =====
-- What a save in files keeps: the file store is a `KeystoreStore`.
use vericonomy_sdk.Base.{◌≡◌, refl, ap, ◌∙◌, true, some, ◌⊎◌, inl, inr}
use vericonomy_sdk.Text.{Text}
use vericonomy_sdk.Hex.{or_fail, or_fail-ok}
use vericonomy_sdk.Errors.{ok, err}
use vericonomy_sdk.Action.{lift, resume-ok}
use vericonomy_sdk.Storage.Types.{LightKeystore, SecretBlob, KeystoreStore}
use vericonomy_sdk.Storage.Keystore.Saved.{lift-ok}
use vericonomy_sdk.Storage.FileStore.{
  keystore_label, Fs, Serde, SecretStore, io_error, serde_error, io_result, blob_of, secret_path,
  load_secret, create_parent, save_secret, delete_secret, secure_dir, load_found, load_keystore,
  create_base, save_keystore, keystore_exists, codes,
}

io_result-ok :
    {State : Type 0} (r : (Text ⊎ Unit {0}) × State) (after : State)
    → io_result r ≡ (ok tt, after)
    → r ≡ (inr tt, after)
io_result-ok (inl x, s) after e = let r : err (io_error x) ≡ ok tt = ap (λ q. q.0) e in cc
io_result-ok (inr u, s) after e = ap (λ x. (inr tt, x)) (ap (λ q. q.1) e)

module _ {State : Type 0} (fs : Fs State) where
  -- A secret that was saved is in its file, and is what is loaded.
  pub save_secret-file :
      (path key : Text) (blob : SecretBlob) (before after : State)
      → save_secret fs path key blob before ≡ (ok tt, after)
      → (fs.exists (secret_path fs path key) after ≡ true)
        × (fs.read (secret_path fs path key) after ≡ inr blob.ciphertext)
  unfolding save_secret
  save_secret-file path key blob before after e =
      let (u, mid, e1, f1) = resume-ok (create_parent fs path (fs.parent path) before) _ e in
      fs.write-read (secret_path fs path key) blob.ciphertext mid after (io_result-ok _ after f1)

  pub save_secret-load :
      (path key : Text) (blob : SecretBlob) (before after : State)
      → save_secret fs path key blob before ≡ (ok tt, after)
      → load_secret fs path key after ≡ ok (some (blob_of blob.ciphertext))
  unfolding load_secret
  save_secret-load path key blob before after e =
      let (there, content) = save_secret-file path key blob before after e in
      rw (load_secret, there, content) refl

  -- FileSecretStore
  abbrev pub file_secrets : Text → SecretStore State
  file_secrets path = record {
    load_secret = load_secret fs path;
    save_secret = save_secret fs path;
    delete_secret = delete_secret fs path;
    save-load = λ key blob before after e.
        (blob_of blob.ciphertext, save_secret-load path key blob before after e, refl);
  }

  module _ (json : Serde) (base_dir : Text) where
    -- The secret that a save hands to the secret store.
    save_keystore-secret :
        (secrets : SecretStore State) (store : LightKeystore) (before after : State)
        → save_keystore fs json secrets base_dir store before ≡ (ok tt, after)
        → (content : Text) × (mid : State) × (json.to_vec store ≡ inr content)
          × (secrets.save_secret keystore_label (blob_of content) mid ≡ (ok tt, after))
    unfolding save_keystore
    save_keystore-secret secrets store before after e =
        let dir = fs.parent (secure_dir fs json secrets base_dir) in
        let (content, s1, e1, f1) =
          resume-ok (lift (or_fail (json.to_vec store) serde_error) before) _ e in
        let written =
          or_fail-ok _ _ content (lift-ok (or_fail (json.to_vec store) serde_error) e1).0 in
        let (u, s2, e2, f2) = resume-ok (create_base fs json secrets base_dir dir s1) _ f1 in
        (content, (fs.create_dir_all (secure_dir fs json secrets base_dir) s2).1, written, f2)

    -- Over any secret store.
    pub save_keystore-load :
        (secrets : SecretStore State) (store : LightKeystore) (before after : State)
        → save_keystore fs json secrets base_dir store before ≡ (ok tt, after)
        → load_keystore fs json secrets base_dir after ≡ ok (some store)
    unfolding load_keystore load_found
    save_keystore-load secrets store before after e =
        let (content, mid, written, saved) = save_keystore-secret secrets store before after e in
        let (found, loaded, same) =
          secrets.save-load keystore_label (blob_of content) mid after saved in
        let (text, utf8, back) = json.to_vec-from_str store content written in
        let utf8' : json.from_utf8 found.ciphertext ≡ inr text = ap json.from_utf8 same ∙ utf8 in
        rw (load_keystore, loaded, load_found, utf8', back) refl

    -- FileKeystoreStore
    abbrev pub file_keystore : SecretStore State → KeystoreStore
    file_keystore secrets = record {
      State = State;
      load_keystore = load_keystore fs json secrets base_dir;
      save_keystore = save_keystore fs json secrets base_dir;
      load-save = save_keystore-load secrets;
    }

    -- With secrets in the files of the secure directory: a key store that was saved with success is
    -- the one that is loaded, and it exists.
    pub save_keystore-kept :
        (store : LightKeystore) (before after : State)
        → save_keystore fs json
            (file_secrets (fs.join base_dir (codes "secure")))
            base_dir
            store
            before
          ≡ (ok tt, after)
        → (load_keystore fs json (file_secrets (fs.join base_dir (codes "secure"))) base_dir after
            ≡ ok (some store))
          × (keystore_exists fs json
                (file_secrets (fs.join base_dir (codes "secure")))
                base_dir
                after
              ≡ true)
    unfolding keystore_exists
    save_keystore-kept store before after e =
        let secrets = file_secrets (fs.join base_dir (codes "secure")) in
        let (content, mid, written, saved) = save_keystore-secret secrets store before after e in
        let (there, held) =
          save_secret-file (fs.join base_dir (codes "secure")) keystore_label (blob_of content) mid
            after saved in
        (save_keystore-load secrets store before after e, rw (keystore_exists, there) refl)
