-- ===== src/Storage/FileStore/Tests.antt =====
-- A file system in memory, and digits for the empty key store alone.
use vericonomy_sdk.Base.{
  ℕ, ◌≡◌, refl, sym, ap, true, Option, none, some, List, [], ◌∷◌, ◌++◌, ◌⊎◌, inl, inr, ◌∙◌,
}
use vericonomy_sdk.Text.{Text, codes}
use vericonomy_sdk.TextMap.{get, put, remove, contains_key, get-put_self}
use vericonomy_sdk.Errors.{ok}
use vericonomy_sdk.Tx.Script.{Bytes}
use vericonomy_sdk.Storage.Types.{LightWalletRecord, LightKeystore}
use vericonomy_sdk.Storage.FileStore.{
  keystore_label, Fs, Serde, load_keystore, save_keystore, keystore_exists, create_base,
  save_secret, create_parent,
}
use vericonomy_sdk.Storage.FileStore.Kept.{file_secrets, save_keystore-kept}

abbrev Files : Type 0
Files = List (Text × Bytes)

abbrev found : Option Bytes → Text ⊎ Bytes
found none = inl (codes "no such file")
found (some content) = inr content

abbrev written : Text → Bytes → Files → (Text ⊎ Unit {0}) × Files
written path content files = (inr tt, put path content files)

written-read :
    (path : Text) (content : Bytes) (before after : Files)
    → written path content before ≡ (inr tt, after)
    → (contains_key path after ≡ true) × (found (get path after) ≡ inr content)
unfolding contains_key
written-read path content before after e =
    let there : get path after ≡ some content =
      ap (λ (q : (Text ⊎ Unit {0}) × Files). get path q.1) (sym e)
      ∙ get-put_self path content before in
    (rw (contains_key, there) refl, rw there refl)

abbrev toy_fs : Fs Files
toy_fs = record {
  join = λ dir name. dir ++ b'/' ∷ name;
  parent = λ path. some [];
  exists = contains_key;
  read = λ path files. found (get path files);
  read_to_string = λ path files. found (get path files);
  write = written;
  create_dir_all = λ path files. (inr tt, files);
  remove_file = λ path files. (inr tt, remove path files);
  write-read = written-read;
}

abbrev digits : List (Text × LightWalletRecord) → List (Text × ℕ) → Text ⊎ Bytes
digits [] [] = inr []
digits [] (u ∷ us) = inl (codes "unlocked")
digits (r ∷ rs) us = inl (codes "wallets")

abbrev blank : LightKeystore
blank = record { wallets = []; unlocked_until_by_coin = [] }

read_back :
    (wallets : List (Text × LightWalletRecord)) (unlocked : List (Text × ℕ)) (json : Bytes)
    → digits wallets unlocked ≡ inr json
    → (text : Text) × (◌≡◌ {A = Text ⊎ Text} (inr json) (inr text))
      × (◌≡◌ {A = Text ⊎ LightKeystore}
          (inr blank)
          (inr (record { wallets = wallets; unlocked_until_by_coin = unlocked })))
read_back [] [] json e = (json, refl, refl)
read_back [] (u ∷ us) json e = cc
read_back (r ∷ rs) us json e = cc

abbrev toy_json : Serde
toy_json = record {
  to_vec = λ store. digits store.wallets store.unlocked_until_by_coin;
  from_utf8 = inr;
  from_str = λ text. inr blank;
  to_vec-from_str = λ store json e. read_back store.wallets store.unlocked_until_by_coin json e;
}

abbrev saved : Files
saved = ((codes "app/secure") ++ b'/' ∷ keystore_label ++ codes ".enc", []) ∷ []

saves :
    save_keystore toy_fs toy_json (file_secrets toy_fs (codes "app/secure")) (codes "app") blank []
    ≡ (ok tt, saved)
unfolding save_keystore create_base save_secret create_parent put remove
saves = refl

save_keystore-kept_example :
    (load_keystore toy_fs toy_json
        (file_secrets toy_fs (toy_fs.join (codes "app") (codes "secure")))
        (codes "app")
        saved
      ≡ ok (some blank))
    × (keystore_exists toy_fs toy_json
          (file_secrets toy_fs (toy_fs.join (codes "app") (codes "secure")))
          (codes "app")
          saved
        ≡ true)
save_keystore-kept_example = save_keystore-kept toy_fs toy_json (codes "app") blank [] saved saves
