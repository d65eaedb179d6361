-- ===== src/Storage/Keystore/Toy.antt =====
-- A disk in memory, a cipher that adds nothing, and digits that are shifted bytes, so that the key
-- store runs in tests.
use mathlib.Core.List.{reverse, reverse_aux, reverse-reverse}
use vericonomy_sdk.Base.{
  ℕ, ◌+◌, ◌-◌, ◌≡◌, refl, sym, ap, arith, false, Option, some, [], ◌∷◌, map, inr,
}
use vericonomy_sdk.Text.{Text, trim, trim_start, is_space}
use vericonomy_sdk.Hex.{Hex}
use vericonomy_sdk.Errors.{Result, ok}
use vericonomy_sdk.Recovery.{Bip39}
use vericonomy_sdk.Tx.Script.{Bytes}
use vericonomy_sdk.Storage.Types.{LightKeystore, KeystoreStore}
use vericonomy_sdk.Storage.Crypto.{Aead}

abbrev shift : ℕ → ℕ
shift c = c + 100

abbrev unshift : ℕ → ℕ
unshift c = c - 100

pub unshift-shift : (s : Text) → map unshift (map shift s) ≡ s
unshift-shift [] = refl
unshift-shift (c ∷ s) = let h : c + 100 - 100 ≡ c = omega arith in rw (h, unshift-shift s) refl

abbrev pub shift_hex : Hex
shift_hex = record {
  encode = map shift;
  decode = λ s. inr (map unshift s);
  decode-encode = λ s. ap inr (unshift-shift s);
}

not_space : (c : ℕ) → is_space (c + 100) ≡ false
not_space c = ground arith

trim_start-shift : (s : Text) → trim_start (map shift s) ≡ map shift s
unfolding trim_start
trim_start-shift [] = refl
trim_start-shift (c ∷ s) = rw (not_space c) refl

reverse_aux-map :
    (s r : Text) → reverse_aux (map shift s) (map shift r) ≡ map shift (reverse_aux s r)
reverse_aux-map [] r = refl
reverse_aux-map (c ∷ s) r = reverse_aux-map s (c ∷ r)

reverse-map : (s : Text) → reverse (map shift s) ≡ map shift (reverse s)
reverse-map s = reverse_aux-map s []

pub trim-shift : (s : Text) → trim (shift_hex.encode s) ≡ shift_hex.encode s
unfolding trim
trim-shift s =
    rw
      (
        trim_start-shift s,
        reverse-map s,
        trim_start-shift (reverse s),
        reverse-map (reverse s),
        reverse-reverse s,
      )
      refl

-- The ciphertext is the text itself.
abbrev pub toy_aead : Aead
toy_aead = record {
  argon_params = inr tt;
  hash_password = λ passphrase salt. inr passphrase;
  Cipher = Bytes;
  new_from_slice = λ key. inr key;
  encrypt = λ key nonce plain. inr plain;
  decrypt = λ key nonce sealed. inr sealed;
  decrypt-encrypt = λ key nonce plain sealed e. sym e;
}

abbrev pub toy_bip39 : Bip39
toy_bip39 = record { Mnemonic = Text; parse_in_english = λ s. inr s }

abbrev pub toy_store : KeystoreStore
toy_store = record {
  State = Option LightKeystore;
  load_keystore = λ state. ok state;
  save_keystore = λ store state. (ok tt, some store);
  load-save =
      λ store state after e. ap (λ (p : Result (Unit {0}) × Option LightKeystore). ok p.1) (sym e);
}
