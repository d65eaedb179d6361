-- ===== src/Engine/Keys.antt =====
-- vericonomy-wallet-engine/src/signer.rs: the search for the key that signs an input.
pub mod Found
use vericonomy_sdk.Base.{
  ℕ, zero, suc, ◌+◌, Bool, Option, none, some, List, ◌++◌, if◌then◌else◌, is_empty,
}
use vericonomy_sdk.Text.{Text, codes, text_eq}
use vericonomy_sdk.Errors.{Result, ok, err, ◌>>=◌, other}
use vericonomy_sdk.Params.{CoinId}
use vericonomy_sdk.Hd.{Hd, HdChain, external, internal, gap_scan_max_index}

module _ (hd : Hd) (coin : CoinId) (mnemonic : Text) (passphrase : Option Text) where
  -- One round of the search: the key at this index, if its address and script are those wanted.
  unfoldable pub key_at : Text → Text → HdChain → ℕ → Result (Option (Text × Text))
  key_at address expected chain index = do
    (secret, pubkey) ← hd.derive_keypair_on_chain coin mnemonic passphrase chain index
    addr ← hd.pubkey_to_p2pkh_address coin pubkey
    let matched = (hd.address_to_script_pubkey coin addr) >>= λ script.
        ok (if text_eq script expected then some (secret, pubkey) else none)
    if text_eq addr address then matched else ok none

  -- `for index in 0..GAP_SCAN_MAX_INDEX` on one chain, with the indices that are left; `none` means
  -- that the loop ended without a return.
  unfoldable pub find_on_chain : Text → Text → HdChain → ℕ → ℕ → Result (Option (Text × Text))
  find_on_chain address expected chain zero index = ok none
  find_on_chain address expected chain (suc left) index =
      let rest = find_on_chain address expected chain left (index + 1) in
      (key_at address expected chain index) >>= λ found. elim found [
        | none ↦ rest
        | some key ↦ ok (some key)
      ]

  abbrev pub no_key : Text → Result (Text × Text)
  no_key address = err (
      other
        (codes "no signing key found for address " ++ (address ++ codes " matching output script")))

  -- What `find_on_chain` found, or else `next`.
  abbrev pub found_or : Result (Text × Text) → Option (Text × Text) → Result (Text × Text)
  found_or next (some key) = ok key
  found_or next none = next

  unfoldable pub find_signing_key : Text → Text → Result (Text × Text)
  unfolding find_on_chain key_at
  find_signing_key address expected =
      if is_empty address
      then err (other (codes "utxo missing address for signing"))
      else (find_on_chain address expected external gap_scan_max_index 0)
        >>= found_or (
            if hd.uses_core_hd_paths coin mnemonic
            then (find_on_chain address expected internal gap_scan_max_index 0)
              >>= found_or (no_key address)
            else no_key address)
