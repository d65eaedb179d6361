-- ===== src/Engine/Keys/Found.antt =====
-- What the key search returns.
use vericonomy_sdk.Base.{
  ℕ, zero, suc, ◌+◌, ◌≤◌, ◌<◌, ◌≡◌, refl, arith, Bool-cases, inl, inr, Option, none, some, is_empty,
  ◌∙◌, ap,
}
use vericonomy_sdk.Text.{Text, text_eq_iff}
use vericonomy_sdk.Errors.{Result, ok, err, ◌>>=◌}
use vericonomy_sdk.Params.{CoinId}
use vericonomy_sdk.Hd.{Hd, HdChain, external, internal, gap_scan_max_index}
use vericonomy_sdk.Engine.Keys.{key_at, found_or, no_key, find_on_chain, find_signing_key}

module _ (hd : Hd) (coin : CoinId) (mnemonic : Text) (passphrase : Option Text) where
  -- A key of the wallet below the scan limit, whose address is `address` and pays to `expected`.
  pub record Signs (address expected : Text) (key : Text × Text) : Type 0 where
    pub chain : HdChain
    pub index : ℕ
    pub below : index < gap_scan_max_index
    pub derived : hd.derive_keypair_on_chain coin mnemonic passphrase chain index ≡ ok key
    pub owns : hd.pubkey_to_p2pkh_address coin key.1 ≡ ok address
    pub pays : hd.address_to_script_pubkey coin address ≡ ok expected

  key_at-Signs :
      (address expected : Text) (chain : HdChain) (index : ℕ) (key : Text × Text)
      → index < gap_scan_max_index
      → key_at hd coin mnemonic passphrase address expected chain index ≡ ok (some key)
      → Signs address expected key
  unfolding key_at
  key_at-Signs address expected chain index key lt e =
      let (d, o, p) = parts in
      record { chain = chain; index = index; below = lt; derived = d; owns = o; pays = p }
    where
      parts :
          (hd.derive_keypair_on_chain coin mnemonic passphrase chain index ≡ ok key)
          × (hd.pubkey_to_p2pkh_address coin key.1 ≡ ok address)
          × (hd.address_to_script_pubkey coin address ≡ ok expected)
      parts = grind (arith, text_eq_iff)

  find_on_chain-Signs :
      (address expected : Text) (chain : HdChain) (left index : ℕ) (key : Text × Text)
      → index + left ≤ gap_scan_max_index
      → find_on_chain hd coin mnemonic passphrase address expected chain left index ≡ ok (some key)
      → Signs address expected key
  unfolding find_on_chain
  find_on_chain-Signs address expected chain zero index key h e = cc
  find_on_chain-Signs address expected chain (suc left) index key h e =
      step _ refl
        (λ r. find_on_chain-Signs address expected chain left (index + 1) key (omega arith) r)
    where
      rest : Result (Option (Text × Text))
      rest = find_on_chain hd coin mnemonic passphrase address expected chain left (index + 1)

      step :
          (r : Result (Option (Text × Text)))
          → key_at hd coin mnemonic passphrase address expected chain index ≡ r
          → (rest ≡ ok (some key) → Signs address expected key)
          → Signs address expected key
      step (err x) k ih = cc (rw k at e)
      step (ok none) k ih = ih (rw k at e)
      step (ok (some found)) k ih =
          let same : found ≡ key = cc (rw k at e) in
          key_at-Signs address expected chain index key (omega arith)
            (k ∙ ap (λ x. ok (some x)) same)

  search-Signs :
      (address expected : Text) (chain : HdChain) (next : Result (Text × Text)) (key : Text × Text)
      → (next ≡ ok key → Signs address expected key)
      → (find_on_chain hd coin mnemonic passphrase address expected chain gap_scan_max_index 0
          >>= found_or hd coin mnemonic passphrase next)
        ≡ ok key
      → Signs address expected key
  search-Signs address expected chain next key later e = step _ refl
    where
      step :
          (r : Result (Option (Text × Text)))
          → find_on_chain hd coin mnemonic passphrase address expected chain gap_scan_max_index 0
            ≡ r
          → Signs address expected key
      step (err x) k = cc (rw k at e)
      step (ok none) k = later (rw k at e)
      step (ok (some found)) k =
          let same : found ≡ key = cc (rw k at e) in
          find_on_chain-Signs address expected chain gap_scan_max_index 0 key (omega arith)
            (k ∙ ap (λ x. ok (some x)) same)

  -- A key that is found belongs to the wallet: it is derived on one of its chains at an index below
  -- the scan limit of 501, its address is the one asked for, and that address pays to the script of
  -- the coin that is spent.
  pub find_signing_key-Signs :
      (address expected : Text) (key : Text × Text)
      → find_signing_key hd coin mnemonic passphrase address expected ≡ ok key
      → Signs address expected key
  unfolding find_signing_key
  find_signing_key-Signs address expected key e = elim (Bool-cases (is_empty address)) [
    | inl missing ↦ cc (rw missing at e)
    | inr given ↦
        search-Signs address expected external _ key
          (λ n. elim (Bool-cases (hd.uses_core_hd_paths coin mnemonic)) [
            | inr plain ↦ cc (rw plain at n)
            | inl core ↦
                search-Signs address expected internal (no_key hd coin mnemonic passphrase address)
                  key (λ m. cc) (rw core at n)
          ])
          (rw given at e)
  ]
