-- ===== src/Facade/Addresses/Enriched.antt =====
-- What an address is that a coin was given.
use vericonomy_sdk.Base.{
  ℕ, zero, suc, ◌+◌, ◌≤◌, ◌<◌, ◌≡◌, refl, sym, subst, arith, Bool, true, false, Bool-cases, inl,
  inr, ◌⊎◌, Option, none, some, List, [], ◌∷◌, any, map, length, ◌==◌, is_empty,
}
use vericonomy_sdk.Text.{Text, text_eq, text_eq_iff}
use vericonomy_sdk.TextMap.{get, put, get-put}
use vericonomy_sdk.Hex.{Hex}
use vericonomy_sdk.Errors.{Result, ok, and_then-ok}
use vericonomy_sdk.Params.{CoinId}
use vericonomy_sdk.Hd.{Hd, HdChain, external, internal, gap_scan_max_index}
use vericonomy_sdk.Chain.{Utxo}
use vericonomy_sdk.Facade.Addresses.{
  distinct, bare_scripts, with_address, enrich_one, lookup_from, lookup_internal, lookup_core,
  lookup_flat, lookup_targets, on_chain, at_index, resolve_addresses_for_script_hexes,
  enrich_utxo_addresses,
}

module _ (hd : Hd) (hex : Hex) (coin : CoinId) (seed_secret : Text)
    (bip39_passphrase : Option Text) where
  -- An address of the wallet, at an index below 501 of a chain or of the addresses without chains.
  abbrev pub IsOurs : Text → Type 0
  IsOurs addr =
      (index : ℕ) × (index < 501)
      × (((chain : HdChain) × (hd.derive_address_on_chain coin seed_secret bip39_passphrase chain
                index
              ≡ ok addr))
          ⊎ (hd.derive_address_at coin seed_secret bip39_passphrase index ≡ ok addr))

  -- An address of the wallet that pays to the script.
  abbrev pub Pays : Text → Text → Type 0
  Pays script_hex addr =
      IsOurs addr
      × (script : Text) × (hd.address_to_script_pubkey coin addr ≡ ok script)
      × (hex.encode script ≡ script_hex)

  abbrev AllPay : List (Text × Text) → Type 0
  AllPay found = (k a : Text) → get k found ≡ some a → Pays k a

  put-AllPay :
      (found : List (Text × Text)) (key addr : Text)
      → AllPay found
      → Pays key addr
      → AllPay (put key addr found)
  put-AllPay found key addr h p k a g = elim (Bool-cases (text_eq key k)) [
    | inl e ↦
        let same : key ≡ k = (text_eq_iff key k).0 e in
        let got : some addr ≡ some a = rw (get-put key k addr found, e) at g in
        let value : addr ≡ a = cc in subst (λ x. Pays x a) same (subst (Pays key) value p)
    | inr n ↦ h k a (rw (get-put key k addr found, n) at g)
  ]

  lookup_from-AllPay :
      (derive : ℕ → Result Text) (targets : List Text) (left index : ℕ) (found : List (Text × Text))
      (r : List (Text × Text) × Bool)
      → ((i : ℕ) (a : Text) → i < 501 → derive i ≡ ok a → IsOurs a)
      → index + left ≤ 501
      → AllPay found
      → lookup_from hd hex coin seed_secret bip39_passphrase derive targets left index found ≡ ok r
      → AllPay r.0
  unfolding lookup_from
  lookup_from-AllPay derive targets zero index found r own b h e =
      let same : (found, false) ≡ r = cc in subst (λ x. AllPay x.0) same h
  lookup_from-AllPay derive targets (suc left) index found r own b h e =
      let (addr, d, e1) = and_then-ok (derive index) _ e in
      let (script, s, e2) = and_then-ok (hd.address_to_script_pubkey coin addr) _ e1 in
      let key = hex.encode script in
      let pays : Pays key addr = (own index addr (omega (arith, b)) d, script, s, refl) in
      let more = put-AllPay found key addr h pays in
      elim (Bool-cases (any (text_eq key) targets)) [
        | inr n ↦
            lookup_from-AllPay derive targets left (index + 1) found r own (omega (arith, b)) h
              (rw n at e2)
        | inl y ↦
            let e3 = rw y at e2 in
            elim (Bool-cases (length (put key addr found) == length targets)) [
              | inl full ↦
                  let got : ok (put key addr found, true) ≡ ok r = rw full at e3 in
                  let same : (put key addr found, true) ≡ r = cc in
                  subst (λ x. AllPay x.0) same more
              | inr part ↦
                  lookup_from-AllPay derive targets left (index + 1) (put key addr found) r own
                    (omega (arith, b)) more (rw part at e3)
            ]
      ]

  on_chain-IsOurs :
      (chain : HdChain) (i : ℕ) (a : Text)
      → i < 501
      → on_chain hd hex coin seed_secret bip39_passphrase chain i ≡ ok a
      → IsOurs a
  on_chain-IsOurs chain i a b d = (i, b, inl (chain, d))

  none_yet : AllPay []
  unfolding get
  none_yet k a g = cc

  lookup_internal-AllPay :
      (targets : List Text) (found : List (Text × Text)) (full : Bool)
      (r : List (Text × Text) × Bool)
      → AllPay found
      → lookup_internal hd hex coin seed_secret bip39_passphrase targets (found, full) ≡ ok r
      → AllPay r.0
  unfolding lookup_internal
  lookup_internal-AllPay targets found true r h e =
      let same : (found, true) ≡ r = cc in subst (λ x. AllPay x.0) same h
  lookup_internal-AllPay targets found false r h e =
      lookup_from-AllPay (on_chain hd hex coin seed_secret bip39_passphrase internal) targets
        gap_scan_max_index 0 found r (on_chain-IsOurs internal) (omega arith) h e

  lookup_core-AllPay :
      (targets : List Text) (r : List (Text × Text) × Bool)
      → lookup_core hd hex coin seed_secret bip39_passphrase targets ≡ ok r
      → AllPay r.0
  unfolding lookup_core
  lookup_core-AllPay targets r e =
      let first =
        lookup_from hd hex coin seed_secret bip39_passphrase
          (on_chain hd hex coin seed_secret bip39_passphrase external) targets gap_scan_max_index 0
          [] in
      let ((found, full), a, b) =
        and_then-ok first (λ x. lookup_internal hd hex coin seed_secret bip39_passphrase targets x)
          e in
      lookup_internal-AllPay targets found full r
        (lookup_from-AllPay (on_chain hd hex coin seed_secret bip39_passphrase external) targets
          gap_scan_max_index 0 [] (found, full) (on_chain-IsOurs external) (omega arith) none_yet a)
        b

  lookup_flat-AllPay :
      (targets : List Text) (r : List (Text × Text) × Bool)
      → lookup_flat hd hex coin seed_secret bip39_passphrase targets ≡ ok r
      → AllPay r.0
  unfolding lookup_flat
  lookup_flat-AllPay targets r e =
      lookup_from-AllPay (at_index hd hex coin seed_secret bip39_passphrase) targets
        gap_scan_max_index 0 [] r (λ i a b d. (i, b, inr d)) (omega arith) none_yet e

  lookup_targets-AllPay :
      (targets : List Text) (r : List (Text × Text) × Bool)
      → lookup_targets hd hex coin seed_secret bip39_passphrase targets ≡ ok r
      → AllPay r.0
  unfolding lookup_targets
  lookup_targets-AllPay targets r e = elim (Bool-cases (is_empty targets)) [
    | inl y ↦
        let got : ok ([], true) ≡ ok r = rw y at e in
        let same : ([], true) ≡ r = cc in subst (λ x. AllPay x.0) same none_yet
    | inr n ↦
        let e1 = rw n at e in
        elim (Bool-cases (hd.uses_core_hd_paths coin seed_secret)) [
          | inl core ↦ lookup_core-AllPay targets r (rw core at e1)
          | inr flat ↦ lookup_flat-AllPay targets r (rw flat at e1)
        ]
  ]

  -- The coin as it was, or one without an address that was given one of the wallet that pays to its
  -- script.
  abbrev pub IsEnriched : Utxo → Utxo → Type 0
  IsEnriched before after =
      (after ≡ before)
      ⊎ ((is_empty before.address ≡ true)
          × (addr : Text) × (after ≡ record before { address = addr })
          × Pays before.script_hex addr)

  -- Coin by coin, as many as there were.
  abbrev pub AreEnriched : List Utxo → List Utxo → Type 0
  AreEnriched [] [] = Unit {0}
  AreEnriched [] (a ∷ after) = ⊥
  AreEnriched (b ∷ before) [] = ⊥
  AreEnriched (b ∷ before) (a ∷ after) = IsEnriched b a × AreEnriched before after

  with_address-IsEnriched :
      (found : List (Text × Text)) (utxo : Utxo) (answer : Option Text)
      → AllPay found
      → is_empty utxo.address ≡ true
      → get utxo.script_hex found ≡ answer
      → IsEnriched utxo (with_address answer utxo)
  with_address-IsEnriched found utxo none h y g = inl refl
  with_address-IsEnriched found utxo (some addr) h y g =
      inr (y, addr, refl, h utxo.script_hex addr g)

  enrich_one-IsEnriched :
      (found : List (Text × Text)) (utxo : Utxo)
      → AllPay found
      → IsEnriched utxo (enrich_one found utxo)
  unfolding enrich_one
  enrich_one-IsEnriched found utxo h = elim (Bool-cases (is_empty utxo.address)) [
    | inl y ↦
        let same : enrich_one found utxo ≡ with_address (get utxo.script_hex found) utxo =
          rw (enrich_one, y) refl in
        subst (IsEnriched utxo) (sym same)
          (with_address-IsEnriched found utxo (get utxo.script_hex found) h y refl)
    | inr n ↦ inl (rw (enrich_one, n) refl)
  ]

  map-AreEnriched :
      (found : List (Text × Text)) (utxos : List Utxo)
      → AllPay found
      → AreEnriched utxos (map (enrich_one found) utxos)
  map-AreEnriched found [] h = tt
  map-AreEnriched found (u ∷ utxos) h =
      (enrich_one-IsEnriched found u h, map-AreEnriched found utxos h)

  -- When enrich_utxo_addresses succeeds, each coin is as it was, or it had no address and was given one
  -- that the wallet derives at an index below 501 and that pays to the script of the coin.
  pub enrich_utxo_addresses-AreEnriched :
      (before after : List Utxo)
      → enrich_utxo_addresses hd hex coin seed_secret bip39_passphrase before ≡ ok after
      → AreEnriched before after
  unfolding enrich_utxo_addresses resolve_addresses_for_script_hexes
  enrich_utxo_addresses-AreEnriched before after e =
      let targets = distinct (bare_scripts before) in
      let (found, a, b) =
        and_then-ok
          (resolve_addresses_for_script_hexes hd hex coin seed_secret bip39_passphrase
            (bare_scripts before))
          (λ x. ok (map (enrich_one x) before)) e in
      let (r, a1, b1) =
        and_then-ok (lookup_targets hd hex coin seed_secret bip39_passphrase targets) (λ x. ok x.0)
          a in
      let same : r.0 ≡ found = cc in
      let result : map (enrich_one found) before ≡ after = cc in
      subst (AreEnriched before) result
        (map-AreEnriched found before (subst AllPay same (lookup_targets-AllPay targets r a1)))
