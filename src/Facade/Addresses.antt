-- ===== src/Facade/Addresses.antt =====
-- vericonomy-wallet-facade/src/gap_scan.rs: the addresses of coins whose script alone is known.
pub mod Enriched
mod Tests
use vericonomy_sdk.Base.{
  ℕ, zero, suc, ◌+◌, Bool, true, false, not, ◌&&◌, Option, none, some, List, [], ◌∷◌, any, filter,
  map, length, ◌==◌, is_empty, if◌then◌else◌,
}
use vericonomy_sdk.Text.{Text, text_eq}
use vericonomy_sdk.TextMap.{get, put}
use vericonomy_sdk.Hex.{Hex}
use vericonomy_sdk.Errors.{Result, ok, err, ◌>>=◌}
use vericonomy_sdk.Params.{CoinId}
use vericonomy_sdk.Hd.{Hd, HdChain, external, internal, gap_scan_max_index}
use vericonomy_sdk.Chain.{Utxo}

-- `iter().copied().collect()` into a `HashSet`
unfoldable pub distinct : List Text → List Text
distinct [] = []
distinct (x ∷ xs) = let rest = distinct xs in if any (text_eq x) rest then rest else x ∷ rest

abbrev pub with_address : Option Text → Utxo → Utxo
with_address none utxo = utxo
with_address (some addr) utxo = record utxo { address = addr }

-- `if utxo.address.is_empty()`, for one coin
unfoldable pub enrich_one : List (Text × Text) → Utxo → Utxo
enrich_one addresses utxo =
    if is_empty utxo.address then with_address (get utxo.script_hex addresses) utxo else utxo

-- The scripts of the coins that have no address.
abbrev pub bare_scripts : List Utxo → List Text
bare_scripts utxos =
    map (λ (u : Utxo). u.script_hex)
      (filter (λ (u : Utxo). is_empty u.address && not (is_empty u.script_hex)) utxos)

module _ (hd : Hd) (hex : Hex) (coin : CoinId) (seed_secret : Text)
    (bip39_passphrase : Option Text) where
  -- `for index in 0..GAP_SCAN_MAX_INDEX` over the addresses that `derive` gives, with the indices that
  -- are left; and whether every target was found.
  unfoldable pub lookup_from :
      (ℕ → Result Text)
      → List Text
      → ℕ
      → ℕ
      → List (Text × Text)
      → Result (List (Text × Text) × Bool)
  lookup_from derive targets zero index found = ok (found, false)
  lookup_from derive targets (suc left) index found = (derive index) >>= λ addr.
      (hd.address_to_script_pubkey coin addr) >>= λ script.
      elim (any (text_eq (hex.encode script)) targets) [
        | false ↦ lookup_from derive targets left (index + 1) found
        | true ↦ elim (length (put (hex.encode script) addr found) == length targets) [
          | true ↦ ok (put (hex.encode script) addr found, true)
          | false ↦ lookup_from derive targets left (index + 1) (put (hex.encode script) addr found)
        ]
      ]

  abbrev pub on_chain : HdChain → ℕ → Result Text
  on_chain chain index = hd.derive_address_on_chain coin seed_secret bip39_passphrase chain index

  abbrev pub at_index : ℕ → Result Text
  at_index index = hd.derive_address_at coin seed_secret bip39_passphrase index

  -- The internal chain, unless every target was found on the external one.
  unfoldable pub lookup_internal :
      List Text → List (Text × Text) × Bool → Result (List (Text × Text) × Bool)
  unfolding lookup_from
  lookup_internal targets (found, true) = ok (found, true)
  lookup_internal targets (found, false) =
      lookup_from (on_chain internal) targets gap_scan_max_index 0 found

  unfoldable pub lookup_core : List Text → Result (List (Text × Text) × Bool)
  lookup_core targets = (lookup_from (on_chain external) targets gap_scan_max_index 0 []) >>= λ r.
      lookup_internal targets r

  unfoldable pub lookup_flat : List Text → Result (List (Text × Text) × Bool)
  lookup_flat targets = lookup_from at_index targets gap_scan_max_index 0 []

  unfoldable pub lookup_targets : List Text → Result (List (Text × Text) × Bool)
  lookup_targets targets =
      if is_empty targets
      then ok ([], true)
      else if hd.uses_core_hd_paths coin seed_secret
      then lookup_core targets
      else lookup_flat targets

  unfoldable pub resolve_addresses_for_script_hexes : List Text → Result (List (Text × Text))
  unfolding lookup_targets distinct
  resolve_addresses_for_script_hexes script_hexes =
      (lookup_targets (distinct script_hexes)) >>= λ r. ok r.0

  unfoldable pub enrich_utxo_addresses : List Utxo → Result (List Utxo)
  unfolding resolve_addresses_for_script_hexes enrich_one
  enrich_utxo_addresses utxos =
      (resolve_addresses_for_script_hexes (bare_scripts utxos)) >>= λ addresses.
      ok (map (enrich_one addresses) utxos)
