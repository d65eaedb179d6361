-- ===== src/Storage/Keystore/Indices.antt =====
-- vericonomy-storage/src/light_keystore.rs: the counters, scripts and progress of a wallet's scan.
use vericonomy_sdk.Base.{
  ℕ, ◌+◌, ◌-◌, ◌^◌, Bool, true, false, not, ◌&&◌, Option, none, some, List, [], ◌∷◌, ◌++◌, any, ltb,
  ◌==◌, is_empty, if◌then◌else◌,
}
use Prim.Native.Nat.{min}
use vericonomy_sdk.Text.{Text, eq_ignore_ascii_case}
use vericonomy_sdk.TextMap.{get, put}
use vericonomy_sdk.Action.{Action, ◌>>=◌, ◌>>◌, done, expect}
use vericonomy_sdk.Params.{CoinId, as_str}
use vericonomy_sdk.Storage.Types.{LightWalletRecord, LightKeystore, IndexingProgress, KeystoreStore}
use vericonomy_sdk.Storage.Keystore.Sessions.{World, not_found, load, save}

-- `==` on `bool`
abbrev pub same : Bool → Bool → Bool
same true b = b
same false b = not b

-- The store with this record for the coin, which `get_mut` changes in place.
abbrev pub with_wallet : LightKeystore → CoinId → LightWalletRecord → LightKeystore
with_wallet store coin r = record store { wallets = put (as_str coin) r store.wallets }

abbrev pub no_progress : IndexingProgress
no_progress = record {
  precache_offset = 0;
  gap_external = 0;
  gap_external_done = false;
  gap_internal = 0;
  gap_internal_done = false;
}

-- The progress that a record shows: an internal scan that has begun means that the external one is
-- done.
unfoldable pub progress_of : LightWalletRecord → IndexingProgress
progress_of r = record {
  precache_offset = r.index_precache_offset;
  gap_external = r.index_gap_external;
  gap_external_done =
      if not r.index_gap_external_done && ltb 0 r.index_gap_internal
      then true
      else r.index_gap_external_done;
  gap_internal = r.index_gap_internal;
  gap_internal_done = r.index_gap_internal_done;
}

unfoldable pub has_progress : LightWalletRecord → IndexingProgress → Bool
has_progress r p =
    r.index_precache_offset == p.precache_offset
    && (r.index_gap_external == p.gap_external
        && (same r.index_gap_external_done p.gap_external_done
            && (r.index_gap_internal == p.gap_internal
                && same r.index_gap_internal_done p.gap_internal_done)))

abbrev pub with_progress : LightWalletRecord → IndexingProgress → LightWalletRecord
with_progress r p = record r {
  index_precache_offset = p.precache_offset;
  index_gap_external = p.gap_external;
  index_gap_external_done = p.gap_external_done;
  index_gap_internal = p.gap_internal;
  index_gap_internal_done = p.gap_internal_done;
}

-- `.map(…)` and `.unwrap_or(…)` of a looked up record
abbrev pub map_or : {A : Type 0} → A → (LightWalletRecord → A) → Option LightWalletRecord → A
map_or default f none = default
map_or default f (some r) = f r

-- `let Some(record) = … else { return Ok(()) }`
abbrev pub if_found :
    {W : Type 0}
    → Option LightWalletRecord
    → (LightWalletRecord → Action W (Unit {0}))
    → Action W (Unit {0})
if_found none f = done tt
if_found (some r) f = f r

module _ (ks : KeystoreStore) (coin : CoinId) where
  unfoldable pub bump_receive_index : Action (World ks.State) ℕ
  unfolding load save
  bump_receive_index = do
    store ← load ks
    r ← expect (get (as_str coin) store.wallets) not_found
    let idx = r.next_receive_index
    save ks (with_wallet store coin (record r { next_receive_index = min (idx + 1) (2 ^ 32 - 1) }))
    done idx

  unfoldable pub peek_receive_index : Action (World ks.State) ℕ
  unfolding load
  peek_receive_index = do
    store ← load ks
    r ← expect (get (as_str coin) store.wallets) not_found
    done r.next_receive_index

  unfoldable pub set_receive_index_at_least : ℕ → Action (World ks.State) (Unit {0})
  unfolding load save
  set_receive_index_at_least index = do
    store ← load ks
    r ← expect (get (as_str coin) store.wallets) not_found
    if ltb r.next_receive_index index
        then save ks (with_wallet store coin (record r { next_receive_index = index }))
        else done tt

  unfoldable pub funded_script_hexes : Action (World ks.State) (List Text)
  unfolding load
  funded_script_hexes = do
    store ← load ks
    done (map_or [] (λ r. r.funded_script_hexes) (get (as_str coin) store.wallets))

  unfoldable pub set_funded_script_hexes : List Text → Action (World ks.State) (Unit {0})
  unfolding load save
  set_funded_script_hexes scripts = do
    store ← load ks
    r ← expect (get (as_str coin) store.wallets) not_found
    save ks (with_wallet store coin (record r { funded_script_hexes = scripts }))

  unfoldable pub register_funded_script_hex : Text → Action (World ks.State) (Unit {0})
  unfolding load save
  register_funded_script_hex script_hex = do
    store ← load ks
    r ← expect (get (as_str coin) store.wallets) not_found
    if any (λ s. eq_ignore_ascii_case s script_hex) r.funded_script_hexes
        then done tt
        else save ks (
            with_wallet store coin
              (record r { funded_script_hexes = r.funded_script_hexes ++ script_hex ∷ [] }))

  unfoldable pub cached_script_hexes : Action (World ks.State) (List Text)
  unfolding load
  cached_script_hexes = do
    store ← load ks
    done (map_or [] (λ r. r.cached_script_hexes) (get (as_str coin) store.wallets))

  unfoldable pub set_cached_script_hexes : List Text → Bool → Action (World ks.State) (Unit {0})
  unfolding load save
  set_cached_script_hexes scripts scan_complete =
      let saved = do
        store ← load ks
        r ← expect (get (as_str coin) store.wallets) not_found
        save ks (
            with_wallet store coin (record r {
              cached_script_hexes = scripts;
              addresses_scan_complete = if scan_complete then true else r.addresses_scan_complete;
            }))
      in if is_empty scripts then done tt else saved

  unfoldable pub indexing_progress : Action (World ks.State) IndexingProgress
  unfolding load progress_of
  indexing_progress = do
    store ← load ks
    done (map_or no_progress progress_of (get (as_str coin) store.wallets))

  unfoldable pub set_indexing_progress : IndexingProgress → Action (World ks.State) (Unit {0})
  unfolding load save has_progress
  set_indexing_progress progress = do
    store ← load ks
    r ← expect (get (as_str coin) store.wallets) not_found
    if has_progress r progress
        then done tt
        else save ks (with_wallet store coin (with_progress r progress))

  unfoldable pub needs_full_address_scan : Action (World ks.State) Bool
  unfolding load
  needs_full_address_scan = do
    store ← load ks
    done (map_or false (λ r. not r.addresses_scan_complete) (get (as_str coin) store.wallets))

  unfoldable pub mark_address_scan_complete : Action (World ks.State) (Unit {0})
  unfolding load save
  mark_address_scan_complete = do
    store ← load ks
    if_found (get (as_str coin) store.wallets) (λ r. save ks (
        with_wallet store coin (
          with_progress (record r { addresses_scan_complete = true })
            (record no_progress { gap_external_done = true; gap_internal_done = true }))))

  unfoldable pub mark_address_scan_incomplete : Action (World ks.State) (Unit {0})
  unfolding load save
  mark_address_scan_incomplete = do
    store ← load ks
    if_found (get (as_str coin) store.wallets) (λ r. save ks (
        with_wallet store coin
          (with_progress (record r { addresses_scan_complete = false }) no_progress)))

  unfoldable pub reset_indexing_progress : Action (World ks.State) (Unit {0})
  unfolding set_indexing_progress
  reset_indexing_progress = set_indexing_progress no_progress

  -- `WalletIndexStore::scan_complete`
  unfoldable pub scan_complete : Action (World ks.State) Bool
  unfolding needs_full_address_scan
  scan_complete = do needed ← needs_full_address_scan; done (not needed)
