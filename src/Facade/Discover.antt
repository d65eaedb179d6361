-- ===== src/Facade/Discover.antt =====
-- vericonomy-wallet-facade/src/gap_scan.rs: the scan of both chains, which saves its progress and
-- resumes from it.
pub mod Progress
use vericonomy_sdk.Base.{
  ℕ, Bool, true, false, not, ◌&&◌, ◌||◌, Option, none, some, List, [], ◌∷◌, ◌++◌, any,
  if◌then◌else◌,
}
use vericonomy_sdk.Text.{Text, text_eq}
use vericonomy_sdk.Hex.{Hex}
use vericonomy_sdk.Errors.{Result, ok, err}
use vericonomy_sdk.Params.{CoinId}
use vericonomy_sdk.Hd.{Hd, HdChain, external, internal}
use vericonomy_sdk.Chain.{WalletBalance}
use vericonomy_sdk.Storage.Types.{IndexingProgress}
use vericonomy_sdk.Facade.GapScan.{ChainScanSlice, discover_chain_script_hexes}

-- What a caller sees afterwards: the two variables that it lent, and the result.
pub record Discovery : Type 0 where
  pub progress : IndexingProgress
  pub funded_out : List Text
  pub result : Result (List Text × Bool)

-- `for script in internal.scripts { if !merged.contains(&script) { merged.push(script) } }`
unfoldable pub push_new : List Text → List Text → List Text
push_new merged [] = merged
push_new merged (script ∷ scripts) =
    if any (λ s. text_eq s script) merged
    then push_new merged scripts
    else push_new (merged ++ script ∷ []) scripts

-- `if slice.budget_paused { return … } if !slice.chain_complete { return … }`
abbrev pub must_stop : ChainScanSlice → Bool
must_stop slice = slice.budget_paused || not slice.chain_complete

-- `uses_core` stands for `uses_core_hd_paths(coin, seed_secret)`, and `scan` for the scan of a chain.
module _ (uses_core : Bool)
    (scan : HdChain → ℕ → List Text → Option (List Text × Result ChainScanSlice)) where
  -- From the test of the paths on.
  unfoldable pub discover_internal : IndexingProgress → List Text → List Text → Option Discovery
  discover_internal p funded merged =
      let scanned = elim (scan internal p.gap_internal funded) as (λ _. Option Discovery) [
        | none ↦ none
        | some (funded', found) ↦ elim found as (λ _. Option Discovery) [
          | err e ↦ some (record { progress = p; funded_out = funded'; result = err e })
          | ok slice ↦
              let merged' = push_new merged slice.scripts in
              some (
                if must_stop slice
                then record {
                  progress = record p { gap_internal = slice.next_index };
                  funded_out = funded';
                  result = ok (merged', false);
                }
                else record {
                  progress = record p { gap_internal = slice.next_index; gap_internal_done = true };
                  funded_out = funded';
                  result = ok (merged', true);
                })
        ]
      ] in
      if not uses_core || p.gap_internal_done
      then some (record { progress = p; funded_out = funded; result = ok (merged, true) })
      else scanned

  unfoldable pub discover_both : IndexingProgress → List Text → Option Discovery
  unfolding discover_internal
  discover_both p funded =
      let scanned = elim (scan external p.gap_external funded) as (λ _. Option Discovery) [
        | none ↦ none
        | some (funded', found) ↦ elim found as (λ _. Option Discovery) [
          | err e ↦ some (record { progress = p; funded_out = funded'; result = err e })
          | ok slice ↦
              let onward =
                discover_internal
                  (record p { gap_external = slice.next_index; gap_external_done = true }) funded'
                  slice.scripts in
              if must_stop slice
              then some (record {
                progress = record p { gap_external = slice.next_index };
                funded_out = funded';
                result = ok (slice.scripts, false);
              })
              else onward
        ]
      ] in
      if p.gap_external_done then discover_internal p funded [] else scanned

-- The backend's answers may differ from chain to chain.
unfoldable pub discover_script_hexes :
    (hd : Hd) (hex : Hex) (coin : CoinId) (seed_secret : Text) (bip39_passphrase : Option Text)
    (gap_limit : ℕ) (progress : IndexingProgress)
    (get_balances_per_script : HdChain → ℕ → List Text → Result (List WalletBalance))
    (batch_size : ℕ) (funded_out : List Text) (on_funded_batch : List Text → Result (Unit {0}))
    → Option Discovery
unfolding discover_both
discover_script_hexes hd hex coin seed pass gap_limit progress get batch_size funded_out hook =
    discover_both (hd.uses_core_hd_paths coin seed)
      (λ chain start funded.
        discover_chain_script_hexes hd hex coin seed pass chain gap_limit start (get chain)
          batch_size funded hook)
      progress funded_out
