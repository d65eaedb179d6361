-- ===== src/Facade/GapScan/Ends.antt =====
-- A scan ends.
use vericonomy_sdk.Base.{
  ℕ, zero, suc, ◌+◌, ◌^◌, ◌≤◌, ◌<◌, ◌≡◌, refl, arith, false, ◌&&◌, Bool-cases, inl, inr, Option,
  some, List, [], ltb, leb,
}
use vericonomy_sdk.Text.{Text}
use vericonomy_sdk.Hex.{Hex}
use vericonomy_sdk.Errors.{Result}
use vericonomy_sdk.Params.{CoinId}
use vericonomy_sdk.Hd.{Hd, HdChain, gap_scan_max_index}
use vericonomy_sdk.Chain.{WalletBalance}
use vericonomy_sdk.Facade.GapScan.{
  ChainScanSlice, Batch, Round, leave, onward, scan_batch, batch_end_of, batch_scripts, scan_rounds,
  discover_chain_script_hexes,
}

pub batch_end_of_advances :
    (batch_size index : ℕ)
    → 1 ≤ batch_size
    → batch_size < 2 ^ 31
    → index ≤ 501
    → (index + 1 ≤ batch_end_of batch_size index) × (batch_end_of batch_size index ≤ 502)
unfolding batch_end_of
batch_end_of_advances batch_size index h k le = (omega arith, omega arith)

module _ (scripts_from : ℕ → ℕ → Result (List Text)) (gap_limit batch_size : ℕ)
    (get_balances_per_script : ℕ → List Text → Result (List WalletBalance))
    (on_funded_batch : List Text → Result (Unit {0})) where
  scan_rounds_total :
      (k index : ℕ) (scripts : List Text) (empty : ℕ) (funded : List Text)
      → 1 ≤ batch_size
      → batch_size < 2 ^ 31
      → 502 ≤ index + k
      → (r : List Text × Result ChainScanSlice) × (scan_rounds scripts_from gap_limit batch_size
            get_balances_per_script on_funded_batch
            (suc k)
            index
            scripts
            empty
            funded
          ≡ some r)
  unfolding scan_rounds
  scan_rounds_total zero index scripts empty funded h h' le =
      let out : (ltb empty gap_limit && leb index gap_scan_max_index) ≡ false = ground arith in
      rw out (_, refl)
  scan_rounds_total (suc k) index scripts empty funded h h' le =
      elim (Bool-cases (ltb empty gap_limit && leb index gap_scan_max_index)) [
        | inr out ↦ rw out (_, refl)
        | inl inside ↦
            let low : index ≤ 501 = ground arith in
            let further = (batch_end_of_advances batch_size index h h' low).0 in
            rw inside (
              step
                (scan_batch scripts_from gap_limit batch_size get_balances_per_script
                  on_funded_batch index scripts empty funded)
                (λ b.
                  scan_rounds_total k (batch_end_of batch_size index) b.scripts b.consecutive_empty
                    b.funded_out h h' (omega (arith, further, le))))
      ]
    where
      step :
          (r : Round)
          → ((b : Batch)
              → (x : List Text × Result ChainScanSlice) × (scan_rounds scripts_from gap_limit
                    batch_size get_balances_per_script on_funded_batch
                    (suc k)
                    (batch_end_of batch_size index)
                    b.scripts
                    b.consecutive_empty
                    b.funded_out
                  ≡ some x))
          → (x : List Text × Result ChainScanSlice) × (elim r
                as (λ _. Option (List Text × Result ChainScanSlice)) [
                  | leave funded' result ↦ some (funded', result)
                  | onward b ↦
                      scan_rounds scripts_from gap_limit batch_size get_balances_per_script
                        on_funded_batch
                        (suc k)
                        (batch_end_of batch_size index)
                        b.scripts
                        b.consecutive_empty
                        b.funded_out
                ]
              ≡ some x)
      step (leave f r) ih = (_, refl)
      step (onward b) ih = ih b

-- With batches of at least one index and fewer than 2^31, the scan of a chain ends, from whatever
-- index it resumes and whatever the backend and the hook answer: 503 rounds are enough.
pub discover_chain_script_hexes_total :
    (hd : Hd) (hex : Hex) (coin : CoinId) (seed_secret : Text) (bip39_passphrase : Option Text)
    (chain : HdChain) (gap_limit start_index : ℕ)
    (get_balances_per_script : ℕ → List Text → Result (List WalletBalance)) (batch_size : ℕ)
    (funded_out : List Text) (on_funded_batch : List Text → Result (Unit {0}))
    → 1 ≤ batch_size
    → batch_size < 2 ^ 31
    → (r : List Text × Result ChainScanSlice) × (discover_chain_script_hexes hd hex coin seed_secret
          bip39_passphrase chain gap_limit start_index get_balances_per_script batch_size funded_out
          on_funded_batch
        ≡ some r)
unfolding discover_chain_script_hexes
discover_chain_script_hexes_total hd hex coin seed pass chain gap start get batch funded hook h h' =
    scan_rounds_total (batch_scripts hd hex coin seed pass chain) gap batch get hook 502 start [] 0
      funded h h' (omega arith)
