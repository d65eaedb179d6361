-- ===== src/Facade/GapScan.antt =====
-- vericonomy-wallet-facade/src/gap_scan.rs: the discovery of the used addresses of one chain. The
-- backend's answer may depend on the index at which it is asked; the indices are `u32`.
pub mod Ends
pub mod Batches
pub mod Steps
pub mod Covers
use Prim.Native.Nat.{min}
use vericonomy_sdk.Base.{
  ℕ, zero, suc, ◌+◌, ◌-◌, ◌%◌, ◌^◌, Bool, true, false, ◌&&◌, ◌||◌, Option, none, some, List, [],
  ◌∷◌, ◌++◌, any, ltb, leb, if◌then◌else◌,
}
use vericonomy_sdk.Int.{pos, eqb_ℤ}
use vericonomy_sdk.Text.{Text, text_eq}
use vericonomy_sdk.Hex.{Hex}
use vericonomy_sdk.Errors.{Result, ok, err, ◌>>=◌, is_indexing_budget_exhausted}
use vericonomy_sdk.Params.{CoinId}
use vericonomy_sdk.Hd.{Hd, HdChain, gap_scan_max_index}
use vericonomy_sdk.Chain.{WalletBalance, total_sats}

pub record ChainScanSlice : Type 0 where
  pub scripts : List Text
  pub next_index : ℕ
  pub chain_complete : Bool
  pub budget_paused : Bool

-- The variables that the inner loop changes.
pub record Batch : Type 0 where
  pub scripts : List Text
  pub consecutive_empty : ℕ
  pub funded_out : List Text
  pub batch_had_funded : Bool

-- `for (script_hex, bal) in batch_scripts.into_iter().zip(balances)`, one round
unfoldable pub absorb_one : Text → WalletBalance → Batch → Batch
absorb_one script_hex bal b =
    if eqb_ℤ (total_sats bal) (pos 0)
    then record b {
      consecutive_empty = b.consecutive_empty + 1;
      scripts = b.scripts ++ script_hex ∷ [];
    }
    else if any (λ s. text_eq s script_hex) b.funded_out
    then record b { consecutive_empty = 0; scripts = b.scripts ++ script_hex ∷ [] }
    else record b {
      consecutive_empty = 0;
      scripts = b.scripts ++ script_hex ∷ [];
      funded_out = b.funded_out ++ script_hex ∷ [];
      batch_had_funded = true;
    }

-- The inner loop, which `zip` ends with the shorter list and the gap limit ends early.
unfoldable pub absorb : ℕ → List Text → List WalletBalance → Batch → Batch
absorb gap_limit (s ∷ ss) (bal ∷ bals) b =
    let b' = absorb_one s bal b in
    let more = absorb gap_limit ss bals b' in
    if leb gap_limit b'.consecutive_empty then b' else more
absorb gap_limit [] bals b = b
absorb gap_limit (s ∷ ss) [] b = b

unfoldable pub batch_end_of : ℕ → ℕ → ℕ
batch_end_of batch_size index = min ((index + batch_size) % 2 ^ 32) (gap_scan_max_index + 1)

abbrev pub start_batch : List Text → ℕ → List Text → Batch
start_batch scripts consecutive_empty funded_out = record {
  scripts = scripts;
  consecutive_empty = consecutive_empty;
  funded_out = funded_out;
  batch_had_funded = false;
}

abbrev pub paused_at : ℕ → List Text → ChainScanSlice
paused_at index scripts = record {
  scripts = scripts;
  next_index = index;
  chain_complete = false;
  budget_paused = true;
}

abbrev pub finished_at : ℕ → ℕ → List Text → ℕ → ChainScanSlice
finished_at gap_limit index scripts empty = record {
  scripts = scripts;
  next_index = index;
  chain_complete = leb gap_limit empty || ltb gap_scan_max_index index;
  budget_paused = false;
}

pub data Round : Type 0 where
  leave : List Text → Result ChainScanSlice → Round
  onward : Batch → Round

-- The call of the hook; an application that gives none has a hook that always succeeds.
unfoldable pub after_batch : (List Text → Result (Unit {0})) → Batch → Result (Unit {0})
after_batch on_funded_batch b = if b.batch_had_funded then on_funded_batch b.funded_out else ok tt

module _ (hd : Hd) (hex : Hex) (coin : CoinId) (seed_secret : Text) (bip39_passphrase : Option Text)
    (chain : HdChain) where
  unfoldable pub script_at : ℕ → Result Text
  script_at idx = do
    addr ← hd.derive_address_on_chain coin seed_secret bip39_passphrase chain idx
    script ← hd.address_to_script_pubkey coin addr
    ok (hex.encode script)

  -- `for idx in index..batch_end`, with the indices that are left
  unfoldable pub batch_scripts : ℕ → ℕ → Result (List Text)
  batch_scripts zero idx = ok []
  batch_scripts (suc left) idx =
      (script_at idx) >>= λ s. (batch_scripts left (idx + 1)) >>= λ ss. ok (s ∷ ss)

module _ (scripts_from : ℕ → ℕ → Result (List Text)) (gap_limit batch_size : ℕ)
    (get_balances_per_script : ℕ → List Text → Result (List WalletBalance))
    (on_funded_batch : List Text → Result (Unit {0})) where
  -- The loop's body at `index`: it leaves the function, or goes on with what the batch changed.
  -- `scripts_from` is `batch_scripts` of the chain.
  unfoldable pub scan_batch : ℕ → List Text → ℕ → List Text → Round
  scan_batch index scripts empty funded =
      elim (scripts_from (batch_end_of batch_size index - index) index) as (λ _. Round) [
        | err e ↦ leave funded (err e)
        | ok batch ↦ elim (get_balances_per_script index batch) as (λ _. Round) [
          | err e ↦
              if is_indexing_budget_exhausted e
              then leave funded (ok (paused_at index scripts))
              else leave funded (err e)
          | ok balances ↦
              let b = absorb gap_limit batch balances (start_batch scripts empty funded) in
              elim (after_batch on_funded_batch b) as (λ _. Round) [
                | err e ↦ leave b.funded_out (err e)
                | ok done ↦ onward b
              ]
        ]
      ]

  -- `while consecutive_empty < gap_limit && index <= GAP_SCAN_MAX_INDEX`, with the rounds that are
  -- left, and `funded_out` beside the result since a caller sees it after an error too; `none` means
  -- that the rounds ran out. The `break` at the end of a round is the loop's own test.
  unfoldable pub scan_rounds :
      ℕ → ℕ → List Text → ℕ → List Text → Option (List Text × Result ChainScanSlice)
  unfolding scan_batch
  scan_rounds zero index scripts empty funded = none
  scan_rounds (suc k) index scripts empty funded =
      let round =
        elim (scan_batch index scripts empty funded)
          as (λ _. Option (List Text × Result ChainScanSlice)) [
            | leave funded' result ↦ some (funded', result)
            | onward b ↦
                scan_rounds k (batch_end_of batch_size index) b.scripts b.consecutive_empty
                  b.funded_out
          ] in
      if ltb empty gap_limit && leb index gap_scan_max_index
      then round
      else some (funded, ok (finished_at gap_limit index scripts empty))

module _ (hd : Hd) (hex : Hex) (coin : CoinId) (seed_secret : Text)
    (bip39_passphrase : Option Text) where
  -- One round for each index and one to leave the loop.
  unfoldable pub discover_chain_script_hexes :
      HdChain
      → ℕ
      → ℕ
      → (ℕ → List Text → Result (List WalletBalance))
      → ℕ
      → List Text
      → (List Text → Result (Unit {0}))
      → Option (List Text × Result ChainScanSlice)
  unfolding scan_rounds batch_scripts
  discover_chain_script_hexes chain gap_limit start_index get_balances_per_script batch_size
        funded_out on_funded_batch =
      scan_rounds (batch_scripts hd hex coin seed_secret bip39_passphrase chain) gap_limit
        batch_size get_balances_per_script on_funded_batch (gap_scan_max_index + 2) start_index [] 0
        funded_out
