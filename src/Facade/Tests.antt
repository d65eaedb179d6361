-- ===== src/Facade/Tests.antt =====
-- Balances and scans on concrete wallets.
use vericonomy_sdk.Base.{
  is_empty, ℕ, ◌≡◌, refl, arith, true, false, none, some, List, [], ◌∷◌, map, ◌==◌, if◌then◌else◌,
}
use vericonomy_sdk.Int.{ℤ, pos, ◌+ℤ◌}
use vericonomy_sdk.Int.I64
use vericonomy_sdk.Text.{Text, text_eq, trim, to_ascii_lowercase, eq_ignore_ascii_case}
use vericonomy_sdk.Errors.{Result, ok}
use vericonomy_sdk.Params.{verium}
use vericonomy_sdk.Hd.{external}
use vericonomy_sdk.Chain.{Utxo, WalletBalance, total_sats}
use vericonomy_sdk.Tx.Toy.{toy_hex}
use vericonomy_sdk.Engine.Money.{total}
use vericonomy_sdk.Engine.Toy.{toy_hd, phrase}
use vericonomy_sdk.Facade.Balance.{spendable_utxos, balance_from_utxos}
use vericonomy_sdk.Facade.Balance.Exact.{balance_from_utxos-total}
use vericonomy_sdk.Facade.GapScan.{
  ChainScanSlice, absorb_one, absorb, script_at, batch_scripts, batch_end_of, after_batch,
  scan_batch, scan_rounds, discover_chain_script_hexes,
}
use vericonomy_sdk.Facade.GapScan.Ends.{discover_chain_script_hexes_total}
use vericonomy_sdk.Storage.Types.{IndexingProgress}
use vericonomy_sdk.Facade.Discover.{
  Discovery, push_new, discover_internal, discover_both, discover_script_hexes,
}
use vericonomy_sdk.Facade.Discover.Progress.{Agrees, discover_script_hexes-Agrees}
use vericonomy_sdk.Facade.ReceiveIndex.{
  address_if_target, find_receive_index, external_receive_index_for_script,
}
use vericonomy_sdk.Facade.ReceiveIndex.First.{IsFirst, external_receive_index_for_script-IsFirst}
use vericonomy_sdk.Facade.GapScan.Covers.{Covers, discover_chain_script_hexes-Covers}

abbrev coin : ℕ → ℕ → Utxo
coin height value = record {
  txid = 9 ∷ height ∷ [];
  vout = 0;
  value_sats = pos value;
  height = height;
  address = 86 ∷ [];
  script_hex = 0x76 ∷ [];
  confirmations = 0;
}

abbrev coins : List Utxo
coins = coin 0 700 ∷ coin 100 300 ∷ coin 250 50 ∷ []

balance_from_utxos-total_example :
    ((balance_from_utxos coins 200).confirmed_sats ≡ pos (total (spendable_utxos coins)))
    × ((balance_from_utxos coins 200).immature_sats ≡ pos 0)
    × (total_sats (balance_from_utxos coins 200) ≡ pos (total coins))
balance_from_utxos-total_example =
    balance_from_utxos-total coins 200 (omega arith, omega arith) (omega arith)

abbrev holding : ℤ → WalletBalance
holding v = record { confirmed_sats = v; unconfirmed_sats = pos 0; immature_sats = pos 0 }

-- The addresses of the indices 1 and 3 hold coins.
abbrev balance : Text → WalletBalance
balance (a ∷ b ∷ index ∷ rest) =
    if index == 1 then holding (pos 5) else if index == 3 then holding (pos 7) else holding (pos 0)
balance _ = holding (pos 0)

abbrev ask : ℕ → List Text → Result (List WalletBalance)
ask index batch = ok (map balance batch)

abbrev ignore : List Text → Result (Unit {0})
ignore funded = ok tt

abbrev slice : ChainScanSlice
slice = record {
  scripts =
      (0x76 ∷ 86 ∷ 0 ∷ [])
      ∷ (0x76 ∷ 86 ∷ 1 ∷ [])
      ∷ (0x76 ∷ 86 ∷ 2 ∷ [])
      ∷ (0x76 ∷ 86 ∷ 3 ∷ [])
      ∷ (0x76 ∷ 86 ∷ 4 ∷ [])
      ∷ (0x76 ∷ 86 ∷ 5 ∷ [])
      ∷ [];
  next_index = 6;
  chain_complete = true;
  budget_paused = false;
}

abbrev funded : List Text
funded = (0x76 ∷ 86 ∷ 1 ∷ []) ∷ (0x76 ∷ 86 ∷ 3 ∷ []) ∷ []

scanned :
    discover_chain_script_hexes toy_hd toy_hex verium phrase none external 2 0 ask 3 [] ignore
    ≡ some (funded, ok slice)
unfolding discover_chain_script_hexes scan_rounds scan_batch batch_scripts script_at batch_end_of
    absorb absorb_one after_batch total_sats text_eq I64.add I64.wrap ◌+ℤ◌
scanned = refl

same_answer : {a b : List WalletBalance} → ok a ≡ ok b → b ≡ a
same_answer e = cc

discover_chain_script_hexes-Covers_example :
    Covers toy_hd toy_hex verium phrase none external balance 2 3 ask ignore 0 slice funded
discover_chain_script_hexes-Covers_example =
    discover_chain_script_hexes-Covers toy_hd toy_hex verium phrase none external balance 2 3 ask
      ignore 0 [] funded slice (omega arith) (omega arith) (λ i batch balances e. same_answer e)
      scanned

discover_chain_script_hexes_total_example :
    (r : List Text × Result ChainScanSlice) × (discover_chain_script_hexes toy_hd toy_hex verium
        phrase none external 20 0 ask 50 [] ignore
      ≡ some r)
discover_chain_script_hexes_total_example =
    discover_chain_script_hexes_total toy_hd toy_hex verium phrase none external 20 0 ask 50 []
      ignore (omega arith) (omega arith)

abbrev fresh : IndexingProgress
fresh = record {
  precache_offset = 0;
  gap_external = 0;
  gap_external_done = false;
  gap_internal = 0;
  gap_internal_done = false;
}

abbrev explored : Discovery
explored = record {
  progress = record {
    precache_offset = 0;
    gap_external = 6;
    gap_external_done = true;
    gap_internal = 6;
    gap_internal_done = true;
  };
  funded_out = funded;
  result = ok (slice.scripts, true);
}

discovered :
    discover_script_hexes toy_hd toy_hex verium phrase none 2 fresh (λ chain. ask) 3 [] ignore
    ≡ some explored
unfolding discover_script_hexes discover_both discover_internal push_new discover_chain_script_hexes
    scan_rounds scan_batch batch_scripts script_at batch_end_of absorb absorb_one after_batch
    total_sats text_eq I64.add I64.wrap ◌+ℤ◌
discovered = refl

discover_script_hexes-Agrees_example : Agrees (toy_hd.uses_core_hd_paths verium phrase) explored
discover_script_hexes-Agrees_example =
    discover_script_hexes-Agrees toy_hd toy_hex verium phrase none 2 fresh (λ chain. ask) 3 []
      ignore explored discovered

third :
    external_receive_index_for_script toy_hd toy_hex verium phrase none (0x76 ∷ 86 ∷ 3 ∷ [])
    ≡ ok (some (3, 86 ∷ 3 ∷ []))
unfolding external_receive_index_for_script find_receive_index address_if_target trim
    eq_ignore_ascii_case to_ascii_lowercase text_eq
third = refl

not_blank : is_empty (trim (0x76 ∷ 86 ∷ 3 ∷ [])) ≡ false
unfolding trim
not_blank = refl

external_receive_index_for_script-IsFirst_example :
    IsFirst toy_hd toy_hex verium phrase none
      (trim (0x76 ∷ 86 ∷ 3 ∷ []))
      502
      0
      (some (3, 86 ∷ 3 ∷ []))
external_receive_index_for_script-IsFirst_example =
    external_receive_index_for_script-IsFirst toy_hd toy_hex verium phrase none (0x76 ∷ 86 ∷ 3 ∷ [])
      (some (3, 86 ∷ 3 ∷ [])) not_blank third
