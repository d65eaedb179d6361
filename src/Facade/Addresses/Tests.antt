-- ===== src/Facade/Addresses/Tests.antt =====
-- Two coins, of which one has lost its address.
use vericonomy_sdk.Base.{ℕ, ◌≡◌, refl, none, List, [], ◌∷◌}
use vericonomy_sdk.Int.{pos}
use vericonomy_sdk.Text.{Text, text_eq}
use vericonomy_sdk.TextMap.{get, put, remove}
use vericonomy_sdk.Errors.{ok}
use vericonomy_sdk.Params.{verium}
use vericonomy_sdk.Chain.{Utxo}
use vericonomy_sdk.Tx.Toy.{toy_hex}
use vericonomy_sdk.Engine.Toy.{toy_hd, phrase}
use vericonomy_sdk.Facade.Addresses.{
  enrich_utxo_addresses, lookup_targets, lookup_core, lookup_internal, lookup_from,
}
use vericonomy_sdk.Facade.Addresses.Enriched.{AreEnriched, enrich_utxo_addresses-AreEnriched}

abbrev coin : Text → ℕ → Utxo
coin address index = record {
  txid = 9 ∷ [];
  vout = 0;
  value_sats = pos 5;
  height = 1;
  address = address;
  script_hex = 0x76 ∷ 86 ∷ index ∷ [];
  confirmations = 1;
}

abbrev coins : List Utxo
coins = coin [] 3 ∷ coin (86 ∷ 7 ∷ []) 7 ∷ []

abbrev enriched : List Utxo
enriched = coin (86 ∷ 3 ∷ []) 3 ∷ coin (86 ∷ 7 ∷ []) 7 ∷ []

enriches : enrich_utxo_addresses toy_hd toy_hex verium phrase none coins ≡ ok enriched
unfolding enrich_utxo_addresses lookup_targets lookup_core lookup_internal lookup_from text_eq put
    get remove
enriches = refl

enrich_utxo_addresses-AreEnriched_example :
    AreEnriched toy_hd toy_hex verium phrase none coins enriched
enrich_utxo_addresses-AreEnriched_example =
    enrich_utxo_addresses-AreEnriched toy_hd toy_hex verium phrase none coins enriched enriches
