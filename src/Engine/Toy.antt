-- ===== src/Engine/Toy.antt =====
-- Keys and addresses that show their chain and index, so that the code runs in tests.
use vericonomy_sdk.Base.{ℕ, true, [], ◌∷◌}
use vericonomy_sdk.Text.{Text, codes}
use vericonomy_sdk.Errors.{ok}
use vericonomy_sdk.Hd.{Hd, HdChain, external, internal}

abbrev pub number : HdChain → ℕ
number external = 0
number internal = 1

abbrev pub toy_hd : Hd
toy_hd = record {
  uses_core_hd_paths = λ coin phrase. true;
  address_to_script_pubkey = λ coin address. ok (0x76 ∷ address);
  pubkey_to_p2pkh_address = λ coin pubkey. ok (86 ∷ pubkey);
  derive_keypair_on_chain =
      λ coin phrase pass chain index. ok (number chain ∷ index ∷ [], index ∷ []);
  derive_address_on_chain = λ coin phrase pass chain index. ok (86 ∷ index ∷ []);
  derive_address_at = λ coin phrase pass index. ok (86 ∷ index ∷ []);
}

abbrev pub phrase : Text
phrase = codes "abandon"
