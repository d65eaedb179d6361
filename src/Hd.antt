-- ===== src/Hd.antt =====
-- The interface of vericonomy-hd/src/lib.rs that scanning and signing use: derivation of keys and
-- addresses, and the script that pays to an address.
use vericonomy_sdk.Base.{ℕ, Bool, Option}
use vericonomy_sdk.Text.{Text}
use vericonomy_sdk.Errors.{Result}
use vericonomy_sdk.Params.{CoinId}

abbrev pub gap_scan_max_index : ℕ
gap_scan_max_index = 501

pub data HdChain : Type 0 where
  external internal : HdChain

pub record Hd : Type 0 where
  pub uses_core_hd_paths : CoinId → Text → Bool
  pub address_to_script_pubkey : CoinId → Text → Result Text
  pub pubkey_to_p2pkh_address : CoinId → Text → Result Text
  pub derive_keypair_on_chain : CoinId → Text → Option Text → HdChain → ℕ → Result (Text × Text)
  pub derive_address_on_chain : CoinId → Text → Option Text → HdChain → ℕ → Result Text
  pub derive_address_at : CoinId → Text → Option Text → ℕ → Result Text
