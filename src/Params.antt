-- ===== src/Params.antt =====
-- vericonomy-chain-params/src/lib.rs: the two coins.
use vericonomy_sdk.Base.{ℕ}
use vericonomy_sdk.Text.{Text, codes}

pub data CoinId : Type 0 where
  vericoin verium : CoinId

unfoldable pub as_str : CoinId → Text
as_str vericoin = codes "vericoin"
as_str verium = codes "verium"

-- `profile().maturity_confirmations`
unfoldable pub maturity_confirmations : CoinId → ℕ
maturity_confirmations verium = 100
maturity_confirmations vericoin = 500
