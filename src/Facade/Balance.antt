-- ===== src/Facade/Balance.antt =====
-- vericonomy-wallet-facade/src/balance.rs: balances from coins.
pub mod Exact
use vericonomy_sdk.Base.{
  ℕ, ◌+◌, ◌-◌, ◌%◌, ◌^◌, List, [], ◌∷◌, ltb, ◌==◌, leb, filter, if◌then◌else◌,
}
use vericonomy_sdk.Int.{ℤ, pos}
use vericonomy_sdk.Int.I64
use vericonomy_sdk.Chain.{Utxo, WalletBalance}

unfoldable pub spendable_utxos : List Utxo → List Utxo
spendable_utxos utxos = filter (λ u. ltb 0 u.height) utxos

-- `for utxo in utxos`, with the two sums so far; the heights are `u32`.
unfoldable pub sum_by_height : ℕ → List Utxo → ℤ → ℤ → ℤ × ℤ
sum_by_height tip_height [] confirmed unconfirmed = (confirmed, unconfirmed)
sum_by_height tip_height (u ∷ us) confirmed unconfirmed =
    let as_confirmed = sum_by_height tip_height us (I64.add confirmed u.value_sats) unconfirmed in
    let as_unconfirmed = sum_by_height tip_height us confirmed (I64.add unconfirmed u.value_sats) in
    if u.height == 0
    then as_unconfirmed
    else if leb 1 ((tip_height - u.height + 1) % 2 ^ 32)
    then as_confirmed
    else as_unconfirmed

unfoldable pub balance_from_utxos : List Utxo → ℕ → WalletBalance
balance_from_utxos utxos tip_height =
    let sums = sum_by_height tip_height utxos (pos 0) (pos 0) in
    record { confirmed_sats = sums.0; unconfirmed_sats = sums.1; immature_sats = pos 0 }
