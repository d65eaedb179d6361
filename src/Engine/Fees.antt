-- ===== src/Engine/Fees.antt =====
-- vericonomy-wallet-engine/src/utxo_selector.rs: transaction sizes and fees.
pub mod Exact
use vericonomy_sdk.Base.{ℕ, ◌+◌, ◌*◌, ◌%◌, ◌^◌, Bool, true, not, ◌&&◌, arith, ◌==◌, if◌then◌else◌}
use vericonomy_sdk.Int.{ℤ, pos, ltb_ℤ, eqb_ℤ}
use vericonomy_sdk.Int.I64
use vericonomy_sdk.Float.{Float}

abbrev pub vip1_min_tx_fee_per_k : ℤ
vip1_min_tx_fee_per_k = pos 100000

abbrev pub dust_change_sats : ℤ
dust_change_sats = pos 546

-- `usize` of 64 bits
unfoldable pub estimate_tx_size : ℕ → ℕ → ℕ
estimate_tx_size input_count output_count = (14 + input_count * 148 + output_count * 34) % 2 ^ 64

unfoldable pub verium_fee_for_size : ℤ → ℕ → Bool → ℤ
verium_fee_for_size satoshis_per_k n_bytes add_start_fee =
    let n_size = I64.wrap (pos n_bytes) in
    let whole = I64.mul satoshis_per_k (I64.div n_size 1000) in
    let n_fee = if add_start_fee then I64.add whole satoshis_per_k else whole in
    if eqb_ℤ n_fee (pos 0) && (not (eqb_ℤ n_size (pos 0)) && ltb_ℤ (pos 0) satoshis_per_k)
    then pos 1
    else n_fee

module _ (f : Float) where
  open f use {Carrier, of_int, mul, round, to_i64}

  unfoldable pub coins_per_kb_to_sats_per_k : Carrier → ℤ
  coins_per_kb_to_sats_per_k rate_coins_per_kb =
      to_i64 (round (mul rate_coins_per_kb (of_int (pos 100000000))))

  unfoldable pub fee_for_rate : Carrier → ℕ → ℕ → ℤ
  fee_for_rate rate_coins_per_kb input_count output_count =
      let bytes = estimate_tx_size input_count output_count in
      let user_rate_sats_per_k = coins_per_kb_to_sats_per_k rate_coins_per_kb in
      let user_fee = verium_fee_for_size user_rate_sats_per_k bytes true in
      let network_min = verium_fee_for_size vip1_min_tx_fee_per_k bytes true in
      I64.max user_fee network_min
