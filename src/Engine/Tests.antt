-- ===== src/Engine/Tests.antt =====
-- The engine on concrete wallets.
use vericonomy_sdk.Base.{ℕ, zero, suc, ◌≡◌, refl, arith, List, [], ◌∷◌, true}
use vericonomy_sdk.Int.{ℤ, pos, ◌+ℤ◌, ◌-ℤ◌, ◌*ℤ◌}
use vericonomy_sdk.Int.I64
use vericonomy_sdk.Float.Fixed.{fixed}
use vericonomy_sdk.Text.{codes}
use vericonomy_sdk.Errors.{ok, err, other, insufficient_funds}
use vericonomy_sdk.Chain.{Utxo}
use vericonomy_sdk.Engine.Fees.{
  estimate_tx_size, verium_fee_for_size, coins_per_kb_to_sats_per_k, fee_for_rate,
}
use vericonomy_sdk.Engine.Fees.Exact.{fee_spec, fee_for_rate-eq}
use vericonomy_sdk.Engine.Money.{sum_values}
use vericonomy_sdk.Engine.Select.{select_utxos}
use vericonomy_sdk.Engine.Select.Laws.{Selection}
use vericonomy_sdk.Engine.Select.Outcome.{select_utxos_finds, select_utxos_fails}
use vericonomy_sdk.Engine.Plan.{
  change_will_be_included, outputs_for, next_fee, plan_rounds, replan_rounds, plan_send_utxos,
  replan_fee_for_selected, replan_diverges,
}
use vericonomy_sdk.Engine.Plan.Sound.{Settled, plan_send_utxos-Settled}
use vericonomy_sdk.Engine.Plan.Settles.{plan_send_utxos_settles, plan_send_utxos_short}
use vericonomy_sdk.Engine.Plan.Replans.{replan_fee_for_selected-fee_to_settle}
use vericonomy_sdk.Engine.Plan.Oscillates.{replan_oscillates}

abbrev coin : ℕ → Utxo
coin v = record {
  txid = codes "aa";
  vout = 0;
  value_sats = pos v;
  height = 1;
  address = codes "V1";
  script_hex = codes "76a9";
  confirmations = 1;
}

-- 0.001 coins per kilobyte
abbrev default_rate : ℤ
default_rate = pos 100000

default_rate_sats : coins_per_kb_to_sats_per_k fixed default_rate ≡ pos 100000
unfolding coins_per_kb_to_sats_per_k ◌*ℤ◌ ◌-ℤ◌
default_rate_sats = refl

start_fee : verium_fee_for_size (pos 100000) 230 true ≡ pos 100000
unfolding verium_fee_for_size I64.wrap I64.mul I64.div I64.add ◌+ℤ◌ ◌*ℤ◌
start_fee = refl

smallest_sufficient :
    select_utxos (coin 28000000000 ∷ coin 7000000000 ∷ []) (pos 100000000) (pos 100000)
    ≡ ok (coin 7000000000 ∷ [])
unfolding select_utxos I64.add I64.wrap ◌+ℤ◌
smallest_sufficient = refl

smallest_first :
    select_utxos (coin 50000000 ∷ coin 40000000 ∷ []) (pos 80000000) (pos 100000)
    ≡ ok (coin 40000000 ∷ coin 50000000 ∷ [])
unfolding select_utxos I64.add I64.wrap ◌+ℤ◌
smallest_first = refl

fee_for_rate-eq_example : fee_for_rate fixed default_rate 13 2 ≡ pos (fee_spec 100000 13 2)
fee_for_rate-eq_example =
    fee_for_rate-eq fixed default_rate 100000 13 2 default_rate_sats (omega arith) (omega arith)

abbrev two_coins : List Utxo
two_coins = coin 50000000 ∷ coin 40000000 ∷ []

needed_sum : I64.add (pos 80000000) (pos 100000) ≡ pos 80100000
unfolding I64.add I64.wrap ◌+ℤ◌
needed_sum = refl

select_utxos_finds_example :
    (sel : List Utxo) × (select_utxos two_coins (pos 80000000) (pos 100000) ≡ ok sel)
    × Selection 80100000 two_coins sel
select_utxos_finds_example =
    select_utxos_finds two_coins (pos 80000000) (pos 100000) 80100000 (omega arith) needed_sum
      (omega arith) (omega arith)

too_much : I64.add (pos 90000000) (pos 100000) ≡ pos 90100000
unfolding I64.add I64.wrap ◌+ℤ◌
too_much = refl

select_utxos_fails_example :
    select_utxos two_coins (pos 90000000) (pos 100000)
    ≡ err (insufficient_funds (codes "insufficient funds"))
select_utxos_fails_example =
    select_utxos_fails two_coins (pos 90000000) (pos 100000) 90100000 (omega arith) too_much
      (omega arith) (omega arith)

plan_send_utxos_settles_example :
    (selected : List Utxo) × (plan_send_utxos fixed two_coins (pos 80000000) default_rate 1
      ≡ ok (selected, pos 100000))
    × Selection 80100000 two_coins selected
plan_send_utxos_settles_example =
    plan_send_utxos_settles fixed default_rate 100000 default_rate_sats two_coins 80000000 1
      (omega arith) (omega arith) (omega arith) (omega arith)

plan_send_utxos_short_example :
    plan_send_utxos fixed two_coins (pos 90000000) default_rate 1
    ≡ err (insufficient_funds (codes "insufficient funds"))
plan_send_utxos_short_example =
    plan_send_utxos_short fixed default_rate 100000 default_rate_sats two_coins 90000000 1
      (omega arith) (omega arith) (omega arith) (omega arith) (omega arith)

planned :
    plan_send_utxos fixed two_coins (pos 80000000) default_rate 1
    ≡ ok (coin 40000000 ∷ coin 50000000 ∷ [], pos 100000)
unfolding plan_send_utxos plan_rounds next_fee outputs_for change_will_be_included sum_values
    fee_for_rate estimate_tx_size verium_fee_for_size coins_per_kb_to_sats_per_k select_utxos
    I64.add I64.sub I64.mul I64.div I64.max I64.wrap ◌+ℤ◌ ◌*ℤ◌ ◌-ℤ◌
planned = refl

plan_send_utxos-Settled_example :
    Settled fixed
      (pos 80000000)
      default_rate
      1
      two_coins
      (coin 40000000 ∷ coin 50000000 ∷ [])
      (pos 100000)
plan_send_utxos-Settled_example =
    plan_send_utxos-Settled fixed two_coins (pos 80000000) default_rate 1
      (coin 40000000 ∷ coin 50000000 ∷ []) (pos 100000) planned

replanned : replan_fee_for_selected fixed two_coins (pos 80000000) default_rate 1 ≡ ok (pos 100000)
unfolding replan_fee_for_selected replan_rounds next_fee outputs_for change_will_be_included
    sum_values fee_for_rate estimate_tx_size verium_fee_for_size coins_per_kb_to_sats_per_k I64.add
    I64.sub I64.mul I64.div I64.max I64.wrap ◌+ℤ◌ ◌*ℤ◌ ◌-ℤ◌
replanned = refl

replan_fee_for_selected-fee_to_settle_example :
    replan_fee_for_selected fixed two_coins (pos 80000000) default_rate 1 ≡ ok (pos 100000)
replan_fee_for_selected-fee_to_settle_example =
    replan_fee_for_selected-fee_to_settle fixed default_rate 100000 two_coins 80000000 1
      default_rate_sats (omega arith) (omega arith) (omega arith) (omega arith)

abbrev coins : ℕ → List Utxo
coins zero = []
coins (suc n) = coin 100000 ∷ coins n

replan_oscillates_example :
    replan_fee_for_selected fixed (coins 13) (pos 1000000) default_rate 1
    ≡ err (other replan_diverges)
replan_oscillates_example =
    replan_oscillates fixed default_rate 100000 default_rate_sats (coins 13) (omega arith) 1000000 0
      (omega arith) (omega arith) (omega arith) (omega arith) (omega arith)
