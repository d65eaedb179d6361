-- ===== src/Engine/Assemble/Tests.antt =====
-- A wallet of toy keys, one payment from it, and where its money goes.
use vericonomy_sdk.Base.{ℕ, ◌+◌, ◌≤◌, ◌≡◌, refl, arith, none, [], ◌∷◌, length}
use vericonomy_sdk.Int.{pos, ◌+ℤ◌, ◌-ℤ◌, ◌*ℤ◌}
use vericonomy_sdk.Int.I64
use vericonomy_sdk.Float.Fixed.{fixed}
use vericonomy_sdk.Text.{text_eq}
use vericonomy_sdk.Errors.{ok}
use vericonomy_sdk.Params.{verium}
use vericonomy_sdk.Tx.Toy.{toy_hex}
use vericonomy_sdk.Engine.Toy.{toy_hd, phrase}
use vericonomy_sdk.Engine.Fees.{
  fee_for_rate, estimate_tx_size, verium_fee_for_size, coins_per_kb_to_sats_per_k,
}
use vericonomy_sdk.Engine.Money.{total, sum_values}
use vericonomy_sdk.Engine.Plan.{
  replan_fee_for_selected, replan_rounds, next_fee, outputs_for, change_will_be_included,
}
use vericonomy_sdk.Engine.Keys.{find_signing_key, find_on_chain, key_at}
use vericonomy_sdk.Engine.Keys.Found.{Signs, find_signing_key-Signs}
use vericonomy_sdk.Engine.Assemble.Payment.{parse, coins, sent, keys, assembled}
use vericonomy_sdk.Engine.Assemble.Inputs.{SpendsAll}
use vericonomy_sdk.Engine.Assemble.Change.{out_values}
use vericonomy_sdk.Engine.Assemble.Conserves.{assemble-conserves, assemble-pays_planned_fee}

key_found :
    find_signing_key toy_hd verium phrase none (86 ∷ 2 ∷ []) (0x76 ∷ 86 ∷ 2 ∷ [])
    ≡ ok (0 ∷ 2 ∷ [], 2 ∷ [])
unfolding find_signing_key find_on_chain key_at text_eq
key_found = refl

find_signing_key-Signs_example :
    Signs toy_hd verium phrase none (86 ∷ 2 ∷ []) (0x76 ∷ 86 ∷ 2 ∷ []) (0 ∷ 2 ∷ [], 2 ∷ [])
find_signing_key-Signs_example =
    find_signing_key-Signs toy_hd verium phrase none (86 ∷ 2 ∷ []) (0x76 ∷ 86 ∷ 2 ∷ [])
      (0 ∷ 2 ∷ [], 2 ∷ []) key_found

assemble-conserves_example :
    (dust : ℕ) × (dust ≤ 546)
    × (total coins ≡ out_values sent.outputs + 100000 + dust)
    × SpendsAll parse sent.inputs coins
assemble-conserves_example =
    assemble-conserves toy_hd toy_hex parse verium phrase none 1700000000 coins
      ((86 ∷ 50 ∷ [], pos 80000000) ∷ []) (86 ∷ 60 ∷ []) 100000 sent keys (omega arith)
      (omega arith) (omega arith) assembled

replanned : replan_fee_for_selected fixed coins (pos 80000000) (pos 100000) 1 ≡ ok (pos 100000)
unfolding replan_fee_for_selected replan_rounds next_fee outputs_for change_will_be_included
    sum_values fee_for_rate estimate_tx_size verium_fee_for_size coins_per_kb_to_sats_per_k I64.add
    I64.sub I64.mul I64.div I64.max I64.wrap ◌+ℤ◌ ◌*ℤ◌ ◌-ℤ◌
replanned = refl

assemble-pays_planned_fee_example :
    fee_for_rate fixed (pos 100000) (length sent.inputs) (length sent.outputs) ≡ pos 100000
assemble-pays_planned_fee_example =
    assemble-pays_planned_fee toy_hd toy_hex parse verium phrase none 1700000000 fixed (pos 100000)
      coins (86 ∷ 50 ∷ []) (86 ∷ 60 ∷ []) 80000000 100000 sent keys (omega arith) (omega arith)
      replanned assembled
