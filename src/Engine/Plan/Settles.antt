-- ===== src/Engine/Plan/Settles.antt =====
-- Small wallets always get a plan: below one kilobyte the fee does not depend on the inputs.
use vericonomy_sdk.Base.{
  ℕ, suc, ◌+◌, ◌*◌, ◌/◌, ◌^◌, ◌≤◌, ◌<◌, ◌≡◌, arith, List, [], ◌∷◌, ◌∙◌, ap, length, length-append,
}
use Prim.Native.Nat.{max}
use native.Mathlib.Bridge.{le_prop}
use vericonomy_sdk.Base.Perms.{length-perm, All-perm, All-append_left}
use mathlib.Core.List.Perm
use vericonomy_sdk.Int.{ℤ, pos}
use vericonomy_sdk.Int.I64.{add-pos}
use vericonomy_sdk.Float.{Float}
use vericonomy_sdk.Text.{codes}
use vericonomy_sdk.Errors.{ok, err, insufficient_funds}
use vericonomy_sdk.Chain.{Utxo}
use vericonomy_sdk.Engine.Fees.{fee_for_rate, coins_per_kb_to_sats_per_k}
use vericonomy_sdk.Engine.Fees.Exact.{tx_bytes, fee_spec, fee_for_rate-eq}
use vericonomy_sdk.Engine.Money.{
  total, IsAmount, MoneyRange, sum_values, sum_values-pos, total-perm, total-append,
}
use vericonomy_sdk.Engine.Select.Laws.{Selection}
use vericonomy_sdk.Engine.Select.Outcome.{select_utxos_finds, select_utxos_fails}
use vericonomy_sdk.Engine.Plan.{outputs_for, next_fee, plan_rounds, plan_send_utxos}

-- A selection is in the money range of its wallet, and no longer than it.
pub Selection-MoneyRange :
    (n : ℕ) (utxos sel : List Utxo) → Selection n utxos sel → MoneyRange utxos → MoneyRange sel
Selection-MoneyRange n utxos sel s h = (
  All-append_left IsAmount sel s.others
      (All-perm IsAmount (λ u. le_prop) (Perm.symm s.from_wallet) h.0),
  omega (arith, total-append sel s.others, total-perm s.from_wallet),
)

pub length-Selection :
    (n : ℕ) (utxos sel : List Utxo) → Selection n utxos sel → length sel ≤ length utxos
length-Selection n utxos sel s =
    omega (arith, length-append sel s.others, length-perm s.from_wallet)

outputs_for-le : (r : ℕ) (sum amount fee : ℤ) → outputs_for r sum amount fee ≤ r + 1
unfolding outputs_for
outputs_for-le r sum amount fee = ground arith

one_unit : (m b : ℕ) → b < 1000 → m * (b / 1000 + 1) ≡ m
one_unit m b h = let e : b / 1000 ≡ 0 = omega arith in rw e (omega arith)

module _ (f : Float) (rate : f.Carrier) (s : ℕ)
    (sats_rate : coins_per_kb_to_sats_per_k f rate ≡ pos s) (rate_fits : s < 2 ^ 63) where
  -- Below one kilobyte the fee is the larger rate.
  flat_fee : (i o : ℕ) → tx_bytes i o < 1000 → fee_for_rate f rate i o ≡ pos (max s 100000)
  flat_fee i o h =
      let one : fee_spec s i o ≡ max s 100000 = one_unit (max s 100000) (tx_bytes i o) h in
      fee_for_rate-eq f rate s i o sats_rate (omega arith) (omega arith) ∙ ap pos one

  module _ (utxos : List Utxo) (a recipients : ℕ) (range : MoneyRange utxos)
      (small : tx_bytes (length utxos) (recipients + 1) < 1000) (nonempty : 0 < length utxos)
      (fits : a + max s 100000 < 2 ^ 63) where
    flat_next_fee :
        (sel : List Utxo) (guess : ℤ)
        → length sel ≤ length utxos
        → next_fee f (pos a) rate recipients sel guess ≡ pos (max s 100000)
    unfolding next_fee
    flat_next_fee sel guess le =
        flat_fee (length sel) (outputs_for recipients (sum_values sel) (pos a) guess)
          (omega (arith, outputs_for-le recipients (sum_values sel) (pos a) guess))

    pub plan_stops :
        (k : ℕ) (sel : List Utxo)
        → Selection (a + max s 100000) utxos sel
        → plan_rounds f (pos a) rate recipients (suc k) utxos sel (pos (max s 100000))
          ≡ ok (sel, pos (max s 100000))
    unfolding plan_rounds
    plan_stops k sel sl =
        rw
          (
            flat_next_fee sel _ (length-Selection _ utxos sel sl),
            sum_values-pos sel (Selection-MoneyRange _ utxos sel sl range),
            add-pos a (max s 100000) fits,
          )
          (ground (arith, sl.covers))

    pub first_fee : fee_for_rate f rate 1 (recipients + 1) ≡ pos (max s 100000)
    first_fee = flat_fee 1 (recipients + 1) (omega arith)

nonempty_of_total : (utxos : List Utxo) (n : ℕ) → 0 < n → n ≤ total utxos → 0 < length utxos
nonempty_of_total [] n h k = absurd (omega arith)
nonempty_of_total (u ∷ us) n h k = omega arith

module _ (f : Float) (rate : f.Carrier) (s : ℕ)
    (sats_rate : coins_per_kb_to_sats_per_k f rate ≡ pos s) (utxos : List Utxo)
    (a recipient_outputs : ℕ) (range : MoneyRange utxos)
    (small : tx_bytes (length utxos) (max recipient_outputs 1 + 1) < 1000)
    (fits : a + max s 100000 < 2 ^ 63) where
  -- A wallet in the money range whose coins, all spent at once with a change output, stay below
  -- 1000 bytes, gets a plan whenever it holds the amount and the larger of the two rates: the plan
  -- pays exactly that rate, and its inputs are a selection of the wallet for the two together.
  pub plan_send_utxos_settles :
      a + max s 100000 ≤ total utxos
      → (selected : List Utxo) × (plan_send_utxos f utxos (pos a) rate recipient_outputs
          ≡ ok (selected, pos (max s 100000)))
        × Selection (a + max s 100000) utxos selected
  unfolding plan_send_utxos
  plan_send_utxos_settles le =
      let positive : 0 < a + max s 100000 = omega arith in
      let rate_fits : s < 2 ^ 63 = omega arith in
      let nonempty : 0 < length utxos = nonempty_of_total utxos (a + max s 100000) positive le in
      let recipients = max recipient_outputs 1 in
      let (sel, e, sl) =
        select_utxos_finds utxos (pos a) (pos (max s 100000)) (a + max s 100000) range
          (add-pos a (max s 100000) fits) positive le in
      (
        sel,
        rw (first_fee f rate s sats_rate rate_fits utxos a recipients range small nonempty fits, e)
            (plan_stops f rate s sats_rate rate_fits utxos a recipients range small nonempty fits 7
              sel sl),
        sl,
      )

  -- Such a wallet that holds coins, but less than the amount and that rate, gets the
  -- insufficient-funds error, never the one of a plan that does not converge.
  pub plan_send_utxos_short :
      0 < length utxos
      → total utxos < a + max s 100000
      → plan_send_utxos f utxos (pos a) rate recipient_outputs
        ≡ err (insufficient_funds (codes "insufficient funds"))
  unfolding plan_send_utxos
  plan_send_utxos_short nonempty lt =
      let recipients = max recipient_outputs 1 in
      rw (
        first_fee f rate s sats_rate (omega arith) utxos a recipients range small nonempty fits,
        select_utxos_fails utxos (pos a) (pos (max s 100000)) (a + max s 100000) range
            (add-pos a (max s 100000) fits) (omega arith) lt,
      )
