-- ===== src/Engine/Select/Outcome.antt =====
-- When `select_utxos` succeeds and when it fails, within the money range.
use vericonomy_sdk.Base.{ℕ, ◌≤◌, ◌<◌, ◌≡◌, refl, arith, List, [], ◌∷◌, ◌∙◌, subst}
use native.Mathlib.Decide.{dec_le}
use vericonomy_sdk.Base.Sort.{sort_by}
use vericonomy_sdk.Int.{ℤ, pos}
use vericonomy_sdk.Int.I64
use vericonomy_sdk.Text.{codes}
use vericonomy_sdk.Errors.{ok, err, insufficient_funds}
use vericonomy_sdk.Chain.{Utxo}
use vericonomy_sdk.Engine.Money.{total, MoneyRange, total-append, total-perm}
use vericonomy_sdk.Engine.Select.{value_le, first_or_accumulate, select_utxos}
use vericonomy_sdk.Engine.Select.Laws.{
  Selection, sorted_sufficient, single, select_by_cases, select_step, accumulate-fails,
  sort-MoneyRange, total-sort,
}

-- A selection is no more than the wallet.
pub Selection-le : (n : ℕ) (utxos sel : List Utxo) → Selection n utxos sel → n ≤ total utxos
Selection-le n utxos sel s =
    omega (arith, total-append sel s.others, total-perm s.from_wallet, s.covers)

fails_by_cases :
    (n : ℕ) (utxos : List Utxo)
    → MoneyRange utxos
    → total utxos < n
    → (found : List Utxo) → sorted_sufficient n utxos ≡ found
    → first_or_accumulate (pos n) utxos found
      ≡ err (insufficient_funds (codes "insufficient funds"))
unfolding first_or_accumulate
fails_by_cases n utxos h lt (best ∷ others) e =
    absurd (omega (arith, Selection-le n utxos (best ∷ []) (single n utxos best others e)))
fails_by_cases n utxos h lt [] e =
    let range = sort-MoneyRange utxos h in
    accumulate-fails n 0 (sort_by value_le utxos) [] range.0 (omega arith)
      (omega (arith, total-sort utxos))

module _ (utxos : List Utxo) (target_sats fee_sats : ℤ) (n : ℕ) (range : MoneyRange utxos)
    (needed : I64.add target_sats fee_sats ≡ pos n) (positive : 0 < n) where
  -- A wallet that holds the amount and the fee, no coin negative and its total within an `i64`,
  -- gets a selection: coins of the wallet that cover the sum, namely the cheapest coin that
  -- suffices alone, or if none does the cheapest coins up to the one that reaches the sum.
  pub select_utxos_finds :
      n ≤ total utxos
      → (sel : List Utxo) × (select_utxos utxos target_sats fee_sats ≡ ok sel)
        × Selection n utxos sel
  select_utxos_finds le =
      let (sel, e, s) =
        select_by_cases n utxos range positive le (sorted_sufficient n utxos) refl in
      (sel, select_step utxos target_sats fee_sats n needed positive ∙ e, s)

  -- A wallet that holds less than the amount and the fee gets the insufficient-funds error.
  pub select_utxos_fails :
      total utxos < n
      → select_utxos utxos target_sats fee_sats
        ≡ err (insufficient_funds (codes "insufficient funds"))
  select_utxos_fails lt =
      select_step utxos target_sats fee_sats n needed positive
      ∙ fails_by_cases n utxos range lt (sorted_sufficient n utxos) refl

  -- Whatever is returned is such a selection.
  pub select_utxos-ok :
      (sel : List Utxo) → select_utxos utxos target_sats fee_sats ≡ ok sel → Selection n utxos sel
  select_utxos-ok sel e = elim (dec_le n (total utxos)) [
    | yes le ↦ let (found, e', s) = select_utxos_finds le in subst (Selection n utxos) (cc) s
    | no gt ↦ let fails = select_utxos_fails (omega arith) in cc
  ]
