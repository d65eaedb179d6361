-- ===== src/Facade/Balance/Exact.antt =====
-- The balance of a set of coins in plain arithmetic.
use vericonomy_sdk.Base.{
  ℕ, ◌+◌, ◌-◌, ◌%◌, ◌^◌, ◌<◌, ◌≡◌, refl, ap, ◌∙◌, arith, true, false, Bool-cases, inl, inr, List,
  [], ◌∷◌, All, ltb, leb, ◌==◌, filter,
}
use vericonomy_sdk.Int.{pos, pos_part}
use vericonomy_sdk.Int.I64.{add-pos}
use vericonomy_sdk.Chain.{Utxo, total_sats}
use vericonomy_sdk.Engine.Money.{total, IsAmount, MoneyRange, add_value}
use vericonomy_sdk.Facade.Balance.{spendable_utxos, sum_by_height, balance_from_utxos}

abbrev mined : List Utxo → List Utxo
mined utxos = filter (λ u. ltb 0 u.height) utxos

abbrev pending : List Utxo → List Utxo
pending utxos = filter (λ u. u.height == 0) utxos

total-split : (us : List Utxo) → total (mined us) + total (pending us) ≡ total us
total-split [] = refl
total-split (u ∷ us) = elim (Bool-cases (u.height == 0)) [
  | inl p ↦
      let q : ltb 0 u.height ≡ false = ground arith in rw (p, q) (omega (arith, total-split us))
  | inr p ↦
      let q : ltb 0 u.height ≡ true = ground arith in rw (p, q) (omega (arith, total-split us))
]

sum_by_height-pos :
    (tip : ℕ) (us : List Utxo) (c d : ℕ)
    → tip < 2 ^ 32
    → All IsAmount us
    → c + d + total us < 2 ^ 63
    → sum_by_height tip us (pos c) (pos d)
      ≡ (pos (c + total (mined us)), pos (d + total (pending us)))
unfolding sum_by_height
sum_by_height-pos tip [] c d ht h k =
    let left : c ≡ c + 0 = omega arith in
    let right : d ≡ d + 0 = omega arith in
    ap (λ n. (pos n, pos d)) left ∙ ap (λ n. (pos (c + 0), pos n)) right
sum_by_height-pos tip (u ∷ us) c d ht h k = elim (Bool-cases (u.height == 0)) [
  | inl p ↦
      let q : ltb 0 u.height ≡ false = ground arith in
      rw (p, q, add_value d u h.0 (omega arith))
        (sum_by_height-pos tip us c (d + pos_part u.value_sats) ht h.1 (omega arith)
          ∙ ap (λ n. (pos (c + total (mined us)), pos n)) (omega arith))
  | inr p ↦
      let q : ltb 0 u.height ≡ true = ground arith in
      let deep : leb 1 ((tip - u.height + 1) % 2 ^ 32) ≡ true = ground arith in
      rw (p, q, deep, add_value c u h.0 (omega arith))
        (sum_by_height-pos tip us (c + pos_part u.value_sats) d ht h.1 (omega arith)
          ∙ ap (λ n. (pos n, pos (d + total (pending us)))) (omega arith))
]

-- For coins in the money range and a tip that is a u32: the confirmed balance is the sum of the coins
-- that spendable_utxos keeps, nothing is immature, and the total of the balance is the total of all
-- coins.
pub balance_from_utxos-total :
    (utxos : List Utxo) (tip_height : ℕ)
    → MoneyRange utxos
    → tip_height < 2 ^ 32
    → ((balance_from_utxos utxos tip_height).confirmed_sats ≡ pos (total (spendable_utxos utxos)))
      × ((balance_from_utxos utxos tip_height).immature_sats ≡ pos 0)
      × (total_sats (balance_from_utxos utxos tip_height) ≡ pos (total utxos))
unfolding balance_from_utxos spendable_utxos total_sats
balance_from_utxos-total utxos tip h ht =
    let e = sum_by_height-pos tip utxos 0 0 ht h.0 (omega (arith, h.1)) in
    let split = total-split utxos in
    let both = add-pos (0 + total (mined utxos)) (0 + total (pending utxos)) (omega (arith, h.1)) in
    let last =
      add-pos (0 + total (mined utxos) + (0 + total (pending utxos))) 0 (omega (arith, h.1)) in
    rw e (ap pos (omega arith), refl, rw (both, last) (ap pos (omega arith)))
