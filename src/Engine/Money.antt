-- ===== src/Engine/Money.antt =====
-- Sums of coin values: as the code computes them, and exactly for coins within the money range.
use vericonomy_sdk.Base.{ℕ, ◌+◌, ◌^◌, ◌<◌, ◌≡◌, refl, arith, List, [], ◌∷◌, ◌++◌, All, ◌∙◌, ap}
use mathlib.Core.Logic.{∥∥₁_elim}
use mathlib.Core.List.{Perm, Permᴰ}
use native.Mathlib.Nat.{ℕ_set}
use vericonomy_sdk.Int.{ℤ, pos, pos_part, ◌≤ℤ◌, pos-pos_part}
use vericonomy_sdk.Int.I64
use vericonomy_sdk.Int.I64.{IsI64, add-pos}
use vericonomy_sdk.Chain.{Utxo}

-- `utxos.iter().map(|u| u.value_sats).sum()`
unfoldable pub sum_from : ℤ → List Utxo → ℤ
sum_from sum [] = sum
sum_from sum (u ∷ rest) = sum_from (I64.add sum u.value_sats) rest

unfoldable pub sum_values : List Utxo → ℤ
unfolding sum_from
sum_values utxos = sum_from (pos 0) utxos

-- The exact total of coins that are not negative.
abbrev pub total : List Utxo → ℕ
total [] = 0
total (u ∷ rest) = pos_part u.value_sats + total rest

abbrev pub IsAmount : Utxo → Type 0
IsAmount u = pos 0 ≤ℤ u.value_sats

-- No coin is negative, and all of them together fit an `i64`.
abbrev pub MoneyRange : List Utxo → Type 0
MoneyRange utxos = All IsAmount utxos × (total utxos < 2 ^ 63)

pub total-append : (us vs : List Utxo) → total (us ++ vs) ≡ total us + total vs
total-append [] vs = omega arith
total-append (u ∷ us) vs = omega (arith, total-append us vs)

pub add_value :
    (s : ℕ) (u : Utxo)
    → IsAmount u
    → s + pos_part u.value_sats < 2 ^ 63
    → I64.add (pos s) u.value_sats ≡ pos (s + pos_part u.value_sats)
add_value s u h k =
    ap (I64.add (pos s)) (pos-pos_part u.value_sats h) ∙ add-pos s (pos_part u.value_sats) k

sum_from-pos :
    (s : ℕ) (us : List Utxo)
    → All IsAmount us
    → s + total us < 2 ^ 63
    → sum_from (pos s) us ≡ pos (s + total us)
unfolding sum_from
sum_from-pos s [] h k = ap pos (omega arith)
sum_from-pos s (u ∷ us) h k =
    rw (add_value s u h.0 (omega arith))
      (sum_from-pos (s + pos_part u.value_sats) us h.1 (omega arith) ∙ ap pos (omega arith))

-- Within the money range the code's sum is the exact total.
pub sum_values-pos : (us : List Utxo) → MoneyRange us → sum_values us ≡ pos (total us)
unfolding sum_values
sum_values-pos us h = sum_from-pos 0 us h.0 (omega arith) ∙ ap pos (omega arith)

pub sum_from-snoc :
    (s : ℤ) (us : List Utxo) (u : Utxo)
    → sum_from s (us ++ u ∷ []) ≡ I64.add (sum_from s us) u.value_sats
unfolding sum_from
sum_from-snoc s [] u = refl
sum_from-snoc s (v ∷ us) u = sum_from-snoc (I64.add s v.value_sats) us u

total-permᴰ : {us vs : List Utxo} → Permᴰ us vs → total us ≡ total vs
total-permᴰ Permᴰ.nil = refl
total-permᴰ (Permᴰ.cons e p) =
    omega (arith, ap (λ (u : Utxo). pos_part u.value_sats) e, total-permᴰ p)
total-permᴰ (Permᴰ.swap e f) =
    omega (
      arith,
      ap (λ (u : Utxo). pos_part u.value_sats) e,
      ap (λ (u : Utxo). pos_part u.value_sats) f,
    )
total-permᴰ (Permᴰ.trans p q) = total-permᴰ p ∙ total-permᴰ q

pub total-perm : {us vs : List Utxo} → Perm us vs → total us ≡ total vs
total-perm p = ∥∥₁_elim p (ℕ_set _ _) total-permᴰ
