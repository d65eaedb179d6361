-- ===== src/Engine/Assemble/Change.antt =====
-- Payments, change and dust in plain arithmetic.
use vericonomy_sdk.Base.{
  ℕ, ◌+◌, ◌-◌, ◌^◌, ◌≤◌, ◌<◌, ◌≡◌, refl, ap, ◌∙◌, arith, false, Bool-cases, inl, inr, Option, List,
  [], ◌∷◌, ◌++◌, All, length, if◌then◌else◌,
}
use native.Mathlib.Decide.{dec_le}
use vericonomy_sdk.Int.{ℤ, pos, negsuc, pos_part, ◌≤ℤ◌, ltb_ℤ, pos-pos_part}
use vericonomy_sdk.Int.I64
use vericonomy_sdk.Int.I64.{add-pos, sub-pos, sub-pos_lt, sub-negsuc}
use vericonomy_sdk.Text.{Text}
use vericonomy_sdk.Hex.{Hex}
use vericonomy_sdk.Errors.{ok, and_then-ok}
use vericonomy_sdk.Params.{CoinId}
use vericonomy_sdk.Hd.{Hd}
use vericonomy_sdk.Tx.Wire.{TxOut}
use vericonomy_sdk.Engine.Fees.{dust_change_sats}
use vericonomy_sdk.Engine.Assemble.{ParseTxid, sum_outputs_from, assemble_outputs, change_output}

abbrev pub outs_total : List (Text × ℤ) → ℕ
outs_total [] = 0
outs_total ((addr, value) ∷ rest) = pos_part value + outs_total rest

abbrev pub IsPayment : Text × ℤ → Type 0
IsPayment (addr, value) = pos 0 ≤ℤ value

abbrev pub out_values : List TxOut → ℕ
out_values [] = 0
out_values (o ∷ os) = o.value + out_values os

pub out_values-append : (os ps : List TxOut) → out_values (os ++ ps) ≡ out_values os + out_values ps
out_values-append [] ps = omega arith
out_values-append (o ∷ os) ps = omega (arith, out_values-append os ps)

pub sum_outputs_from-pos :
    (s : ℕ) (outs : List (Text × ℤ))
    → All IsPayment outs
    → s + outs_total outs < 2 ^ 63
    → sum_outputs_from (pos s) outs ≡ pos (s + outs_total outs)
unfolding sum_outputs_from
sum_outputs_from-pos s [] h k = ap pos (omega arith)
sum_outputs_from-pos s ((addr, v) ∷ outs) h k =
    let here : I64.add (pos s) v ≡ pos (s + pos_part v) =
      ap (I64.add (pos s)) (pos-pos_part v h.0) ∙ add-pos s (pos_part v) (omega arith) in
    rw here (sum_outputs_from-pos (s + pos_part v) outs h.1 (omega arith) ∙ ap pos (omega arith))

negative : (n : ℕ) → ltb_ℤ (negsuc n) (pos 0) ≡ false → ⊥
negative n h = ground arith

-- The change as the code computes it: negative exactly when the inputs fall short.
pub change-of :
    (t o f : ℕ)
    → t < 2 ^ 63
    → o + f < 2 ^ 63
    → ltb_ℤ (I64.sub (I64.sub (pos t) (pos o)) (pos f)) (pos 0) ≡ false
    → (o + f ≤ t) × (I64.sub (I64.sub (pos t) (pos o)) (pos f) ≡ pos (t - (o + f)))
change-of t o f ht hf h = elim (dec_le o t) [
  | no short ↦
      let e = sub-pos_lt t o (omega arith) (omega arith) in
      let e' = sub-negsuc (o - t - 1) f (omega arith) in
      absurd (negative (o - t - 1 + f) (rw (e, e') at h))
  | yes le ↦
      let e = sub-pos t o le ht in
      elim (dec_le f (t - o)) [
        | no short ↦ absurd (
            negative (f - (t - o) - 1)
              (rw (e, sub-pos_lt (t - o) f (omega arith) (omega arith)) at h))
        | yes le' ↦
            (omega arith, rw (e, sub-pos (t - o) f le' (omega arith)) (ap pos (omega arith)))
      ]
]

module _ (hd : Hd) (hex : Hex) (parse : ParseTxid) (coin : CoinId) (mnemonic : Text)
    (passphrase : Option Text) where
  pub assemble_outputs-values :
      (outs : List (Text × ℤ)) (os : List TxOut)
      → assemble_outputs hd hex parse coin mnemonic passphrase outs ≡ ok os
      → (out_values os ≡ outs_total outs) × (length os ≡ length outs)
  unfolding assemble_outputs
  assemble_outputs-values [] os e = let r : [] ≡ os = cc in rw (← r) (refl, refl)
  assemble_outputs-values ((addr, v) ∷ outs) os e =
      let (script, e1, e2) = and_then-ok (hd.address_to_script_pubkey coin addr) _ e in
      let (os', e3, e4) =
        and_then-ok (assemble_outputs hd hex parse coin mnemonic passphrase outs)
          (λ l. ok (record { value = pos_part v; script_pubkey = script } ∷ l)) e2 in
      let r : record { value = pos_part v; script_pubkey = script } ∷ os' ≡ os = cc in
      let ih = assemble_outputs-values outs os' e3 in
      rw (← r) (omega (arith, ih.0), omega (arith, ih.1))

  -- The change output pays the change, or there is none and the change is dust.
  pub change_output-value :
      (addr : Text) (c : ℕ) (os : List TxOut)
      → change_output hd hex parse coin mnemonic passphrase addr (pos c) ≡ ok os
      → (dust : ℕ) × (dust ≤ 546)
        × (out_values os + dust ≡ c)
        × (length os ≡ (if ltb_ℤ dust_change_sats (pos c) then 1 else 0))
  unfolding change_output
  change_output-value addr c os e = elim (Bool-cases (ltb_ℤ dust_change_sats (pos c))) [
    | inr small ↦
        let r : ok [] ≡ ok os = rw small at e in
        let r' : [] ≡ os = cc in rw (small, ← r') (c, ground arith, omega arith, refl)
    | inl large ↦
        let (script, e1, e2) =
          and_then-ok (hd.address_to_script_pubkey coin addr)
            (λ s. ok (record { value = c; script_pubkey = s } ∷ [])) (rw large at e) in
        let r : record { value = c; script_pubkey = script } ∷ [] ≡ os = cc in
        rw (large, ← r) (0, omega arith, omega arith, refl)
  ]
