-- ===== src/Engine/Assemble/Inputs.antt =====
-- The inputs of an assembled transaction spend the coins, and the sum is their total.
use vericonomy_sdk.Base.{
  ℕ, ◌+◌, ◌^◌, ◌<◌, ◌≡◌, sym, ap, ◌∙◌, arith, Option, List, [], ◌∷◌, ◌++◌, All,
}
use mathlib.Core.List.{append_assoc, append-nil}
use vericonomy_sdk.Int.{ℤ, pos, pos_part}
use vericonomy_sdk.Int.I64
use vericonomy_sdk.Int.I64.{add-pos, sub-pos, sub-pos_lt, sub-negsuc}
use vericonomy_sdk.Text.{Text}
use vericonomy_sdk.Hex.{Hex}
use vericonomy_sdk.Errors.{ok, and_then-ok}
use vericonomy_sdk.Params.{CoinId}
use vericonomy_sdk.Hd.{Hd}
use vericonomy_sdk.Chain.{Utxo}
use vericonomy_sdk.Tx.Wire.{TxIn}
use vericonomy_sdk.Engine.Money.{total, IsAmount, add_value}
use vericonomy_sdk.Engine.Assemble.{
  ParseTxid, parse_display_txid, input_of, input_with_key, assemble_inputs,
}

-- An input spends the coin that it was made for.
module _ (parse : ParseTxid) where
  abbrev pub SpendsAll : List TxIn → List Utxo → Type 0
  SpendsAll [] [] = Unit {0}
  SpendsAll [] (u ∷ us) = ⊥
  SpendsAll (i ∷ is) [] = ⊥
  SpendsAll (i ∷ is) (u ∷ us) =
      (parse_display_txid parse u.txid ≡ ok i.previous_output.txid)
      × (i.previous_output.vout ≡ u.vout)
      × SpendsAll is us

module _ (hd : Hd) (hex : Hex) (parse : ParseTxid) (coin : CoinId) (mnemonic : Text)
    (passphrase : Option Text) where
  input_with_key-spends :
      (u : Utxo) (i : TxIn) (key : Text)
      → input_with_key hd hex parse coin mnemonic passphrase u ≡ ok (i, key)
      → (parse_display_txid parse u.txid ≡ ok i.previous_output.txid)
        × (i.previous_output.vout ≡ u.vout)
  unfolding input_with_key input_of
  input_with_key-spends u i key e = ground arith

  pub record Assembled (us : List Utxo) (inputs0 inputs : List TxIn) (s : ℕ) (sum : ℤ)
      : Type 0 where
    pub added : List TxIn
    pub appended : inputs ≡ inputs0 ++ added
    pub spends : SpendsAll parse added us
    pub summed : sum ≡ pos (s + total us)

  pub assemble_inputs-Assembled :
      (us : List Utxo) (inputs0 : List TxIn) (keys0 : List Text) (s : ℕ) (inputs : List TxIn)
      (keys : List Text) (sum : ℤ)
      → All IsAmount us
      → s + total us < 2 ^ 63
      → assemble_inputs hd hex parse coin mnemonic passphrase us inputs0 keys0 (pos s)
        ≡ ok (inputs, keys, sum)
      → Assembled us inputs0 inputs s sum
  unfolding assemble_inputs
  assemble_inputs-Assembled [] inputs0 keys0 s inputs keys sum h k e = record {
    added = [];
    appended = cc (append-nil inputs0);
    spends = tt;
    summed = let r : pos s ≡ sum = cc in sym r ∙ ap pos (omega arith);
  }
  assemble_inputs-Assembled (u ∷ us) inputs0 keys0 s inputs keys sum h k e =
      let ((i, key), e1, e2) =
        and_then-ok (input_with_key hd hex parse coin mnemonic passphrase u)
          (λ k.
            assemble_inputs hd hex parse coin mnemonic passphrase us (inputs0 ++ k.0 ∷ [])
              (keys0 ++ k.1 ∷ []) (I64.add (pos s) u.value_sats))
          e in
      let ih =
        assemble_inputs-Assembled us (inputs0 ++ i ∷ []) (keys0 ++ key ∷ [])
          (s + pos_part u.value_sats) inputs keys sum h.1 (omega arith)
          (rw (add_value s u h.0 (omega arith)) at e2) in
      record {
        added = i ∷ ih.added;
        appended = ih.appended ∙ append_assoc inputs0 (i ∷ []) ih.added;
        spends = let (a, b) = input_with_key-spends u i key e1 in (a, b, ih.spends);
        summed = ih.summed ∙ ap pos (omega arith);
      }
