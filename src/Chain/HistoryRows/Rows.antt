-- ===== src/Chain/HistoryRows/Rows.antt =====
-- What the rows of a transaction say.
use mathlib.Core.List.{Mem, mem-cons_self, mem-cons_of_mem}
use vericonomy_sdk.Base.{
  ℕ, ◌≡◌, refl, subst, ap, All-append, All-filter, filter_holds, All-both, All-map, Bool, true,
  false, Bool-cases, inl, inr, ◌⊎◌, Option, List, [], ◌∷◌, All, any, is_empty,
}
use vericonomy_sdk.Int.{ℤ, pos, leb_ℤ}
use vericonomy_sdk.Float.{Float}
use vericonomy_sdk.Text.{Text, text_eq}
use vericonomy_sdk.Hex.{Hex}
use vericonomy_sdk.Params.{CoinId}
use vericonomy_sdk.Chain.{WalletTx}
use vericonomy_sdk.Tx.Script.{Bytes}
use vericonomy_sdk.Tx.Wire.{TxOut, VeriumMutableTx, is_coinbase_tx}
use vericonomy_sdk.Chain.HistoryRows.{
  OutputView, RowContext, differs_from, credit_row, debit_row, spend_rows, rows_from_outputs,
  script_matches_wallet, view_of, split_outputs, is_spend_of, context_of, rows_from_decoded_tx,
}

module _ (f : Float) (coin : CoinId) (hex : Hex)
    (p2pkh_script_to_address : CoinId → Bytes → Option Text) (wallet_scripts : List Bytes)
    (wallet_addresses : List Text) (prev_output_is_ours : List (Text × ℕ)) where
  abbrev pub view : TxOut → OutputView
  view =
      view_of f coin hex p2pkh_script_to_address wallet_scripts wallet_addresses prev_output_is_ours

  abbrev pub ours : Bytes → Bool
  ours =
      script_matches_wallet f coin hex p2pkh_script_to_address wallet_scripts wallet_addresses
        prev_output_is_ours

  abbrev pub spends : VeriumMutableTx → Bool
  spends =
      is_spend_of f coin hex p2pkh_script_to_address wallet_scripts wallet_addresses
        prev_output_is_ours

  abbrev pub context : Text → VeriumMutableTx → ℤ → Option ℕ → RowContext
  context =
      context_of f coin hex p2pkh_script_to_address wallet_scripts wallet_addresses
        prev_output_is_ours

  abbrev pub known : OutputView → Bool
  known o = any (text_eq o.address) wallet_addresses

  module _ (whole : List TxOut) where
    -- The view of a positive output of the transaction.
    abbrev pub Shows : OutputView → TxOut → Type 0
    Shows v out = Mem out whole × (leb_ℤ (view out).value_sats (pos 0) ≡ false) × (v ≡ view out)

    abbrev pub IsWalletView : OutputView → Type 0
    IsWalletView v = (out : TxOut) × Shows v out × (ours out.script_pubkey ≡ true)

    abbrev pub IsView : OutputView → Type 0
    IsView v = (out : TxOut) × Shows v out

    abbrev SplitInto : List OutputView × List OutputView → Type 0
    SplitInto r = All IsWalletView r.0 × All IsView r.1

    split_outputs-SplitInto :
        (outs : List TxOut)
        → ((x : TxOut) → Mem x outs → Mem x whole)
        → SplitInto (
            split_outputs f coin hex p2pkh_script_to_address wallet_scripts wallet_addresses
              prev_output_is_ours outs)
    unfolding split_outputs
    split_outputs-SplitInto [] into = (tt, tt)
    split_outputs-SplitInto (out ∷ outs) into =
        let ih = split_outputs-SplitInto outs (λ x h. into x (mem-cons_of_mem out h)) in
        let here = into out mem-cons_self in
        elim (Bool-cases (leb_ℤ (view out).value_sats (pos 0))) [
          | inl low ↦ rw (split_outputs, low) ih
          | inr high ↦ elim (Bool-cases (ours out.script_pubkey)) [
            | inl mine ↦
                rw (split_outputs, high, mine) (((out, (here, high, refl), mine), ih.0), ih.1)
            | inr other ↦ elim (Bool-cases (is_empty (view out).address)) [
              | inl blank ↦ rw (split_outputs, high, other, blank) ih
              | inr named ↦
                  rw (split_outputs, high, other, named) (ih.0, ((out, (here, high, refl)), ih.1))
            ]
          ]
        ]

  module _ (txid : Text) (decoded : VeriumMutableTx) (height : ℤ) (tip : Option ℕ) where
    abbrev IsOut : OutputView → TxOut → Type 0
    IsOut = Shows decoded.outputs

    -- A row says that a positive output of the transaction came in, and then its script and address are
    -- the wallet's, or that it went out, and then the transaction spends from the wallet.
    abbrev pub IsRow : WalletTx f.Carrier → Type 0
    IsRow row =
        (out : TxOut) × Mem out decoded.outputs
        × (leb_ℤ (view out).value_sats (pos 0) ≡ false)
        × (((ours out.script_pubkey ≡ true)
              × (known (view out) ≡ true)
              × (row
                  ≡ credit_row f coin (context txid decoded height tip) (is_coinbase_tx decoded)
                      (view out)))
            ⊎ ((spends decoded ≡ true)
                × (row ≡ debit_row f coin (context txid decoded height tip) (view out))))

    abbrev IsKnown : OutputView → Type 0
    IsKnown v = IsWalletView decoded.outputs v × (known v ≡ true)

    credit-IsRow :
        (v : OutputView)
        → IsKnown v
        → IsRow (credit_row f coin (context txid decoded height tip) (is_coinbase_tx decoded) v)
    credit-IsRow v ((out, (here, high, same), mine), k) = (
      out,
      here,
      high,
      inl (
        mine,
        subst (λ x. known x ≡ true) same k,
        ap (credit_row f coin (context txid decoded height tip) (is_coinbase_tx decoded)) same,
      ),
    )

    debit-IsRow :
        (v : OutputView)
        → spends decoded ≡ true
        → IsView decoded.outputs v
        → IsRow (debit_row f coin (context txid decoded height tip) v)
    debit-IsRow v s (out, (here, high, same)) =
        (out, here, high, inr (s, ap (debit_row f coin (context txid decoded height tip)) same))

    spend_rows-IsRow :
        (change : Option Text) (views : List OutputView)
        → spends decoded ≡ true
        → All IsKnown views
        → All IsRow (
            spend_rows f coin
              (context txid decoded height tip)
              (is_coinbase_tx decoded)
              change
              views)
    unfolding spend_rows
    spend_rows-IsRow change [] s h = tt
    spend_rows-IsRow change (v ∷ views) s ((mine, k), rest) =
        let more = spend_rows-IsRow change views s rest in
        let credit = credit-IsRow v (mine, k) in
        elim (Bool-cases (differs_from change v.address)) [
          | inl apart ↦ rw (spend_rows, apart) (credit, (debit-IsRow v s (mine.0, mine.1), more))
          | inr same ↦ rw (spend_rows, same) (credit, more)
        ]

    -- Every row that a transaction gives is about a positive output of it: a credit of an output with a
    -- script and an address of the wallet, in the category for credits, or a debit of an output in
    -- the category send, and then some input spends an output of the wallet.
    pub rows_from_decoded_tx-IsRow : All IsRow (
        rows_from_decoded_tx f coin hex p2pkh_script_to_address wallet_scripts wallet_addresses
          prev_output_is_ours txid decoded height tip)
    unfolding rows_from_decoded_tx rows_from_outputs
    rows_from_decoded_tx-IsRow =
        let (wallet, external) =
          split_outputs-SplitInto decoded.outputs decoded.outputs (λ x h. h) in
        let kept = All-filter (IsWalletView decoded.outputs) known _ wallet in
        let passed = filter_holds known _ in
        let mine = All-both (IsWalletView decoded.outputs) (λ v. known v ≡ true) _ kept passed in
        elim (Bool-cases (spends decoded)) [
          | inl s ↦
              rw (rows_from_decoded_tx, rows_from_outputs, s)
                (All-append IsRow _ _ (spend_rows-IsRow _ _ s mine)
                  (All-map (IsView decoded.outputs) IsRow _ _ (λ v h. debit-IsRow v s h) external))
          | inr n ↦
              rw (rows_from_decoded_tx, rows_from_outputs, n)
                (All-map IsKnown IsRow _ _ credit-IsRow mine)
        ]
