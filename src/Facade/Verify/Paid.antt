-- ===== src/Facade/Verify/Paid.antt =====
-- What a transaction pays that passes the check.
use vericonomy_sdk.Base.{
  ℕ, ◌≡◌, true, not, ◌||◌, Bool-cases, inl, inr, List, [], ◌∷◌, All, any, is_empty,
}
use vericonomy_sdk.Int.{ℤ, pos, pos_part, ltb_ℤ}
use vericonomy_sdk.Text.{Text, trim}
use vericonomy_sdk.Errors.{Result, ok, err, and_then-ok, ensured, ensure}
use vericonomy_sdk.Hex.{Hex, or_fail, or_fail-ok}
use vericonomy_sdk.Params.{CoinId}
use vericonomy_sdk.Hd.{Hd}
use vericonomy_sdk.Tx.Script.{Bytes}
use vericonomy_sdk.Tx.Wire.{Wire, TxOut, VeriumMutableTx, decode_verium_tx}
use vericonomy_sdk.Facade.Verify.{
  pays, amount_u64, verify_payment, verify_payments, as_other, verify_send_outputs,
}

-- A positive amount for which there is an output with the address's script and this value.
abbrev pub IsPaid : Hd → CoinId → List TxOut → Text × ℤ → Type 0
IsPaid hd coin outputs (addr, v) =
    (ltb_ℤ (pos 0) v ≡ true)
    × (script : Bytes) × (hd.address_to_script_pubkey coin addr ≡ ok script)
    × (any (pays script (pos_part v)) outputs ≡ true)

amount-ok : (addr : Text) (v : ℤ) (n : ℕ) → amount_u64 addr v ≡ ok n → pos_part v ≡ n
amount-ok addr v n h = elim (Bool-cases (ltb_ℤ v (pos 0))) [
  | inl e ↦ cc (rw e at h)
  | inr e ↦ cc (rw e at h)
]

verify_payment-IsPaid :
    (hd : Hd) (coin : CoinId) (outputs : List TxOut) (addr : Text) (v : ℤ)
    → verify_payment hd coin outputs addr v ≡ ok tt
    → IsPaid hd coin outputs (addr, v)
unfolding verify_payment
verify_payment-IsPaid hd coin outputs addr v e =
    let (u, a, b) = and_then-ok (ensure (ltb_ℤ (pos 0) v) _) _ e in
    let (script, c, d) = and_then-ok (hd.address_to_script_pubkey coin addr) _ b in
    let (n, g, k) = and_then-ok (amount_u64 addr v) _ d in
    (ensured _ _ a, script, c, rw (amount-ok addr v n g) (ensured _ _ k))

verify_payments-IsPaid :
    (hd : Hd) (coin : CoinId) (outputs : List TxOut) (payments : List (Text × ℤ))
    → verify_payments hd coin outputs payments ≡ ok tt
    → All (IsPaid hd coin outputs) payments
unfolding verify_payments
verify_payments-IsPaid hd coin outputs [] e = tt
verify_payments-IsPaid hd coin outputs ((addr, v) ∷ payments) e =
    let (u, a, b) =
      and_then-ok (verify_payment hd coin outputs addr v)
        (λ _. verify_payments hd coin outputs payments) e in
    (
      verify_payment-IsPaid hd coin outputs addr v a,
      verify_payments-IsPaid hd coin outputs payments b,
    )

pub as_other-ok : {A : Type 0} (r : Result A) (a : A) → as_other r ≡ ok a → r ≡ ok a
unfolding as_other
as_other-ok (ok b) a e = e
as_other-ok (err x) a e = cc

-- When verify_send_outputs succeeds, the hex is that of bytes that decode to a transaction, and every
-- payment is positive and has an output of that transaction with its script and its value.
pub verify_send_outputs-IsPaid :
    (w : Wire) (hex : Hex) (hd : Hd) (coin : CoinId) (raw_hex : Text) (expected : List (Text × ℤ))
    → verify_send_outputs w hex hd coin raw_hex expected ≡ ok tt
    → (bytes : Bytes) × (tx : VeriumMutableTx) × (hex.decode (trim raw_hex) ≡ inr bytes)
      × (decode_verium_tx w bytes ≡ ok tx)
      × All (IsPaid hd coin tx.outputs) expected
unfolding verify_send_outputs
verify_send_outputs-IsPaid w hex hd coin raw_hex expected e =
    let (bytes, a, b) = and_then-ok (or_fail (hex.decode (trim raw_hex)) _) _ e in
    let (tx, c, d) = and_then-ok (as_other (decode_verium_tx w bytes)) _ b in
    let (u, g, k) = and_then-ok (ensure (not (is_empty tx.inputs || is_empty tx.outputs)) _) _ d in
    (
      bytes,
      tx,
      or_fail-ok (hex.decode (trim raw_hex)) _ bytes a,
      as_other-ok (decode_verium_tx w bytes) tx c,
      verify_payments-IsPaid hd coin tx.outputs expected k,
    )
