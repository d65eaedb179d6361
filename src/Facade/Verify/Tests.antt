-- ===== src/Facade/Verify/Tests.antt =====
-- The check of payments on one transaction.
use vericonomy_sdk.Base.{◌≡◌, refl, none, List, [], ◌∷◌, All, inr}
use vericonomy_sdk.Int.{ℤ, pos}
use vericonomy_sdk.Text.{Text, text_eq, trim}
use vericonomy_sdk.Errors.{ok}
use vericonomy_sdk.Params.{verium}
use vericonomy_sdk.Tx.Script.{Bytes}
use vericonomy_sdk.Tx.Wire.{VeriumMutableTx, serialize_verium_tx, decode_verium_tx, read_field}
use vericonomy_sdk.Tx.Toy.{toy_hex, toy_wire}
use vericonomy_sdk.Engine.Toy.{toy_hd, phrase}
use vericonomy_sdk.Engine.Assemble.Payment.{parse, coins, sent, keys, assembled}
use vericonomy_sdk.Facade.Verify.{verify_payment, verify_payments, verify_send_outputs, as_other}
use vericonomy_sdk.Facade.Verify.Accepts.{assemble_transaction-verify_payments}
use vericonomy_sdk.Facade.Verify.Paid.{IsPaid, verify_send_outputs-IsPaid}

abbrev payments : List (Text × ℤ)
payments = (86 ∷ 50 ∷ [], pos 80000000) ∷ []

assemble_transaction-verify_payments_example :
    verify_payments toy_hd verium sent.outputs payments ≡ ok tt
assemble_transaction-verify_payments_example =
    assemble_transaction-verify_payments toy_hd toy_hex parse verium phrase none 1700000000 coins
      payments (86 ∷ 60 ∷ []) (pos 100000) sent keys (refl, tt) assembled

-- One input that spends the output 0 of the transaction 9, and one output.
abbrev raw : Bytes
raw = 0 ∷ 1 ∷ 1700000000 ∷ 1 ∷ 1 ∷ 9 ∷ 0 ∷ 0 ∷ 77 ∷ 1 ∷ 80000000 ∷ 3 ∷ 0x76 ∷ 86 ∷ 50 ∷ 99 ∷ []

accepted : verify_send_outputs toy_wire toy_hex toy_hd verium raw payments ≡ ok tt
unfolding verify_send_outputs verify_payments verify_payment as_other decode_verium_tx read_field
    text_eq trim serialize_verium_tx
accepted = refl

verify_send_outputs-IsPaid_example :
    (bytes : Bytes) × (tx : VeriumMutableTx) × (toy_hex.decode (trim raw) ≡ inr bytes)
    × (decode_verium_tx toy_wire bytes ≡ ok tx)
    × All (IsPaid toy_hd verium tx.outputs) payments
verify_send_outputs-IsPaid_example =
    verify_send_outputs-IsPaid toy_wire toy_hex toy_hd verium raw payments accepted
