-- ===== src/Tx/Wire/RoundTrip.antt =====
-- Decoding what was serialized.
use vericonomy_sdk.Base.{◌≡◌, ap, sym, ◌∙◌, [], ◌++◌}
use mathlib.Core.List.{append-nil}
use vericonomy_sdk.Text.{Text}
use vericonomy_sdk.Errors.{ok, ◌>>=◌}
use vericonomy_sdk.Tx.Script.{Bytes}
use vericonomy_sdk.Tx.Wire.{
  Wire, VeriumMutableTx, Codec, read_field, serialize_verium_tx, decode_verium_tx,
}

-- Every field is one that its encoding can carry.
pub record IsEncodable (w : Wire) (tx : VeriumMutableTx) : Type 0 where
  pub version : w.i32.IsEncodable tx.version
  pub n_time : w.u32.IsEncodable tx.n_time
  pub inputs : w.tx_ins.IsEncodable tx.inputs
  pub outputs : w.tx_outs.IsEncodable tx.outputs
  pub lock_time : w.u32.IsEncodable tx.lock_time

read_field-encode :
    {A : Type 0} (c : Codec A) (context : Text) (a : A) (rest : Bytes)
    → c.IsEncodable a
    → read_field c context (c.consensus_encode a ++ rest) ≡ ok (a, rest)
unfolding read_field
read_field-encode c context a rest h = rw (c.decode-encode a rest h, read_field)

read_field-last :
    {A : Type 0} (c : Codec A) (context : Text) (a : A)
    → c.IsEncodable a
    → read_field c context (c.consensus_encode a) ≡ ok (a, [])
read_field-last c context a h =
    ap (read_field c context) (sym (append-nil (c.consensus_encode a)))
    ∙ read_field-encode c context a [] h

-- A transaction whose fields can be encoded is decoded from its serialization.
pub decode-serialize :
    (w : Wire) (tx : VeriumMutableTx)
    → IsEncodable w tx
    → (serialize_verium_tx w tx >>= decode_verium_tx w) ≡ ok tx
unfolding serialize_verium_tx decode_verium_tx
decode-serialize w tx h = rw (read_field-encode w.i32 _ tx.version _ h.version) (
    rw (read_field-encode w.u32 _ tx.n_time _ h.n_time) (
      rw (read_field-encode w.tx_ins _ tx.inputs _ h.inputs) (
        rw (read_field-encode w.tx_outs _ tx.outputs _ h.outputs)
          (rw (read_field-last w.u32 _ tx.lock_time h.lock_time)))))
