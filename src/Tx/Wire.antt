-- ===== src/Tx/Wire.antt =====
-- vericonomy-tx/src/lib.rs: transactions and their wire format. The encodings of the fields are
-- those of the `bitcoin` crate, and a parameter here.
pub mod RoundTrip
use vericonomy_sdk.Base.{
  ℕ, ◌-◌, ◌^◌, ◌≡◌, Bool, ◌&&◌, false, List, [], ◌∷◌, ◌++◌, ◌==◌, ◌⊎◌, inl, inr, replicate,
}
use vericonomy_sdk.Int.{ℤ}
use vericonomy_sdk.Text.{Text, codes, text_eq}
use vericonomy_sdk.Errors.{Result, ok, err, ◌>>=◌, WalletError, transaction}
use vericonomy_sdk.Tx.Script.{Bytes}

-- `bitcoin::OutPoint`, with the transaction id in wire order
pub record OutPoint : Type 0 where
  pub txid : Bytes
  pub vout : ℕ

-- `bitcoin::TxIn`; the code leaves `witness` empty, and the wire format has none.
pub record TxIn : Type 0 where
  pub previous_output : OutPoint
  pub script_sig : Bytes
  pub sequence : ℕ

-- `bitcoin::TxOut`
pub record TxOut : Type 0 where
  pub value : ℕ
  pub script_pubkey : Bytes

pub record VeriumMutableTx : Type 0 where
  pub version : ℤ
  pub n_time : ℕ
  pub inputs : List TxIn
  pub outputs : List TxOut
  pub lock_time : ℕ

-- `Encodable` and `Decodable` of one type: a value is read back from what was written for it,
-- whatever follows. Writing to a vector does not fail.
pub record Codec (A : Type 0) : Type 1 where
  pub IsEncodable : A → Type 0
  pub consensus_encode : A → Bytes
  pub consensus_decode : Bytes → Text ⊎ (A × Bytes)
  pub decode-encode :
      (a : A) (rest : Bytes)
      → IsEncodable a
      → consensus_decode (consensus_encode a ++ rest) ≡ inr (a, rest)

pub record Wire : Type 1 where
  pub i32 : Codec ℤ
  pub u32 : Codec ℕ
  pub tx_ins : Codec (List TxIn)
  pub tx_outs : Codec (List TxOut)

unfoldable pub consensus_err : Text → Text → WalletError
consensus_err context e = transaction (context ++ (codes ": " ++ e))

-- `Decodable::consensus_decode(&mut slice).map_err(…)?`
unfoldable pub read_field : {A : Type 0} → Codec A → Text → Bytes → Result (A × Bytes)
read_field c context bytes = elim (c.consensus_decode bytes) [
  | inl e ↦ err (consensus_err context e)
  | inr r ↦ ok r
]

module _ (w : Wire) where
  open w use {i32, u32, tx_ins, tx_outs}

  unfoldable pub serialize_verium_tx : VeriumMutableTx → Result Bytes
  serialize_verium_tx tx = ok (
      i32.consensus_encode tx.version
      ++ (u32.consensus_encode tx.n_time
          ++ (tx_ins.consensus_encode tx.inputs
              ++ (tx_outs.consensus_encode tx.outputs ++ u32.consensus_encode tx.lock_time))))

  unfoldable pub decode_verium_tx : Bytes → Result VeriumMutableTx
  decode_verium_tx bytes = do
    (version, b1) ← read_field i32 (codes "decode version") bytes
    (n_time, b2) ← read_field u32 (codes "decode nTime") b1
    (inputs, b3) ← read_field tx_ins (codes "decode vin") b2
    (outputs, b4) ← read_field tx_outs (codes "decode vout") b3
    (lock_time, b5) ← read_field u32 (codes "decode locktime") b4
    ok (record {
      version = version;
      n_time = n_time;
      inputs = inputs;
      outputs = outputs;
      lock_time = lock_time;
    })

-- `OutPoint::null()`: the zero id and the highest index
abbrev pub null_outpoint : OutPoint
null_outpoint = record { txid = replicate 32 0; vout = 2 ^ 32 - 1 }

unfoldable pub is_coinbase_tx : VeriumMutableTx → Bool
is_coinbase_tx tx = elim tx.inputs [
  | [] ↦ false
  | i ∷ others ↦ elim others [
    | [] ↦
        text_eq i.previous_output.txid null_outpoint.txid
        && i.previous_output.vout == null_outpoint.vout
    | j ∷ more ↦ false
  ]
]
