-- ===== src/Facade/Signatures/Signed.antt =====
-- What an input is that passes the check of the signatures.
use vericonomy_sdk.Base.{
  ℕ, ◌+◌, ◌≡◌, ap, ◌∙◌, arith, inr, some, List, [], ◌∷◌, ◌++◌, length, ◌==◌, ==_iff,
}
use vericonomy_sdk.Int.{pos}
use vericonomy_sdk.Text.{Text, text_eq, text_eq_iff, trim}
use vericonomy_sdk.Hex.{Hex, or_fail, or_fail-ok}
use vericonomy_sdk.Errors.{ok, and_then-ok, ensure, ensured, found_or, found_or-ok}
use vericonomy_sdk.Chain.{Utxo}
use vericonomy_sdk.Tx.Script.{Bytes}
use vericonomy_sdk.Tx.Wire.{Wire, TxIn, VeriumMutableTx, decode_verium_tx}
use vericonomy_sdk.Tx.Sighash.{verium_signature_hash}
use vericonomy_sdk.Tx.Sign.{Secp, sighash_all}
use vericonomy_sdk.Engine.Assemble.{ParseTxid, parse_display_txid}
use vericonomy_sdk.Facade.Verify.{as_other}
use vericonomy_sdk.Facade.Verify.Paid.{as_other-ok}
use vericonomy_sdk.Facade.Signatures.{
  P2pkh, p2pkh_pubkey_hash, collect_pushes, split_last, parse_p2pkh_script_sig, verify_outpoint,
  verify_signature, verify_input, verify_inputs, verify_signed_p2pkh_inputs,
}
use vericonomy_sdk.Facade.Signatures.Shape.{
  p2pkh_script, p2pkh_pubkey_hash-found, two_pushes-eq, split_last-eq,
}

module _ (w : Wire) (sha256 : Bytes → Bytes) (hex : Hex) (parse : ParseTxid) (secp : Secp)
    (p : P2pkh) where
  -- The input spends the coin: it names its transaction and output, the coin's script pays to a key
  -- hash, and the input pushes a key with that hash and a signature over everything that verifies
  -- under the key for the hash of the transaction.
  pub record IsSigned (tx : VeriumMutableTx) (i : ℕ) (input : TxIn) (utxo : Utxo) : Type 0 where
    pub script : Bytes
    pub key_hash : Bytes
    pub der : Bytes
    pub key : Bytes
    pub sighash : Bytes
    pub msg : Bytes
    pub sig : Bytes
    pub inner : Bytes
    pub parent : parse_display_txid parse utxo.txid ≡ ok input.previous_output.txid
    pub output : input.previous_output.vout ≡ utxo.vout
    pub decoded : hex.decode (trim utxo.script_hex) ≡ inr script
    pub pays_to_hash : script ≡ p2pkh_script key_hash
    pub hash_size : length key_hash ≡ 20
    pub pushes :
        collect_pushes (p.instructions_minimal input.script_sig)
        ≡ ok ((der ++ sighash_all ∷ []) ∷ key ∷ [])
    pub right_key : p.hash160 key ≡ key_hash
    pub key_valid : p.public_key key ≡ inr inner
    pub hashed : verium_signature_hash w sha256 tx i script (pos sighash_all) ≡ ok sighash
    pub message : secp.message sighash ≡ inr msg
    pub signature : p.signature_from_der der ≡ inr sig
    pub verified : secp.verify_ecdsa msg sig inner ≡ inr tt

  -- Input by input, as many as there are coins.
  abbrev pub AreSigned : VeriumMutableTx → ℕ → List TxIn → List Utxo → Type 0
  AreSigned tx i [] [] = Unit {0}
  AreSigned tx i [] (u ∷ utxos) = ⊥
  AreSigned tx i (t ∷ inputs) [] = ⊥
  AreSigned tx i (t ∷ inputs) (u ∷ utxos) = IsSigned tx i t u × AreSigned tx (i + 1) inputs utxos

  verify_outpoint-ok :
      (i : ℕ) (input : TxIn) (utxo : Utxo)
      → verify_outpoint w sha256 hex parse secp p i input utxo ≡ ok tt
      → (parse_display_txid parse utxo.txid ≡ ok input.previous_output.txid)
        × (input.previous_output.vout ≡ utxo.vout)
  unfolding verify_outpoint
  verify_outpoint-ok i input utxo e =
      let (expected, a1, e1) = and_then-ok (parse_display_txid parse utxo.txid) _ e in
      let (u, a2, e2) = and_then-ok (ensure (text_eq input.previous_output.txid expected) _) _ e1 in
      let same : input.previous_output.txid ≡ expected = (text_eq_iff _ _).0 (ensured _ _ a2) in
      (rw same a1, (==_iff _ _).0 (ensured _ _ e2))

  -- The two pushes of a script that spends from a key hash.
  parsed-pushes :
      (script_sig sig key der : Bytes) (kind : ℕ)
      → parse_p2pkh_script_sig w sha256 hex parse secp p script_sig ≡ ok (sig, key)
      → split_last sig ≡ some (der, kind)
      → kind ≡ sighash_all
      → collect_pushes (p.instructions_minimal script_sig)
        ≡ ok ((der ++ sighash_all ∷ []) ∷ key ∷ [])
  unfolding parse_p2pkh_script_sig
  parsed-pushes script_sig sig key der kind e s k =
      let (all, a, b) = and_then-ok (collect_pushes (p.instructions_minimal script_sig)) _ e in
      let whole : sig ≡ der ++ sighash_all ∷ [] =
        split_last-eq sig der kind s ∙ ap (λ n. der ++ n ∷ []) k in
      a ∙ (ap ok (two_pushes-eq all sig key b) ∙ ap (λ t. ok (t ∷ key ∷ [])) whole)

  verify_input-IsSigned :
      (tx : VeriumMutableTx) (i : ℕ) (input : TxIn) (utxo : Utxo)
      → verify_input w sha256 hex parse secp p tx i input utxo ≡ ok tt
      → IsSigned tx i input utxo
  unfolding verify_input verify_signature
  verify_input-IsSigned tx i input utxo e =
      let (u0, a0, e0) = and_then-ok (verify_outpoint w sha256 hex parse secp p i input utxo) _ e in
      let (same_txid, same_vout) = verify_outpoint-ok i input utxo a0 in
      let (script, a1, e1) = and_then-ok (or_fail (hex.decode (trim utxo.script_hex)) _) _ e0 in
      let (hash, a2, e2) = and_then-ok (found_or _ (p2pkh_pubkey_hash script)) _ e1 in
      let (shape, size) = p2pkh_pubkey_hash-found script hash (found_or-ok _ _ hash a2) in
      let ((sig_bytes, pk_bytes), a3, e3) =
        and_then-ok (parse_p2pkh_script_sig w sha256 hex parse secp p input.script_sig) _ e2 in
      let ((der, kind), a4, e4) = and_then-ok (found_or _ (split_last sig_bytes)) _ e3 in
      let (u5, a5, e5) = and_then-ok (ensure (kind == sighash_all) _) _ e4 in
      let is_all : kind ≡ sighash_all = (==_iff _ _).0 (ensured _ _ a5) in
      let (inner, a6, e6) = and_then-ok (or_fail (p.public_key pk_bytes) _) _ e5 in
      let (u7, a7, e7) = and_then-ok (ensure (text_eq (p.hash160 pk_bytes) hash) _) _ e6 in
      let (sighash, a8, e8) =
        and_then-ok (verium_signature_hash w sha256 tx i script (pos sighash_all)) _ e7 in
      let (msg, a9, e9) = and_then-ok (or_fail (secp.message sighash) _) _ e8 in
      let (sig, a10, e10) = and_then-ok (or_fail (p.signature_from_der der) _) _ e9 in
      record {
        script = script;
        key_hash = hash;
        der = der;
        key = pk_bytes;
        sighash = sighash;
        msg = msg;
        sig = sig;
        inner = inner;
        parent = same_txid;
        output = same_vout;
        decoded = or_fail-ok _ _ script a1;
        pays_to_hash = shape;
        hash_size = size;
        pushes =
            parsed-pushes input.script_sig sig_bytes pk_bytes der kind a3
              (found_or-ok _ _ (der, kind) a4) is_all;
        right_key = (text_eq_iff _ _).0 (ensured _ _ a7);
        key_valid = or_fail-ok _ _ inner a6;
        hashed = a8;
        message = or_fail-ok _ _ msg a9;
        signature = or_fail-ok _ _ sig a10;
        verified = or_fail-ok _ _ tt e10;
      }

  verify_inputs-AreSigned :
      (tx : VeriumMutableTx) (i : ℕ) (inputs : List TxIn) (utxos : List Utxo)
      → length inputs ≡ length utxos
      → verify_inputs w sha256 hex parse secp p tx i inputs utxos ≡ ok tt
      → AreSigned tx i inputs utxos
  unfolding verify_inputs
  verify_inputs-AreSigned tx i [] [] l e = tt
  verify_inputs-AreSigned tx i [] (u ∷ utxos) l e = cc
  verify_inputs-AreSigned tx i (t ∷ inputs) [] l e = absurd (omega (arith, l))
  verify_inputs-AreSigned tx i (t ∷ inputs) (u ∷ utxos) l e =
      let (v, a, b) =
        and_then-ok (verify_input w sha256 hex parse secp p tx i t u)
          (λ _. verify_inputs w sha256 hex parse secp p tx (i + 1) inputs utxos) e in
      (
        verify_input-IsSigned tx i t u a,
        verify_inputs-AreSigned tx (i + 1) inputs utxos (omega (arith, l)) b,
      )

  -- When verify_signed_p2pkh_inputs succeeds, the hex is that of bytes that decode to a transaction
  -- with one input for each coin, in the same order; each input names the transaction and the output
  -- of its coin, whose script pays to a hash of 20 bytes, and pushes a key with that hash and a
  -- SIGHASH_ALL signature that verifies under the key for the transaction's signature hash.
  pub verify_signed_p2pkh_inputs-AreSigned :
      (raw_hex : Text) (utxos : List Utxo)
      → verify_signed_p2pkh_inputs w sha256 hex parse secp p raw_hex utxos ≡ ok tt
      → (bytes : Bytes) × (tx : VeriumMutableTx) × (hex.decode (trim raw_hex) ≡ inr bytes)
        × (decode_verium_tx w bytes ≡ ok tx)
        × AreSigned tx 0 tx.inputs utxos
  unfolding verify_signed_p2pkh_inputs
  verify_signed_p2pkh_inputs-AreSigned raw_hex utxos e =
      let (bytes, a1, e1) = and_then-ok (or_fail (hex.decode (trim raw_hex)) _) _ e in
      let (tx, a2, e2) = and_then-ok (as_other (decode_verium_tx w bytes)) _ e1 in
      let (u, a3, e3) = and_then-ok (ensure (length tx.inputs == length utxos) _) _ e2 in
      (
        bytes,
        tx,
        or_fail-ok _ _ bytes a1,
        as_other-ok _ tx a2,
        verify_inputs-AreSigned tx 0 tx.inputs utxos ((==_iff _ _).0 (ensured _ _ a3)) e3,
      )
