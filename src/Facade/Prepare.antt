-- ===== src/Facade/Prepare.antt =====
-- vericonomy-wallet-facade/src/utxo_prep.rs: the coins of a send are checked against the transactions
-- that they come from.
pub mod Sound
use vericonomy_sdk.Base.{
  ℕ, ◌+◌, Bool, not, ◌&&◌, ◌||◌, Option, none, some, List, [], ◌∷◌, ◌++◌, get_elem?, ltb, is_empty,
  if◌then◌else◌,
}
use vericonomy_sdk.Int.{ℤ, pos}
use vericonomy_sdk.Int.I64
use vericonomy_sdk.Text.{Text, codes, text_eq, trim, eq_ignore_ascii_case, show_nat}
use vericonomy_sdk.Hex.{Hex, or_fail}
use vericonomy_sdk.Errors.{
  Result, ok, err, ◌>>=◌, ◌>>◌, ensure, found_or, is_ok, WalletError, other, to_string,
  is_electrum_tx_lookup_failure,
}
use vericonomy_sdk.Params.{CoinId}
use vericonomy_sdk.Hd.{Hd}
use vericonomy_sdk.Chain.{Utxo}
use vericonomy_sdk.Tx.Script.{Bytes}
use vericonomy_sdk.Tx.Wire.{Wire, TxOut, VeriumMutableTx, decode_verium_tx}
use vericonomy_sdk.Tx.Sign.{reverse_display_txid_hex, display_txid_from_raw, wire_txid_from_raw}
use vericonomy_sdk.Engine.Assemble.{ParseTxid, parse_display_txid}
use vericonomy_sdk.Facade.Verify.{script_pays_to}

-- `.map_err(|e| WalletError::other(format!("…: {e}")))?`
unfoldable pub in_context : {A : Type 0} → Text → Result A → Result A
unfolding to_string
in_context context (ok a) = ok a
in_context context (err e) = err (other (context ++ to_string e))

-- The name of a coin in messages.
abbrev pub outpoint_text : Utxo → Text
outpoint_text utxo = utxo.txid ++ (codes ":" ++ show_nat utxo.vout)

unfoldable pub last_or : Option WalletError → WalletError
last_or none = other (codes "failed to fetch parent transaction")
last_or (some e) = e

module _ (hex : Hex) where
  unfoldable pub parent_txid_variants : Text → List Text
  unfolding reverse_display_txid_hex
  parent_txid_variants txid =
      let trimmed = trim txid in
      elim (reverse_display_txid_hex hex trimmed) [
        | err e ↦ trimmed ∷ []
        | ok alt ↦ if eq_ignore_ascii_case trimmed alt then trimmed ∷ [] else trimmed ∷ alt ∷ []
      ]

  module _ (get_raw_tx_hex : Text → Result Text) where
    -- `for variant in …`, with the last error
    unfoldable pub fetch_variants : List Text → Option WalletError → Result Bytes
    fetch_variants [] last_err = err (last_or last_err)
    fetch_variants (variant ∷ variants) last_err = elim (get_raw_tx_hex variant) [
      | ok raw ↦ or_fail (hex.decode raw) (λ e. other (codes "parent tx hex decode: " ++ e))
      | err e ↦ fetch_variants variants (some e)
    ]

    unfoldable pub fetch_parent_tx_bytes : Text → Result Bytes
    unfolding parent_txid_variants fetch_variants
    fetch_parent_tx_bytes txid = fetch_variants (parent_txid_variants txid) none

module _ (w : Wire) (sha256 : Bytes → Bytes) (hex : Hex) (parse : ParseTxid) where
  -- The coin as its parent transaction has it. `utxo` is what the caller holds; the changed copy is
  -- returned, since no caller reads the coins after an error.
  unfoldable pub apply_parent_tx_to_utxo : Utxo → Bytes → Result Utxo
  apply_parent_tx_to_utxo utxo bytes = do
    let display_txid = display_txid_from_raw w sha256 hex bytes
    let wire_txid = wire_txid_from_raw w sha256 bytes
    parsed ← parse_display_txid parse display_txid
    ensure (text_eq parsed wire_txid)
        (other (codes "parent txid endian mismatch for " ++ utxo.txid))
    parent ← in_context (codes "parent tx decode: ") (decode_verium_tx w bytes)
    out ←
        found_or (other (codes "parent tx missing vout " ++ show_nat utxo.vout))
          (get_elem? parent.outputs utxo.vout)
    let on_chain_script = hex.encode out.script_pubkey
    let on_chain_value = I64.wrap (pos out.value)
    ensure (script_pays_to on_chain_script utxo.script_hex) (
        other (
          codes "UTXO "
          ++ (outpoint_text utxo ++ codes " on-chain script does not match wallet script")))
    ok (record utxo {
      value_sats = on_chain_value;
      txid = display_txid;
      script_hex = on_chain_script;
    })

  abbrev pub bad_parent_txid : Utxo → WalletError
  bad_parent_txid utxo = other (codes "invalid parent txid for UTXO " ++ outpoint_text utxo)

  unfoldable pub normalize_utxo_txid : Utxo → Result Utxo
  unfolding reverse_display_txid_hex
  normalize_utxo_txid utxo =
      if is_ok (parse_display_txid parse utxo.txid)
      then ok utxo
      else elim (reverse_display_txid_hex hex utxo.txid) [
        | err e ↦ err (bad_parent_txid utxo)
        | ok alt ↦
            if is_ok (parse_display_txid parse alt)
            then ok (record utxo { txid = alt })
            else err (bad_parent_txid utxo)
      ]

  module _ (hd : Hd) (coin : CoinId) where
    unfoldable pub apply_utxo_from_wallet_cache : Utxo → Result Utxo
    unfolding normalize_utxo_txid
    apply_utxo_from_wallet_cache utxo = do
      ensure (not (is_empty utxo.address || is_empty utxo.script_hex)) (
          other (
            codes "cannot prepare UTXO "
            ++ (outpoint_text utxo ++ codes " without address/script metadata")))
      script ←
          in_context (codes "derive spend script: ") (hd.address_to_script_pubkey coin utxo.address)
      let derived = hex.encode script
      ensure (script_pays_to derived utxo.script_hex) (
          other (
            codes "UTXO "
            ++ (outpoint_text utxo ++ codes " script does not match derived address script")))
      normalize_utxo_txid (record utxo { script_hex = derived })

    -- The body of `for utxo in utxos.iter_mut()`. `ask` is `backend.get_raw_tx_hex` at the time of
    -- this coin.
    unfoldable pub prepare_one : (Text → Result Text) → Utxo → Result Utxo
    unfolding apply_parent_tx_to_utxo apply_utxo_from_wallet_cache fetch_parent_tx_bytes
    prepare_one ask utxo = elim (fetch_parent_tx_bytes hex ask utxo.txid) [
      | ok bytes ↦ apply_parent_tx_to_utxo utxo bytes
      | err e ↦
          if is_electrum_tx_lookup_failure e && ltb 0 utxo.height
          then apply_utxo_from_wallet_cache utxo
          else err e
    ]

    -- `get_raw_tx_hex i` is what the backend answers while the coin `i` is prepared.
    unfoldable pub prepare_from : (ℕ → Text → Result Text) → ℕ → List Utxo → Result (List Utxo)
    unfolding prepare_one
    prepare_from get_raw_tx_hex i [] = ok []
    prepare_from get_raw_tx_hex i (utxo ∷ utxos) =
        (prepare_one (get_raw_tx_hex i) utxo) >>= λ prepared.
        (prepare_from get_raw_tx_hex (i + 1) utxos) >>= λ rest. ok (prepared ∷ rest)

    unfoldable pub prepare_utxos_for_signing :
        (ℕ → Text → Result Text) → List Utxo → Result (List Utxo)
    unfolding prepare_from
    prepare_utxos_for_signing get_raw_tx_hex utxos = prepare_from get_raw_tx_hex 0 utxos
