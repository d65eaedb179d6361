-- ===== src/Facade/Prepare/Sound.antt =====
-- What a prepared coin is: the output of a transaction that the backend gave, or the coin as the
-- wallet knows it where the backend has no such transaction.
use vericonomy_sdk.Base.{
  ℕ, ◌+◌, ◌≡◌, refl, subst, true, not, ◌||◌, Bool-cases, inl, inr, ◌⊎◌, some, List, [], ◌∷◌,
  get_elem?, ltb, is_empty, if◌then◌else◌,
}
use vericonomy_sdk.Int.{pos}
use vericonomy_sdk.Int.I64
use vericonomy_sdk.Text.{Text, text_eq}
use vericonomy_sdk.Hex.{Hex}
use vericonomy_sdk.Errors.{
  Result, ok, err, and_then-ok, is_ok, WalletError, ensure, ensured, found_or, found_or-ok,
  is_electrum_tx_lookup_failure,
}
use vericonomy_sdk.Params.{CoinId}
use vericonomy_sdk.Hd.{Hd}
use vericonomy_sdk.Chain.{Utxo}
use vericonomy_sdk.Tx.Script.{Bytes}
use vericonomy_sdk.Tx.Wire.{Wire, TxOut, VeriumMutableTx, decode_verium_tx}
use vericonomy_sdk.Tx.Sign.{reverse_display_txid_hex, display_txid_from_raw, wire_txid_from_raw}
use vericonomy_sdk.Engine.Assemble.{ParseTxid, parse_display_txid}
use vericonomy_sdk.Facade.Verify.{script_pays_to}
use vericonomy_sdk.Facade.Prepare.{
  in_context, fetch_parent_tx_bytes, apply_parent_tx_to_utxo, normalize_utxo_txid, bad_parent_txid,
  apply_utxo_from_wallet_cache, prepare_one, prepare_from, prepare_utxos_for_signing,
}

in_context-ok : {A : Type 0} (c : Text) (r : Result A) (a : A) → in_context c r ≡ ok a → r ≡ ok a
unfolding in_context
in_context-ok c (ok b) a e = e
in_context-ok c (err x) a e = cc

module _ (w : Wire) (sha256 : Bytes → Bytes) (hex : Hex) (parse : ParseTxid) (hd : Hd)
    (coin : CoinId) where
  -- The coin `after` is the output that a fetched transaction has at the place of `before`: with its
  -- value, its script, which is the script that was known, and the id of that transaction.
  pub record FromParent (ask : Text → Result Text) (before after : Utxo) : Type 0 where
    pub raw : Bytes
    pub parent : VeriumMutableTx
    pub out : TxOut
    pub fetched : fetch_parent_tx_bytes hex ask before.txid ≡ ok raw
    pub decoded : decode_verium_tx w raw ≡ ok parent
    pub found : get_elem? parent.outputs before.vout ≡ some out
    pub pays : script_pays_to (hex.encode out.script_pubkey) before.script_hex ≡ true
    pub prepared : after ≡ record before {
      value_sats = I64.wrap (pos out.value);
      txid = display_txid_from_raw w sha256 hex raw;
      script_hex = hex.encode out.script_pubkey;
    }

  -- The backend does not find the transaction of a confirmed coin, whose script is the one of its
  -- address; the coin keeps its value and has an id that can be parsed.
  pub record FromCache (ask : Text → Result Text) (before after : Utxo) : Type 0 where
    pub failure : WalletError
    pub script : Text
    pub missing : fetch_parent_tx_bytes hex ask before.txid ≡ err failure
    pub lookup : is_electrum_tx_lookup_failure failure ≡ true
    pub confirmed : ltb 0 before.height ≡ true
    pub derived : hd.address_to_script_pubkey coin before.address ≡ ok script
    pub pays : script_pays_to (hex.encode script) before.script_hex ≡ true
    pub parsed : is_ok (parse_display_txid parse after.txid) ≡ true
    pub prepared : after ≡ record before { txid = after.txid; script_hex = hex.encode script }

  abbrev pub IsPrepared : (Text → Result Text) → Utxo → Utxo → Type 0
  IsPrepared ask before after = FromParent ask before after ⊎ FromCache ask before after

  -- Coin by coin, as many as there were.
  abbrev pub ArePrepared : (ℕ → Text → Result Text) → ℕ → List Utxo → List Utxo → Type 0
  ArePrepared ask i [] [] = Unit {0}
  ArePrepared ask i [] (a ∷ after) = ⊥
  ArePrepared ask i (b ∷ before) [] = ⊥
  ArePrepared ask i (b ∷ before) (a ∷ after) =
      IsPrepared (ask i) b a × ArePrepared ask (i + 1) before after

  apply_parent-FromParent :
      (ask : Text → Result Text) (before after : Utxo) (raw : Bytes)
      → fetch_parent_tx_bytes hex ask before.txid ≡ ok raw
      → apply_parent_tx_to_utxo w sha256 hex parse before raw ≡ ok after
      → FromParent ask before after
  unfolding apply_parent_tx_to_utxo
  apply_parent-FromParent ask before after raw f e =
      let display = display_txid_from_raw w sha256 hex raw in
      let (parsed, a1, e1) = and_then-ok (parse_display_txid parse display) _ e in
      let (u1, a2, e2) =
        and_then-ok (ensure (text_eq parsed (wire_txid_from_raw w sha256 raw)) _) _ e1 in
      let (parent, a3, e3) = and_then-ok (in_context _ (decode_verium_tx w raw)) _ e2 in
      let (out, a4, e4) = and_then-ok (found_or _ (get_elem? parent.outputs before.vout)) _ e3 in
      let (u2, a5, e5) =
        and_then-ok (ensure (script_pays_to (hex.encode out.script_pubkey) before.script_hex) _) _
          e4 in
      record {
        raw = raw;
        parent = parent;
        out = out;
        fetched = f;
        decoded = in_context-ok _ _ parent a3;
        found = found_or-ok _ _ out a4;
        pays = ensured _ _ a5;
        prepared = cc;
      }

  -- The same coin but for its id, which can be parsed.
  abbrev Renamed : Utxo → Utxo → Type 0
  Renamed utxo after =
      (is_ok (parse_display_txid parse after.txid) ≡ true)
      × (after ≡ record utxo { txid = after.txid })

  rename_to :
      (utxo after : Utxo) (txid : Text)
      → is_ok (parse_display_txid parse txid) ≡ true
      → ◌≡◌ {A = Result Utxo} (ok (record utxo { txid = txid })) (ok after)
      → Renamed utxo after
  rename_to utxo after txid p e =
      let same : record utxo { txid = txid } ≡ after = cc in subst (Renamed utxo) same (p, refl)

  alternate-Renamed :
      (utxo after : Utxo) (alternate : Result Text)
      → elim alternate [
        | err e ↦ err (bad_parent_txid w sha256 hex parse utxo)
        | ok alt ↦
            if is_ok (parse_display_txid parse alt)
            then ok (record utxo { txid = alt })
            else err (bad_parent_txid w sha256 hex parse utxo)
      ]
        ≡ ok after
      → Renamed utxo after
  alternate-Renamed utxo after (err x) e = cc
  alternate-Renamed utxo after (ok alt) e =
      elim (Bool-cases (is_ok (parse_display_txid parse alt))) [
        | inl p ↦ rename_to utxo after alt p (rw p at e)
        | inr p ↦ cc (rw p at e)
      ]

  normalize-Renamed :
      (utxo after : Utxo)
      → normalize_utxo_txid w sha256 hex parse utxo ≡ ok after
      → Renamed utxo after
  unfolding normalize_utxo_txid
  normalize-Renamed utxo after e = elim (Bool-cases (is_ok (parse_display_txid parse utxo.txid))) [
    | inl p ↦ rename_to utxo after utxo.txid p (rw p at e)
    | inr p ↦ alternate-Renamed utxo after (reverse_display_txid_hex hex utxo.txid) (rw p at e)
  ]

  cache-FromCache :
      (ask : Text → Result Text) (before after : Utxo) (x : WalletError)
      → fetch_parent_tx_bytes hex ask before.txid ≡ err x
      → is_electrum_tx_lookup_failure x ≡ true
      → ltb 0 before.height ≡ true
      → apply_utxo_from_wallet_cache w sha256 hex parse hd coin before ≡ ok after
      → FromCache ask before after
  unfolding apply_utxo_from_wallet_cache
  cache-FromCache ask before after x m l h e =
      let (u1, a1, e1) =
        and_then-ok (ensure (not (is_empty before.address || is_empty before.script_hex)) _) _ e in
      let (script, a2, e2) =
        and_then-ok (in_context _ (hd.address_to_script_pubkey coin before.address)) _ e1 in
      let (u3, a3, e3) =
        and_then-ok (ensure (script_pays_to (hex.encode script) before.script_hex) _) _ e2 in
      let (p, q) = normalize-Renamed (record before { script_hex = hex.encode script }) after e3 in
      record {
        failure = x;
        script = script;
        missing = m;
        lookup = l;
        confirmed = h;
        derived = in_context-ok _ _ script a2;
        pays = ensured _ _ a3;
        parsed = p;
        prepared = q;
      }

  prepare_one-IsPrepared :
      (ask : Text → Result Text) (before after : Utxo) (fetch : Result Bytes)
      → fetch_parent_tx_bytes hex ask before.txid ≡ fetch
      → prepare_one w sha256 hex parse hd coin ask before ≡ ok after
      → IsPrepared ask before after
  unfolding prepare_one
  prepare_one-IsPrepared ask before after (ok raw) f e =
      inl (apply_parent-FromParent ask before after raw f (rw (prepare_one, f) at e))
  prepare_one-IsPrepared ask before after (err x) f e =
      let g = rw (prepare_one, f) at e in
      elim (Bool-cases (is_electrum_tx_lookup_failure x)) [
        | inr l ↦ cc (rw l at g)
        | inl l ↦
            let g2 = rw l at g in
            elim (Bool-cases (ltb 0 before.height)) [
              | inl h ↦ inr (cache-FromCache ask before after x f l h (rw h at g2))
              | inr h ↦ cc (rw h at g2)
            ]
      ]

  prepare_from-ArePrepared :
      (ask : ℕ → Text → Result Text) (i : ℕ) (before after : List Utxo)
      → prepare_from w sha256 hex parse hd coin ask i before ≡ ok after
      → ArePrepared ask i before after
  unfolding prepare_from
  prepare_from-ArePrepared ask i [] after e =
      let same : [] ≡ after = cc in subst (ArePrepared ask i []) same tt
  prepare_from-ArePrepared ask i (b ∷ before) after e =
      let (a, a1, e1) = and_then-ok (prepare_one w sha256 hex parse hd coin (ask i) b) _ e in
      let (rest, a2, e2) =
        and_then-ok (prepare_from w sha256 hex parse hd coin ask (i + 1) before) _ e1 in
      let same : a ∷ rest ≡ after = cc in
      subst (ArePrepared ask i (b ∷ before)) same (
        prepare_one-IsPrepared (ask i) b a _ refl a1,
        prepare_from-ArePrepared ask (i + 1) before rest a2,
      )

  -- When prepare_utxos_for_signing succeeds it returns as many coins as it was given, and each of
  -- them is either the output of the transaction that the backend gave for it, with the value, the
  -- script and the id of that transaction, its script being the one that was known; or it is a
  -- confirmed coin whose transaction the backend does not find, with the value that was known, the
  -- script of its address, and an id that can be parsed.
  pub prepare_utxos_for_signing-ArePrepared :
      (ask : ℕ → Text → Result Text) (before after : List Utxo)
      → prepare_utxos_for_signing w sha256 hex parse hd coin ask before ≡ ok after
      → ArePrepared ask 0 before after
  unfolding prepare_utxos_for_signing
  prepare_utxos_for_signing-ArePrepared ask before after e =
      prepare_from-ArePrepared ask 0 before after e
