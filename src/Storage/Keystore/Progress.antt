-- ===== src/Storage/Keystore/Progress.antt =====
-- The progress of a scan as it is kept and shown.
use vericonomy_sdk.Base.{
  ℕ, ◌≡◌, refl, sym, subst, Bool, true, false, not, ◌&&◌, ◌==◌, ==_iff, ltb, some, Bool-cases, inl,
  inr, if◌then◌else◌,
}
use vericonomy_sdk.TextMap.{get, get-put_self}
use vericonomy_sdk.Errors.{ok}
use vericonomy_sdk.Params.{CoinId, as_str}
use vericonomy_sdk.Storage.Types.{LightWalletRecord, LightKeystore, IndexingProgress, KeystoreStore}
use vericonomy_sdk.Storage.Keystore.Sessions.{World, load}
use vericonomy_sdk.Storage.Keystore.Indices.{
  same, progress_of, has_progress, with_progress, indexing_progress, set_indexing_progress,
}
use vericonomy_sdk.Storage.Keystore.Saved.{same_result, save-Saved, after_load, after_expect}

-- What is shown for a progress that was kept.
abbrev pub shown : IndexingProgress → IndexingProgress
shown p = record p {
  gap_external_done =
      if not p.gap_external_done && ltb 0 p.gap_internal then true else p.gap_external_done;
}

both : (a b : Bool) → (a && b) ≡ true → (a ≡ true) × (b ≡ true)
both true b e = (refl, e)
both false b e = cc

same-eq : (a b : Bool) → same a b ≡ true → a ≡ b
same-eq true b e = sym e
same-eq false true e = cc
same-eq false false e = refl

nat-eq : (m n : ℕ) → (m == n) ≡ true → m ≡ n
nat-eq m n = (==_iff m n).0

has_progress-shown :
    (r : LightWalletRecord) (p : IndexingProgress)
    → has_progress r p ≡ true
    → progress_of r ≡ shown p
unfolding has_progress progress_of
has_progress-shown r p e =
    let (h0, e1) = both _ _ e in
    let (h1, e2) = both _ _ e1 in
    let (h2, e3) = both _ _ e2 in
    let (h3, h4) = both _ _ e3 in
    rw
      (
        nat-eq r.index_precache_offset p.precache_offset h0,
        nat-eq r.index_gap_external p.gap_external h1,
        same-eq r.index_gap_external_done p.gap_external_done h2,
        nat-eq r.index_gap_internal p.gap_internal h3,
        same-eq r.index_gap_internal_done p.gap_internal_done h4,
      )
      refl

module _ (ks : KeystoreStore) (coin : CoinId) where
  shown-of :
      (w : World ks.State) (store : LightKeystore) (r : LightWalletRecord)
      → load ks w ≡ (ok store, w)
      → get (as_str coin) store.wallets ≡ some r
      → indexing_progress ks coin w ≡ (ok (progress_of r), w)
  unfolding indexing_progress
  shown-of w store r l g = rw (l, indexing_progress, g) refl

  -- After progress was written with success it is what is read back, but that an internal scan that
  -- has begun shows the external one as done. This holds also when the write was skipped because the
  -- record had this progress already.
  pub set_indexing_progress-shown :
      (v w : World ks.State) (p : IndexingProgress)
      → set_indexing_progress ks coin p v ≡ (ok tt, w)
      → indexing_progress ks coin w ≡ (ok (shown p), w)
  unfolding set_indexing_progress progress_of
  set_indexing_progress-shown v w p e =
      let (store, l, f) = after_load ks _ v w tt e in
      let (r, g, f') = after_expect ks _ _ _ v w tt f in
      elim (Bool-cases (has_progress r p)) [
        | inl kept ↦
            let (u, same_w) = same_result (rw kept at f') in
            subst (λ x. indexing_progress ks coin x ≡ (ok (shown p), x)) same_w
              (subst (λ q. indexing_progress ks coin v ≡ (ok q, v)) (has_progress-shown r p kept)
                (shown-of v store r l g))
        | inr fresh ↦
            let s = save-Saved ks _ v w (rw fresh at f') in
            shown-of w _ (with_progress r p) s.reloads (get-put_self (as_str coin) _ store.wallets)
      ]
