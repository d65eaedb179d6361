-- ===== src/Storage/Keystore/Counter.antt =====
-- The receive index as a counter.
use Prim.Native.Nat.{min, max}
use vericonomy_sdk.Base.{ℕ, ◌+◌, ◌-◌, ◌^◌, ◌≡◌, refl, subst, arith, some, ltb, Bool-cases, inl, inr}
use vericonomy_sdk.TextMap.{get, get-put_self}
use vericonomy_sdk.Errors.{ok}
use vericonomy_sdk.Params.{CoinId, as_str}
use vericonomy_sdk.Storage.Types.{LightWalletRecord, LightKeystore, KeystoreStore}
use vericonomy_sdk.Storage.Keystore.Sessions.{World, load}
use vericonomy_sdk.Storage.Keystore.Indices.{
  with_wallet, bump_receive_index, peek_receive_index, set_receive_index_at_least,
}
use vericonomy_sdk.Storage.Keystore.Saved.{
  same_result, Saved, save-Saved, after_load, after_expect, after_save,
}

module _ (ks : KeystoreStore) (coin : CoinId) where
  -- A store that has the record for the coin shows its index.
  peek-found :
      (store : LightKeystore) (r : LightWalletRecord) (w : World ks.State)
      → load ks w ≡ (ok store, w)
      → get (as_str coin) store.wallets ≡ some r
      → peek_receive_index ks coin w ≡ (ok r.next_receive_index, w)
  unfolding peek_receive_index
  peek-found store r w e g = rw (e, g) refl

  peek-with_wallet :
      (store : LightKeystore) (r : LightWalletRecord) (v w : World ks.State)
      → Saved ks (with_wallet store coin r) v w
      → peek_receive_index ks coin w ≡ (ok r.next_receive_index, w)
  peek-with_wallet store r v w s =
      peek-found (with_wallet store coin r) r w s.reloads
        (get-put_self (as_str coin) r store.wallets)

  -- A bump that succeeds returns the index that a look at it would have shown before, and leaves the
  -- next one, or the highest 32-bit number again.
  pub bump_receive_index-peek :
      (v w : World ks.State) (idx : ℕ)
      → bump_receive_index ks coin v ≡ (ok idx, w)
      → (peek_receive_index ks coin v ≡ (ok idx, v))
        × (peek_receive_index ks coin w ≡ (ok (min (idx + 1) (2 ^ 32 - 1)), w))
  unfolding bump_receive_index
  bump_receive_index-peek v w idx e =
      let (store, l, f) = after_load ks _ v w idx e in
      let (r, g, f') = after_expect ks _ _ _ v w idx f in
      let (mid, saved, end) = after_save ks _ _ v w idx f' in
      let (i, same_w) = same_result end in
      let before = peek-found store r v l g in
      let after =
        peek-with_wallet store
          (record r { next_receive_index = min (r.next_receive_index + 1) (2 ^ 32 - 1) }) v mid
          saved in
      (
        subst (λ n. peek_receive_index ks coin v ≡ (ok n, v)) i before,
        subst (λ n. peek_receive_index ks coin w ≡ (ok (min (n + 1) (2 ^ 32 - 1)), w)) i
            (subst
              (λ x.
                peek_receive_index ks coin x
                ≡ (ok (min (r.next_receive_index + 1) (2 ^ 32 - 1)), x))
              same_w after),
      )

  -- Raising the index to at least `index` leaves the larger of the two.
  pub set_receive_index_at_least-peek :
      (v w : World ks.State) (index : ℕ)
      → set_receive_index_at_least ks coin index v ≡ (ok tt, w)
      → (before : ℕ) × (peek_receive_index ks coin v ≡ (ok before, v))
        × (peek_receive_index ks coin w ≡ (ok (max before index), w))
  unfolding set_receive_index_at_least
  set_receive_index_at_least-peek v w index e =
      let (store, l, f) = after_load ks _ v w tt e in
      let (r, g, f') = after_expect ks _ _ _ v w tt f in
      let before = peek-found store r v l g in
      elim (Bool-cases (ltb r.next_receive_index index)) [
        | inl above ↦
            let saved = save-Saved ks _ v w (rw above at f') in
            let n : index ≡ max r.next_receive_index index = ground arith in
            (
              r.next_receive_index,
              before,
              subst (λ n. peek_receive_index ks coin w ≡ (ok n, w)) n
                  (peek-with_wallet store (record r { next_receive_index = index }) v w saved),
            )
        | inr under ↦
            let (u, same_w) = same_result (rw under at f') in
            let n : r.next_receive_index ≡ max r.next_receive_index index = ground arith in
            (
              r.next_receive_index,
              before,
              subst (λ n. peek_receive_index ks coin w ≡ (ok n, w)) n
                  (subst (λ x. peek_receive_index ks coin x ≡ (ok r.next_receive_index, x)) same_w
                    before),
            )
      ]
