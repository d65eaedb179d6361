-- ===== src/Storage/Keystore/Requests.antt =====
-- A sequence of requests for receive indices, against a counter.
use Prim.Native.Nat.{min, max}
use vericonomy_sdk.Base.{
  ℕ, ◌+◌, ◌-◌, ◌^◌, ◌≤◌, ◌<◌, ◌≡◌, subst, sym, ◌∙◌, arith, List, [], ◌∷◌, All,
}
use vericonomy_sdk.Errors.{ok}
use vericonomy_sdk.Action.{Action, ◌>>=◌, done, resume-ok}
use vericonomy_sdk.Params.{CoinId}
use vericonomy_sdk.Storage.Types.{KeystoreStore}
use vericonomy_sdk.Storage.Keystore.Sessions.{World}
use vericonomy_sdk.Storage.Keystore.Indices.{
  bump_receive_index, peek_receive_index, set_receive_index_at_least,
}
use vericonomy_sdk.Storage.Keystore.Saved.{same_result}
use vericonomy_sdk.Storage.Keystore.Counter.{
  bump_receive_index-peek, set_receive_index_at_least-peek,
}

-- The requests that move the receive index.
pub data Request : Type 0 where
  bump : Request
  at_least : ℕ → Request

-- What they do to a 32-bit counter.
abbrev pub advance : Request → ℕ → ℕ
advance bump n = min (n + 1) (2 ^ 32 - 1)
advance (at_least i) n = max n i

abbrev pub advance_all : List Request → ℕ → ℕ
advance_all [] n = n
advance_all (q ∷ qs) n = advance_all qs (advance q n)

abbrev pub Is32Bit : Request → Type 0
Is32Bit bump = Unit {0}
Is32Bit (at_least i) = i < 2 ^ 32

-- The counter stays a 32-bit number and never goes back.
advance_all_bounds :
    (qs : List Request) (n : ℕ)
    → All Is32Bit qs
    → n < 2 ^ 32
    → (n ≤ advance_all qs n) × (advance_all qs n < 2 ^ 32)
advance_all_bounds [] n h k = (omega arith, k)
advance_all_bounds (bump ∷ qs) n h k =
    let ih = advance_all_bounds qs (min (n + 1) (2 ^ 32 - 1)) h.1 (omega arith) in
    (omega (arith, ih.0), ih.1)
advance_all_bounds (at_least i ∷ qs) n h k =
    let ih = advance_all_bounds qs (max n i) h.1 (omega (arith, h.0)) in (omega (arith, ih.0), ih.1)

module _ (ks : KeystoreStore) (coin : CoinId) where
  abbrev pub serve : Request → Action (World ks.State) (Unit {0})
  serve bump = bump_receive_index ks coin >>= λ idx. done tt
  serve (at_least i) = set_receive_index_at_least ks coin i

  abbrev pub serve_all : List Request → Action (World ks.State) (Unit {0})
  serve_all [] = done tt
  serve_all (q ∷ qs) = serve q >>= λ u. serve_all qs

  same_index :
      (v : World ks.State) (m n : ℕ)
      → peek_receive_index ks coin v ≡ (ok m, v)
      → peek_receive_index ks coin v ≡ (ok n, v)
      → m ≡ n
  same_index v m n e f = (same_result (sym e ∙ f)).0

  serve-advance :
      (q : Request) (v w : World ks.State) (n : ℕ)
      → peek_receive_index ks coin v ≡ (ok n, v)
      → serve q v ≡ (ok tt, w)
      → peek_receive_index ks coin w ≡ (ok (advance q n), w)
  serve-advance bump v w n p e =
      let (idx, mid, e1, f1) = resume-ok (bump_receive_index ks coin v) _ e in
      let (u, same_w) = same_result f1 in
      let (before, after) = bump_receive_index-peek ks coin v mid idx e1 in
      let i = same_index v idx n before p in
      subst (λ x. peek_receive_index ks coin x ≡ (ok (min (n + 1) (2 ^ 32 - 1)), x)) same_w
        (subst (λ x. peek_receive_index ks coin mid ≡ (ok (min (x + 1) (2 ^ 32 - 1)), mid)) i after)
  serve-advance (at_least i) v w n p e =
      let (m, before, after) = set_receive_index_at_least-peek ks coin v w i e in
      subst (λ x. peek_receive_index ks coin w ≡ (ok (max x i), w)) (same_index v m n before p)
        after

  serve_all-advance :
      (qs : List Request) (v w : World ks.State) (n : ℕ)
      → peek_receive_index ks coin v ≡ (ok n, v)
      → serve_all qs v ≡ (ok tt, w)
      → peek_receive_index ks coin w ≡ (ok (advance_all qs n), w)
  serve_all-advance [] v w n p e =
      subst (λ x. peek_receive_index ks coin x ≡ (ok n, x)) (same_result e).1 p
  serve_all-advance (q ∷ qs) v w n p e =
      let (u, mid, e1, f1) = resume-ok (serve q v) (λ u. serve_all qs) e in
      serve_all-advance qs mid w (advance q n) (serve-advance q v mid n p e1) f1

  -- A sequence of bumps and raises that all succeed does to the stored index what it does to a 32-bit
  -- counter that stops at its highest value: from an index below 2^32, with raises below 2^32, the
  -- stored index stays below 2^32 and never goes back.
  pub serve_all-refines :
      (qs : List Request) (v w : World ks.State) (n : ℕ)
      → All Is32Bit qs
      → n < 2 ^ 32
      → peek_receive_index ks coin v ≡ (ok n, v)
      → serve_all qs v ≡ (ok tt, w)
      → (peek_receive_index ks coin w ≡ (ok (advance_all qs n), w))
        × (n ≤ advance_all qs n)
        × (advance_all qs n < 2 ^ 32)
  serve_all-refines qs v w n h k p e =
      let (low, high) = advance_all_bounds qs n h k in (serve_all-advance qs v w n p e, low, high)
