-- ===== src/Storage/Keystore/Saved.antt =====
-- What a save leaves behind, and the parts of a method that succeeds.
use vericonomy_sdk.Base.{◌≡◌, refl, sym, ap, subst, ◌∙◌, Bool, true, false, Option, none, some}
use vericonomy_sdk.Text.{Text}
use vericonomy_sdk.TextMap.{get}
use vericonomy_sdk.Hex.{Hex}
use vericonomy_sdk.Params.{CoinId, as_str}
use vericonomy_sdk.Tx.Script.{Bytes}
use vericonomy_sdk.Storage.Crypto.{Aead}
use vericonomy_sdk.Errors.{Result, ok, err, WalletError}
use vericonomy_sdk.Action.{resume-ok, ◌>>◌, Action, expect, require, lift, ◌>>=◌}
use vericonomy_sdk.Storage.Types.{LightKeystore, KeystoreStore}
use vericonomy_sdk.Storage.Keystore.Sessions.{World, load, save, loaded, unlocked_mnemonic}

-- The two halves of the result of a method.
pub same_result :
    {W A : Type 0} {a b : A} {v w : W}
    → ◌≡◌ {A = Result A × W} (ok a, v) (ok b, w)
    → (a ≡ b) × (v ≡ w)
same_result {W} {A} e =
    let r = ap (λ (p : Result A × W). p.0) e in (cc r, ap (λ (p : Result A × W). p.1) e)

pub never_ok :
    {W A : Type 0} {x : WalletError} {b : A} {v w : W}
    → ◌≡◌ {A = Result A × W} (err x, v) (ok b, w)
    → ⊥
never_ok {W} {A} e = let r = ap (λ (p : Result A × W). p.0) e in cc r

pub expect-ok :
    {W A : Type 0} (o : Option A) (x : WalletError) {a : A} {v w : W}
    → expect {W = W} o x v ≡ (ok a, w)
    → (o ≡ some a) × (v ≡ w)
expect-ok none x e = absurd (never_ok e)
expect-ok (some b) x e = let (p, q) = same_result e in (ap some p, q)

pub require-ok :
    {W : Type 0} (test : Bool) (x : WalletError) {v w : W}
    → require {W = W} test x v ≡ (ok tt, w)
    → (test ≡ true) × (v ≡ w)
require-ok true x e = (refl, (same_result e).1)
require-ok false x e = absurd (never_ok e)

pub lift-ok :
    {W A : Type 0} (r : Result A) {a : A} {v w : W}
    → lift {W = W} r v ≡ (ok a, w)
    → (r ≡ ok a) × (v ≡ w)
lift-ok (ok b) e = let (p, q) = same_result e in (ap ok p, q)
lift-ok (err x) e = absurd (never_ok e)

module _ (ks : KeystoreStore) where
  pub load-ok :
      (store : LightKeystore) (v w : World ks.State)
      → load ks v ≡ (ok store, w)
      → (loaded (ks.load_keystore v.disk) ≡ ok store) × (v ≡ w)
  unfolding load
  load-ok store v w e = lift-ok (loaded (ks.load_keystore v.disk)) e

  -- A load sees the disk only.
  pub load-same_disk :
      (store : LightKeystore) (v w : World ks.State)
      → v.disk ≡ w.disk
      → load ks v ≡ (ok store, v)
      → load ks w ≡ (ok store, w)
  unfolding load
  load-same_disk store v w d l =
      let whole = subst (λ x. loaded (ks.load_keystore x) ≡ ok store) d (load-ok store v v l).0 in
      rw whole refl

  -- An open session gives its phrase.
  pub session-phrase :
      (a : Aead) (hex : Hex) (utf8 : Bytes → Result Text) (coin : CoinId) (w : World ks.State)
      (phrase passphrase : Text)
      → get (as_str coin) w.sessions ≡ some phrase
      → unlocked_mnemonic ks a hex utf8 coin passphrase w ≡ (ok phrase, w)
  unfolding unlocked_mnemonic
  session-phrase a hex utf8 coin w phrase passphrase s = rw (unlocked_mnemonic, s) refl

  -- A save that succeeds changes the disk only, and what it wrote is what is loaded.
  pub record Saved (store : LightKeystore) (v w : World ks.State) : Type 0 where
    pub reloads : load ks w ≡ (ok store, w)
    pub same_sessions : w.sessions ≡ v.sessions
    pub same_clock : w.clock ≡ v.clock

  pub save-Saved :
      (store : LightKeystore) (v w : World ks.State)
      → save ks store v ≡ (ok tt, w)
      → Saved store v w
  unfolding save load
  save-Saved store v w e =
      let r = ap (λ (p : Result (Unit {0}) × World ks.State). p.0) e in
      let s = ap (λ (p : Result (Unit {0}) × World ks.State). p.1) e in
      let after = (ks.save_keystore store v.disk).1 in
      let d : w.disk ≡ after = sym (ap (λ (x : World ks.State). x.disk) s) in
      let whole : ks.save_keystore store v.disk ≡ (ok tt, after) = pair_is _ r in
      let l = ks.load-save store v.disk after whole in
      record {
        reloads = rw (d, l) refl;
        same_sessions = sym (ap (λ (x : World ks.State). x.sessions) s);
        same_clock = sym (ap (λ (x : World ks.State). x.clock) s);
      }
    where
      pair_is : {S : Type 0} (p : Result (Unit {0}) × S) → p.0 ≡ ok tt → p ≡ (ok tt, p.1)
      pair_is (ok tt, s) h = refl
      pair_is (err x, s) h = cc

  pub load-same : (v : World ks.State) → (load ks v).1 ≡ v
  unfolding load
  load-same v = refl

  -- A method that starts with a load, and succeeds, goes on with a store in the same world.
  pub after_load :
      {B : Type 0} (k : LightKeystore → Action (World ks.State) B) (v w : World ks.State) (b : B)
      → (load ks >>= k) v ≡ (ok b, w)
      → (store : LightKeystore) × (load ks v ≡ (ok store, v)) × (k store v ≡ (ok b, w))
  after_load k v w b e =
      let (store, v1, e1, f1) = resume-ok (load ks v) k e in
      let back : v1 ≡ v =
        sym (ap (λ (p : Result LightKeystore × World ks.State). p.1) e1) ∙ load-same v in
      (
        store,
        subst (λ x. load ks v ≡ (ok store, x)) back e1,
        subst (λ x. k store x ≡ (ok b, w)) back f1,
      )

  -- The same with the record of a coin, which the method needs.
  pub after_expect :
      {A B : Type 0} (o : Option A) (x : WalletError) (k : A → Action (World ks.State) B)
      (v w : World ks.State) (b : B)
      → (expect o x >>= k) v ≡ (ok b, w)
      → (a : A) × (o ≡ some a) × (k a v ≡ (ok b, w))
  after_expect none x k v w b e = absurd (never_ok e)
  after_expect (some a) x k v w b e = (a, refl, e)

  pub after_lift :
      {A B : Type 0} (r : Result A) (k : A → Action (World ks.State) B) (v w : World ks.State)
      (b : B)
      → (lift r >>= k) v ≡ (ok b, w)
      → (a : A) × (r ≡ ok a) × (k a v ≡ (ok b, w))
  after_lift (err x) k v w b e = absurd (never_ok e)
  after_lift (ok a) k v w b e = (a, refl, e)

  pub after_require :
      {B : Type 0} (test : Bool) (x : WalletError) (k : Action (World ks.State) B)
      (v w : World ks.State) (b : B)
      → (require test x >> k) v ≡ (ok b, w)
      → (test ≡ true) × (k v ≡ (ok b, w))
  after_require true x k v w b e = (refl, e)
  after_require false x k v w b e = absurd (never_ok e)

  -- A method that ends with a result after its save.
  pub after_save :
      {B : Type 0} (store : LightKeystore) (k : Action (World ks.State) B) (v w : World ks.State)
      (b : B)
      → (save ks store >> k) v ≡ (ok b, w)
      → (mid : World ks.State) × Saved store v mid × (k mid ≡ (ok b, w))
  after_save store k v w b e =
      let (u, mid, e1, f1) = resume-ok (save ks store v) _ e in (mid, save-Saved store v mid e1, f1)
