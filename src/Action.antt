-- ===== src/Action.antt =====
-- Methods that change a state and may fail: what was written before a failure stays written, so the
-- state comes back beside the error too.
use vericonomy_sdk.Base.{
  ◌≡◌, refl, ap, Bool, Option, none, some, if◌then◌else◌, false, ◌⊎◌, inl, subst, sym, inr,
}
use vericonomy_sdk.Errors.{Result, ok, err, WalletError, is_ok}

abbrev pub Action : Type 0 → Type 0 → Type 0
Action W A = W → Result A × W

abbrev pub resume : {W A B : Type 0} → (A → Action W B) → Result A × W → Result B × W
resume f (err e, w) = (err e, w)
resume f (ok a, w) = f a w

infixl 5 ◌>>=◌ ◌>>◌
abbrev pub ◌>>=◌ : {W A B : Type 0} → Action W A → (A → Action W B) → Action W B
◌>>=◌ m f w = resume f (m w)

abbrev pub ◌>>◌ : {W A B : Type 0} → Action W A → Action W B → Action W B
◌>>◌ m n w = resume (λ _. n) (m w)

abbrev pub done : {W A : Type 0} → A → Action W A
done a w = (ok a, w)

abbrev pub lift : {W A : Type 0} → Result A → Action W A
lift r w = (r, w)

-- `if !test { return Err(e) }`
abbrev pub require : {W : Type 0} → Bool → WalletError → Action W (Unit {0})
require test e w = (if test then ok tt else err e, w)

-- `.ok_or_else(|| e)?`
abbrev pub expect : {W A : Type 0} → Option A → WalletError → Action W A
expect none e w = (err e, w)
expect (some a) e w = (ok a, w)

-- What succeeds as a whole succeeds in each part.
pub resume-ok :
    {W A B : Type 0} (r : Result A × W) (f : A → Action W B) {b : B} {end : W}
    → resume f r ≡ (ok b, end)
    → (a : A) × (mid : W) × (r ≡ (ok a, mid)) × (f a mid ≡ (ok b, end))
resume-ok (ok a, w) f h = (a, w, refl, h)
resume-ok {W} {A} {B} (err e, w) f {b} {end} h =
    let same : err e ≡ ok b = ap (λ (p : Result B × W). p.0) h in cc

-- A step that only computes either fails, and leaves the state as it was, or goes on with its value.
pub lift-either :
    {W A B : Type 0} (r : Result A) (k : A → Action W B) {v w : W} {b : Result B}
    → (lift r >>= k) v ≡ (b, w)
    → ((is_ok b ≡ false) × (w ≡ v)) ⊎ ((a : A) × (r ≡ ok a) × (k a v ≡ (b, w)))
lift-either {W} {A} {B} (err e) k {v} {w} {b} h =
    let same : err e ≡ b = ap (λ (x : Result B × W). x.0) h in
    inl (subst (λ x. is_ok x ≡ false) same refl, sym (ap (λ (x : Result B × W). x.1) h))
lift-either (ok a) k h = inr (a, refl, h)
