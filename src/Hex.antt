-- ===== src/Hex.antt =====
-- The `hex` crate: bytes as lowercase digits. Decoding gives back what was encoded.
use vericonomy_sdk.Base.{◌≡◌, ◌⊎◌, inr, inl}
use vericonomy_sdk.Text.{Text}
use vericonomy_sdk.Errors.{Result, ok, err, WalletError}

pub record Hex : Type 0 where
  pub encode : Text → Text
  pub decode : Text → Text ⊎ Text
  pub decode-encode : (bytes : Text) → decode (encode bytes) ≡ inr bytes

-- `.map_err(|e| …)?`
abbrev pub or_fail {ℓ} : {A : Type ℓ} → Text ⊎ A → (Text → WalletError) → Result A
or_fail (inl e) fail = err (fail e)
or_fail (inr a) fail = ok a

pub or_fail-ok :
    {A : Type 0} (r : Text ⊎ A) (fail : Text → WalletError) (a : A)
    → or_fail r fail ≡ ok a
    → r ≡ inr a
or_fail-ok (inl e) fail a h = cc
or_fail-ok (inr b) fail a h = cc
