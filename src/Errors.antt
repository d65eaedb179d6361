-- ===== src/Errors.antt =====
-- vericonomy-errors/src/lib.rs: the error type with its stable codes, its display, the tests that
-- callers make on the displayed text, and `Result`.
use vericonomy_sdk.Base.{
  ℕ, ◌≡◌, refl, Bool, false, true, ◌||◌, ◌++◌, if◌then◌else◌, Option, none, some,
}
use vericonomy_sdk.Text.{Text, codes, contains, to_ascii_lowercase}

pub data WalletError : Type 0 where
  mnemonic_generation invalid_mnemonic derivation invalid_address transaction_error insufficient :
      ℕ → Text → WalletError
  locked_wallet wrong_passphrase : ℕ → WalletError
  rpc electrum http io serde storage other_error : ℕ → Text → WalletError

abbrev pub code_mnemonic_generation : ℕ
code_mnemonic_generation = 1001

abbrev pub code_transaction : ℕ
code_transaction = 1005

abbrev pub code_insufficient_funds : ℕ
code_insufficient_funds = 1006

abbrev pub code_locked_wallet : ℕ
code_locked_wallet = 1007

abbrev pub code_invalid_mnemonic : ℕ
code_invalid_mnemonic = 1002

abbrev pub code_wrong_passphrase : ℕ
code_wrong_passphrase = 1008

abbrev pub code_io : ℕ
code_io = 3001

abbrev pub code_serde : ℕ
code_serde = 3002

abbrev pub code_other : ℕ
code_other = 9999

-- `WalletError::code`
unfoldable pub code : WalletError → ℕ
code (mnemonic_generation c m) = c
code (invalid_mnemonic c m) = c
code (derivation c m) = c
code (invalid_address c m) = c
code (transaction_error c m) = c
code (insufficient c m) = c
code (locked_wallet c) = c
code (wrong_passphrase c) = c
code (rpc c m) = c
code (electrum c m) = c
code (http c m) = c
code (io c m) = c
code (serde c m) = c
code (storage c m) = c
code (other_error c m) = c

abbrev pub other : Text → WalletError
other m = other_error code_other m

abbrev pub transaction : Text → WalletError
transaction m = transaction_error code_transaction m

abbrev pub insufficient_funds : Text → WalletError
insufficient_funds m = insufficient code_insufficient_funds m

-- The display that `#[error("…")]` gives each variant.
unfoldable pub to_string : WalletError → Text
to_string (mnemonic_generation c m) = codes "mnemonic generation failed: " ++ m
to_string (invalid_mnemonic c m) = codes "invalid mnemonic: " ++ m
to_string (derivation c m) = codes "derivation failed: " ++ m
to_string (invalid_address c m) = codes "invalid address: " ++ m
to_string (transaction_error c m) = codes "transaction error: " ++ m
to_string (insufficient c m) = codes "insufficient funds: " ++ m
to_string (locked_wallet c) = codes "wallet locked"
to_string (wrong_passphrase c) = codes "wrong passphrase"
to_string (rpc c m) = codes "RPC error: " ++ m
to_string (electrum c m) = codes "Electrum error: " ++ m
to_string (http c m) = codes "HTTP error: " ++ m
to_string (io c m) = codes "I/O error: " ++ m
to_string (serde c m) = codes "serialization error: " ++ m
to_string (storage c m) = codes "storage error: " ++ m
to_string (other_error c m) = m

unfoldable pub is_electrum_rate_limited : WalletError → Bool
unfolding to_string
is_electrum_rate_limited e =
    let msg = to_ascii_lowercase (to_string e) in
    contains msg (codes "too many requests")
    || (contains msg (codes "rate limit") || contains msg (codes "429"))

unfoldable pub is_indexing_budget_exhausted : WalletError → Bool
unfolding to_string
is_indexing_budget_exhausted e = contains (to_string e) (codes "indexing budget exhausted")

unfoldable pub is_electrum_transport : WalletError → Bool
unfolding to_string
is_electrum_transport e =
    let msg = to_string e in
    contains msg (codes "electrum connect")
    || (contains msg (codes "electrum connection closed")
        || (contains msg (codes "electrum read:")
            || (contains msg (codes "electrum write:")
                || (contains msg (codes "electrum TLS")
                    || contains msg (codes "electrum call timed out")))))

unfoldable pub is_electrum_tx_lookup_failure : WalletError → Bool
unfolding to_string
is_electrum_tx_lookup_failure e =
    let msg = to_ascii_lowercase (to_string e) in
    contains msg (codes "no such mempool transaction")
    || (contains msg (codes "mempool transaction")
        || (contains msg (codes "txindex")
            || contains msg (codes "blockchain transaction queries")))

-- `Err` first: what fails carries no value.
pub data Result {ℓ} (T : Type ℓ) : Type ℓ where
  err : WalletError → Result T
  ok : T → Result T

-- `Result::and_then`
abbrev pub and_then {ℓ κ} : {T : Type ℓ} {U : Type κ} → (T → Result U) → Result T → Result U
and_then next (err e) = err e
and_then next (ok value) = next value

-- The `?` of Rust, with the rest of the body as the continuation.
infixl 5 ◌>>=◌ ◌>>◌
abbrev pub ◌>>=◌ {ℓ κ} : {T : Type ℓ} {U : Type κ} → Result T → (T → Result U) → Result U
attempt >>= next = and_then next attempt

abbrev pub ◌>>◌ {ℓ κ} : {T : Type ℓ} {U : Type κ} → Result T → Result U → Result U
attempt >> next = and_then (λ _. next) attempt

-- `if !test { return Err(e) }`
abbrev pub ensure : Bool → WalletError → Result (Unit {0})
ensure test e = if test then ok tt else err e

-- `r.is_ok()`
abbrev pub is_ok {ℓ} : {T : Type ℓ} → Result T → Bool
is_ok (err e) = false
is_ok (ok value) = true

-- `r.unwrap_or(default)`
abbrev pub unwrap_or {ℓ} : {T : Type ℓ} → T → Result T → T
unwrap_or default (err e) = default
unwrap_or default (ok value) = value

-- What has succeeded as a whole has succeeded in each part.
pub and_then-ok {ℓ κ} :
    {T : Type ℓ} {U : Type κ} (attempt : Result T) (next : T → Result U) {end : U}
    → (attempt >>= next) ≡ ok end
    → (mid : T) × (attempt ≡ ok mid) × (next mid ≡ ok end)
and_then-ok (ok value) next e = (value, refl, e)
and_then-ok (err x) next e = cc

pub ensured : (test : Bool) (e : WalletError) → ensure test e ≡ ok tt → test ≡ true
ensured true e h = refl
ensured false e h = cc

-- `.ok_or_else(|| …)?` of something looked up
unfoldable pub found_or : {A : Type 0} → WalletError → Option A → Result A
found_or e none = err e
found_or e (some a) = ok a

pub found_or-ok :
    {A : Type 0} (x : WalletError) (o : Option A) (a : A) → found_or x o ≡ ok a → o ≡ some a
unfolding found_or
found_or-ok x none a e = cc
found_or-ok x (some b) a e = cc
