-- ===== src/Engine/Address.antt =====
-- vericonomy-wallet-engine/src/address.rs: the form of an address that a payment may go to.
use vericonomy_sdk.Base.{
  ℕ, Bool, true, false, not, [], ◌∷◌, any, length, ◌==◌, is_empty, if◌then◌else◌,
}
use vericonomy_sdk.Text.{Text, codes, trim}
use vericonomy_sdk.Errors.{Result, ok, ◌>>=◌, ◌>>◌, ensure, other}
use vericonomy_sdk.Params.{CoinId}
use vericonomy_sdk.Hd.{Hd}

abbrev pub p2pkh_address_len : ℕ
p2pkh_address_len = 34

abbrev pub base58_chars : Text
base58_chars = codes "123456789ABCDEFGHJKLMNPQRSTUVWXYZabcdefghijkmnopqrstuvwxyz"

-- `starts_with('V')`
abbrev pub starts_with_v : Text → Bool
starts_with_v [] = false
starts_with_v (c ∷ rest) = c == b'V'

-- `chars().all(|c| BASE58_CHARS.contains(c))`
abbrev pub all_base58 : Text → Bool
all_base58 [] = true
all_base58 (c ∷ rest) = if any (λ b. b == c) base58_chars then all_base58 rest else false

unfoldable pub validate_send_address : Hd → CoinId → Text → Result (Unit {0})
unfolding trim
validate_send_address hd coin given = do
  let address = trim given
  ensure (not (is_empty address)) (other (codes "address is required"))
  ensure (starts_with_v address) (other (codes "address must start with V"))
  ensure (length address == p2pkh_address_len)
      (other (codes "address must be exactly 34 characters"))
  ensure (all_base58 address)
      (other (codes "address must contain only letters and numbers (no spaces or symbols)"))
  script ← hd.address_to_script_pubkey coin address
  ok tt
