-- ===== src/Facade/ReceiveIndex.antt =====
-- vericonomy-wallet-facade/src/gap_scan.rs: the search for the receive index of a script.
pub mod First
use Prim.Native.Nat.{max}
use vericonomy_sdk.Base.{
  ℕ, zero, suc, ◌+◌, Option, none, some, List, [], ◌∷◌, is_empty, if◌then◌else◌,
}
use vericonomy_sdk.Text.{Text, trim, eq_ignore_ascii_case}
use vericonomy_sdk.Hex.{Hex}
use vericonomy_sdk.Errors.{Result, ok, err, ◌>>=◌}
use vericonomy_sdk.Params.{CoinId}
use vericonomy_sdk.Hd.{Hd, gap_scan_max_index}

module _ (hd : Hd) (hex : Hex) (coin : CoinId) (seed_secret : Text)
    (bip39_passphrase : Option Text) where
  -- One round: the address of the index, if its script is the target.
  unfoldable pub address_if_target : Text → ℕ → Result (Option Text)
  address_if_target target idx = do
    addr ← hd.derive_address_at coin seed_secret bip39_passphrase idx
    script ← hd.address_to_script_pubkey coin addr
    ok (if eq_ignore_ascii_case (hex.encode script) target then some addr else none)

  -- `for idx in 0..=GAP_SCAN_MAX_INDEX`, with the indices that are left
  unfoldable pub find_receive_index : Text → ℕ → ℕ → Result (Option (ℕ × Text))
  find_receive_index target zero idx = ok none
  find_receive_index target (suc left) idx =
      let rest = find_receive_index target left (idx + 1) in
      (address_if_target target idx) >>= λ found. elim found [
        | none ↦ rest
        | some addr ↦ ok (some (idx, addr))
      ]

  unfoldable pub external_receive_index_for_script : Text → Result (Option (ℕ × Text))
  unfolding find_receive_index address_if_target
  external_receive_index_for_script script_hex =
      if is_empty (trim script_hex)
      then ok none
      else find_receive_index (trim script_hex) (gap_scan_max_index + 1) 0

  -- `for script in script_hexes`, with the maximum so far
  unfoldable pub max_receive_index_from : ℕ → List Text → Result ℕ
  max_receive_index_from max_idx [] = ok max_idx
  max_receive_index_from max_idx (script ∷ scripts) =
      (external_receive_index_for_script script) >>= λ found. elim found [
        | none ↦ max_receive_index_from max_idx scripts
        | some (idx, addr) ↦ max_receive_index_from (max max_idx idx) scripts
      ]

  unfoldable pub max_external_receive_index_for_scripts : List Text → Result ℕ
  unfolding max_receive_index_from
  max_external_receive_index_for_scripts script_hexes = max_receive_index_from 0 script_hexes
