-- ===== src/Facade/ReceiveIndex/First.antt =====
-- The index that is found is the first.
use vericonomy_sdk.Base.{
  ℕ, zero, suc, ◌+◌, ◌<◌, ◌≡◌, subst, arith, false, Option, none, some, is_empty,
}
use vericonomy_sdk.Text.{Text, trim}
use vericonomy_sdk.Hex.{Hex}
use vericonomy_sdk.Errors.{Result, ok, and_then-ok}
use vericonomy_sdk.Params.{CoinId}
use vericonomy_sdk.Hd.{Hd}
use vericonomy_sdk.Facade.ReceiveIndex.{
  address_if_target, find_receive_index, external_receive_index_for_script,
}

module _ (hd : Hd) (hex : Hex) (coin : CoinId) (seed_secret : Text) (bip39_passphrase : Option Text)
    (target : Text) where
  -- None of `n` indices from `idx` on has the target as its script.
  abbrev pub NoneFrom : ℕ → ℕ → Type 0
  NoneFrom zero idx = Unit {0}
  NoneFrom (suc n) idx =
      (address_if_target hd hex coin seed_secret bip39_passphrase target idx ≡ ok none)
      × NoneFrom n (idx + 1)

  -- The first index from `idx` on, out of `left`, whose script is the target.
  abbrev pub IsFirst : ℕ → ℕ → Option (ℕ × Text) → Type 0
  IsFirst left idx none = NoneFrom left idx
  IsFirst left idx (some (i, addr)) =
      (n : ℕ) × (n < left)
      × (i ≡ idx + n)
      × (address_if_target hd hex coin seed_secret bip39_passphrase target i ≡ ok (some addr))
      × NoneFrom n idx

  IsFirst-step :
      (left idx : ℕ) (r : Option (ℕ × Text))
      → address_if_target hd hex coin seed_secret bip39_passphrase target idx ≡ ok none
      → IsFirst left (idx + 1) r
      → IsFirst (suc left) idx r
  IsFirst-step left idx none e h = (e, h)
  IsFirst-step left idx (some (i, addr)) e (n, lt, at, hit, before) =
      (suc n, omega arith, omega arith, hit, (e, before))

  find_receive_index-IsFirst :
      (left idx : ℕ) (r : Option (ℕ × Text))
      → find_receive_index hd hex coin seed_secret bip39_passphrase target left idx ≡ ok r
      → IsFirst left idx r
  unfolding find_receive_index
  find_receive_index-IsFirst zero idx r e = let same : none ≡ r = cc in rw (← same) tt
  find_receive_index-IsFirst (suc left) idx r e =
      let (found, e1, e2) =
        and_then-ok (address_if_target hd hex coin seed_secret bip39_passphrase target idx) _ e in
      by_found found e1 (λ e3. find_receive_index-IsFirst left (idx + 1) r e3) e2
    where
      by_found :
          (found : Option Text)
          → address_if_target hd hex coin seed_secret bip39_passphrase target idx ≡ ok found
          → (find_receive_index hd hex coin seed_secret bip39_passphrase target left (idx + 1)
                ≡ ok r
              → IsFirst left (idx + 1) r)
          → (elim found as (λ _. Result (Option (ℕ × Text))) [
            | none ↦
                find_receive_index hd hex coin seed_secret bip39_passphrase target left (idx + 1)
            | some addr ↦ ok (some (idx, addr))
          ])
            ≡ ok r
          → IsFirst (suc left) idx r
      by_found none e1 ih e2 = IsFirst-step left idx r e1 (ih e2)
      by_found (some addr) e1 ih e2 =
          let same : some (idx, addr) ≡ r = cc in
          subst (IsFirst (suc left) idx) same (0, omega arith, omega arith, e1, tt)

-- For a script that is not blank: when external_receive_index_for_script succeeds, it gives the first
-- of the indices 0 to 501 whose address has that script, or nothing if none of them has it.
pub external_receive_index_for_script-IsFirst :
    (hd : Hd) (hex : Hex) (coin : CoinId) (seed_secret : Text) (bip39_passphrase : Option Text)
    (script_hex : Text) (r : Option (ℕ × Text))
    → is_empty (trim script_hex) ≡ false
    → external_receive_index_for_script hd hex coin seed_secret bip39_passphrase script_hex ≡ ok r
    → IsFirst hd hex coin seed_secret bip39_passphrase (trim script_hex) 502 0 r
unfolding external_receive_index_for_script
external_receive_index_for_script-IsFirst hd hex coin seed pass script_hex r h e =
    find_receive_index-IsFirst hd hex coin seed pass (trim script_hex) 502 0 r (rw h at e)
