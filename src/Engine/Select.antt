-- ===== src/Engine/Select.antt =====
-- vericonomy-wallet-engine/src/utxo_selector.rs: selection of the inputs that cover an amount.
pub mod Laws
pub mod Outcome
use vericonomy_sdk.Base.{ℕ, ◌≡◌, Bool, List, [], ◌∷◌, ◌++◌, filter, if◌then◌else◌}
use vericonomy_sdk.Base.Sort.{sort_by}
use vericonomy_sdk.Int.{ℤ, pos, leb_ℤ}
use vericonomy_sdk.Int.I64
use vericonomy_sdk.Text.{codes}
use vericonomy_sdk.Errors.{Result, ok, err, insufficient_funds}
use vericonomy_sdk.Chain.{Utxo}

-- The order of `sort_by_key(|u| u.value_sats)`.
abbrev pub value_le : Utxo → Utxo → Bool
value_le u v = leb_ℤ u.value_sats v.value_sats

-- `for u in sorted { selected.push(u); sum += …; if sum >= needed { return Ok(selected) } }`
unfoldable pub accumulate : ℤ → List Utxo → List Utxo → ℤ → Result (List Utxo)
accumulate needed [] selected sum = err (insufficient_funds (codes "insufficient funds"))
accumulate needed (u ∷ rest) selected sum =
    let selected' = selected ++ u ∷ [] in
    let sum' = I64.add sum u.value_sats in
    let more = accumulate needed rest selected' sum' in
    if leb_ℤ needed sum' then ok selected' else more

-- The single smallest sufficient coin, or else the loop over all of them.
unfoldable pub first_or_accumulate : ℤ → List Utxo → List Utxo → Result (List Utxo)
unfolding accumulate
first_or_accumulate needed utxos (best ∷ others) = ok (best ∷ [])
first_or_accumulate needed utxos [] = accumulate needed (sort_by value_le utxos) [] (pos 0)

unfoldable pub select_utxos : List Utxo → ℤ → ℤ → Result (List Utxo)
unfolding first_or_accumulate
select_utxos utxos target_sats fee_sats =
    let needed = I64.add target_sats fee_sats in
    if leb_ℤ needed (pos 0)
    then err (insufficient_funds (codes "invalid send amount"))
    else first_or_accumulate needed utxos
        (sort_by value_le (filter (λ u. leb_ℤ needed u.value_sats) utxos))
