-- ===== src/Chain/Throttle.antt =====
-- vericonomy-chain/src/electrum/throttle.rs: the pause after a server's rate limit. The two maps are the
-- state, and instants are seconds; a lock that is poisoned by a panic is not modelled.
pub mod Ends
mod Tests
use vericonomy_sdk.Base.{
  ℕ, ◌+◌, ◌-◌, ◌≤◌, Bool, true, false, Option, none, some, List, [], ◌∷◌, ltb, leb, if◌then◌else◌,
}
use vericonomy_sdk.Params.{CoinId, verium, vericoin}

abbrev pub rate_limit_cooldown : ℕ
rate_limit_cooldown = 300

abbrev pub status_probe_interval : ℕ
status_probe_interval = 10

abbrev pub same_coin : CoinId → CoinId → Bool
same_coin verium verium = true
same_coin verium vericoin = false
same_coin vericoin verium = false
same_coin vericoin vericoin = true

-- COOLDOWN_UNTIL and LAST_STATUS_PROBE
pub record Throttle : Type 0 where
  pub cooldown_until : CoinId → Option ℕ
  pub last_status_probe : CoinId → Option ℕ

abbrev pub fresh : Throttle
fresh = record { cooldown_until = λ c. none; last_status_probe = λ c. none }

-- `map.insert(coin, …)` and `map.remove(&coin)`
unfoldable pub at_coin : CoinId → Option ℕ → (CoinId → Option ℕ) → CoinId → Option ℕ
at_coin coin entry instants c = if same_coin coin c then entry else instants c

unfoldable pub record_rate_limit : CoinId → ℕ → Throttle → Throttle
record_rate_limit coin now t = record t {
  cooldown_until = at_coin coin (some (now + rate_limit_cooldown)) t.cooldown_until;
}

abbrev pub before : ℕ → Option ℕ → Bool
before now none = false
before now (some until) = ltb now until

unfoldable pub is_in_cooldown : CoinId → ℕ → Throttle → Bool
is_in_cooldown coin now t = before now (t.cooldown_until coin)

unfoldable pub clear_cooldown : CoinId → Throttle → Throttle
clear_cooldown coin t = record t { cooldown_until = at_coin coin none t.cooldown_until }

-- `duration_since` is zero for an instant that is still to come.
abbrev pub long_since : ℕ → Option ℕ → Bool
long_since now none = true
long_since now (some last) = leb status_probe_interval (now - last)

unfoldable pub status_probe_due : CoinId → ℕ → Throttle → Bool
status_probe_due coin now t = long_since now (t.last_status_probe coin)

unfoldable pub mark_status_probe : CoinId → ℕ → Throttle → Throttle
mark_status_probe coin now t = record t {
  last_status_probe = at_coin coin (some now) t.last_status_probe;
}
