-- ===== src/Chain/Throttle/Tests.antt =====
-- A rate limit at one time, and its end.
use vericonomy_sdk.Base.{◌≡◌, refl, arith, true, false}
use vericonomy_sdk.Params.{verium, vericoin}
use vericonomy_sdk.Chain.Throttle.{
  Throttle, fresh, at_coin, record_rate_limit, is_in_cooldown, status_probe_due, mark_status_probe,
}
use vericonomy_sdk.Chain.Throttle.Ends.{Reached, start, limited, probed, is_in_cooldown_ends}

abbrev paused : Throttle
paused = mark_status_probe verium 1005 (record_rate_limit verium 1000 fresh)

reached : Reached paused 1005
reached =
    probed (record_rate_limit verium 1000 fresh) 1000 1005 verium
      (limited fresh 900 1000 verium (start 900) (omega arith)) (omega arith)

still_paused : is_in_cooldown verium 1299 paused ≡ true
unfolding is_in_cooldown record_rate_limit mark_status_probe at_coin
still_paused = refl

other_coin_goes_on : is_in_cooldown vericoin 1299 paused ≡ false
unfolding is_in_cooldown record_rate_limit mark_status_probe at_coin
other_coin_goes_on = refl

is_in_cooldown_ends_example :
    (is_in_cooldown verium 1305 paused ≡ false) × (status_probe_due verium 1305 paused ≡ true)
is_in_cooldown_ends_example = is_in_cooldown_ends paused 1005 1305 verium reached (omega arith)
