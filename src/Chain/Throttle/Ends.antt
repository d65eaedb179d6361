-- ===== src/Chain/Throttle/Ends.antt =====
-- Every pause ends.
use vericonomy_sdk.Base.{
  ℕ, ◌+◌, ◌≤◌, ◌≡◌, refl, arith, true, false, Bool-cases, inl, inr, Option, none, some,
}
use vericonomy_sdk.Params.{CoinId}
use vericonomy_sdk.Chain.Throttle.{
  Throttle, same_coin, fresh, at_coin, before, long_since, record_rate_limit, is_in_cooldown,
  clear_cooldown, status_probe_due, mark_status_probe,
}

-- The states that the calls lead to, with the time of the last one: each call comes at or after the
-- time of the one before.
pub data Reached : Throttle → ℕ → Type 0 where
  start : (now : ℕ) → Reached fresh now
  limited :
      (t : Throttle) (past now : ℕ) (coin : CoinId)
      → Reached t past
      → past ≤ now
      → Reached (record_rate_limit coin now t) now
  cleared :
      (t : Throttle) (past now : ℕ) (coin : CoinId)
      → Reached t past
      → past ≤ now
      → Reached (clear_cooldown coin t) now
  probed :
      (t : Throttle) (past now : ℕ) (coin : CoinId)
      → Reached t past
      → past ≤ now
      → Reached (mark_status_probe coin now t) now

-- An instant that is kept is at most `n`.
abbrev pub AtMost : ℕ → Option ℕ → Type 0
AtMost n none = Unit {0}
AtMost n (some m) = m ≤ n

AtMost-later : (m n : ℕ) (o : Option ℕ) → m ≤ n → AtMost m o → AtMost n o
AtMost-later m n none h k = tt
AtMost-later m n (some x) h k = omega (arith, h, k)

at_coin-AtMost :
    (n : ℕ) (coin c : CoinId) (o : Option ℕ) (f : CoinId → Option ℕ)
    → AtMost n o
    → AtMost n (f c)
    → AtMost n (at_coin coin o f c)
unfolding at_coin
at_coin-AtMost n coin c o f h k = elim (Bool-cases (same_coin coin c)) [
  | inl e ↦ rw (at_coin, e) h
  | inr e ↦ rw (at_coin, e) k
]

-- What the maps hold is not far ahead of the last call.
Reached-AtMost :
    (t : Throttle) (now : ℕ) (c : CoinId)
    → Reached t now
    → AtMost (now + 300) (t.cooldown_until c) × AtMost now (t.last_status_probe c)
unfolding record_rate_limit clear_cooldown mark_status_probe
Reached-AtMost _ now c (start _) = (tt, tt)
Reached-AtMost _ now c (limited t past _ coin r h) =
    let (a, b) = Reached-AtMost t past c r in
    (
      at_coin-AtMost (now + 300) coin c (some (now + 300)) t.cooldown_until (omega arith)
          (AtMost-later (past + 300) (now + 300) (t.cooldown_until c) (omega (arith, h)) a),
      AtMost-later past now (t.last_status_probe c) h b,
    )
Reached-AtMost _ now c (cleared t past _ coin r h) =
    let (a, b) = Reached-AtMost t past c r in
    (
      at_coin-AtMost (now + 300) coin c none t.cooldown_until tt
          (AtMost-later (past + 300) (now + 300) (t.cooldown_until c) (omega (arith, h)) a),
      AtMost-later past now (t.last_status_probe c) h b,
    )
Reached-AtMost _ now c (probed t past _ coin r h) =
    let (a, b) = Reached-AtMost t past c r in
    (
      AtMost-later (past + 300) (now + 300) (t.cooldown_until c) (omega (arith, h)) a,
      at_coin-AtMost now coin c (some now) t.last_status_probe (omega arith)
          (AtMost-later past now (t.last_status_probe c) h b),
    )

not_before : (m n : ℕ) (o : Option ℕ) → m ≤ n → AtMost m o → before n o ≡ false
not_before m n none h k = refl
not_before m n (some x) h k = ground arith

due_since : (m n : ℕ) (o : Option ℕ) → m + 10 ≤ n → AtMost m o → long_since n o ≡ true
due_since m n none h k = refl
due_since m n (some x) h k = ground arith

-- After any calls in the order of time, the last of them at `past`: 300 seconds later, and at any time
-- after that, no coin is in its cool-down and a status probe is due for every coin.
pub is_in_cooldown_ends :
    (t : Throttle) (past now : ℕ) (coin : CoinId)
    → Reached t past
    → past + 300 ≤ now
    → (is_in_cooldown coin now t ≡ false) × (status_probe_due coin now t ≡ true)
unfolding is_in_cooldown status_probe_due
is_in_cooldown_ends t past now coin r h =
    let (a, b) = Reached-AtMost t past coin r in
    (
      not_before (past + 300) now (t.cooldown_until coin) h a,
      due_since past now (t.last_status_probe coin) (omega (arith, h)) b,
    )
