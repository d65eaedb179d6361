-- ===== src/Engine/Fees/Exact.antt =====
-- Fees of realistic sizes and rates in plain arithmetic, and their bounds.
use Prim.Native.Nat.{max}
use vericonomy_sdk.Base.{ℕ, ◌+◌, ◌*◌, ◌/◌, ◌^◌, ◌≤◌, ◌<◌, ◌≡◌, true, arith, ◌∙◌, ap}
use vericonomy_sdk.Int.{pos}
use vericonomy_sdk.Int.I64
use vericonomy_sdk.Int.I64.{add-pos, mul-pos, wrap_of_IsI64}
use vericonomy_sdk.Float.{Float}
use vericonomy_sdk.Engine.Fees.{
  estimate_tx_size, verium_fee_for_size, coins_per_kb_to_sats_per_k, fee_for_rate,
}

-- The size of a transaction with P2PKH inputs and outputs, and the started kilobytes that it pays.
abbrev pub tx_bytes : ℕ → ℕ → ℕ
tx_bytes inputs outputs = 14 + inputs * 148 + outputs * 34

abbrev pub fee_units : ℕ → ℕ → ℕ
fee_units inputs outputs = tx_bytes inputs outputs / 1000 + 1

abbrev pub fee_spec : ℕ → ℕ → ℕ → ℕ
fee_spec rate inputs outputs = max rate 100000 * fee_units inputs outputs

n_size : (n : ℕ) → n < 2 ^ 63 → I64.wrap (pos n) ≡ pos n
n_size n h = wrap_of_IsI64 (pos n) (omega arith)

pub verium_fee_for_size-mul :
    (s n : ℕ)
    → n < 2 ^ 63
    → s * (n / 1000 + 1) < 2 ^ 63
    → verium_fee_for_size (pos s) n true ≡ pos (s * (n / 1000 + 1))
unfolding verium_fee_for_size I64.div
verium_fee_for_size-mul s n hn hs = rw (n_size n hn) (
    rw (mul-pos s (n / 1000) (omega arith))
      (rw (add-pos (s * (n / 1000)) s (omega arith)) (ground arith)))

max-pos : (a b : ℕ) → I64.max (pos a) (pos b) ≡ pos (max a b)
unfolding I64.max
max-pos a b = ground arith

max-mul : (a b k : ℕ) → max (a * k) (b * k) ≡ max a b * k
max-mul a b k = grind arith

max-mul_lt : (a b k m : ℕ) → max a b * k < m → (a * k < m) × (b * k < m)
max-mul_lt a b k m h = omega (arith, max-mul a b k)

pub estimate_tx_size-eq : (i o : ℕ) → tx_bytes i o < 2 ^ 63 → estimate_tx_size i o ≡ tx_bytes i o
unfolding estimate_tx_size
estimate_tx_size-eq i o h = omega arith

module _ (f : Float) where
  -- The fee is the larger of the user's rate and the network's, for each started kilobyte.
  pub fee_for_rate-eq :
      (rate : f.Carrier) (s i o : ℕ)
      → coins_per_kb_to_sats_per_k f rate ≡ pos s
      → tx_bytes i o < 2 ^ 63
      → fee_spec s i o < 2 ^ 63
      → fee_for_rate f rate i o ≡ pos (fee_spec s i o)
  unfolding fee_for_rate
  fee_for_rate-eq rate s i o hs hb hf =
      let (user, network) = max-mul_lt s 100000 (fee_units i o) (2 ^ 63) hf in
      rw (estimate_tx_size-eq i o hb, hs)
        (rw (verium_fee_for_size-mul s (tx_bytes i o) hb user) (
          rw (verium_fee_for_size-mul 100000 (tx_bytes i o) hb network)
            (max-pos _ _ ∙ ap pos (max-mul s 100000 (fee_units i o)))))

-- More inputs or outputs never cost less.
pub fee_spec_mono : (s i j o p : ℕ) → i ≤ j → o ≤ p → fee_spec s i o ≤ fee_spec s j p
fee_spec_mono s i j o p h k = let units : fee_units i o ≤ fee_units j p = omega arith in grind arith

-- Every fee pays the network minimum for its size.
pub network_min-le-fee_spec : (s i o : ℕ) → 100000 * fee_units i o ≤ fee_spec s i o
network_min-le-fee_spec s i o = grind arith
