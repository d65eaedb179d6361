-- ===== src/Facade/GapScan/Steps.antt =====
-- The outcomes of a round of a scan, and runs of scripts of consecutive indices.
use vericonomy_sdk.Base.{
  ℕ, zero, suc, ◌+◌, ◌-◌, ◌≡◌, refl, ap, ◌∙◌, arith, Bool-cases, ◌⊎◌, inl, inr, Option, List, [],
  ◌∷◌, ◌++◌, length,
}
use vericonomy_sdk.Text.{Text}
use vericonomy_sdk.Hex.{Hex}
use vericonomy_sdk.Errors.{Result, ok, err, and_then-ok, WalletError, is_indexing_budget_exhausted}
use vericonomy_sdk.Params.{CoinId}
use vericonomy_sdk.Hd.{Hd, HdChain}
use vericonomy_sdk.Chain.{WalletBalance}
use vericonomy_sdk.Facade.GapScan.{
  Round, leave, onward, paused_at, script_at, batch_scripts, batch_end_of, start_batch, absorb,
  after_batch, scan_batch,
}

Result-cases :
    {A : Type 0} (r : Result A) → ((e : WalletError) × (r ≡ err e)) ⊎ ((a : A) × (r ≡ ok a))
Result-cases (err e) = inl (e, refl)
Result-cases (ok a) = inr (a, refl)

module _ (scripts_from : ℕ → ℕ → Result (List Text)) (gap_limit batch_size : ℕ)
    (get_balances_per_script : ℕ → List Text → Result (List WalletBalance))
    (on_funded_batch : List Text → Result (Unit {0})) where
  -- The ways a round can end: with an error, with the budget, or with a batch that is taken.
  abbrev pub Outcome : ℕ → List Text → ℕ → List Text → Round → Type 0
  Outcome index scripts empty funded r =
      ((f : List Text) × (e : WalletError) × (r ≡ leave f (err e)))
      ⊎ ((r ≡ leave funded (ok (paused_at index scripts)))
          ⊎ ((batch : List Text) × (balances : List WalletBalance) × (scripts_from
                  (batch_end_of batch_size index - index) index
                ≡ ok batch)
              × (get_balances_per_script index batch ≡ ok balances)
              × (r ≡ onward (absorb gap_limit batch balances (start_batch scripts empty funded)))))

  pub scan_batch-Outcome :
      (index : ℕ) (scripts : List Text) (empty : ℕ) (funded : List Text)
      → Outcome index scripts empty funded (
          scan_batch scripts_from gap_limit batch_size get_balances_per_script on_funded_batch index
            scripts empty funded)
  unfolding scan_batch
  scan_batch-Outcome index scripts empty funded =
      elim (Result-cases (scripts_from (batch_end_of batch_size index - index) index)) [
        | inl (e, p) ↦ inl (funded, e, rw (scan_batch, p) refl)
        | inr (batch, p) ↦ elim (Result-cases (get_balances_per_script index batch)) [
          | inl (e, q) ↦ elim (Bool-cases (is_indexing_budget_exhausted e)) [
            | inl t ↦ inr (inl (rw (scan_batch, p, q, t) refl))
            | inr t ↦ inl (funded, e, rw (scan_batch, p, q, t) refl)
          ]
          | inr (balances, q) ↦
              let b = absorb gap_limit batch balances (start_batch scripts empty funded) in
              elim (Result-cases (after_batch on_funded_batch b)) [
                | inl (e, t) ↦ inl (b.funded_out, e, rw (scan_batch, p, q, t) refl)
                | inr (done, t) ↦ inr (inr (batch, balances, p, q, rw (scan_batch, p, q, t) refl))
              ]
        ]
      ]

module _ (hd : Hd) (hex : Hex) (coin : CoinId) (seed_secret : Text) (bip39_passphrase : Option Text)
    (chain : HdChain) where
  pub from-length :
      (n i : ℕ) (xs : List Text)
      → batch_scripts hd hex coin seed_secret bip39_passphrase chain n i ≡ ok xs
      → length xs ≡ n
  unfolding batch_scripts
  from-length zero i xs e = let r : [] ≡ xs = cc in rw (← r) refl
  from-length (suc n) i xs e =
      let (s, e1, e2) =
        and_then-ok (script_at hd hex coin seed_secret bip39_passphrase chain i) _ e in
      let (ss, e3, e4) =
        and_then-ok (batch_scripts hd hex coin seed_secret bip39_passphrase chain n (i + 1))
          (λ l. ok (s ∷ l)) e2 in
      let r : s ∷ ss ≡ xs = cc in rw (← r) (omega (arith, from-length n (i + 1) ss e3))

  pub from-prefix :
      (n i : ℕ) (xs ys : List Text)
      → batch_scripts hd hex coin seed_secret bip39_passphrase chain n i ≡ ok (xs ++ ys)
      → batch_scripts hd hex coin seed_secret bip39_passphrase chain (length xs) i ≡ ok xs
  unfolding batch_scripts
  from-prefix n i [] ys e = refl
  from-prefix zero i (x ∷ xs) ys e = cc
  from-prefix (suc n) i (x ∷ xs) ys e =
      let (s, e1, e2) =
        and_then-ok (script_at hd hex coin seed_secret bip39_passphrase chain i) _ e in
      let (ss, e3, e4) =
        and_then-ok (batch_scripts hd hex coin seed_secret bip39_passphrase chain n (i + 1))
          (λ l. ok (s ∷ l)) e2 in
      let r : s ≡ x = cc in
      let t : ss ≡ xs ++ ys = cc in
      rw (e1, from-prefix n (i + 1) xs ys (e3 ∙ ap ok t)) (ap (λ c. ok (c ∷ xs)) r)

  pub from-append :
      (i : ℕ) (xs : List Text) (ys : List Text)
      → batch_scripts hd hex coin seed_secret bip39_passphrase chain (length xs) i ≡ ok xs
      → batch_scripts hd hex coin seed_secret bip39_passphrase chain (length ys) (i + length xs)
        ≡ ok ys
      → batch_scripts hd hex coin seed_secret bip39_passphrase chain (length (xs ++ ys)) i
        ≡ ok (xs ++ ys)
  unfolding batch_scripts
  from-append i [] ys e h = let r : i + 0 ≡ i = omega arith in rw r at h
  from-append i (x ∷ xs) ys e h =
      let (s, e1, e2) =
        and_then-ok (script_at hd hex coin seed_secret bip39_passphrase chain i) _ e in
      let (ss, e3, e4) =
        and_then-ok
          (batch_scripts hd hex coin seed_secret bip39_passphrase chain (length xs) (i + 1))
          (λ l. ok (s ∷ l)) e2 in
      let r : s ≡ x = cc in
      let t : ss ≡ xs = cc in
      let shift : i + length (x ∷ xs) ≡ i + 1 + length xs = omega arith in
      rw (e1, from-append (i + 1) xs ys (e3 ∙ ap ok t) (rw shift at h))
        (ap (λ c. ok (c ∷ (xs ++ ys))) r)
