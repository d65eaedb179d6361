-- ===== src/Facade/GapScan/Covers.antt =====
-- What a scan that comes to an end has looked at.
use vericonomy_sdk.Base.{
  false, ℕ, zero, suc, ◌+◌, ◌-◌, ◌≤◌, ◌<◌, ◌^◌, ◌≡◌, refl, sym, ap, ◌∙◌, subst, subst₂, arith, true,
  ◌&&◌, Bool-cases, ◌⊎◌, inl, inr, Option, some, List, [], ◌++◌, All, length, length-append, map,
  ltb, leb,
}
use vericonomy_sdk.Text.{Text}
use vericonomy_sdk.Hex.{Hex}
use vericonomy_sdk.Errors.{Result, ok}
use vericonomy_sdk.Params.{CoinId}
use vericonomy_sdk.Hd.{Hd, HdChain, gap_scan_max_index}
use vericonomy_sdk.Chain.{WalletBalance}
use vericonomy_sdk.Facade.GapScan.{
  ChainScanSlice, paused_at, finished_at, batch_scripts, batch_end_of, start_batch, absorb,
  scan_rounds, discover_chain_script_hexes,
}
use vericonomy_sdk.Facade.GapScan.Ends.{batch_end_of_advances}
use vericonomy_sdk.Facade.GapScan.Batches.{IsEmpty, IsFound, Good, Absorbed, absorb-Absorbed}
use vericonomy_sdk.Facade.GapScan.Steps.{scan_batch-Outcome, from-length, from-prefix, from-append}

same_end :
    {f f' : List Text} {s s' : ChainScanSlice}
    → ◌≡◌ {A = Option (List Text × Result ChainScanSlice)} (some (f, ok s)) (some (f', ok s'))
    → (f ≡ f') × (s ≡ s')
same_end e = (cc, cc)

module _ (hd : Hd) (hex : Hex) (coin : CoinId) (seed_secret : Text) (bip39_passphrase : Option Text)
    (chain : HdChain) where
  module _ (balance : Text → WalletBalance) (gap_limit batch_size : ℕ)
      (get_balances_per_script : ℕ → List Text → Result (List WalletBalance))
      (on_funded_batch : List Text → Result (Unit {0})) where
    -- The scripts are those of consecutive indices from `start` on, every one that holds something is
    -- listed as funded, and a complete scan has come to index 501 or ends with at least `gap_limit`
    -- scripts that hold nothing.
    pub record Covers (start : ℕ) (slice : ChainScanSlice) (funded : List Text) : Type 0 where
      pub in_order :
          batch_scripts hd hex coin seed_secret bip39_passphrase chain (length slice.scripts) start
          ≡ ok slice.scripts
      pub found : All (IsFound balance funded) slice.scripts
      pub ended :
          (slice.chain_complete ≡ false)
          ⊎ ((502 ≤ start + length slice.scripts)
              ⊎ ((before : List Text) × (tail : List Text) × (slice.scripts ≡ before ++ tail)
                  × (gap_limit ≤ length tail)
                  × All (IsEmpty balance) tail))

    paused-Covers :
        (start index : ℕ) (scripts : List Text) (empty : ℕ) (funded : List Text)
        → batch_scripts hd hex coin seed_secret bip39_passphrase chain (length scripts) start
          ≡ ok scripts
        → Good balance scripts empty funded
        → Covers start (paused_at index scripts) funded
    paused-Covers start index scripts empty funded h g = record {
      in_order = h;
      found = g.found;
      ended = inl refl;
    }

    finished-Covers :
        (start index : ℕ) (scripts : List Text) (empty : ℕ) (funded : List Text)
        → batch_scripts hd hex coin seed_secret bip39_passphrase chain (length scripts) start
          ≡ ok scripts
        → (ltb empty gap_limit ≡ true → index ≡ start + length scripts)
        → Good balance scripts empty funded
        → Covers start (finished_at gap_limit index scripts empty) funded
    finished-Covers start index scripts empty funded h at g = record {
      in_order = h;
      found = g.found;
      ended = elim (Bool-cases (leb gap_limit empty)) [
        | inl over ↦ inr (inr (g.before, g.tail, g.splits, ground (arith, g.counted), g.all_empty))
        | inr under ↦ elim (Bool-cases (ltb gap_scan_max_index index)) [
          | inr near ↦ inl (rw (under, near) refl)
          | inl far ↦
              let open_gap : ltb empty gap_limit ≡ true = ground arith in
              let here = at open_gap in inr (inl (ground (arith, here)))
        ]
      ];
    }

    batch-in_order :
        (start index : ℕ) (scripts batch taken rest : List Text)
        → batch_scripts hd hex coin seed_secret bip39_passphrase chain (length scripts) start
          ≡ ok scripts
        → index ≡ start + length scripts
        → batch_scripts hd hex coin seed_secret bip39_passphrase chain
            (batch_end_of batch_size index - index)
            index
          ≡ ok batch
        → batch ≡ taken ++ rest
        → batch_scripts hd hex coin seed_secret bip39_passphrase chain
            (length (scripts ++ taken))
            start
          ≡ ok (scripts ++ taken)
    batch-in_order start index scripts batch taken rest h at s cut =
        from-append hd hex coin seed_secret bip39_passphrase chain start scripts taken h (
          subst
            (λ i.
              batch_scripts hd hex coin seed_secret bip39_passphrase chain (length taken) i
              ≡ ok taken)
            at
            (from-prefix hd hex coin seed_secret bip39_passphrase chain
              (batch_end_of batch_size index - index) index taken rest (s ∙ ap ok cut)))

    batch-index :
        (start index : ℕ) (scripts batch taken rest : List Text)
        → index ≡ start + length scripts
        → index ≤ batch_end_of batch_size index
        → batch_scripts hd hex coin seed_secret bip39_passphrase chain
            (batch_end_of batch_size index - index)
            index
          ≡ ok batch
        → batch ≡ taken ++ rest
        → rest ≡ []
        → batch_end_of batch_size index ≡ start + length (scripts ++ taken)
    batch-index start index scripts batch taken rest at le s cut whole =
        let n =
          from-length hd hex coin seed_secret bip39_passphrase chain
            (batch_end_of batch_size index - index) index batch s in
        let m = ap length cut ∙ length-append taken rest in
        let z = ap length whole in omega (arith, n, m, z, at, le, length-append scripts taken)

    scan_rounds-Covers :
        (k start index : ℕ) (scripts : List Text) (empty : ℕ) (funded : List Text)
        (funded' : List Text) (slice : ChainScanSlice)
        → 1 ≤ batch_size
        → batch_size < 2 ^ 31
        → ((i : ℕ) (batch : List Text) (balances : List WalletBalance)
            → get_balances_per_script i batch ≡ ok balances
            → balances ≡ map balance batch)
        → batch_scripts hd hex coin seed_secret bip39_passphrase chain (length scripts) start
          ≡ ok scripts
        → (ltb empty gap_limit ≡ true → index ≡ start + length scripts)
        → Good balance scripts empty funded
        → scan_rounds
            (batch_scripts hd hex coin seed_secret bip39_passphrase chain)
            gap_limit
            batch_size
            get_balances_per_script
            on_funded_batch
            k
            index
            scripts
            empty
            funded
          ≡ some (funded', ok slice)
        → Covers start slice funded'
    unfolding scan_rounds
    scan_rounds-Covers zero start index scripts empty funded funded' slice p q ask h at g e = cc
    scan_rounds-Covers (suc k) start index scripts empty funded funded' slice p q ask h at g e =
        elim (Bool-cases (ltb empty gap_limit && leb index gap_scan_max_index)) [
          | inr out ↦
              let (a, b) = same_end (rw out at e) in
              subst₂ (λ f s. Covers start s f) a b
                (finished-Covers start index scripts empty funded h at g)
          | inl inside ↦
              elim (scan_batch-Outcome
                (batch_scripts hd hex coin seed_secret bip39_passphrase chain) gap_limit batch_size
                get_balances_per_script on_funded_batch index scripts empty funded) [
                  | inl (f, x, r) ↦ cc (rw (inside, r) at e)
                  | inr (inl r) ↦
                      let (a, b) = same_end (rw (inside, r) at e) in
                      subst₂ (λ f s. Covers start s f) a b
                        (paused-Covers start index scripts empty funded h g)
                  | inr (inr (batch, balances, s, b, r)) ↦
                      let open_gap : ltb empty gap_limit ≡ true = ground arith in
                      let low : index ≤ 501 = ground arith in
                      let forward = (batch_end_of_advances batch_size index p q low).0 in
                      let here = at open_gap in
                      let known = ask index batch balances b in
                      let b0 = start_batch scripts empty funded in
                      let b' = absorb gap_limit batch balances b0 in
                      let a =
                        subst
                          (λ l. Absorbed balance gap_limit batch b0 (absorb gap_limit batch l b0))
                          (sym known) (absorb-Absorbed balance gap_limit batch b0 g) in
                      scan_rounds-Covers k start (batch_end_of batch_size index) b'.scripts
                        b'.consecutive_empty b'.funded_out funded' slice p q ask
                        (subst
                          (λ l.
                            batch_scripts hd hex coin seed_secret bip39_passphrase chain (length l)
                              start
                            ≡ ok l)
                          (sym a.appended)
                          (batch-in_order start index scripts batch a.taken a.rest h here s a.cut))
                        (λ o.
                          subst (λ l. batch_end_of batch_size index ≡ start + length l)
                            (sym a.appended)
                            (batch-index start index scripts batch a.taken a.rest here
                              (omega (arith, forward)) s a.cut (a.whole o)))
                        a.good (rw (inside, r) at e)
                ]
        ]

    -- Where the backend's answers are the balances of the scripts it is asked for, and batches have
    -- at least one index and fewer than 2^31: a scan that succeeds has looked at the addresses of
    -- consecutive indices from its start; every one of them that holds something is listed as
    -- funded; and if the scan calls itself complete, it has come to index 501 or its last addresses,
    -- as many as the gap limit, hold nothing.
    pub discover_chain_script_hexes-Covers :
        (start_index : ℕ) (funded_out funded' : List Text) (slice : ChainScanSlice)
        → 1 ≤ batch_size
        → batch_size < 2 ^ 31
        → ((i : ℕ) (batch : List Text) (balances : List WalletBalance)
            → get_balances_per_script i batch ≡ ok balances
            → balances ≡ map balance batch)
        → discover_chain_script_hexes hd hex coin seed_secret bip39_passphrase chain gap_limit
            start_index get_balances_per_script batch_size funded_out on_funded_batch
          ≡ some (funded', ok slice)
        → Covers start_index slice funded'
    unfolding discover_chain_script_hexes batch_scripts
    discover_chain_script_hexes-Covers start funded_out funded' slice p q ask e =
        scan_rounds-Covers 503 start start [] 0 funded_out funded' slice p q ask refl
          (λ o. omega arith)
          (record {
            found = tt;
            before = [];
            tail = [];
            splits = refl;
            counted = refl;
            all_empty = tt;
          })
          e
