-- ===== src/Facade/Discover/Progress.antt =====
-- The saved progress and the flag that the scan returns agree.
use vericonomy_sdk.Base.{
  ℕ, ◌≡◌, refl, sym, ◌∙◌, subst, arith, Bool, true, not, ◌&&◌, ◌||◌, Bool-cases, inl, inr, ◌⊎◌,
  if◌then◌else◌, Option, none, some, List, [],
}
use vericonomy_sdk.Text.{Text}
use vericonomy_sdk.Hex.{Hex}
use vericonomy_sdk.Errors.{Result, ok, err, WalletError}
use vericonomy_sdk.Params.{CoinId}
use vericonomy_sdk.Hd.{Hd, HdChain, external, internal}
use vericonomy_sdk.Chain.{WalletBalance}
use vericonomy_sdk.Facade.GapScan.{ChainScanSlice, discover_chain_script_hexes}
use vericonomy_sdk.Storage.Types.{IndexingProgress}
use vericonomy_sdk.Facade.Discover.{
  Discovery, must_stop, discover_internal, discover_both, discover_script_hexes,
}

-- Both chains are done, or the one that the wallet has.
abbrev pub is_done : Bool → IndexingProgress → Bool
is_done uses_core p = p.gap_external_done && (not uses_core || p.gap_internal_done)

-- What a discovery's result says of its progress.
abbrev pub Agrees : Bool → Discovery → Type 0
Agrees uses_core d = elim d.result [ err e ↦ Unit {0} | ok r ↦ r.1 ≡ is_done uses_core d.progress ]

Agrees-some :
    (uses_core : Bool) (x d : Discovery) → some x ≡ some d → Agrees uses_core x → Agrees uses_core d
Agrees-some uses_core x d e h = let r : x ≡ d = cc in subst (Agrees uses_core) r h

if_true : {A : Type 0} {b : Bool} {x : A} (y : A) → b ≡ true → (if b then x else y) ≡ x
if_true y h = rw h refl

-- The ways a scan of a chain can end.
Scan-cases :
    (o : Option (List Text × Result ChainScanSlice))
    → (o ≡ none)
      ⊎ (((funded : List Text) × (x : WalletError) × (o ≡ some (funded, err x)))
          ⊎ ((funded : List Text) × (slice : ChainScanSlice) × (o ≡ some (funded, ok slice))))
Scan-cases none = inl refl
Scan-cases (some (funded, err x)) = inr (inl (funded, x, refl))
Scan-cases (some (funded, ok slice)) = inr (inr (funded, slice, refl))

module _ (uses_core : Bool)
    (scan : HdChain → ℕ → List Text → Option (List Text × Result ChainScanSlice)) where
  discover_internal-Agrees :
      (p : IndexingProgress) (funded merged : List Text) (d : Discovery)
      → p.gap_external_done ≡ true
      → discover_internal uses_core scan p funded merged ≡ some d
      → Agrees uses_core d
  unfolding discover_internal
  discover_internal-Agrees p funded merged d h e =
      elim (Bool-cases (not uses_core || p.gap_internal_done)) [
        | inl done ↦ Agrees-some uses_core _ d (rw done at e) (rw (h, done) refl)
        | inr open_chain ↦ elim (Scan-cases (scan internal p.gap_internal funded)) [
          | inl out ↦ cc (rw (open_chain, out) at e)
          | inr (inl (f, x, failed)) ↦ Agrees-some uses_core _ d (rw (open_chain, failed) at e) tt
          | inr (inr (f, slice, found)) ↦ elim (Bool-cases (must_stop slice)) [
            | inl stop ↦
                Agrees-some uses_core _ d (rw (open_chain, found, stop) at e)
                  (rw (h, open_chain) refl)
            | inr go ↦
                let all_done : (not uses_core || true) ≡ true = ground arith in
                Agrees-some uses_core _ d (rw (open_chain, found, go) at e) (rw (h, all_done) refl)
          ]
        ]
      ]

  pub discover_both-Agrees :
      (p : IndexingProgress) (funded : List Text) (d : Discovery)
      → discover_both uses_core scan p funded ≡ some d
      → Agrees uses_core d
  unfolding discover_both
  discover_both-Agrees p funded d e = elim (Bool-cases p.gap_external_done) [
    | inl done ↦ discover_internal-Agrees p funded [] d done (sym (if_true _ done) ∙ e)
    | inr open_chain ↦ elim (Scan-cases (scan external p.gap_external funded)) [
      | inl out ↦ cc (rw (open_chain, out) at e)
      | inr (inl (f, x, failed)) ↦ Agrees-some uses_core _ d (rw (open_chain, failed) at e) tt
      | inr (inr (f, slice, found)) ↦ elim (Bool-cases (must_stop slice)) [
        | inl stop ↦
            Agrees-some uses_core _ d (rw (open_chain, found, stop) at e) (rw open_chain refl)
        | inr go ↦
            discover_internal-Agrees
              (record p { gap_external = slice.next_index; gap_external_done = true }) f
              slice.scripts d refl (rw (open_chain, found, go) at e)
      ]
    ]
  ]

-- When the scan of a wallet succeeds, the flag that it returns is true exactly when the progress that
-- it saves has the external chain done and, for a wallet with core paths, the internal chain too.
pub discover_script_hexes-Agrees :
    (hd : Hd) (hex : Hex) (coin : CoinId) (seed_secret : Text) (bip39_passphrase : Option Text)
    (gap_limit : ℕ) (progress : IndexingProgress)
    (get_balances_per_script : HdChain → ℕ → List Text → Result (List WalletBalance))
    (batch_size : ℕ) (funded_out : List Text) (on_funded_batch : List Text → Result (Unit {0}))
    (d : Discovery)
    → discover_script_hexes hd hex coin seed_secret bip39_passphrase gap_limit progress
        get_balances_per_script batch_size funded_out on_funded_batch
      ≡ some d
    → Agrees (hd.uses_core_hd_paths coin seed_secret) d
unfolding discover_script_hexes
discover_script_hexes-Agrees hd hex coin seed pass gap progress get batch funded hook d e =
    discover_both-Agrees (hd.uses_core_hd_paths coin seed)
      (λ chain start found.
        discover_chain_script_hexes hd hex coin seed pass chain gap start (get chain) batch found
          hook)
      progress funded d e
