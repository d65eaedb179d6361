-- ===== src/Facade/GapScan/Batches.antt =====
-- What one batch of a scan does to the lists that the scan keeps.
use mathlib.Core.List.{append_assoc, append-nil}
use vericonomy_sdk.Base.{
  ℕ, ◌+◌, ◌≡◌, refl, sym, ap, ◌∙◌, subst, arith, Bool, true, Bool-cases, ◌⊎◌, inl, inr, List, [],
  ◌∷◌, ◌++◌, All, All-append, any, length, length-append, map, ltb, leb,
}
use vericonomy_sdk.Int.{pos, eqb_ℤ}
use vericonomy_sdk.Text.{Text, text_eq, text_eq_iff}
use vericonomy_sdk.Chain.{WalletBalance, total_sats}
use vericonomy_sdk.Facade.GapScan.{Batch, absorb_one, absorb}

any-append : (p : Text → Bool) (xs ys : List Text) → any p xs ≡ true → any p (xs ++ ys) ≡ true
any-append p [] ys h = cc
any-append p (x ∷ xs) ys h = elim (Bool-cases (p x)) [
  | inl e ↦ rw e refl
  | inr e ↦ rw e (any-append p xs ys (rw e at h))
]

any-last : (p : Text → Bool) (xs : List Text) (y : Text) → p y ≡ true → any p (xs ++ y ∷ []) ≡ true
any-last p [] y h = rw h refl
any-last p (x ∷ xs) y h = elim (Bool-cases (p x)) [
  | inl e ↦ rw e refl
  | inr e ↦ rw e (any-last p xs y h)
]

module _ (balance : Text → WalletBalance) where
  -- An address that holds nothing.
  abbrev pub IsEmpty : Text → Type 0
  IsEmpty s = eqb_ℤ (total_sats (balance s)) (pos 0) ≡ true

  -- An address that holds nothing or is listed as funded.
  abbrev pub IsFound : List Text → Text → Type 0
  IsFound funded s = IsEmpty s ⊎ (any (λ t. text_eq t s) funded ≡ true)

  IsFound-append :
      (funded more : List Text) (ss : List Text)
      → All (IsFound funded) ss
      → All (IsFound (funded ++ more)) ss
  IsFound-append funded more [] h = tt
  IsFound-append funded more (s ∷ ss) (inl e, h) = (inl e, IsFound-append funded more ss h)
  IsFound-append funded more (s ∷ ss) (inr f, h) =
      (inr (any-append (λ t. text_eq t s) funded more f), IsFound-append funded more ss h)

  -- Every script is found, and the last ones, as many as are counted, are empty.
  pub record Good (scripts : List Text) (empty : ℕ) (funded : List Text) : Type 0 where
    pub found : All (IsFound funded) scripts
    pub before : List Text
    pub tail : List Text
    pub splits : scripts ≡ before ++ tail
    pub counted : length tail ≡ empty
    pub all_empty : All IsEmpty tail

  absorb_one-Good :
      (s : Text) (b : Batch)
      → Good b.scripts b.consecutive_empty b.funded_out
      → (Good
          (b.scripts ++ s ∷ [])
          (absorb_one s (balance s) b).consecutive_empty
          (absorb_one s (balance s) b).funded_out)
        × ((absorb_one s (balance s) b).scripts ≡ b.scripts ++ s ∷ [])
  unfolding absorb_one
  absorb_one-Good s b g = elim (Bool-cases (eqb_ℤ (total_sats (balance s)) (pos 0))) [
    | inl e ↦ rw e (
      record {
        found = All-append (IsFound b.funded_out) b.scripts (s ∷ []) g.found (inl e, tt);
        before = g.before;
        tail = g.tail ++ s ∷ [];
        splits = ap (λ l. l ++ s ∷ []) g.splits ∙ append_assoc g.before g.tail (s ∷ []);
        counted = length-append g.tail (s ∷ []) ∙ ap (λ n. n + 1) g.counted;
        all_empty = All-append IsEmpty g.tail (s ∷ []) g.all_empty (e, tt);
      },
      refl,
    )
    | inr e ↦ elim (Bool-cases (any (λ t. text_eq t s) b.funded_out)) [
      | inl f ↦
          rw (e, f)
            (
              record {
                found = All-append (IsFound b.funded_out) b.scripts (s ∷ []) g.found (inr f, tt);
                before = b.scripts ++ s ∷ [];
                tail = [];
                splits = sym (append-nil (b.scripts ++ s ∷ []));
                counted = refl;
                all_empty = tt;
              },
              refl,
            )
      | inr f ↦
          rw (e, f)
            (
              record {
                found =
                    All-append (IsFound (b.funded_out ++ s ∷ [])) b.scripts (s ∷ [])
                      (IsFound-append b.funded_out (s ∷ []) b.scripts g.found)
                      (
                        inr (any-last (λ t. text_eq t s) b.funded_out s ((text_eq_iff s s).1 refl)),
                        tt,
                      );
                before = b.scripts ++ s ∷ [];
                tail = [];
                splits = sym (append-nil (b.scripts ++ s ∷ []));
                counted = refl;
                all_empty = tt;
              },
              refl,
            )
    ]
  ]

  -- A batch is taken up to where the gap limit ends it.
  pub record Absorbed (gap_limit : ℕ) (batch : List Text) (b b' : Batch) : Type 0 where
    pub taken : List Text
    pub rest : List Text
    pub cut : batch ≡ taken ++ rest
    pub appended : b'.scripts ≡ b.scripts ++ taken
    pub whole : ltb b'.consecutive_empty gap_limit ≡ true → rest ≡ []
    pub good : Good b'.scripts b'.consecutive_empty b'.funded_out

  pub absorb-Absorbed :
      (gap_limit : ℕ) (batch : List Text) (b : Batch)
      → Good b.scripts b.consecutive_empty b.funded_out
      → Absorbed gap_limit batch b (absorb gap_limit batch (map balance batch) b)
  unfolding absorb
  absorb-Absorbed gap [] b g = record {
    taken = [];
    rest = [];
    cut = refl;
    appended = sym (append-nil b.scripts);
    whole = λ h. refl;
    good = g;
  }
  absorb-Absorbed gap (s ∷ ss) b g =
      let b' = absorb_one s (balance s) b in
      let (g', e) = absorb_one-Good s b g in
      let good = subst (λ l. Good l b'.consecutive_empty b'.funded_out) (sym e) g' in
      elim (Bool-cases (leb gap b'.consecutive_empty)) [
        | inl over ↦ rw over (record {
          taken = s ∷ [];
          rest = ss;
          cut = refl;
          appended = e;
          whole = λ h. ground arith;
          good = good;
        })
        | inr under ↦
            let ih = absorb-Absorbed gap ss b' good in
            rw under (record {
              taken = s ∷ ih.taken;
              rest = ih.rest;
              cut = ap (λ l. s ∷ l) ih.cut;
              appended =
                  ih.appended
                  ∙ ap (λ l. l ++ ih.taken) e
                  ∙ append_assoc b.scripts (s ∷ []) ih.taken;
              whole = ih.whole;
              good = ih.good;
            })
      ]
