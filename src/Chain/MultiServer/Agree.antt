-- ===== src/Chain/MultiServer/Agree.antt =====
-- When servers count as agreeing.
use Prim.Native.Nat.{min, max}
use vericonomy_sdk.Base.{
  ℕ, ◌+◌, ◌-◌, ◌≤◌, ◌≡◌, refl, subst, arith, true, false, not, ◌&&◌, Bool-cases, inl, inr, List, [],
  ◌∷◌, All, leb, ltb, is_empty, ◌↔◌,
}
use vericonomy_sdk.Text.{Text}
use vericonomy_sdk.Params.{CoinId}
use vericonomy_sdk.Chain.MultiServer.{
  Servers, heights_of, smallest, largest, drift_of, summarise, tips_of, verify_tip_consistency,
}

smallest_le : (h : ℕ) (xs : List ℕ) → All (λ b. smallest h xs ≤ b) (h ∷ xs)
unfolding smallest
smallest_le h [] = (omega arith, tt)
smallest_le h (x ∷ xs) =
    let (here, rest) = smallest_le (min h x) xs in
    (omega (arith, here), (omega (arith, here), rest))

le_largest : (h : ℕ) (xs : List ℕ) → All (λ b. b ≤ largest h xs) (h ∷ xs)
unfolding largest
le_largest h [] = (omega arith, tt)
le_largest h (x ∷ xs) =
    let (here, rest) = le_largest (max h x) xs in (omega (arith, here), (omega (arith, here), rest))

module _ {κ} (P : ℕ → Type κ) where
  -- What holds of all heights holds of the smallest and of the largest.
  smallest_holds : (h : ℕ) (xs : List ℕ) → All P (h ∷ xs) → P (smallest h xs)
  unfolding smallest
  smallest_holds h [] (a, t) = a
  smallest_holds h (x ∷ xs) (a, (b, rest)) = elim (Bool-cases (ltb h x)) [
    | inl e ↦
        let same : h ≡ min h x = ground arith in smallest_holds (min h x) xs (subst P same a, rest)
    | inr e ↦
        let same : x ≡ min h x = ground arith in smallest_holds (min h x) xs (subst P same b, rest)
  ]

  largest_holds : (h : ℕ) (xs : List ℕ) → All P (h ∷ xs) → P (largest h xs)
  unfolding largest
  largest_holds h [] (a, t) = a
  largest_holds h (x ∷ xs) (a, (b, rest)) = elim (Bool-cases (ltb x h)) [
    | inl e ↦
        let same : h ≡ max h x = ground arith in largest_holds (max h x) xs (subst P same a, rest)
    | inr e ↦
        let same : x ≡ max h x = ground arith in largest_holds (max h x) xs (subst P same b, rest)
  ]

-- Each two of the heights are at most `d` apart.
abbrev pub AreWithin : ℕ → List ℕ → Type 0
AreWithin d heights = All (λ a. All (λ b. a ≤ b + d) heights) heights

All-weaken : (P Q : ℕ → Type 0) (xs : List ℕ) → ((n : ℕ) → P n → Q n) → All P xs → All Q xs
All-weaken P Q [] f h = tt
All-weaken P Q (x ∷ xs) f (a, rest) = (f x a, All-weaken P Q xs f rest)

drift-AreWithin : (d h : ℕ) (hs : List ℕ) → largest h hs - smallest h hs ≤ d → AreWithin d (h ∷ hs)
drift-AreWithin d h hs e =
    All-weaken (λ a. a ≤ largest h hs) (λ a. All (λ b. a ≤ b + d) (h ∷ hs)) (h ∷ hs)
      (λ a up.
        All-weaken (λ b. smallest h hs ≤ b) (λ b. a ≤ b + d) (h ∷ hs)
          (λ b low. omega (arith, up, low, e)) (smallest_le h hs))
      (le_largest h hs)

within_drift : (d h : ℕ) (hs : List ℕ) → AreWithin d (h ∷ hs) → largest h hs - smallest h hs ≤ d
within_drift d h hs w =
    let top = largest_holds (λ a. All (λ b. a ≤ b + d) (h ∷ hs)) h hs w in
    let near = smallest_holds (λ b. largest h hs ≤ b + d) h hs top in omega (arith, near)

summary :
    (d : ℕ) (heights : List ℕ)
    → ((not (is_empty heights) && leb (drift_of heights) d) ≡ true)
      ↔ ((is_empty heights ≡ false) × AreWithin d heights)
unfolding drift_of
summary d [] = (λ e. cc, λ p. let h = p.0 in cc)
summary d (h ∷ hs) = (
  (λ e.
      let small : largest h hs - smallest h hs ≤ d = ground arith in
      (refl, drift-AreWithin d h hs small)),
  (λ p. let small = within_drift d h hs p.1 in ground arith),
)

-- The tips count as consistent exactly when some server gave a height, and each two of the heights
-- that were given are at most `max_drift` apart.
pub verify_tip_consistency-AreWithin :
    (servers : Servers) (coin : CoinId) (uris : List Text) (max_drift : ℕ)
    → ((verify_tip_consistency servers coin uris max_drift).consistent ≡ true) ↔ (
        (is_empty (heights_of (tips_of servers coin uris)) ≡ false)
        × AreWithin max_drift (heights_of (tips_of servers coin uris)))
unfolding verify_tip_consistency summarise
verify_tip_consistency-AreWithin servers coin uris max_drift =
    summary max_drift (heights_of (tips_of servers coin uris))
