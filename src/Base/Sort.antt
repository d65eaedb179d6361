-- ===== src/Base/Sort.antt =====
-- `slice::sort_by_key`: a stable sort, here by insertion, over a Boolean order.
use mathlib.Core.Path.{◌≡◌, sym, subst}
use mathlib.Core.Bool.{Bool, true, false, not}
use mathlib.Core.Logic.{◌≢◌, inl, inr}
use mathlib.Core.List.{List, [], ◌∷◌, ◌++◌, Perm, perm_middle}
use mathlib.Core.List.Perm
use vericonomy_sdk.Base.Tests.{if◌then◌else◌, Bool-cases}
use vericonomy_sdk.Base.Lists.{All, filter}

module _ {ℓ} {A : Type ℓ} (le : A → A → Bool) where
  abbrev pub insert_by : A → List A → List A
  insert_by x [] = x ∷ []
  insert_by x (y ∷ ys) = let rest = insert_by x ys in if le x y then x ∷ (y ∷ ys) else y ∷ rest

  abbrev pub sort_by : List A → List A
  sort_by [] = []
  sort_by (x ∷ xs) = insert_by x (sort_by xs)

  -- Each element is at most those behind it.
  abbrev pub IsSortedBy : List A → Type ℓ
  IsSortedBy [] = Unit {ℓ}
  IsSortedBy (x ∷ xs) = All (λ y. le x y ≡ true) xs × IsSortedBy xs

module _ {ℓ} {A : Type ℓ} (le : A → A → Bool) where
  pub insert_by-perm : (x : A) (xs : List A) → Perm (insert_by le x xs) (x ∷ xs)
  insert_by-perm x [] = Perm.refl _
  insert_by-perm x (y ∷ ys) = elim (Bool-cases (le x y)) [
    | inl e ↦ rw e (Perm.refl _)
    | inr e ↦ rw e (Perm.trans (Perm.cons y (insert_by-perm x ys)) (Perm.swap _ _ _))
  ]

  pub sort_by-perm : (xs : List A) → Perm (sort_by le xs) xs
  sort_by-perm [] = Perm.refl _
  sort_by-perm (x ∷ xs) =
      Perm.trans (insert_by-perm x (sort_by le xs)) (Perm.cons x (sort_by-perm xs))

module _ {ℓ κ} {A : Type ℓ} (le : A → A → Bool) (P : A → Type κ) where
  pub All-insert_by : (x : A) (xs : List A) → P x → All P xs → All P (insert_by le x xs)
  All-insert_by x [] hx h = (hx, tt)
  All-insert_by x (y ∷ ys) hx h = elim (Bool-cases (le x y)) [
    | inl e ↦ rw e (hx, h)
    | inr e ↦ rw e (h.0, All-insert_by x ys hx h.1)
  ]

  All-insert_by_inv : (x : A) (xs : List A) → All P (insert_by le x xs) → P x × All P xs
  All-insert_by_inv x [] h = (h.0, tt)
  All-insert_by_inv x (y ∷ ys) h = elim (Bool-cases (le x y)) [
    | inl e ↦ let k : P x × (P y × All P ys) = rw e at h in k
    | inr e ↦
        let k : P y × All P (insert_by le x ys) = rw e at h in
        let (hx, hys) = All-insert_by_inv x ys k.1 in (hx, (k.0, hys))
  ]

  pub All-sort_by_inv : (xs : List A) → All P (sort_by le xs) → All P xs
  All-sort_by_inv [] h = tt
  All-sort_by_inv (x ∷ xs) h =
      let (hx, hxs) = All-insert_by_inv x (sort_by le xs) h in (hx, All-sort_by_inv xs hxs)

  pub All-sort_by : (xs : List A) → All P xs → All P (sort_by le xs)
  All-sort_by [] h = tt
  All-sort_by (x ∷ xs) h = All-insert_by x (sort_by le xs) h.0 (All-sort_by xs h.1)

module _ {ℓ} {A : Type ℓ} (le : A → A → Bool) (total : (x y : A) → le x y ≡ false → le y x ≡ true)
    (transitive : (x y z : A) → le x y ≡ true → le y z ≡ true → le x z ≡ true) where
  All-le :
      (x y : A) (zs : List A)
      → le x y ≡ true
      → All (λ z. le y z ≡ true) zs
      → All (λ z. le x z ≡ true) zs
  All-le x y [] h k = tt
  All-le x y (z ∷ zs) h k = (transitive x y z h k.0, All-le x y zs h k.1)

  insert_by-IsSortedBy :
      (x : A) (xs : List A) → IsSortedBy le xs → IsSortedBy le (insert_by le x xs)
  insert_by-IsSortedBy x [] h = (tt, tt)
  insert_by-IsSortedBy x (y ∷ ys) h = elim (Bool-cases (le x y)) [
    | inl e ↦ rw e ((e, All-le x y ys e h.0), h)
    | inr e ↦ rw e (All-insert_by le _ x ys (total x y e) h.0, insert_by-IsSortedBy x ys h.1)
  ]

  pub sort_by-IsSortedBy : (xs : List A) → IsSortedBy le (sort_by le xs)
  sort_by-IsSortedBy [] = tt
  sort_by-IsSortedBy (x ∷ xs) = insert_by-IsSortedBy x (sort_by le xs) (sort_by-IsSortedBy xs)

  le_self : (x : A) → le x x ≡ true
  le_self x = elim (Bool-cases (le x x)) [ inl e ↦ e | inr e ↦ total x x e ]

  -- The first of a sorted list is least.
  pub sort_by_head-least :
      (xs : List A) {b : A} {others : List A}
      → sort_by le xs ≡ b ∷ others
      → All (λ y. le b y ≡ true) xs
  sort_by_head-least xs {b} e =
      let sorted = subst (IsSortedBy le) e (sort_by-IsSortedBy xs) in
      let least = subst (All (λ y. le b y ≡ true)) (sym e) (le_self b, sorted.0) in
      All-sort_by_inv le _ xs least

module _ {ℓ} {A : Type ℓ} (p : A → Bool) where
  -- A filter and the filter by the opposite test part a list.
  pub filter-perm : (xs : List A) → Perm (filter p xs ++ filter (λ x. not (p x)) xs) xs
  filter-perm [] = Perm.refl _
  filter-perm (x ∷ xs) = elim (Bool-cases (p x)) [
    | inl e ↦ rw e (Perm.cons x (filter-perm xs))
    | inr e ↦ rw e (Perm.trans (perm_middle (filter p xs) _) (Perm.cons x (filter-perm xs)))
  ]

module _ {ℓ} {A : Type ℓ} (le : A → A → Bool) where
  insert_by-ne-nil : (x : A) (xs : List A) → insert_by le x xs ≢ []
  insert_by-ne-nil x [] e = cc
  insert_by-ne-nil x (y ∷ ys) e = elim (Bool-cases (le x y)) [
    | inl t ↦ let k : (x ∷ (y ∷ ys)) ≡ [] = rw t at e in cc
    | inr t ↦ let k : (y ∷ insert_by le x ys) ≡ [] = rw t at e in cc
  ]

  -- Only the empty list sorts to the empty list.
  pub sort_by_nil : (xs : List A) → sort_by le xs ≡ [] → xs ≡ []
  sort_by_nil [] e = e
  sort_by_nil (x ∷ xs) e = absurd (insert_by-ne-nil x (sort_by le xs) e)
