-- ===== src/TextMap.antt =====
-- `HashMap<String, V>` as an association list. The code never iterates over such a map, so the order
-- of its entries plays no part.
use vericonomy_sdk.Base.{
  ◌≡◌, refl, arith, Bool, true, false, Option, none, some, List, [], ◌∷◌, if◌then◌else◌,
}
use vericonomy_sdk.Text.{Text, text_eq, text_eq_iff}

module _ {ℓ} {V : Type ℓ} where
  unfoldable pub get : Text → List (Text × V) → Option V
  get k [] = none
  get k ((j, v) ∷ rest) = if text_eq j k then some v else get k rest

  unfoldable pub remove : Text → List (Text × V) → List (Text × V)
  remove k [] = []
  remove k ((j, v) ∷ rest) = if text_eq j k then remove k rest else (j, v) ∷ remove k rest

  unfoldable pub put : Text → V → List (Text × V) → List (Text × V)
  unfolding remove
  put k v entries = (k, v) ∷ remove k entries

  unfoldable pub contains_key : Text → List (Text × V) → Bool
  unfolding get
  contains_key k entries = elim (get k entries) [ none ↦ false | some v ↦ true ]

  pub get-remove :
      (k j : Text) (entries : List (Text × V))
      → get j (remove k entries) ≡ (if text_eq k j then none else get j entries)
  unfolding get remove
  get-remove k j [] = ground arith
  get-remove k j ((i, v) ∷ rest) =
      ground (arith, text_eq_iff k j, text_eq_iff i k, text_eq_iff i j, get-remove k j rest)

  pub get-put :
      (k j : Text) (v : V) (entries : List (Text × V))
      → get j (put k v entries) ≡ (if text_eq k j then some v else get j entries)
  unfolding get put
  get-put k j v entries = ground (arith, get-remove k j entries)

  pub get-put_self :
      (k : Text) (v : V) (entries : List (Text × V)) → get k (put k v entries) ≡ some v
  get-put_self k v entries = rw (get-put k k v entries, (text_eq_iff k k).1 refl) refl

  pub get-remove_self : (k : Text) (entries : List (Text × V)) → get k (remove k entries) ≡ none
  get-remove_self k entries = rw (get-remove k k entries, (text_eq_iff k k).1 refl) refl

  pub get-absent :
      (k : Text) (entries : List (Text × V)) → contains_key k entries ≡ false → get k entries ≡ none
  unfolding contains_key
  get-absent k entries = absent (get k entries)
    where
      absent : (o : Option V) → elim o [ none ↦ false | some v ↦ true ] ≡ false → o ≡ none
      absent none e = refl
      absent (some v) e = cc

  pub contains_key-absent :
      (k : Text) (entries : List (Text × V)) → get k entries ≡ none → contains_key k entries ≡ false
  unfolding contains_key
  contains_key-absent k entries e = rw (contains_key, e) refl
