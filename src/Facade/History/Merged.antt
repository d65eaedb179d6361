-- ===== src/Facade/History/Merged.antt =====
-- What a merged history holds.
use mathlib.Core.List.{Perm}
use mathlib.Core.List.Perm
use vericonomy_sdk.Base.{
  ◌≡◌, refl, subst, arith, true, false, Bool-cases, inl, inr, ◌⊎◌, Option, none, some, List, [],
  ◌∷◌, All, map,
}
use vericonomy_sdk.Base.Sort.{sort_by-perm, sort_by-IsSortedBy, IsSortedBy}
use vericonomy_sdk.Text.{Text, text_eq, text_eq_iff}
use vericonomy_sdk.TextMap.{get, put, get-put, get-put_self}
use vericonomy_sdk.Chain.{WalletTx}
use vericonomy_sdk.Chain.HistoryRows.{wallet_tx_row_key}
use vericonomy_sdk.Facade.History.{
  tx_history_confirmed, collect_rows, add_over, add_pending, add_all, newer, merge_tx_history,
}

module _ {F : Type 0} where
  -- A row that was there has a row in its place, which is confirmed if it was.
  abbrev pub Kept : Option (WalletTx F) → Option (WalletTx F) → Type 0
  Kept none o = Unit {0}
  Kept (some e) none = ⊥
  Kept (some e) (some r) = (tx_history_confirmed e ≡ false) ⊎ (tx_history_confirmed r ≡ true)

  Kept-refl : (o : Option (WalletTx F)) → Kept o o
  Kept-refl none = tt
  Kept-refl (some e) = elim (Bool-cases (tx_history_confirmed e)) [ inl y ↦ inr y | inr n ↦ inl n ]

  Kept-trans : (a b c : Option (WalletTx F)) → Kept a b → Kept b c → Kept a c
  Kept-trans none b c h k = tt
  Kept-trans (some e) none c h k = absurd h
  Kept-trans (some e) (some r) none h k = absurd k
  Kept-trans (some e) (some r) (some s) (inl n) k = inl n
  Kept-trans (some e) (some r) (some s) (inr y) (inl n) = cc
  Kept-trans (some e) (some r) (some s) (inr y) (inr z) = inr z

  -- A row that is put in keeps the others, and the one with its key if that is what it keeps.
  put-Kept :
      (rows : List (Text × WalletTx F)) (tx : WalletTx F) (k : Text)
      → Kept (get (wallet_tx_row_key tx) rows) (some tx)
      → Kept (get k rows) (get k (put (wallet_tx_row_key tx) tx rows))
  put-Kept rows tx k h =
      let key = wallet_tx_row_key tx in
      elim (Bool-cases (text_eq key k)) [
        | inl e ↦
            let same : key ≡ k = (text_eq_iff key k).0 e in
            subst (λ x. Kept (get x rows) (get x (put key tx rows))) same
              (rw (get-put_self key tx rows) h)
        | inr n ↦ rw (get-put key k tx rows, n) (Kept-refl (get k rows))
      ]

  -- What is decided at the key of the new row.
  over-Kept :
      (existing : Option (WalletTx F)) (tx : WalletTx F) (rows : List (Text × WalletTx F))
      (k : Text)
      → get (wallet_tx_row_key tx) rows ≡ existing
      → Kept (get k rows) (get k (add_over existing tx rows))
        × Kept (some tx) (get (wallet_tx_row_key tx) (add_over existing tx rows))
  unfolding add_over
  over-Kept none tx rows k g = (
    put-Kept rows tx k (rw g tt),
    rw (get-put_self (wallet_tx_row_key tx) tx rows) (Kept-refl (some tx)),
  )
  over-Kept (some e) tx rows k g =
      let key = wallet_tx_row_key tx in
      let self : Kept (some tx) (get key (put key tx rows)) =
        rw (get-put_self key tx rows) (Kept-refl (some tx)) in
      elim (Bool-cases (tx_history_confirmed tx)) [
        | inl y ↦ elim (Bool-cases (tx_history_confirmed e)) [
          | inl z ↦ rw (add_over, y, z) (put-Kept rows tx k (rw g (inr y)), self)
          | inr n ↦ rw (add_over, y, n) (put-Kept rows tx k (rw g (inr y)), self)
        ]
        | inr n ↦ elim (Bool-cases (tx_history_confirmed e)) [
          | inl z ↦ rw (add_over, n, z) (Kept-refl (get k rows), rw g (inl n))
          | inr m ↦ rw (add_over, n, m) (put-Kept rows tx k (rw g (inl m)), self)
        ]
      ]

  add_pending-Kept :
      (rows : List (Text × WalletTx F)) (tx : WalletTx F) (k : Text)
      → Kept (get k rows) (get k (add_pending rows tx))
        × Kept (some tx) (get (wallet_tx_row_key tx) (add_pending rows tx))
  unfolding add_pending
  add_pending-Kept rows tx k = over-Kept (get (wallet_tx_row_key tx) rows) tx rows k refl

  add_all-Kept :
      (rows : List (Text × WalletTx F)) (pending : List (WalletTx F)) (k : Text)
      → Kept (get k rows) (get k (add_all rows pending))
  unfolding add_all
  add_all-Kept rows [] k = Kept-refl (get k rows)
  add_all-Kept rows (tx ∷ pending) k =
      Kept-trans (get k rows) (get k (add_pending rows tx)) _ (add_pending-Kept rows tx k).0
        (add_all-Kept (add_pending rows tx) pending k)

  pending-Kept :
      (rows : List (Text × WalletTx F)) (pending : List (WalletTx F))
      → All (λ tx. Kept (some tx) (get (wallet_tx_row_key tx) (add_all rows pending))) pending
  unfolding add_all
  pending-Kept rows [] = tt
  pending-Kept rows (tx ∷ pending) = (
    Kept-trans (some tx) (get (wallet_tx_row_key tx) (add_pending rows tx)) _
        (add_pending-Kept rows tx (wallet_tx_row_key tx)).1
        (add_all-Kept (add_pending rows tx) pending (wallet_tx_row_key tx)),
    pending-Kept (add_pending rows tx) pending,
  )

  newer_total : (a b : WalletTx F) → newer a b ≡ false → newer b a ≡ true
  newer_total a b e = ground arith

  newer_trans : (a b c : WalletTx F) → newer a b ≡ true → newer b c ≡ true → newer a c ≡ true
  newer_trans a b c e f = ground arith

  -- For a map that gives each of its rows once, in whatever order: the merged history is sorted, the
  -- later rows first and of one time the higher ones; its rows are those of the map; and every row of
  -- the base, as the map has it, and every pending row has a row with its key in the map, which is
  -- confirmed if the row was.
  pub merge_tx_history-Merged :
      (values : List (Text × WalletTx F) → List (WalletTx F)) (base pending : List (WalletTx F))
      → ((rows : List (Text × WalletTx F)) → Perm (values rows) (map (λ r. r.1) rows))
      → IsSortedBy newer (merge_tx_history values base pending)
        × Perm
            (merge_tx_history values base pending)
            (map (λ r. r.1) (add_all (collect_rows [] base) pending))
        × ((k : Text)
            → Kept (get k (collect_rows [] base)) (get k (add_all (collect_rows [] base) pending)))
        × All
            (λ tx.
              Kept (some tx) (get (wallet_tx_row_key tx) (add_all (collect_rows [] base) pending)))
            pending
  unfolding merge_tx_history
  merge_tx_history-Merged values base pending h =
      let rows = add_all (collect_rows [] base) pending in
      (
        sort_by-IsSortedBy newer newer_total newer_trans (values rows),
        Perm.trans (sort_by-perm newer (values rows)) (h rows),
        (λ k. add_all-Kept (collect_rows [] base) pending k),
        pending-Kept (collect_rows [] base) pending,
      )
