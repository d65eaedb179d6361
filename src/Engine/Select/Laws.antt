-- ===== src/Engine/Select/Laws.antt =====
-- What `select_utxos` returns: coins of the wallet that cover the amount, as few as the order allows.
use vericonomy_sdk.Base.{
  ℕ, ◌+◌, ◌^◌, ◌≤◌, ◌<◌, ◌≡◌, refl, ◌⊎◌, inl, inr, arith, List, [], ◌∷◌, ◌++◌, All, ◌∙◌, ap, subst,
  true, false, Bool-cases, filter, filter_holds, filter_none, not,
}
use mathlib.Core.List.{Perm, append_assoc}
use mathlib.Core.List.Perm
use vericonomy_sdk.Base.Sort.{
  sort_by, sort_by-perm, All-sort_by, IsSortedBy, sort_by-IsSortedBy, sort_by_head-least,
  sort_by_nil, filter-perm,
}
use vericonomy_sdk.Int.{ℤ, pos, pos_part, leb_ℤ}
use vericonomy_sdk.Int.I64
use vericonomy_sdk.Text.{codes}
use vericonomy_sdk.Errors.{ok, err, insufficient_funds}
use vericonomy_sdk.Chain.{Utxo}
use vericonomy_sdk.Engine.Money.{total, IsAmount, MoneyRange, add_value, total-append, total-perm}
use vericonomy_sdk.Engine.Select.{value_le, accumulate, first_or_accumulate, select_utxos}

-- A run of the loop that reaches the amount with the coin `x`.
record Reaches (n s : ℕ) (us sel : List Utxo) : Type 0 where
  front : List Utxo
  x : Utxo
  rest : List Utxo
  split : us ≡ front ++ x ∷ rest
  result : accumulate (pos n) us sel (pos s) ≡ ok (sel ++ (front ++ x ∷ []))
  short : s + total front < n
  enough : n ≤ s + total front + pos_part x.value_sats

accumulate-Reaches :
    (n s : ℕ) (us sel : List Utxo)
    → All IsAmount us
    → s + total us < 2 ^ 63
    → s < n
    → n ≤ s + total us
    → Reaches n s us sel
unfolding accumulate
accumulate-Reaches n s [] sel h k lt le = absurd (omega arith)
accumulate-Reaches n s (u ∷ us) sel h k lt le =
    elim (Bool-cases (leb_ℤ (pos n) (pos (s + pos_part u.value_sats)))) [
      | inl e ↦ record {
        front = [];
        x = u;
        rest = us;
        split = refl;
        result = rw (add_value s u h.0 (omega arith), e);
        short = omega arith;
        enough = ground arith;
      }
      | inr e ↦
          let ih : Reaches n (s + pos_part u.value_sats) us (sel ++ u ∷ []) =
            accumulate-Reaches n (s + pos_part u.value_sats) us (sel ++ u ∷ []) h.1 (omega arith)
              (ground arith) (omega arith) in
          record {
            front = u ∷ ih.front;
            x = ih.x;
            rest = ih.rest;
            split = ap (◌∷◌ u) ih.split;
            result =
                rw (add_value s u h.0 (omega arith), e)
                  (ih.result ∙ ap ok (append_assoc sel (u ∷ []) (ih.front ++ ih.x ∷ [])));
            short = omega (arith, ih.short);
            enough = omega (arith, ih.enough);
          }
    ]

pub accumulate-fails :
    (n s : ℕ) (us sel : List Utxo)
    → All IsAmount us
    → s + total us < 2 ^ 63
    → s + total us < n
    → accumulate (pos n) us sel (pos s) ≡ err (insufficient_funds (codes "insufficient funds"))
unfolding accumulate
accumulate-fails n s [] sel h k lt = refl
accumulate-fails n s (u ∷ us) sel h k lt =
    let e : leb_ℤ (pos n) (pos (s + pos_part u.value_sats)) ≡ false = ground arith in
    rw (add_value s u h.0 (omega arith), e)
      (accumulate-fails n (s + pos_part u.value_sats) us (sel ++ u ∷ []) h.1 (omega arith)
        (omega arith))

value_le_total : (u v : Utxo) → value_le u v ≡ false → value_le v u ≡ true
value_le_total u v h = ground arith

value_le_trans : (u v w : Utxo) → value_le u v ≡ true → value_le v w ≡ true → value_le u w ≡ true
value_le_trans u v w h k = ground arith

pub sort-IsSorted : (us : List Utxo) → IsSortedBy value_le (sort_by value_le us)
sort-IsSorted = sort_by-IsSortedBy value_le value_le_total value_le_trans

-- Sorting changes neither the total nor the range.
pub total-sort : (us : List Utxo) → total (sort_by value_le us) ≡ total us
total-sort us = total-perm (sort_by-perm value_le us)

pub sort-MoneyRange : (us : List Utxo) → MoneyRange us → MoneyRange (sort_by value_le us)
sort-MoneyRange us h = (All-sort_by value_le IsAmount us h.0, rw (total-sort us) h.1)

-- The coins that suffice alone, cheapest first.
abbrev pub sufficient : ℕ → List Utxo → List Utxo
sufficient n utxos = filter (λ u. leb_ℤ (pos n) u.value_sats) utxos

abbrev pub sorted_sufficient : ℕ → List Utxo → List Utxo
sorted_sufficient n utxos = sort_by value_le (sufficient n utxos)

-- The cheapest of the coins that suffice alone.
pub record Single (n : ℕ) (utxos sel : List Utxo) : Type 0 where
  pub best : Utxo
  pub alone : sel ≡ best ∷ []
  pub suffices : n ≤ pos_part best.value_sats
  pub cheapest : All (λ u. value_le best u ≡ true) (sufficient n utxos)

-- No coin suffices alone: the cheapest coins, up to the one that reaches `n`.
pub record Several (n : ℕ) (utxos sel : List Utxo) : Type 0 where
  pub none_alone : All (λ u. leb_ℤ (pos n) u.value_sats ≡ false) utxos
  pub front : List Utxo
  pub last : Utxo
  pub rest : List Utxo
  pub cheapest : sort_by value_le utxos ≡ front ++ last ∷ rest
  pub chosen : sel ≡ front ++ last ∷ []
  pub short : total front < n

-- What a successful selection for `n` satoshis is.
pub record Selection (n : ℕ) (utxos sel : List Utxo) : Type 0 where
  pub others : List Utxo
  pub from_wallet : Perm (sel ++ others) utxos
  pub covers : n ≤ total sel
  pub shape : Single n utxos sel ⊎ Several n utxos sel

value_enough : (n : ℕ) (u : Utxo) → leb_ℤ (pos n) u.value_sats ≡ true → n ≤ pos_part u.value_sats
value_enough n u h = ground arith

pub single :
    (n : ℕ) (utxos : List Utxo) (best : Utxo) (others : List Utxo)
    → sorted_sufficient n utxos ≡ best ∷ others
    → Selection n utxos (best ∷ [])
single n utxos best others e =
    let p = subst (λ l. Perm l (sufficient n utxos)) e (sort_by-perm value_le _) in
    let holds = subst (All (λ u. leb_ℤ (pos n) u.value_sats ≡ true)) e (
      All-sort_by value_le _ (sufficient n utxos)
        (filter_holds (λ u. leb_ℤ (pos n) u.value_sats) utxos)) in
    let covered : n ≤ pos_part best.value_sats = value_enough n best holds.0 in
    record {
      others = others ++ filter (λ u. not (leb_ℤ (pos n) u.value_sats)) utxos;
      from_wallet =
          Perm.trans (Perm.append_right _ p) (filter-perm (λ u. leb_ℤ (pos n) u.value_sats) utxos);
      covers = omega (arith, covered);
      shape = inl (record {
        best = best;
        alone = refl;
        suffices = covered;
        cheapest = sort_by_head-least value_le value_le_total value_le_trans (sufficient n utxos) e;
      });
    }

-- No sorted coin is sufficient, so none of the wallet is.
none_sufficient :
    (n : ℕ) (utxos : List Utxo)
    → sorted_sufficient n utxos ≡ []
    → All (λ u. leb_ℤ (pos n) u.value_sats ≡ false) utxos
none_sufficient n utxos e =
    filter_none (λ u. leb_ℤ (pos n) u.value_sats) utxos
      (sort_by_nil value_le (sufficient n utxos) e)

Reaches-Selection :
    (n : ℕ) (utxos : List Utxo)
    → sorted_sufficient n utxos ≡ []
    → (r : Reaches n 0 (sort_by value_le utxos) []) → Selection n utxos (r.front ++ r.x ∷ [])
Reaches-Selection n utxos e r = record {
  others = r.rest;
  from_wallet =
      rw (append_assoc r.front (r.x ∷ []) r.rest)
        (subst (λ l. Perm l utxos) r.split (sort_by-perm value_le utxos));
  covers = omega (arith, total-append r.front (r.x ∷ []), r.enough);
  shape = inr (record {
    none_alone = none_sufficient n utxos e;
    front = r.front;
    last = r.x;
    rest = r.rest;
    cheapest = r.split;
    chosen = refl;
    short = omega (arith, r.short);
  });
}

-- With enough money the selection succeeds.
pub select_by_cases :
    (n : ℕ) (utxos : List Utxo)
    → MoneyRange utxos
    → 0 < n
    → n ≤ total utxos
    → (found : List Utxo) → sorted_sufficient n utxos ≡ found
    → (sel : List Utxo) × (first_or_accumulate (pos n) utxos found ≡ ok sel) × Selection n utxos sel
unfolding first_or_accumulate
select_by_cases n utxos h lt le (best ∷ others) e = (best ∷ [], refl, single n utxos best others e)
select_by_cases n utxos h lt le [] e =
    let range = sort-MoneyRange utxos h in
    let r =
      accumulate-Reaches n 0 (sort_by value_le utxos) [] range.0 (omega arith) lt
        (omega (arith, total-sort utxos)) in
    (r.front ++ r.x ∷ [], r.result, Reaches-Selection n utxos e r)

pub select_step :
    (utxos : List Utxo) (target fee : ℤ) (n : ℕ)
    → I64.add target fee ≡ pos n
    → 0 < n
    → select_utxos utxos target fee ≡ first_or_accumulate (pos n) utxos (sorted_sufficient n utxos)
unfolding select_utxos
select_step utxos target fee n e h =
    let positive : leb_ℤ (pos n) (pos 0) ≡ false = ground arith in rw (e, positive)
