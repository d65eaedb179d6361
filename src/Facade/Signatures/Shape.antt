-- ===== src/Facade/Signatures/Shape.antt =====
-- The shape of a script that pays to a key hash, and of one that spends from it.
use vericonomy_sdk.Base.{
  ℕ, zero, suc, ◌+◌, ◌≡◌, refl, sym, ap, subst, ◌∙◌, arith, Bool, true, false, ◌&&◌, Bool-cases,
  inl, inr, Option, none, some, List, [], ◌∷◌, ◌++◌, length, get_elem?, take, drop, ◌==◌, ==_iff,
}
use vericonomy_sdk.Errors.{ok}
use vericonomy_sdk.Tx.Script.{Bytes}
use vericonomy_sdk.Facade.Signatures.{byte_is, p2pkh_pubkey_hash, two_pushes, split_last}

-- OP_DUP OP_HASH160 <hash> OP_EQUALVERIFY OP_CHECKSIG
abbrev pub p2pkh_script : Bytes → Bytes
p2pkh_script hash = 0x76 ∷ 0xa9 ∷ 0x14 ∷ hash ++ 0x88 ∷ 0xac ∷ []

both : (a b : Bool) → (a && b) ≡ true → (a ≡ true) × (b ≡ true)
both true b e = (refl, e)
both false b e = cc

byte_is-found : (bytes : Bytes) (i b : ℕ) → byte_is bytes i b ≡ true → get_elem? bytes i ≡ some b
byte_is-found bytes i b e = at (get_elem? bytes i) e
  where
    at : (o : Option ℕ) → elim o [ none ↦ false | some c ↦ c == b ] ≡ true → o ≡ some b
    at none h = cc
    at (some c) h = ap some ((==_iff c b).0 h)

-- A list with two elements after the first `n`.
take_two :
    (n a b : ℕ) (xs : Bytes)
    → length xs ≡ n + 2
    → get_elem? xs n ≡ some a
    → get_elem? xs (suc n) ≡ some b
    → (xs ≡ take n xs ++ a ∷ b ∷ []) × (length (take n xs) ≡ n)
take_two n a b [] l e f = cc
take_two zero a b (x ∷ []) l e f = cc
take_two zero a b (x ∷ y ∷ []) l e f = (cc, refl)
take_two zero a b (x ∷ y ∷ z ∷ xs) l e f = absurd (omega (arith, l))
take_two (suc n) a b (x ∷ xs) l e f =
    let (same, len) = take_two n a b xs (omega (arith, l)) e f in (ap (λ t. x ∷ t) same, ap suc len)

p2pkh-shape :
    (script : Bytes)
    → length script ≡ 25
    → get_elem? script 0 ≡ some 0x76
    → get_elem? script 1 ≡ some 0xa9
    → get_elem? script 2 ≡ some 0x14
    → get_elem? script 23 ≡ some 0x88
    → get_elem? script 24 ≡ some 0xac
    → (script ≡ p2pkh_script (take 20 (drop 3 script))) × (length (take 20 (drop 3 script)) ≡ 20)
p2pkh-shape [] l a b c d e = cc
p2pkh-shape (x ∷ []) l a b c d e = cc
p2pkh-shape (x ∷ y ∷ []) l a b c d e = cc
p2pkh-shape (x ∷ y ∷ z ∷ rest) l a b c d e =
    let (same, len) = take_two 20 0x88 0xac rest (omega (arith, l)) d e in (cc, len)

some_eq : {a b : Bytes} → some a ≡ some b → a ≡ b
some_eq e = cc

pub p2pkh_pubkey_hash-found :
    (script hash : Bytes)
    → p2pkh_pubkey_hash script ≡ some hash
    → (script ≡ p2pkh_script hash) × (length hash ≡ 20)
unfolding p2pkh_pubkey_hash
p2pkh_pubkey_hash-found script hash e =
    elim (Bool-cases (
      length script == 25
      && (byte_is script 0 0x76
          && (byte_is script 1 0xa9
              && (byte_is script 2 0x14 && (byte_is script 23 0x88 && byte_is script 24 0xac)))))) [
                | inr miss ↦ cc (rw miss at e)
                | inl hit ↦
                    let (l, e1) = both _ _ hit in
                    let (b0, e2) = both _ _ e1 in
                    let (b1, e3) = both _ _ e2 in
                    let (b2, e4) = both _ _ e3 in
                    let (b23, b24) = both _ _ e4 in
                    let got : some (take 20 (drop 3 script)) ≡ some hash = rw hit at e in
                    let same : take 20 (drop 3 script) ≡ hash = some_eq got in
                    subst (λ h. (script ≡ p2pkh_script h) × (length h ≡ 20)) same
                      (p2pkh-shape script ((==_iff _ _).0 l) (byte_is-found script 0 0x76 b0)
                        (byte_is-found script 1 0xa9 b1) (byte_is-found script 2 0x14 b2)
                        (byte_is-found script 23 0x88 b23) (byte_is-found script 24 0xac b24))
              ]

pub two_pushes-eq :
    (pushes : List Bytes) (a b : Bytes) → two_pushes pushes ≡ ok (a, b) → pushes ≡ a ∷ b ∷ []
unfolding two_pushes
two_pushes-eq [] a b e = cc
two_pushes-eq (x ∷ []) a b e = cc
two_pushes-eq (x ∷ y ∷ []) a b e = cc
two_pushes-eq (x ∷ y ∷ z ∷ rest) a b e = cc

abbrev front_of : ℕ → Option (Bytes × ℕ) → Option (Bytes × ℕ)
front_of x none = some ([], x)
front_of x (some r) = some (x ∷ r.0, r.1)

-- What `split_last` gives, put together again.
abbrev glued : Option (Bytes × ℕ) → Bytes
glued none = []
glued (some r) = r.0 ++ r.1 ∷ []

glued-front_of : (x : ℕ) (r : Option (Bytes × ℕ)) → glued (front_of x r) ≡ x ∷ glued r
glued-front_of x none = refl
glued-front_of x (some r) = refl

glued-split_last : (bytes : Bytes) → glued (split_last bytes) ≡ bytes
unfolding split_last
glued-split_last [] = refl
glued-split_last (x ∷ bytes) =
    opened (split_last bytes)
    ∙ (glued-front_of x (split_last bytes) ∙ ap (λ t. x ∷ t) (glued-split_last bytes))
  where
    opened :
        (r : Option (Bytes × ℕ))
        → glued (elim r [ none ↦ some ([], x) | some q ↦ some (x ∷ q.0, q.1) ])
          ≡ glued (front_of x r)
    opened none = refl
    opened (some q) = refl

pub split_last-eq :
    (bytes front : Bytes) (last : ℕ)
    → split_last bytes ≡ some (front, last)
    → bytes ≡ front ++ last ∷ []
split_last-eq bytes front last e = sym (glued-split_last bytes) ∙ ap glued e
