-- ===== src/Tx/Sighash/Laws.antt =====
-- What a signature hash depends on.
use vericonomy_sdk.Base.{
  ℕ, zero, suc, ◌/◌, ◌%◌, ◌<◌, ◌≡◌, refl, ap, ◌∙◌, sym, arith, false, Option, none, some, List, [],
  ◌∷◌, length, replicate, ◌++◌, get_elem?, leb, ◌==◌, Bool-cases, inl, inr,
}
use vericonomy_sdk.Int.{ℤ}
use vericonomy_sdk.Errors.{Result, ok, ◌>>=◌}
use vericonomy_sdk.Tx.Script.{Bytes, find_and_delete_code_separators}
use vericonomy_sdk.Tx.Wire.{Wire, TxIn, VeriumMutableTx, serialize_verium_tx}
use vericonomy_sdk.Tx.Sighash.{
  single_output, hash_copy, double_sha256, le_bytes, as_u32, clear_scripts, set_script, zero_others,
  mask_outputs, mask_inputs, signing_copy, verium_signature_hash,
}

pub clear_scripts-set_script :
    (is : List TxIn) (j : ℕ) (s : Bytes) → clear_scripts (set_script is j s) ≡ clear_scripts is
clear_scripts-set_script [] j s = refl
clear_scripts-set_script (i ∷ is) zero s = refl
clear_scripts-set_script (i ∷ is) (suc j) s = rw (clear_scripts-set_script is j s)

pub length-set_script :
    (is : List TxIn) (j : ℕ) (s : Bytes) → length (set_script is j s) ≡ length is
length-set_script [] j s = refl
length-set_script (i ∷ is) zero s = refl
length-set_script (i ∷ is) (suc j) s = ap suc (length-set_script is j s)

module _ (w : Wire) (sha256 : Bytes → Bytes) where
  -- The hash that an input signs does not depend on the scripts that the inputs carry already: a
  -- signature may be put into any of them before or after the hash is taken.
  pub verium_signature_hash-set_script :
      (tx : VeriumMutableTx) (j : ℕ) (s : Bytes) (input_index : ℕ) (script_code : Bytes)
      (hash_type : ℤ)
      → verium_signature_hash w sha256
          (record tx { inputs = set_script tx.inputs j s })
          input_index
          script_code
          hash_type
        ≡ verium_signature_hash w sha256 tx input_index script_code hash_type
  unfolding verium_signature_hash signing_copy
  verium_signature_hash-set_script tx j s i code h =
      rw (length-set_script tx.inputs j s, clear_scripts-set_script tx.inputs j s)

length-clear_scripts : (is : List TxIn) → length (clear_scripts is) ≡ length is
length-clear_scripts [] = refl
length-clear_scripts (i ∷ is) = ap suc (length-clear_scripts is)

get_elem?-zero_others : (is : List TxIn) (i : ℕ) → get_elem? (zero_others is i) i ≡ get_elem? is i
get_elem?-zero_others [] i = refl
get_elem?-zero_others (x ∷ is) zero = refl
get_elem?-zero_others (x ∷ is) (suc i) = get_elem?-zero_others is i

-- The signed input in the signing copy depends on that input alone.
get_elem?-signing :
    (is js : List TxIn) (i : ℕ) (s : Bytes)
    → get_elem? is i ≡ get_elem? js i
    → get_elem? (set_script (clear_scripts is) i s) i
      ≡ get_elem? (set_script (clear_scripts js) i s) i
get_elem?-signing [] [] i s e = refl
get_elem?-signing [] (y ∷ js) zero s e = cc
get_elem?-signing [] (y ∷ js) (suc i) s e = get_elem?-signing [] js i s e
get_elem?-signing (x ∷ is) [] zero s e = cc
get_elem?-signing (x ∷ is) [] (suc i) s e = get_elem?-signing is [] i s e
get_elem?-signing (x ∷ is) (y ∷ js) zero s e = ground arith
get_elem?-signing (x ∷ is) (y ∷ js) (suc i) s e = get_elem?-signing is js i s e

abbrev pub with_inputs : VeriumMutableTx → List TxIn → VeriumMutableTx
with_inputs tx is = record tx { inputs = is }

-- Masking the outputs first does not change what the alone input is.
alone :
    (tx : VeriumMutableTx) (is js : List TxIn) (i t : ℕ)
    → get_elem? is i ≡ get_elem? js i
    → ((t / 128 % 2) == 0) ≡ false
    → mask_inputs (with_inputs tx is) i t ≡ mask_inputs (with_inputs tx js) i t
unfolding mask_inputs
alone tx is js i t e bit = rw (bit, e)

abbrev masked : (Option VeriumMutableTx) → ℕ → ℕ → Option VeriumMutableTx
masked none i t = none
masked (some tx) i t = some (mask_inputs tx i t)

masked-alone :
    (tx : VeriumMutableTx) (is js : List TxIn) (i t : ℕ)
    → get_elem? is i ≡ get_elem? js i
    → ((t / 128 % 2) == 0) ≡ false
    → masked (mask_outputs (with_inputs tx is) i t) i t
      ≡ masked (mask_outputs (with_inputs tx js) i t) i t
unfolding mask_outputs
masked-alone tx is js i t e bit =
    let others : get_elem? (zero_others is i) i ≡ get_elem? (zero_others js i) i =
      get_elem?-zero_others is i ∙ e ∙ sym (get_elem?-zero_others js i) in
    elim (Bool-cases ((t % 32) == 2)) [
      | inl n ↦ rw (n, alone tx (zero_others is i) (zero_others js i) i t others bit)
      | inr n ↦ elim (Bool-cases ((t % 32) == 3)) [
        | inr s ↦ rw (n, s, alone tx is js i t e bit)
        | inl s ↦ elim (Bool-cases (leb (length tx.outputs) i)) [
          | inl out ↦ rw (n, s, out)
          | inr inside ↦
              let tx' = record tx { outputs = single_output tx.outputs i } in
              rw (n, s, inside, alone tx' (zero_others is i) (zero_others js i) i t others bit)
        ]
      ]
    ]

module _ (w : Wire) (sha256 : Bytes → Bytes) where
  digest : ℕ → Option VeriumMutableTx → Result Bytes
  digest t none = ok (replicate 32 1)
  digest t (some tmp) =
      (serialize_verium_tx w tmp) >>= λ bytes. ok (double_sha256 w sha256 (bytes ++ le_bytes t))

  hash_copy-digest :
      (i t : ℕ) (o : Option VeriumMutableTx) → hash_copy w sha256 i t o ≡ digest t (masked o i t)
  unfolding hash_copy digest
  hash_copy-digest i t none = refl
  hash_copy-digest i t (some tmp) = refl

  -- With the ANYONECANPAY bit set, the hash of an input depends on no other input: two transactions
  -- that agree but for their inputs, and on the input that signs at the same index, give it the same
  -- hash.
  pub verium_signature_hash_alone :
      (tx : VeriumMutableTx) (is js : List TxIn) (input_index : ℕ) (script_code : Bytes)
      (hash_type : ℤ)
      → get_elem? is input_index ≡ get_elem? js input_index
      → input_index < length is
      → input_index < length js
      → (as_u32 hash_type / 128 % 2) ≡ 1
      → verium_signature_hash w sha256 (with_inputs tx is) input_index script_code hash_type
        ≡ verium_signature_hash w sha256 (with_inputs tx js) input_index script_code hash_type
  unfolding verium_signature_hash signing_copy
  verium_signature_hash_alone tx is js i code h e lt lt' bit =
      let in_is : leb (length is) i ≡ false = ground arith in
      let in_js : leb (length js) i ≡ false = ground arith in
      let t = as_u32 h in
      let s = find_and_delete_code_separators code in
      rw (in_is, in_js)
        (hash_copy-digest i t _
          ∙ ap (digest t) (
              masked-alone tx (set_script (clear_scripts is) i s)
                (set_script (clear_scripts js) i s) i t (get_elem?-signing is js i s e)
                (ground arith))
          ∙ sym (hash_copy-digest i t _))
