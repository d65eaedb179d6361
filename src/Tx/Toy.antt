-- ===== src/Tx/Toy.antt =====
-- Encodings, digits and signatures that satisfy what the model asks of the crates it is given, so
-- that the code runs in tests: a number for each field, and a list behind its length.
use mathlib.Core.List.{reverse, append_assoc}
use vericonomy_sdk.Base.{
  ℕ, zero, suc, ◌≡◌, refl, ap, true, List, [], ◌∷◌, ◌++◌, length, ◌⊎◌, inl, inr,
}
use vericonomy_sdk.Int.{ℤ, pos, negsuc}
use vericonomy_sdk.Text.{Text, codes}
use vericonomy_sdk.Hex.{Hex}
use vericonomy_sdk.Tx.Script.{Bytes}
use vericonomy_sdk.Tx.Wire.{Codec, Wire, TxIn, TxOut}
use vericonomy_sdk.Tx.Sign.{Secp}

abbrev onward : {A B : Type 0} → Text ⊎ A → (A → Text ⊎ B) → Text ⊎ B
onward (inl e) k = inl e
onward (inr a) k = k a

abbrev number : Bytes → Text ⊎ (ℕ × Bytes)
number [] = inl (codes "end of input")
number (n ∷ rest) = inr (n, rest)

abbrev nat_codec : Codec ℕ
nat_codec = record {
  IsEncodable = λ n. Unit {0};
  consensus_encode = λ n. n ∷ [];
  consensus_decode = number;
  decode-encode = λ n rest h. refl;
}

abbrev both : {A B : Type 0} → Codec A → Codec B → Codec (A × B)
both c d = record {
  IsEncodable = λ p. c.IsEncodable p.0 × d.IsEncodable p.1;
  consensus_encode = λ p. c.consensus_encode p.0 ++ d.consensus_encode p.1;
  consensus_decode = λ bytes.
      onward (c.consensus_decode bytes)
        (λ r. onward (d.consensus_decode r.1) (λ s. inr ((r.0, s.0), s.1)));
  decode-encode = λ p rest h.
      rw (append_assoc (c.consensus_encode p.0) (d.consensus_encode p.1) rest) (
        rw (c.decode-encode p.0 (d.consensus_encode p.1 ++ rest) h.0)
          (rw (d.decode-encode p.1 rest h.1) refl));
}

abbrev via :
    {A B : Type 0} (to : A → B) (from : B → A) → ((b : B) → to (from b) ≡ b) → Codec A → Codec B
via to from same c = record {
  IsEncodable = λ b. c.IsEncodable (from b);
  consensus_encode = λ b. c.consensus_encode (from b);
  consensus_decode = λ bytes. onward (c.consensus_decode bytes) (λ r. inr (to r.0, r.1));
  decode-encode =
      λ b rest h. rw (c.decode-encode (from b) rest h) (ap (λ x. inr (x, rest)) (same b));
}

module _ {A : Type 0} (c : Codec A) where
  abbrev encode_all : List A → Bytes
  encode_all [] = []
  encode_all (x ∷ xs) = c.consensus_encode x ++ encode_all xs

  abbrev decode_all : ℕ → Bytes → Text ⊎ (List A × Bytes)
  decode_all zero bytes = inr ([], bytes)
  decode_all (suc n) bytes =
      onward (c.consensus_decode bytes) (λ r. onward (decode_all n r.1) (λ s. inr (r.0 ∷ s.0, s.1)))

  abbrev AllEncodable : List A → Type 0
  AllEncodable [] = Unit {0}
  AllEncodable (x ∷ xs) = c.IsEncodable x × AllEncodable xs

  pub decode_all-encode_all :
      (xs : List A) (rest : Bytes)
      → AllEncodable xs
      → decode_all (length xs) (encode_all xs ++ rest) ≡ inr (xs, rest)
  decode_all-encode_all [] rest h = refl
  decode_all-encode_all (x ∷ xs) rest h =
      rw (append_assoc (c.consensus_encode x) (encode_all xs) rest) (
        rw (c.decode-encode x (encode_all xs ++ rest) h.0)
          (rw (decode_all-encode_all xs rest h.1) refl))

  abbrev list_codec : Codec (List A)
  list_codec = record {
    IsEncodable = AllEncodable;
    consensus_encode = λ xs. length xs ∷ encode_all xs;
    consensus_decode = λ bytes. onward (number bytes) (λ r. decode_all r.0 r.1);
    decode-encode = decode_all-encode_all;
  }

abbrev to_int : ℕ × ℕ → ℤ
to_int (zero, n) = pos n
to_int (suc s, n) = negsuc n

abbrev of_int : ℤ → ℕ × ℕ
of_int (pos n) = (0, n)
of_int (negsuc n) = (1, n)

pub of_int-back : (x : ℤ) → to_int (of_int x) ≡ x
of_int-back (pos n) = refl
of_int-back (negsuc n) = refl

abbrev in_codec : Codec TxIn
in_codec =
    via {A = (Bytes × ℕ) × (Bytes × ℕ)}
      (λ p. record {
        previous_output = record { txid = p.0.0; vout = p.0.1 };
        script_sig = p.1.0;
        sequence = p.1.1;
      })
      (λ i. ((i.previous_output.txid, i.previous_output.vout), (i.script_sig, i.sequence)))
      (λ i. refl)
      (both (both (list_codec nat_codec) nat_codec) (both (list_codec nat_codec) nat_codec))

abbrev out_codec : Codec TxOut
out_codec =
    via {A = ℕ × Bytes} (λ p. record { value = p.0; script_pubkey = p.1 })
      (λ o. (o.value, o.script_pubkey)) (λ o. refl) (both nat_codec (list_codec nat_codec))

abbrev pub toy_wire : Wire
toy_wire = record {
  i32 = via to_int of_int of_int-back (both nat_codec nat_codec);
  u32 = nat_codec;
  tx_ins = list_codec in_codec;
  tx_outs = list_codec out_codec;
}

-- Bytes as their own digits.
abbrev pub toy_hex : Hex
toy_hex = record { encode = λ b. b; decode = inr; decode-encode = λ b. refl }

abbrev pub toy_sha256 : Bytes → Bytes
toy_sha256 = reverse

abbrev pub toy_secp : Secp
toy_secp = record {
  message = inr;
  secret_key = inr;
  public_key = λ sk. 7 ∷ sk;
  sign_ecdsa = λ m sk. m ++ sk;
  verify_ecdsa = λ m sig pk. inr tt;
  can_push = λ b. true;
  push_slice = λ b. length b ∷ b;
}
