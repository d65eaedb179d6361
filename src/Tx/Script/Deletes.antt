-- ===== src/Tx/Script/Deletes.antt =====
-- What the deletion does to a well-formed script, described by its instructions.
use vericonomy_sdk.Base.{
  ℕ, zero, suc, ◌+◌, ◌-◌, ◌/◌, ◌%◌, ◌≤◌, ◌<◌, ◌≡◌, refl, sym, ap, ◌∙◌, arith, Bool, true, false,
  not, some, List, [], ◌∷◌, ◌++◌, length, length-append, get_elem?, take, drop, filter, All, leb,
  ◌==◌, if◌then◌else◌, Bool-cases, inl, inr, ◌⊎◌,
}
use mathlib.Core.List.{append_assoc, append-nil}
use vericonomy_sdk.Tx.Script.{
  Bytes, byte_at, slice, next_script_instruction, delete_rounds, find_and_delete_code_separators,
  finished,
}

-- An opcode without operand, or one of the four ways to push data.
pub data Instruction : Type 0 where
  op : ℕ → Instruction
  push push_data1 push_data2 push_data4 : Bytes → Instruction

abbrev pub le16 : ℕ → Bytes
le16 n = n % 256 ∷ n / 256 ∷ []

abbrev pub le32 : ℕ → Bytes
le32 n = n % 256 ∷ n / 256 % 256 ∷ n / 65536 % 256 ∷ n / 16777216 ∷ []

abbrev pub head_bytes : Instruction → Bytes
head_bytes (op c) = c ∷ []
head_bytes (push d) = length d ∷ []
head_bytes (push_data1 d) = 0x4c ∷ length d ∷ []
head_bytes (push_data2 d) = 0x4d ∷ le16 (length d)
head_bytes (push_data4 d) = 0x4e ∷ le32 (length d)

abbrev pub operand : Instruction → Bytes
operand (op c) = []
operand (push d) = d
operand (push_data1 d) = d
operand (push_data2 d) = d
operand (push_data4 d) = d

abbrev pub encode : Instruction → Bytes
encode i = head_bytes i ++ operand i

-- The lengths that each form can carry.
abbrev pub IsWellFormed : Instruction → Type 0
IsWellFormed (op c) = (c ≡ 0) ⊎ (0x4e < c)
IsWellFormed (push d) = (1 ≤ length d) × (length d ≤ 0x4b)
IsWellFormed (push_data1 d) = length d < 256
IsWellFormed (push_data2 d) = length d < 65536
IsWellFormed (push_data4 d) = length d < 4294967296

abbrev pub is_separator : Instruction → Bool
is_separator (op c) = c == 0xab
is_separator _ = false

abbrev pub script_of : List Instruction → Bytes
script_of [] = []
script_of (i ∷ is) = encode i ++ script_of is

get_elem?-append : (pre l : Bytes) (k : ℕ) → get_elem? (pre ++ l) (length pre + k) ≡ get_elem? l k
get_elem?-append [] l k = ap (get_elem? l) (omega arith)
get_elem?-append (x ∷ pre) l k =
    let e : suc (length pre) + k ≡ suc (length pre + k) = omega arith in
    rw e (get_elem?-append pre l k)

byte_at-append : (pre l : Bytes) (k : ℕ) → byte_at (pre ++ l) (length pre + k) ≡ byte_at l k
unfolding byte_at
byte_at-append pre l k = rw (get_elem?-append pre l k, byte_at)

drop-append : (pre l : Bytes) → drop (length pre) (pre ++ l) ≡ l
drop-append [] l = refl
drop-append (x ∷ pre) l = drop-append pre l

take-append : (l suf : Bytes) → take (length l) (l ++ suf) ≡ l
take-append [] suf = refl
take-append (x ∷ l) suf = ap (◌∷◌ x) (take-append l suf)

slice-append :
    (pre l suf : Bytes) → slice (pre ++ (l ++ suf)) (length pre) (length pre + length l) ≡ l
slice-append pre l suf =
    let e : length pre + length l - length pre ≡ length l = omega arith in
    rw (e, drop-append pre (l ++ suf)) (take-append l suf)

-- One step at each kind of instruction, from the bytes that the step reads.
module _ (s : Bytes) (p : ℕ) where
  next-op :
      (c : ℕ)
      → byte_at s p ≡ c
      → (c ≡ 0) ⊎ (0x4e < c)
      → p + 1 ≤ length s
      → next_script_instruction s p ≡ some (p + 1, c == 0xab)
  unfolding next_script_instruction
  next-op c e h k = ground arith

  next-push :
      (n : ℕ)
      → byte_at s p ≡ n
      → (1 ≤ n) × (n ≤ 0x4b)
      → p + suc n ≤ length s
      → next_script_instruction s p ≡ some (p + suc n, false)
  unfolding next_script_instruction
  next-push n e h k = ground arith

  next-push_data1 :
      (n : ℕ)
      → byte_at s p ≡ 0x4c
      → byte_at s (p + 1) ≡ n
      → p + suc (suc n) ≤ length s
      → next_script_instruction s p ≡ some (p + suc (suc n), false)
  unfolding next_script_instruction
  next-push_data1 n e e1 k = ground arith

  next-push_data2 :
      (n : ℕ)
      → byte_at s p ≡ 0x4d
      → byte_at s (p + 1) ≡ n % 256
      → byte_at s (p + 2) ≡ n / 256
      → p + suc (suc (suc n)) ≤ length s
      → next_script_instruction s p ≡ some (p + suc (suc (suc n)), false)
  unfolding next_script_instruction
  next-push_data2 n e e1 e2 k = ground arith

  next-push_data4 :
      (n : ℕ)
      → byte_at s p ≡ 0x4e
      → byte_at s (p + 1) ≡ n % 256
      → byte_at s (p + 2) ≡ n / 256 % 256
      → byte_at s (p + 3) ≡ n / 65536 % 256
      → byte_at s (p + 4) ≡ n / 16777216
      → p + suc (suc (suc (suc (suc n)))) ≤ length s
      → next_script_instruction s p ≡ some (p + suc (suc (suc (suc (suc n)))), false)
  unfolding next_script_instruction
  next-push_data4 n e e1 e2 e3 e4 k = ground arith

byte_at-start : (pre l : Bytes) → byte_at (pre ++ l) (length pre) ≡ byte_at l 0
byte_at-start pre l =
    let e : length pre ≡ length pre + 0 = omega arith in
    ap (byte_at (pre ++ l)) e ∙ byte_at-append pre l 0

length-script :
    (pre h d suf : Bytes)
    → length (pre ++ (h ++ d ++ suf)) ≡ length pre + (length h + length d + length suf)
length-script pre h d suf =
    omega (arith, length-append pre (h ++ d ++ suf), length-append (h ++ d) suf, length-append h d)

-- The step at an encoded instruction ends behind it, whatever stands before and after.
next-encode :
    (pre suf : Bytes) (i : Instruction)
    → IsWellFormed i
    → next_script_instruction (pre ++ (encode i ++ suf)) (length pre)
      ≡ some (length pre + length (encode i), is_separator i)
unfolding byte_at
next-encode pre suf (op c) h =
    next-op _ _ c (byte_at-start pre _) h (omega (arith, length-script pre (c ∷ []) [] suf))
next-encode pre suf (push d) h =
    next-push _ _ (length d) (byte_at-start pre _) h
      (omega (arith, length-script pre (length d ∷ []) d suf))
next-encode pre suf (push_data1 d) h =
    next-push_data1 _ _ (length d) (byte_at-start pre _) (byte_at-append pre _ 1)
      (omega (arith, length-script pre (0x4c ∷ length d ∷ []) d suf))
next-encode pre suf (push_data2 d) h =
    next-push_data2 _ _ (length d) (byte_at-start pre _) (byte_at-append pre _ 1)
      (byte_at-append pre _ 2) (omega (arith, length-script pre (0x4d ∷ le16 (length d)) d suf))
next-encode pre suf (push_data4 d) h =
    next-push_data4 _ _ (length d) (byte_at-start pre _) (byte_at-append pre _ 1)
      (byte_at-append pre _ 2) (byte_at-append pre _ 3) (byte_at-append pre _ 4)
      (omega (arith, length-script pre (0x4e ∷ le32 (length d)) d suf))

length-encode : (i : Instruction) → 1 ≤ length (encode i)
length-encode (op c) = omega arith
length-encode (push d) = omega arith
length-encode (push_data1 d) = omega arith
length-encode (push_data2 d) = omega arith
length-encode (push_data4 d) = omega arith

abbrev pub kept : List Instruction → List Instruction
kept is = filter (λ i. not (is_separator i)) is

out-kept :
    (i : Instruction) (out : Bytes) (is : List Instruction)
    → (if is_separator i then out else out ++ encode i) ++ script_of (kept is)
      ≡ out ++ script_of (kept (i ∷ is))
out-kept i out is = elim (Bool-cases (is_separator i)) [
  | inl e ↦ rw e
  | inr e ↦ rw e (append_assoc out (encode i) (script_of (kept is)))
]

-- The loop from the start of the instructions `is`, with what stands before them read already.
delete_rounds-script :
    (is : List Instruction) (k : ℕ) (pre out : Bytes)
    → All IsWellFormed is
    → length (script_of is) ≤ k
    → delete_rounds k (pre ++ script_of is) (length pre) out ≡ some (out ++ script_of (kept is))
unfolding delete_rounds
delete_rounds-script [] zero pre out h le =
    let past : leb (length (pre ++ [])) (length pre) ≡ true =
      ground (arith, length-append pre []) in
    rw past (ap some (sym (append-nil out)))
delete_rounds-script [] (suc k) pre out h le =
    let past : leb (length (pre ++ [])) (length pre) ≡ true =
      ground (arith, length-append pre []) in
    rw past (ap some (sym (append-nil out)))
delete_rounds-script (i ∷ is) zero pre out h le =
    absurd (omega (arith, length-append (encode i) (script_of is), length-encode i))
delete_rounds-script (i ∷ is) (suc k) pre out h le =
    let rest = script_of is in
    let inside : leb (length (pre ++ (encode i ++ rest))) (length pre) ≡ false = ground (
      arith,
      length-append pre (encode i ++ rest),
      length-append (encode i) rest,
      length-encode i,
    ) in
    let shift : length (pre ++ encode i) ≡ length pre + length (encode i) =
      length-append pre (encode i) in
    let out' = if is_separator i then out else out ++ encode i in
    let ih =
      delete_rounds-script is k (pre ++ encode i) out' h.1
        (omega (arith, length-append (encode i) rest, length-encode i)) in
    rw (inside, next-encode pre rest i h.0, slice-append pre (encode i) rest)
      (rw (append_assoc pre (encode i) rest, shift) at ih ∙ ap some (out-kept i out is))

-- Deleting from the bytes of a well-formed script deletes the code separators among its
-- instructions and nothing else: data that a push carries stays, whatever bytes it holds.
pub find_and_delete_code_separators-script_of :
    (is : List Instruction)
    → All IsWellFormed is
    → find_and_delete_code_separators (script_of is) ≡ script_of (kept is)
unfolding find_and_delete_code_separators
find_and_delete_code_separators-script_of is h =
    ap finished (delete_rounds-script is (length (script_of is)) [] [] h (omega arith))
