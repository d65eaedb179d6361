-- ===== src/Tx/Script.antt =====
-- vericonomy-tx/src/lib.rs: `FindAndDelete(scriptCode, OP_CODESEPARATOR)` by instructions.
pub mod Deletes
use vericonomy_sdk.Base.{
  ◌≤◌, ◌<◌, ◌≡◌, refl, true, ◌∙◌, ap, sym, inl, inr, arith, Bool-cases, Option-cases, ℕ, zero, suc,
  ◌+◌, ◌-◌, ◌*◌, Bool, ◌&&◌, Option, none, some, List, [], ◌∷◌, ◌++◌, length, get_elem?, take, drop,
  ltb, leb, ◌==◌, if◌then◌else◌,
}

abbrev pub Bytes : Type 0
Bytes = List ℕ

-- `script[i]`, read only within bounds
unfoldable pub byte_at : Bytes → ℕ → ℕ
byte_at script i = elim (get_elem? script i) [ none ↦ 0 | some b ↦ b ]

-- `script[from..to]`
abbrev pub slice : Bytes → ℕ → ℕ → Bytes
slice script from to = take (to - from) (drop from script)

-- The arms of `match opcode`: where the instruction ends whose operand starts at `end`.
unfoldable pub operand_end : Bytes → ℕ → ℕ → Option ℕ
operand_end script opcode end =
    if leb 0x01 opcode && leb opcode 0x4b
    then some (end + opcode)
    else if opcode == 0x4c
    then (if leb (length script) end then none else some (end + (1 + byte_at script end)))
    else if opcode == 0x4d
    then (if ltb (length script) (end + 2)
        then none
        else some (end + (2 + (byte_at script end + 256 * byte_at script (end + 1)))))
    else if opcode == 0x4e
    then (if ltb (length script) (end + 4)
        then none
        else some (
            end
            + (4
                + (byte_at script end
                    + 256
                      * (byte_at script (end + 1)
                          + 256 * (byte_at script (end + 2) + 256 * byte_at script (end + 3)))))))
    else some end

unfoldable pub next_script_instruction : Bytes → ℕ → Option (ℕ × Bool)
unfolding operand_end
next_script_instruction script start =
    if leb (length script) start
    then none
    else elim (operand_end script (byte_at script start) (start + 1)) [
      | none ↦ none
      | some end ↦
          if ltb (length script) end then none else some (end, byte_at script start == 0xab)
    ]

-- `while pc < script.len()`, with the rounds that are left. Each round moves `pc` on, so the length
-- of the script is enough; `none` means that the rounds ran out.
unfoldable pub delete_rounds : ℕ → Bytes → ℕ → Bytes → Option Bytes
delete_rounds zero script pc out = if leb (length script) pc then some out else none
delete_rounds (suc k) script pc out =
    let step = elim (next_script_instruction script pc) as (λ _. Option Bytes) [
      | none ↦ some out
      | some (end, is_separator) ↦
          delete_rounds k script end (if is_separator then out else out ++ slice script pc end)
    ] in
    if leb (length script) pc then some out else step

abbrev pub finished : Option Bytes → Bytes
finished none = []
finished (some out) = out

unfoldable pub find_and_delete_code_separators : Bytes → Bytes
unfolding delete_rounds
find_and_delete_code_separators script = finished (delete_rounds (length script) script 0 [])

-- An instruction ends behind its start and within the script.
next_script_instruction_advances :
    (script : Bytes) (start end : ℕ) (is_separator : Bool)
    → next_script_instruction script start ≡ some (end, is_separator)
    → (start < end) × (end ≤ length script)
unfolding next_script_instruction
next_script_instruction_advances script start end s h = ground arith

delete_rounds_total :
    (k : ℕ) (script : Bytes) (pc : ℕ) (out : Bytes)
    → length script ≤ pc + k
    → (r : Bytes) × (delete_rounds k script pc out ≡ some r)
unfolding delete_rounds
delete_rounds_total zero script pc out h =
    let past : leb (length script) pc ≡ true = ground arith in (out, rw past)
delete_rounds_total (suc k) script pc out h = elim (Bool-cases (leb (length script) pc)) [
  | inl past ↦ (out, rw past)
  | inr inside ↦ elim (Option-cases (next_script_instruction script pc)) [
    | inl bad ↦ (out, rw (inside, bad))
    | inr ((end, is_separator), e) ↦
        let (further, _) = next_script_instruction_advances script pc end is_separator e in
        rw (inside, e)
          (delete_rounds_total k script end
            (if is_separator then out else out ++ slice script pc end) (omega arith))
  ]
]

-- The length of the script is enough rounds for every script, well formed or not.
pub delete_rounds_enough :
    (script : Bytes)
    → delete_rounds (length script) script 0 [] ≡ some (find_and_delete_code_separators script)
unfolding find_and_delete_code_separators
delete_rounds_enough script =
    let (r, e) = delete_rounds_total (length script) script 0 [] (omega arith) in
    e ∙ ap some (sym (ap finished e))
