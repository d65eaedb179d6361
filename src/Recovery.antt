-- ===== src/Recovery.antt =====
-- vericonomy-wallet-core/src/recovery.rs: checks of a recovery phrase. The `bip39` crate is a
-- parameter.
use vericonomy_sdk.Base.{
  ℕ, Bool, true, false, none, some, List, [], ◌∷◌, ◌⊎◌, inl, inr, length, get_elem?, ◌==◌,
  if◌then◌else◌,
}
use vericonomy_sdk.Text.{Text, trim, split_whitespace, eq_ignore_ascii_case}

-- `Mnemonic::parse_in(Language::English, …)`
pub record Bip39 : Type 1 where
  pub Mnemonic : Type 0
  pub parse_in_english : Text → Text ⊎ Mnemonic

abbrev pub is_parsed : {A : Type 0} → Text ⊎ A → Bool
is_parsed (inl e) = false
is_parsed (inr m) = true

unfoldable pub validate_mnemonic : Bip39 → Text → Bool
validate_mnemonic bip39 phrase = is_parsed (bip39.parse_in_english (trim phrase))

-- The word at the index, if there is one and it is the answer.
unfoldable pub word_matches : List Text → ℕ → Text → Bool
word_matches words idx answer = elim (get_elem? words idx) [
  | none ↦ false
  | some word ↦ eq_ignore_ascii_case word (trim answer)
]

-- `for (idx, answer) in indices.iter().zip(answers.iter())`
unfoldable pub words_match : List Text → List ℕ → List Text → Bool
unfolding word_matches
words_match words (idx ∷ indices) (answer ∷ answers) =
    let rest = words_match words indices answers in
    if word_matches words idx answer then rest else false
words_match words [] answers = true
words_match words (idx ∷ indices) [] = true

unfoldable pub verify_words_at_indices : Text → List ℕ → List Text → Bool
unfolding words_match
verify_words_at_indices phrase indices answers =
    if length indices == length answers
    then words_match (split_whitespace phrase) indices answers
    else false
