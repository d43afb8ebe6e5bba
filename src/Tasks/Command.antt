-- ===== src/Tasks/Command.antt =====
-- Class CommandParser of src/utils/handler.cpp.
pub mod RoundTrip
use level_fs.Base.{
  ℕ, ◌==◌, if◌then◌else◌, List, [], ◌∷◌, ◌++◌, Bool, true, false, ◌&&◌, not, String, is_empty,
  is_space, last_char, drop_last, space, trim_start, trim_end,
}

pub record ParsedCommand : Type 0 where
  pub command : String
  pub args : List String
  pub run_in_background : Bool
  pub raw_line : String

abbrev pub ampersand : ℕ
ampersand = 38

-- Extraction of words from a stringstream, with the part of the current word.
unfoldable pub words_from : String → String → List String
words_from word [] = if is_empty word then [] else word ∷ []
words_from word (c ∷ cs) =
    let rest = words_from (if is_space c then [] else word ++ c ∷ []) cs in
    if is_space c && not (is_empty word) then word ∷ rest else rest

abbrev pub first_word : List String → String
first_word [] = []
first_word (w ∷ ws) = w

abbrev pub other_words : List String → List String
other_words [] = []
other_words (w ∷ ws) = ws

unfoldable pub is_background : String → Bool
is_background trimmed = not (is_empty trimmed) && last_char trimmed == ampersand

unfoldable pub without_ampersand : String → String
without_ampersand trimmed = if is_background trimmed then trim_end (drop_last trimmed) else trimmed

abbrev pub parsed : String → Bool → List String → ParsedCommand
parsed input background words = record {
  command = first_word words;
  args = other_words words;
  run_in_background = background;
  raw_line = input;
}

unfoldable pub parse_command : String → ParsedCommand
parse_command input =
    let trimmed = trim_start (trim_end input) in
    parsed input (is_background trimmed) (words_from [] (without_ampersand trimmed))

unfoldable pub args_to_string : List String → String
args_to_string [] = []
args_to_string (arg ∷ []) = arg
args_to_string (arg ∷ next ∷ args) = arg ++ space ∷ args_to_string (next ∷ args)
