-- ===== src/Scheduler/Prc.antt =====
-- The text of .prc files: struct ProcessDefinition and class PrcParser of src/scheduler.hpp.
pub mod RoundTrip
use level_fs.Base.{
  ℕ, zero, suc, ◌+◌, ◌-◌, ◌==◌, if◌then◌else◌, List, [], ◌∷◌, ◌++◌, Option, none, some, Bool, true,
  false, ◌&&◌, ◌||◌, not, String, list_eq, is_empty, take, drop, drop_last, last_char, newline,
  space, quote, semicolon, lines_from, find_char, trim, starts_with,
}

pub record ProcessDefinition : Type 0 where
  pub name : String
  pub path : String
  pub args : List String
  pub on_reboot : Bool

abbrev pub no_definition : ProcessDefinition
no_definition = record { name = []; path = []; args = []; on_reboot = false }

abbrev pub colon : ℕ
colon = 58

abbrev pub comma : ℕ
comma = 44

abbrev pub open_bracket : ℕ
open_bracket = 91

abbrev pub close_bracket : ℕ
close_bracket = 93

-- "Path:", "Args:", "onReboot:"
abbrev pub path_key : String
path_key = b'P' ∷ b'a' ∷ b't' ∷ b'h' ∷ b':' ∷ []

abbrev pub args_key : String
args_key = b'A' ∷ b'r' ∷ b'g' ∷ b's' ∷ b':' ∷ []

abbrev pub on_reboot_key : String
on_reboot_key = b'o' ∷ b'n' ∷ b'R' ∷ b'e' ∷ b'b' ∷ b'o' ∷ b'o' ∷ b't' ∷ b':' ∷ []

abbrev pub true_text : String
true_text = b't' ∷ b'r' ∷ b'u' ∷ b'e' ∷ []

abbrev pub false_text : String
false_text = b'f' ∷ b'a' ∷ b'l' ∷ b's' ∷ b'e' ∷ []

abbrev pub one_text : String
one_text = b'1' ∷ []

abbrev pub yes_text : String
yes_text = b'y' ∷ b'e' ∷ b's' ∷ []

unfoldable pub extract_quoted_value : String → String
extract_quoted_value s = elim (find_char quote s) [
  | none ↦ trim s
  | some first ↦ elim (find_char quote (drop (suc first) s)) [
    | none ↦ drop (suc first) s
    | some count ↦ take count (drop (suc first) s)
  ]
]

-- The loop of parseArgsList: whether a quotation is open, the text in it, and what has been read.
unfoldable pub args_from : Bool → String → List String → String → List String
args_from in_quote current args [] = if is_empty current then args else args ++ current ∷ []
args_from in_quote current args (c ∷ cs) =
    let quoted =
      args_from (not in_quote) (if in_quote then [] else current)
        (if in_quote && not (is_empty current) then args ++ current ∷ [] else args) cs in
    let rest = args_from in_quote (if in_quote then current ++ c ∷ [] else current) args cs in
    if c == quote
    then quoted
    else if not in_quote && c == semicolon
    then (if is_empty current then args else args ++ current ∷ [])
    else rest

unfoldable pub parse_args_list : String → List String
parse_args_list s = args_from false [] [] s

-- val.back() of an empty value is read as 0 here; the source leaves it undefined.
unfoldable pub read_on_reboot : String → Bool
read_on_reboot text =
    let value = trim text in
    let value = trim (if last_char value == semicolon then drop_last value else value) in
    list_eq value true_text || list_eq value one_text || list_eq value yes_text

abbrev pub first_char : String → ℕ
first_char [] = 0
first_char (c ∷ cs) = c

-- One round of the loop in parse, on the line without the blanks at its ends.
unfoldable pub read_trimmed : ProcessDefinition → String → ProcessDefinition
read_trimmed def line =
    if is_empty line
    then def
    else if last_char line == colon && first_char line == open_bracket
    then elim (find_char close_bracket line) [
      | none ↦ def
      | some end ↦ record def { name = take (end - 1) (drop 1 line) }
    ]
    else if starts_with line path_key
    then record def { path = extract_quoted_value (drop 5 line) }
    else if starts_with line args_key
    then record def { args = parse_args_list (drop 5 line) }
    else if starts_with line on_reboot_key
    then record def { on_reboot = read_on_reboot (drop 9 line) }
    else def

unfoldable pub read_line : ProcessDefinition → String → ProcessDefinition
read_line def line = read_trimmed def (trim line)

unfoldable pub read_lines : ProcessDefinition → List String → ProcessDefinition
read_lines def [] = def
read_lines def (line ∷ lines) = read_lines (read_line def line) lines

unfoldable pub parse : String → ProcessDefinition
parse content = read_lines no_definition (lines_from newline [] content)

abbrev pub name_line : String → String
name_line name = open_bracket ∷ (name ++ close_bracket ∷ colon ∷ [])

abbrev pub indent : String → String
indent s = space ∷ space ∷ space ∷ space ∷ s

abbrev pub path_line : String → String
path_line path = indent (path_key ++ space ∷ quote ∷ (path ++ quote ∷ semicolon ∷ []))

-- The arguments behind the first, each after ", ".
abbrev pub more_args : List String → String
more_args [] = []
more_args (arg ∷ args) = comma ∷ space ∷ quote ∷ (arg ++ quote ∷ more_args args)

abbrev pub all_args : List String → String
all_args [] = []
all_args (arg ∷ args) = quote ∷ (arg ++ quote ∷ more_args args)

abbrev pub args_line : List String → String
args_line args = indent (args_key ++ space ∷ (all_args args ++ semicolon ∷ []))

abbrev pub on_reboot_line : Bool → String
on_reboot_line b =
    indent (on_reboot_key ++ space ∷ ((if b then true_text else false_text) ++ semicolon ∷ []))

abbrev pub end_line : String
end_line = b'.' ∷ []

unfoldable pub serialize_definition : ProcessDefinition → String
serialize_definition def =
    name_line def.name
    ++ newline
      ∷ (path_line def.path
          ++ newline
            ∷ (args_line def.args
                ++ newline
                  ∷ (on_reboot_line def.on_reboot ++ newline ∷ (end_line ++ newline ∷ []))))
