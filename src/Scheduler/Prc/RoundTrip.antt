-- ===== src/Scheduler/Prc/RoundTrip.antt =====
-- parse against serialize, line by line.
use level_fs.Base.{
  ℕ, suc, ◌==◌, ◌≡◌, refl, sym, ap, ◌∙◌, List, [], ◌∷◌, ◌++◌, some, Bool, true, false, All, String,
  is_empty, is_space, length, mem, mem-append, take, drop, last_char, newline, space, quote,
  semicolon, lines_from, lines_from-unlines, find_char, find_char-append, trim, trim_end,
  trim_start, trim_end-append, starts_with, starts_with-append, starts_with_other, take-append,
  arith, append_assoc, append-nil,
}
use level_fs.Scheduler.Prc.{
  ProcessDefinition, no_definition, colon, open_bracket, close_bracket, path_key, args_key,
  extract_quoted_value, args_from, parse_args_list, read_on_reboot, first_char, read_trimmed,
  read_line, read_lines, parse, name_line, path_line, more_args, all_args, args_line,
  on_reboot_line, end_line, serialize_definition, indent,
}

-- A text that stands between quotation marks on one line.
pub record IsQuotable (text : String) : Type 0 where
  pub no_quote : mem quote text ≡ false
  pub one_line : mem newline text ≡ false

abbrev pub IsArgument : String → Type 0
IsArgument arg = (is_empty arg ≡ false) × IsQuotable arg

-- A definition that the format can hold.
pub record IsPrintable (def : ProcessDefinition) : Type 0 where
  pub name_bracket : mem close_bracket def.name ≡ false
  pub name_line : mem newline def.name ≡ false
  pub path_text : IsQuotable def.path
  pub arguments : All IsArgument def.args

last_char-append : (s : String) (c d : ℕ) → last_char (s ++ c ∷ d ∷ []) ≡ d
last_char-append [] c d = refl
last_char-append (x ∷ []) c d = refl
last_char-append (x ∷ y ∷ s) c d = last_char-append (y ∷ s) c d

last_char_one : (s : String) (c : ℕ) → last_char (s ++ c ∷ []) ≡ c
last_char_one [] c = refl
last_char_one (x ∷ []) c = refl
last_char_one (x ∷ y ∷ s) c = last_char_one (y ∷ s) c

unfold_find :
    (text rest : String)
    → mem quote text ≡ false
    → find_char quote (text ++ quote ∷ rest) ≡ some (length text)
unfold_find text rest h = find_char-append quote text rest h

extract_quoted_value_lem :
    (text rest : String)
    → mem quote text ≡ false
    → extract_quoted_value (space ∷ quote ∷ (text ++ quote ∷ rest)) ≡ text
unfolding extract_quoted_value find_char
extract_quoted_value_lem text rest h =
    rw (unfold_find text rest h, extract_quoted_value) (take-append text (quote ∷ rest))

args_from-quoted :
    (current text rest : String) (args : List String)
    → mem quote text ≡ false
    → args_from true current args (text ++ rest) ≡ args_from true (current ++ text) args rest
unfolding args_from
args_from-quoted current [] rest args h = rw (append-nil current)
args_from-quoted current (c ∷ cs) rest args h =
    let other : (c == quote) ≡ false = ground arith in
    rw other (
      args_from-quoted (current ++ c ∷ []) cs rest args (ground arith)
      ∙ ap (λ s. args_from true s args rest) (append_assoc current (c ∷ []) cs))

args_from-arg :
    (text rest : String) (args : List String)
    → IsArgument text
    → args_from false [] args (quote ∷ (text ++ quote ∷ rest))
      ≡ args_from false [] (args ++ text ∷ []) rest
args_from-arg text rest args (ne, q) =
    unfold args_from in (args_from-quoted [] text (quote ∷ rest) args q.no_quote ∙ rw ne)

args_from-more_args :
    (xs args : List String)
    → All IsArgument xs
    → args_from false [] args (more_args xs ++ semicolon ∷ []) ≡ args ++ xs
unfolding args_from
args_from-more_args [] args _ = sym (append-nil args)
args_from-more_args (x ∷ xs) args (h, hs) =
    ap (λ s. args_from false [] args (quote ∷ s))
      (append_assoc x (quote ∷ more_args xs) (semicolon ∷ []))
    ∙ args_from-arg x (more_args xs ++ semicolon ∷ []) args h
    ∙ args_from-more_args xs (args ++ x ∷ []) hs
    ∙ append_assoc args (x ∷ []) xs

parse_args_list-all_args :
    (args : List String)
    → All IsArgument args
    → parse_args_list (space ∷ (all_args args ++ semicolon ∷ [])) ≡ args
unfolding parse_args_list
parse_args_list-all_args [] _ = unfold args_from in refl
parse_args_list-all_args (x ∷ xs) (h, hs) =
    unfold args_from in
    (ap (λ s. args_from false [] [] (quote ∷ s))
        (append_assoc x (quote ∷ more_args xs) (semicolon ∷ []))
      ∙ args_from-arg x (more_args xs ++ semicolon ∷ []) [] h
      ∙ args_from-more_args xs (x ∷ []) hs)

-- A line that begins and ends with other characters than blanks is not changed by trim.
trim-closed :
    (c : ℕ) (s t : String)
    → is_space c ≡ false
    → trim_end t ≡ t
    → is_empty t ≡ false
    → trim (c ∷ (s ++ t)) ≡ c ∷ (s ++ t)
unfolding trim trim_start
trim-closed c s t h e ne = rw h (trim_end-append (c ∷ s) t e ne)

trim-indent : (s : String) → trim (indent s) ≡ trim s
unfolding trim trim_start
trim-indent s = refl

module _ (def : ProcessDefinition) (line : String) (full : is_empty line ≡ false) where
  read_trimmed_name :
      (end : ℕ)
      → last_char line ≡ colon
      → first_char line ≡ open_bracket
      → find_char close_bracket line ≡ some (suc end)
      → read_trimmed def line ≡ record def { name = take end (drop 1 line) }
  unfolding read_trimmed
  read_trimmed_name end h f e =
      rw (full, h, f, e) (ap (λ n. record def { name = take n (drop 1 line) }) (omega arith))

  read_trimmed_path :
      last_char line ≡ semicolon
      → starts_with line path_key ≡ true
      → read_trimmed def line ≡ record def { path = extract_quoted_value (drop 5 line) }
  unfolding read_trimmed
  read_trimmed_path h p = rw (full, h, p) refl

  read_trimmed_args :
      last_char line ≡ semicolon
      → starts_with line path_key ≡ false
      → starts_with line args_key ≡ true
      → read_trimmed def line ≡ record def { args = parse_args_list (drop 5 line) }
  unfolding read_trimmed
  read_trimmed_args h p a = rw (full, h, p, a) refl

-- Each line of a definition is read into its own field.
read_line-name_line :
    (def : ProcessDefinition) (name : String)
    → mem close_bracket name ≡ false
    → read_line def (name_line name) ≡ record def { name = name }
unfolding read_line
read_line-name_line def name h =
    ap (read_trimmed def) (
      trim-closed open_bracket name (close_bracket ∷ colon ∷ []) refl (unfold trim_end in refl)
        refl)
    ∙ read_trimmed_name def (name_line name) refl (length name)
        (last_char-append (open_bracket ∷ name) close_bracket colon) refl
        (find_char-append close_bracket (open_bracket ∷ name) (colon ∷ []) h)
    ∙ ap (λ s. record def { name = s }) (take-append name (close_bracket ∷ colon ∷ []))

read_line-path_line :
    (def : ProcessDefinition) (path : String)
    → mem quote path ≡ false
    → read_line def (path_line path) ≡ record def { path = path }
unfolding read_line
read_line-path_line def path h =
    let text = path_key ++ space ∷ quote ∷ path in
    let line = path_key ++ space ∷ quote ∷ (path ++ quote ∷ semicolon ∷ []) in
    ap (read_trimmed def) (trim-indent line)
    ∙ ap (read_trimmed def) (
        trim-closed b'P' (drop 1 text) (quote ∷ semicolon ∷ []) refl (unfold trim_end in refl) refl)
    ∙ read_trimmed_path def line refl (last_char-append text quote semicolon)
        (starts_with-append path_key (space ∷ quote ∷ (path ++ quote ∷ semicolon ∷ [])))
    ∙ ap (λ s. record def { path = s }) (extract_quoted_value_lem path (semicolon ∷ []) h)

last_char-args :
    (args : List String)
    → last_char (args_key ++ space ∷ (all_args args ++ semicolon ∷ [])) ≡ semicolon
last_char-args args = last_char_one (args_key ++ space ∷ all_args args) semicolon

read_line-args_line :
    (def : ProcessDefinition) (args : List String)
    → All IsArgument args
    → read_line def (args_line args) ≡ record def { args = args }
unfolding read_line
read_line-args_line def args h =
    let line = args_key ++ space ∷ (all_args args ++ semicolon ∷ []) in
    ap (read_trimmed def) (trim-indent line)
    ∙ ap (read_trimmed def) (
        trim-closed b'A' (drop 1 args_key ++ space ∷ all_args args) (semicolon ∷ []) refl
          (unfold trim_end in refl) refl)
    ∙ read_trimmed_args def line refl (last_char-args args) (starts_with_other line path_key refl)
        (starts_with-append args_key (space ∷ (all_args args ++ semicolon ∷ [])))
    ∙ ap (λ s. record def { args = s }) (parse_args_list-all_args args h)

read_line-on_reboot_line :
    (def : ProcessDefinition) (b : Bool)
    → read_line def (on_reboot_line b) ≡ record def { on_reboot = b }
unfolding read_line read_trimmed read_on_reboot trim trim_start trim_end starts_with
read_line-on_reboot_line def true = refl
read_line-on_reboot_line def false = refl

read_line-end_line : (def : ProcessDefinition) → read_line def end_line ≡ def
unfolding read_line read_trimmed trim trim_start trim_end starts_with
read_line-end_line def = refl

-- The lines of a definition, none of which has a line break in it.
unfoldable pub definition_lines : ProcessDefinition → List String
definition_lines def =
    name_line def.name
    ∷ path_line def.path
    ∷ args_line def.args
    ∷ on_reboot_line def.on_reboot
    ∷ end_line
    ∷ []

args_one_line : (args : List String) → All IsArgument args → mem newline (more_args args) ≡ false
args_one_line [] _ = refl
args_one_line (x ∷ xs) (h, hs) =
    mem-append newline x (quote ∷ more_args xs) ∙ rw (h.1.one_line, args_one_line xs hs)

all_args_one_line : (args : List String) → All IsArgument args → mem newline (all_args args) ≡ false
all_args_one_line [] _ = refl
all_args_one_line (x ∷ xs) (h, hs) =
    mem-append newline x (quote ∷ more_args xs) ∙ rw (h.1.one_line, args_one_line xs hs)

on_reboot_one_line : (b : Bool) → mem newline (on_reboot_line b) ≡ false
on_reboot_one_line true = refl
on_reboot_one_line false = refl

pub serialize_definition-lines :
    (def : ProcessDefinition) (rest : String)
    → IsPrintable def
    → lines_from newline [] (serialize_definition def ++ rest)
      ≡ definition_lines def ++ lines_from newline [] rest
unfolding serialize_definition definition_lines
serialize_definition-lines def rest p = lines_from-unlines (definition_lines def) rest (
  mem-append newline def.name (close_bracket ∷ colon ∷ []) ∙ rw p.name_line refl,
  (
    mem-append newline def.path (quote ∷ semicolon ∷ []) ∙ rw p.path_text.one_line refl,
    (
      mem-append newline (all_args def.args) (semicolon ∷ [])
          ∙ rw (all_args_one_line def.args p.arguments) refl,
      (on_reboot_one_line def.on_reboot, (refl, tt)),
    ),
  ),
)

pub parse_lines :
    (def : ProcessDefinition)
    → IsPrintable def
    → read_lines no_definition (definition_lines def) ≡ def
unfolding read_lines definition_lines
parse_lines def p =
    let named = read_line-name_line no_definition def.name p.name_bracket in
    let placed = record no_definition { name = def.name } in
    let with_path = record placed { path = def.path } in
    let with_args = record with_path { args = def.args } in
    ap
      (λ d.
        read_line
          (read_line (read_line (read_line d (path_line def.path)) (args_line def.args))
            (on_reboot_line def.on_reboot))
          end_line)
      named
    ∙ ap
        (λ d.
          read_line (read_line (read_line d (args_line def.args)) (on_reboot_line def.on_reboot))
            end_line)
        (read_line-path_line placed def.path p.path_text.no_quote)
    ∙ ap (λ d. read_line (read_line d (on_reboot_line def.on_reboot)) end_line)
        (read_line-args_line with_path def.args p.arguments)
    ∙ ap (λ d. read_line d end_line) (read_line-on_reboot_line with_args def.on_reboot)
    ∙ read_line-end_line def

-- parse reads back what serialize writes, if the name has no closing bracket and no line break, the
-- path no quotation mark and no line break, and no argument is empty or has either of these.
pub parse-serialize_definition :
    (def : ProcessDefinition) → IsPrintable def → parse (serialize_definition def) ≡ def
unfolding parse definition_lines lines_from
parse-serialize_definition def p =
    ap (λ s. read_lines no_definition (lines_from newline [] s))
      (sym (append-nil (serialize_definition def)))
    ∙ ap (read_lines no_definition) (serialize_definition-lines def [] p)
    ∙ parse_lines def p
