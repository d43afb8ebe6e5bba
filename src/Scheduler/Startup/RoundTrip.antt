-- ===== src/Scheduler/Startup/RoundTrip.antt =====
-- What is saved is what is loaded.
use level_fs.Base.{
  ◌≡◌, refl, sym, ap, ◌∙◌, List, [], ◌∷◌, ◌++◌, Option, none, some, Bool, true, false, not, keep,
  map, All, String, is_empty, newline, lines_from, unlines, find_char, append_assoc, append-nil,
  arith, length, length-append, if_true, ◌≢◌, All-append,
}
use level_fs.Scheduler.Prc.{
  ProcessDefinition, parse, serialize_definition, name_line, path_line, args_line, on_reboot_line,
  end_line, close_bracket, colon,
}
use level_fs.Scheduler.Prc.RoundTrip.{
  IsPrintable, definition_lines, serialize_definition-lines, parse-serialize_definition,
}
use level_fs.Scheduler.Table.{Scheduler, save_startup_process, occurs}
use level_fs.Scheduler.Startup.{is_end, blocks_from, startup_definitions}

unfoldable pub serialize_all : List ProcessDefinition → String
serialize_all [] = []
serialize_all (def ∷ defs) = serialize_definition def ++ serialize_all defs

-- A definition that can be saved and started.
pub record IsSaved (def : ProcessDefinition) : Type 0 where
  pub printable : IsPrintable def
  pub has_path : is_empty def.path ≡ false

lines_of_all : List ProcessDefinition → List String
lines_of_all [] = []
lines_of_all (def ∷ defs) = definition_lines def ++ lines_of_all defs

lines_from-serialize_all :
    (defs : List ProcessDefinition)
    → All IsSaved defs
    → lines_from newline [] (serialize_all defs) ≡ lines_of_all defs
unfolding serialize_all lines_of_all
lines_from-serialize_all [] _ = unfold lines_from in refl
lines_from-serialize_all (def ∷ defs) (h, hs) =
    serialize_definition-lines def (serialize_all defs) h.printable
    ∙ ap (λ ls. definition_lines def ++ ls) (lines_from-serialize_all defs hs)

is_end_long : (line : String) → length line ≢ 1 → is_end line ≡ false
unfolding is_end
is_end_long line h = ground arith

name_line-is_end : (name : String) → is_end (name_line name) ≡ false
name_line-is_end name =
    is_end_long (name_line name)
      (λ e. omega (arith, e, length-append name (close_bracket ∷ colon ∷ [])))

on_reboot-is_end : (b : Bool) → is_end (on_reboot_line b) ≡ false
unfolding is_end find_char
on_reboot-is_end true = refl
on_reboot-is_end false = refl

blocks_from_open :
    (block line : String) (lines : List String)
    → is_end line ≡ false
    → blocks_from block (line ∷ lines) ≡ blocks_from (block ++ (line ++ newline ∷ [])) lines
unfolding blocks_from
blocks_from_open block line lines h = rw h refl

-- Lines that end nothing, and then one that does.
blocks_from-unlines :
    (block : String) (lines rest : List String)
    → All (λ line. is_end line ≡ false) lines
    → blocks_from block (lines ++ end_line ∷ rest)
      ≡ (block ++ (unlines lines ++ end_line ++ newline ∷ [])) ∷ blocks_from [] rest
blocks_from-unlines block [] rest _ = unfold blocks_from is_end find_char in refl
blocks_from-unlines block (line ∷ lines) rest (h, hs) =
    blocks_from_open block line (lines ++ end_line ∷ rest) h
    ∙ blocks_from-unlines (block ++ (line ++ newline ∷ [])) lines rest hs
    ∙ ap (λ s. s ∷ blocks_from [] rest) (simp append_assoc)

blocks_from-definition :
    (def : ProcessDefinition) (rest : List String)
    → blocks_from [] (definition_lines def ++ rest) ≡ serialize_definition def ∷ blocks_from [] rest
unfolding definition_lines serialize_definition
blocks_from-definition def rest =
    blocks_from-unlines []
      (name_line def.name
        ∷ path_line def.path
        ∷ args_line def.args
        ∷ on_reboot_line def.on_reboot
        ∷ [])
      rest
      (
        name_line-is_end def.name,
        (
          is_end_long (path_line def.path) (λ e. omega (arith, e)),
          (
            is_end_long (args_line def.args) (λ e. omega (arith, e)),
            (on_reboot-is_end def.on_reboot, tt),
          ),
        ),
      )
    ∙ ap (λ s. s ∷ blocks_from [] rest) (simp append_assoc)

definitions_of_blocks :
    (defs : List ProcessDefinition)
    → All IsSaved defs
    → keep (λ def. not (is_empty def.path)) (map parse (blocks_from [] (lines_of_all defs))) ≡ defs
unfolding lines_of_all
definitions_of_blocks [] _ = unfold blocks_from in refl
definitions_of_blocks (def ∷ defs) (h, hs) =
    let pick : ProcessDefinition → Bool = λ d. not (is_empty d.path) in
    let rest = map parse (blocks_from [] (lines_of_all defs)) in
    ap (λ bs. keep pick (map parse bs)) (blocks_from-definition def (lines_of_all defs))
    ∙ ap (λ d. keep pick (d ∷ rest)) (parse-serialize_definition def h.printable)
    ∙ if_true (not (is_empty def.path)) (def ∷ keep pick rest) (keep pick rest) (ap not h.has_path)
    ∙ ap (λ ds. def ∷ ds) (definitions_of_blocks defs hs)

-- The startup file with the definitions of a list, one after the other, loads as this list, if each
-- has a path and can be printed.
pub startup_definitions-serialize_all :
    (defs : List ProcessDefinition)
    → All IsSaved defs
    → startup_definitions (serialize_all defs) ≡ defs
unfolding startup_definitions
startup_definitions-serialize_all defs h =
    ap (λ ls. keep (λ def. not (is_empty def.path)) (map parse (blocks_from [] ls)))
      (lines_from-serialize_all defs h)
    ∙ definitions_of_blocks defs h

serialize_all-append :
    (defs more : List ProcessDefinition)
    → serialize_all (defs ++ more) ≡ serialize_all defs ++ serialize_all more
unfolding serialize_all
serialize_all-append [] more = refl
serialize_all-append (def ∷ defs) more =
    ap (λ s. serialize_definition def ++ s) (serialize_all-append defs more)
    ∙ sym (append_assoc (serialize_definition def) (serialize_all defs) (serialize_all more))

serialize_all_last :
    (defs : List ProcessDefinition) (def : ProcessDefinition)
    → serialize_all (defs ++ def ∷ []) ≡ serialize_all defs ++ serialize_definition def
unfolding serialize_all
serialize_all_last defs def =
    serialize_all-append defs (def ∷ [])
    ∙ ap (λ t. serialize_all defs ++ t) (append-nil (serialize_definition def))

abbrev pub text_of : Option String → String
text_of none = []
text_of (some text) = text

saved_text :
    (def : ProcessDefinition) (s : Scheduler)
    → s.configured ≡ true
    → occurs def.name (text_of s.startup) ≡ false
    → text_of (save_startup_process def s).startup ≡ text_of s.startup ++ serialize_definition def
unfolding save_startup_process
saved_text def s set new = ground (arith, set, new)

-- A scheduler with callbacks whose startup file holds the definitions of a list saves one more, which
-- has a path and can be printed and whose name occurs nowhere in that file: the file then loads as the
-- list with the new definition behind it.
pub startup_definitions-save_startup_process :
    (defs : List ProcessDefinition) (def : ProcessDefinition) (s : Scheduler)
    → All IsSaved defs
    → IsSaved def
    → s.configured ≡ true
    → text_of s.startup ≡ serialize_all defs
    → occurs def.name (serialize_all defs) ≡ false
    → startup_definitions (text_of (save_startup_process def s).startup) ≡ defs ++ def ∷ []
unfolding save_startup_process
startup_definitions-save_startup_process defs def s h one set same new =
    ap startup_definitions (saved_text def s set (ap (occurs def.name) same ∙ new))
    ∙ ap (λ t. startup_definitions (t ++ serialize_definition def)) same
    ∙ ap startup_definitions (sym (serialize_all_last defs def))
    ∙ startup_definitions-serialize_all (defs ++ def ∷ [])
        (All-append IsSaved defs (def ∷ []) h (one, tt))
