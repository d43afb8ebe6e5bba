-- ===== src/Paths.antt =====
-- Path strings: class PathUtils of src/fs_context.hpp.
pub mod Splitting
pub mod Normal
pub mod Names
pub mod Containing
mod Tests
use level_fs.Base.{
  ℕ, zero, suc, ◌+◌, ◌-◌, ◌==◌, ltb, leb, if◌then◌else◌, List, [], ◌∷◌, ◌++◌, Option, none, some,
  Bool, true, false, ◌&&◌, ◌||◌, not, length, any, keep, String, list_eq, is_empty, take, drop,
  drop_last, last_char, rfind,
}

abbrev pub slash : ℕ
slash = 47

abbrev pub dot_char : ℕ
dot_char = 46

abbrev pub root_path : String
root_path = slash ∷ []

abbrev pub dot : String
dot = dot_char ∷ []

abbrev pub dot_dot : String
dot_dot = dot_char ∷ dot_char ∷ []

-- The strings that getline reads up to each slash; nothing after the last one is no string.
unfoldable pub read_parts : String → String → List String
read_parts part [] = if is_empty part then [] else part ∷ []
read_parts part (c ∷ cs) =
    if c == slash then part ∷ read_parts [] cs else read_parts (part ++ c ∷ []) cs

abbrev pub is_part : String → Bool
is_part part = not (is_empty part) && not (list_eq part dot)

unfoldable pub split_path : String → List String
split_path path = keep is_part (read_parts [] path)

unfoldable pub concat_parts : List String → String
concat_parts [] = []
concat_parts (part ∷ parts) = (slash ∷ part) ++ concat_parts parts

unfoldable pub join_path : List String → String
join_path parts = if is_empty parts then root_path else concat_parts parts

-- The loop of normalizePath, with the parts kept so far.
unfoldable pub normalize_from : List String → List String → List String
normalize_from normalized [] = normalized
normalize_from normalized (part ∷ parts) =
    if list_eq part dot_dot
    then normalize_from (if is_empty normalized then normalized else drop_last normalized) parts
    else if not (list_eq part dot)
    then normalize_from (normalized ++ part ∷ []) parts
    else normalize_from normalized parts

unfoldable pub normalize_path : String → String
normalize_path path = join_path (normalize_from [] (split_path path))

unfoldable pub is_absolute : String → Bool
is_absolute [] = false
is_absolute (c ∷ cs) = c == slash

unfoldable pub is_relative : String → Bool
is_relative path = not (is_absolute path)

unfoldable pub get_basename : String → String
get_basename path =
    if is_empty path || list_eq path root_path
    then []
    else elim (rfind slash path) [ none ↦ path | some last_slash ↦ drop (suc last_slash) path ]

unfoldable pub get_dirname : String → String
get_dirname path =
    if is_empty path || list_eq path root_path then root_path else elim (rfind slash path) [
      | none ↦ dot
      | some last_slash ↦ if last_slash == 0 then root_path else take last_slash path
    ]

unfoldable pub split_name_extension : String → String × String
split_name_extension filename = elim (rfind dot_char filename) [
  | none ↦ (filename, [])
  | some dot_pos ↦
      if dot_pos == 0 then (filename, []) else (take dot_pos filename, drop (suc dot_pos) filename)
]

unfoldable pub combine_path : String → String → String
combine_path base name =
    if is_empty base || list_eq base root_path
    then slash ∷ name
    else if last_char base == slash
    then base ++ name
    else base ++ slash ∷ name

unfoldable pub has_extension : String → Bool
has_extension filename = elim (rfind dot_char filename) [
  | none ↦ false
  | some dot_pos ↦ not (dot_pos == 0) && not (dot_pos == length filename - 1)
]

unfoldable pub get_extension : String → String
get_extension filename = elim (rfind dot_char filename) [
  | none ↦ []
  | some dot_pos ↦
      if dot_pos == 0 || dot_pos == length filename - 1 then [] else drop (suc dot_pos) filename
]

-- The character behind the prefix is read past the end only of a shorter path, which is refused first.
unfoldable pub path_contains : String → String → Bool
path_contains parent child =
    let norm_parent = normalize_path parent in
    let norm_child = normalize_path child in
    if leb (length norm_child) (length norm_parent)
    then false
    else list_eq (take (length norm_parent) norm_child) norm_parent
      && (is_absolute (drop (length norm_parent) norm_child) || list_eq norm_parent root_path)

unfoldable pub get_path_depth : String → ℕ
get_path_depth path = length (split_path path)

abbrev pub nth : List String → ℕ → String
nth [] i = []
nth (part ∷ parts) zero = part
nth (part ∷ parts) (suc i) = nth parts i

-- A negative index has the same answer as one past the end.
unfoldable pub get_path_component : String → ℕ → String
get_path_component path index =
    if leb (length (split_path path)) index then [] else nth (split_path path) index

unfoldable pub truncate_name : String → ℕ → String
truncate_name name max_len = if leb (length name) max_len then name else take max_len name

-- / \ : * ? " < > |
abbrev pub is_forbidden : ℕ → Bool
is_forbidden c =
    c == slash
    || c == 92
    || c == 58
    || c == 42
    || c == 63
    || c == 34
    || c == 60
    || c == 62
    || c == 124

unfoldable pub is_valid_name : String → Bool
is_valid_name name =
    if is_empty name || ltb 23 (length name) then false else not (any is_forbidden name)

unfoldable pub is_valid_extension : String → Bool
is_valid_extension ext =
    if ltb 7 (length ext) then false else not (any (λ c. is_forbidden c || c == dot_char) ext)
