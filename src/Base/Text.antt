-- ===== src/Base/Text.antt =====
-- Reading text: lines by getline, the first place of a character, and blanks at either end.
use Prim.Native.Nat.{ℕ, suc}
use mathlib.Core.Path.{◌≡◌, refl, ap, ◌∙◌}
use mathlib.Core.Bool.{Bool, true, false, ◌&&◌, ◌||◌}
use mathlib.Core.List.{List, [], ◌∷◌, ◌++◌, append_assoc, append-nil}
use mathlib.Core.Option.{Option, none, some}
use native.Mathlib.Omega.{arith}
use level_fs.Base.Tests.{◌==◌, ltb, leb, if◌then◌else◌, ==_refl}
use level_fs.Base.Lists.{All, length, length-append, mem}
use level_fs.Base.Strings.{String, is_empty, list_eq, list_eq_refl, take, take-append}

abbrev pub newline : ℕ
newline = 10

abbrev pub space : ℕ
space = 32

abbrev pub quote : ℕ
quote = 34

abbrev pub semicolon : ℕ
semicolon = 59

-- while (getline(stream, line, delim)): the pieces up to each delimiter, the last one if not empty.
unfoldable pub lines_from : ℕ → String → String → List String
lines_from delim part [] = if is_empty part then [] else part ∷ []
lines_from delim part (c ∷ cs) =
    let rest = lines_from delim (if c == delim then [] else part ++ c ∷ []) cs in
    if c == delim then part ∷ rest else rest

pub lines_from-append :
    (delim : ℕ) (part text rest : String)
    → mem delim text ≡ false
    → lines_from delim part (text ++ delim ∷ rest) ≡ (part ++ text) ∷ lines_from delim [] rest
unfolding lines_from
lines_from-append delim part [] rest h = rw (==_refl delim) (rw (append-nil part))
lines_from-append delim part (c ∷ cs) rest h =
    let other : (c == delim) ≡ false = ground arith in
    rw other (
      lines_from-append delim (part ++ c ∷ []) cs rest (ground arith)
      ∙ ap (λ s. s ∷ lines_from delim [] rest) (append_assoc part (c ∷ []) cs))

-- std::string::find of one character; `none` is npos.
unfoldable pub find_char : ℕ → String → Option ℕ
find_char c [] = none
find_char c (x ∷ xs) =
    let rest = find_char c xs in
    if x == c then some 0 else elim rest [ none ↦ none | some i ↦ some (suc i) ]

pub find_char-append :
    (c : ℕ) (text rest : String)
    → mem c text ≡ false
    → find_char c (text ++ c ∷ rest) ≡ some (length text)
unfolding find_char
find_char-append c [] rest h = rw (==_refl c)
find_char-append c (x ∷ xs) rest h =
    let other : (x == c) ≡ false = ground arith in
    rw (other, find_char-append c xs rest (ground arith))

-- isspace in the C locale.
abbrev pub is_space : ℕ → Bool
is_space c = c == 32 || (leb 9 c && leb c 13)

unfoldable pub trim_start : String → String
trim_start [] = []
trim_start (c ∷ cs) = let rest = trim_start cs in if is_space c then rest else c ∷ cs

unfoldable pub trim_end : String → String
trim_end [] = []
trim_end (c ∷ cs) = let rest = trim_end cs in if is_empty rest && is_space c then [] else c ∷ rest

unfoldable pub trim : String → String
trim s = trim_end (trim_start s)

pub is_empty-append : (s t : String) → is_empty t ≡ false → is_empty (s ++ t) ≡ false
is_empty-append [] t h = h
is_empty-append (x ∷ s) t h = refl

pub trim_end-append :
    (s t : String) → trim_end t ≡ t → is_empty t ≡ false → trim_end (s ++ t) ≡ s ++ t
unfolding trim_end
trim_end-append [] t h ne = h
trim_end-append (c ∷ s) t h ne = rw (trim_end-append s t h ne, is_empty-append s t ne)

-- s.compare(0, prefix.length(), prefix) == 0, of an s that is long enough.
unfoldable pub starts_with : String → String → Bool
starts_with s prefix =
    if ltb (length s) (length prefix) then false else list_eq (take (length prefix) s) prefix

pub starts_with-append : (prefix s : String) → starts_with (prefix ++ s) prefix ≡ true
unfolding starts_with
starts_with-append prefix s =
    let long_enough : ltb (length (prefix ++ s)) (length prefix) ≡ false =
      ground (arith, length-append prefix s) in
    rw (long_enough, take-append prefix s) (list_eq_refl prefix)

pub starts_with_other :
    (s prefix : String)
    → list_eq (take (length prefix) s) prefix ≡ false
    → starts_with s prefix ≡ false
unfolding starts_with
starts_with_other s prefix h = ground (arith, h)

-- Each line with its line break.
abbrev pub unlines : List String → String
unlines [] = []
unlines (line ∷ lines) = line ++ newline ∷ unlines lines

pub lines_from-unlines :
    (lines : List String) (rest : String)
    → All (λ line. mem newline line ≡ false) lines
    → lines_from newline [] (unlines lines ++ rest) ≡ lines ++ lines_from newline [] rest
lines_from-unlines [] rest _ = refl
lines_from-unlines (line ∷ lines) rest (h, hs) =
    ap (lines_from newline []) (append_assoc line (newline ∷ unlines lines) rest)
    ∙ lines_from-append newline [] line (unlines lines ++ rest) h
    ∙ ap (λ ls. line ∷ ls) (lines_from-unlines lines rest hs)
