-- ===== src/Tasks/Command/RoundTrip.antt =====
-- A command line is read back.
use level_fs.Base.{
  ℕ, ◌==◌, ◌≡◌, refl, sym, ap, ◌∙◌, if◌then◌else◌, if_true, if_false, List, [], ◌∷◌, ◌++◌, Bool,
  true, false, ◌||◌, not, All, any, String, is_empty, is_space, is_empty-append, last_char,
  drop_last, space, trim_start, trim_end, trim_end-append, append_assoc, append-nil, arith,
}
use level_fs.Tasks.Command.{
  ampersand, words_from, is_background, without_ampersand, parsed, parse_command, args_to_string,
}

-- A word: not empty, and without blanks.
pub record IsWord (w : String) : Type 0 where
  pub full : is_empty w ≡ false
  pub solid : any is_space w ≡ false

-- The line for a command and its arguments, in the background or not.
abbrev pub command_text : String → List String → Bool → String
command_text command args background =
    args_to_string (command ∷ args) ++ (if background then space ∷ ampersand ∷ [] else [])

words_from-append :
    (word text rest : String)
    → any is_space text ≡ false
    → words_from word (text ++ rest) ≡ words_from (word ++ text) rest
unfolding words_from
words_from-append word [] rest h = rw (append-nil word) refl
words_from-append word (c ∷ cs) rest h =
    let other : is_space c ≡ false = ground arith in
    rw other (
      words_from-append (word ++ c ∷ []) cs rest (ground arith)
      ∙ ap (λ s. words_from s rest) (append_assoc word (c ∷ []) cs))

words_from_end : (w : String) → is_empty w ≡ false → words_from w [] ≡ w ∷ []
unfolding words_from
words_from_end w h = rw h refl

words_from_next :
    (w rest : String) → is_empty w ≡ false → words_from w (space ∷ rest) ≡ w ∷ words_from [] rest
unfolding words_from
words_from_next w rest h = rw h refl

words_from-args_to_string :
    (w : String) (ws : List String)
    → IsWord w
    → All IsWord ws
    → words_from [] (args_to_string (w ∷ ws)) ≡ w ∷ ws
unfolding args_to_string
words_from-args_to_string w [] h _ =
    ap (words_from []) (sym (append-nil w))
    ∙ words_from-append [] w [] h.solid
    ∙ words_from_end w h.full
words_from-args_to_string w (v ∷ vs) h (g, gs) =
    words_from-append [] w (space ∷ args_to_string (v ∷ vs)) h.solid
    ∙ words_from_next w (args_to_string (v ∷ vs)) h.full
    ∙ ap (λ ls. w ∷ ls) (words_from-args_to_string v vs g gs)

last_char-append : (s t : String) → is_empty t ≡ false → last_char (s ++ t) ≡ last_char t
last_char-append [] t h = refl
last_char-append (c ∷ []) [] h = cc
last_char-append (c ∷ []) (x ∷ t) h = refl
last_char-append (c ∷ d ∷ s) t h = last_char-append (d ∷ s) t h

trim_end_solid : (s : String) → is_space (last_char s) ≡ false → trim_end s ≡ s
unfolding trim_end
trim_end_solid [] h = refl
trim_end_solid (c ∷ []) h = rw h refl
trim_end_solid (c ∷ d ∷ s) h = rw (trim_end_solid (d ∷ s) h) refl

drop_last-append : (s : String) (c d : ℕ) → drop_last (s ++ c ∷ d ∷ []) ≡ s ++ c ∷ []
drop_last-append [] c d = refl
drop_last-append (x ∷ []) c d = refl
drop_last-append (x ∷ y ∷ s) c d = ap (λ t. x ∷ t) (drop_last-append (y ∷ s) c d)

trim_end-space : (s : String) → trim_end (s ++ space ∷ []) ≡ trim_end s
unfolding trim_end
trim_end-space [] = refl
trim_end-space (c ∷ s) = rw (trim_end-space s) refl

last_char-IsWord : (w : String) → IsWord w → is_space (last_char w) ≡ false
last_char-IsWord [] h = refl
last_char-IsWord (c ∷ []) h = ground (arith, h.solid)
last_char-IsWord (c ∷ d ∷ s) h =
    last_char-IsWord (d ∷ s) (record { full = refl; solid = ground (arith, h.solid) })

args_to_string-full :
    (w : String) (ws : List String) → IsWord w → is_empty (args_to_string (w ∷ ws)) ≡ false
unfolding args_to_string
args_to_string-full w [] h = h.full
args_to_string-full w (v ∷ vs) h = is_empty-append w (space ∷ args_to_string (v ∷ vs)) refl

args_to_string-last :
    (w : String) (ws : List String)
    → IsWord w
    → All IsWord ws
    → is_space (last_char (args_to_string (w ∷ ws))) ≡ false
unfolding args_to_string
args_to_string-last w [] h _ = last_char-IsWord w h
args_to_string-last w (v ∷ vs) h (g, gs) =
    let rest = args_to_string (v ∷ vs) in
    ap is_space (last_char-append w (space ∷ rest) refl)
    ∙ ap is_space (last_char-append (space ∷ []) rest (args_to_string-full v vs g))
    ∙ args_to_string-last v vs g gs

trim_start-IsWord : (w rest : String) → IsWord w → trim_start (w ++ rest) ≡ w ++ rest
unfolding trim_start
trim_start-IsWord [] rest h = cc (h.full)
trim_start-IsWord (c ∷ cs) rest h =
    let solid : is_space c ≡ false = ground (arith, h.solid) in rw solid refl

trim_start-args_to_string :
    (w : String) (ws : List String) (rest : String)
    → IsWord w
    → trim_start (args_to_string (w ∷ ws) ++ rest) ≡ args_to_string (w ∷ ws) ++ rest
unfolding args_to_string
trim_start-args_to_string w [] rest h = trim_start-IsWord w rest h
trim_start-args_to_string w (v ∷ vs) rest h =
    ap trim_start (append_assoc w (space ∷ args_to_string (v ∷ vs)) rest)
    ∙ trim_start-IsWord w (space ∷ (args_to_string (v ∷ vs) ++ rest)) h
    ∙ sym (append_assoc w (space ∷ args_to_string (v ∷ vs)) rest)

-- A line without blanks at its ends is not trimmed.
trimmed_text :
    (command : String) (args : List String) (background : Bool)
    → IsWord command
    → All IsWord args
    → trim_start (trim_end (command_text command args background))
      ≡ command_text command args background
trimmed_text command args true h hs =
    ap trim_start (
      trim_end-append (args_to_string (command ∷ args)) (space ∷ ampersand ∷ [])
        (unfold trim_end in refl) refl)
    ∙ trim_start-args_to_string command args (space ∷ ampersand ∷ []) h
trimmed_text command args false h hs =
    let text = args_to_string (command ∷ args) in
    ap (λ s. trim_start (trim_end s)) (append-nil text)
    ∙ ap trim_start (trim_end_solid text (args_to_string-last command args h hs))
    ∙ ap trim_start (sym (append-nil text))
    ∙ trim_start-args_to_string command args [] h

background_text :
    (command : String) (args : List String)
    → IsWord command
    → All IsWord args
    → (is_background (command_text command args true) ≡ true)
      × (without_ampersand (command_text command args true) ≡ args_to_string (command ∷ args))
unfolding is_background without_ampersand
background_text command args h hs =
    let text = args_to_string (command ∷ args) in
    let marked : is_background (text ++ space ∷ ampersand ∷ []) ≡ true =
      rw
        (
          is_empty-append text (space ∷ ampersand ∷ []) refl,
          last_char-append text (space ∷ ampersand ∷ []) refl,
        )
        refl in
    (
      marked,
      if_true (is_background (text ++ space ∷ ampersand ∷ []))
            (trim_end (drop_last (text ++ space ∷ ampersand ∷ []))) (text ++ space ∷ ampersand ∷ [])
            marked
          ∙ ap trim_end (drop_last-append text space ampersand)
          ∙ trim_end-space text
          ∙ trim_end_solid text (args_to_string-last command args h hs),
    )

foreground_text :
    (command : String) (args : List String)
    → (last_char (args_to_string (command ∷ args)) == ampersand) ≡ false
    → (is_background (command_text command args false) ≡ false)
      × (without_ampersand (command_text command args false) ≡ args_to_string (command ∷ args))
unfolding is_background without_ampersand
foreground_text command args h =
    let text = args_to_string (command ∷ args) in
    let plain = append-nil text in
    let unmarked : is_background (text ++ []) ≡ false =
      ap is_background plain ∙ ground (arith, h) in
    (
      unmarked,
      if_false (is_background (text ++ [])) (trim_end (drop_last (text ++ []))) (text ++ [])
            unmarked
          ∙ plain,
    )

marked_text :
    (command : String) (args : List String) (background : Bool)
    → IsWord command
    → All IsWord args
    → (background || not (last_char (args_to_string (command ∷ args)) == ampersand)) ≡ true
    → (is_background (command_text command args background) ≡ background)
      × (without_ampersand (command_text command args background) ≡ args_to_string (command ∷ args))
marked_text command args true h hs _ = background_text command args h hs
marked_text command args false h hs last = foreground_text command args (ground (arith, last))

-- The line of a command and its arguments, all of them words without blanks, is parsed into these, and
-- runs in the background exactly when an ampersand stands behind it; in the foreground, if the last
-- word does not end in one.
pub parse_command-args_to_string :
    (command : String) (args : List String) (background : Bool)
    → IsWord command
    → All IsWord args
    → (background || not (last_char (args_to_string (command ∷ args)) == ampersand)) ≡ true
    → parse_command (command_text command args background) ≡ record {
      command = command;
      args = args;
      run_in_background = background;
      raw_line = command_text command args background;
    }
unfolding parse_command
parse_command-args_to_string command args background h hs last =
    let line = command_text command args background in
    let (marked, rest) = marked_text command args background h hs last in
    ap (λ t. parsed line (is_background t) (words_from [] (without_ampersand t)))
      (trimmed_text command args background h hs)
    ∙ ap (λ b. parsed line b (words_from [] (without_ampersand line))) marked
    ∙ ap (λ t. parsed line background (words_from [] t)) rest
    ∙ ap (parsed line background) (words_from-args_to_string command args h hs)
