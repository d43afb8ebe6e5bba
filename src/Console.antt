-- ===== src/Console.antt =====
-- The console's streams: src/lstream.cpp. Texts have no NUL character, so that fputs writes all of one.
pub mod Written
pub mod History
pub mod Reading
pub mod Padding
mod Tests
use level_fs.Base.{
  ℕ, zero, suc, ◌+◌, ◌-◌, ◌==◌, ltb, leb, if◌then◌else◌, List, [], ◌∷◌, ◌++◌, Option, none, some,
  Bool, true, false, ◌&&◌, ◌||◌, not, String, is_empty, take, drop, length, newline, space,
  find_char,
}

-- `console`, `called` and `mirror` are the texts that the three outputs have been given.
pub record StreamBuf : Type 0 where
  pub buffer : String
  pub history : List String
  pub max_history : ℕ
  pub direct_console : Bool
  pub has_callback : Bool
  pub mirrored : Bool
  pub buffer_enabled : Bool
  pub console : String
  pub called : List String
  pub mirror : String

abbrev pub new_buf : ℕ → StreamBuf
new_buf history_size = record {
  buffer = [];
  history = [];
  max_history = history_size;
  direct_console = true;
  has_callback = false;
  mirrored = false;
  buffer_enabled = true;
  console = [];
  called = [];
  mirror = [];
}

-- One text to each output that is on.
unfoldable pub emit : String → StreamBuf → StreamBuf
emit text b = record b {
  console = if b.direct_console then b.console ++ text else b.console;
  called = if b.has_callback then b.called ++ text ∷ [] else b.called;
  mirror = if b.mirrored then b.mirror ++ text else b.mirror;
}

unfoldable pub push_history : ℕ → String → List String → List String
push_history max line history =
    let history' = history ++ line ∷ [] in
    if ltb max (length history') then drop 1 history' else history'

unfoldable pub flush_line : StreamBuf → StreamBuf
flush_line b =
    let line = b.buffer in
    emit (line ++ newline ∷ []) (record b {
      buffer = [];
      history = if b.buffer_enabled then push_history b.max_history line b.history else b.history;
    })

unfoldable pub flush_partial : StreamBuf → StreamBuf
flush_partial b = emit b.buffer (record b { buffer = [] })

unfoldable pub flush_buf : StreamBuf → StreamBuf
flush_buf b = if not (is_empty b.buffer) then flush_partial b else b

unfoldable pub write_char : ℕ → StreamBuf → StreamBuf
write_char c b = if c == newline then flush_line b else record b { buffer = b.buffer ++ c ∷ [] }

-- The loop of write(s, n), with the characters since the last line break.
unfoldable pub write_from : String → String → StreamBuf → StreamBuf
write_from segment [] b =
    if not (is_empty segment) then record b { buffer = b.buffer ++ segment } else b
write_from segment (c ∷ cs) b =
    write_from (if c == newline then [] else segment ++ c ∷ []) cs
      (if c == newline then flush_line (record b { buffer = b.buffer ++ segment }) else b)

unfoldable pub write_text : String → StreamBuf → StreamBuf
write_text s b = write_from [] s b

-- The loop of setMaxHistory.
unfoldable pub trim_history : ℕ → List String → List String
trim_history max [] = []
trim_history max (line ∷ lines) =
    let rest = trim_history max lines in
    if ltb max (length (line ∷ lines)) then rest else line ∷ lines

unfoldable pub set_max_history : ℕ → StreamBuf → StreamBuf
set_max_history max b = record b { max_history = max; history = trim_history max b.history }

unfoldable pub clear_history : StreamBuf → StreamBuf
clear_history b = record b { history = [] }

unfoldable pub history_text : List String → String
history_text [] = []
history_text (line ∷ lines) = line ++ newline ∷ history_text lines

unfoldable pub get_history_as_string : StreamBuf → String
get_history_as_string b = history_text b.history

pub record InputBuf : Type 0 where
  pub input : String
  pub read_pos : ℕ

-- Asking the callback, if there is one, for more input; `none` is no callback.
unfoldable pub refill : Option String → InputBuf → InputBuf
refill answer b =
    if leb (length b.input) b.read_pos
    then (elim answer [ none ↦ b | some text ↦ record { input = text; read_pos = 0 } ])
    else b

abbrev pub first_of : String → Option ℕ
first_of [] = none
first_of (c ∷ cs) = some c

-- `none` is the answer -1.
unfoldable pub read : Option String → InputBuf → InputBuf × Option ℕ
read answer b =
    let b' = refill answer b in
    if leb (length b'.input) b'.read_pos
    then (b', none)
    else (record b' { read_pos = suc b'.read_pos }, first_of (drop b'.read_pos b'.input))

-- The loop of readLine over what is left of the input: the line, and the characters taken.
unfoldable pub take_line : String → String × ℕ
take_line [] = ([], 0)
take_line (c ∷ cs) =
    let (line, taken) = take_line cs in if c == newline then ([], 1) else (c ∷ line, suc taken)

unfoldable pub read_line : Option String → InputBuf → InputBuf × String
read_line answer b =
    let b' = refill answer b in
    let (line, taken) = take_line (drop b'.read_pos b'.input) in
    (record b' { read_pos = b'.read_pos + taken }, line)

unfoldable pub has_data : InputBuf → Bool
has_data b = ltb b.read_pos (length b.input)

unfoldable pub feed_input : String → InputBuf → InputBuf
feed_input text b = record b { input = b.input ++ text }

unfoldable pub clear_buffer : InputBuf → InputBuf
clear_buffer b = record { input = []; read_pos = 0 }

-- LInputStream::getline: the line and whether it counts.
unfoldable pub getline : Option String → InputBuf → InputBuf × String × Bool
getline answer b =
    let (b', line) = read_line answer b in (b', line, not (is_empty line) || has_data b')

pub record OutputStream : Type 0 where
  pub buf : StreamBuf
  pub field_width : ℕ
  pub left_align : Bool

abbrev pub spaces : ℕ → String
spaces zero = []
spaces (suc n) = space ∷ spaces n

-- The characters of a text that take room on a line.
unfoldable pub content_length : String → ℕ
content_length [] = 0
content_length (c ∷ cs) =
    let rest = content_length cs in if c == newline || c == 13 || c == 9 then rest else suc rest

unfoldable pub pad_left_aligned : ℕ → String → String
pad_left_aligned padding s = elim (find_char newline s) [
  | none ↦ s ++ spaces padding
  | some nl ↦ take nl s ++ (spaces padding ++ drop nl s)
]

unfoldable pub apply_format : ℕ → Bool → String → String
apply_format width left_align s =
    if width == 0
    then s
    else if leb width (content_length s)
    then s
    else if left_align
    then pad_left_aligned (width - content_length s) s
    else spaces (width - content_length s) ++ s

-- operator<< of a text.
unfoldable pub put_text : String → OutputStream → OutputStream
put_text s o = record o {
  buf =
      write_text (if o.field_width == 0 then s else apply_format o.field_width o.left_align s)
        o.buf;
  field_width = 0;
}

-- operator<< of one character keeps the width.
unfoldable pub put_char : ℕ → OutputStream → OutputStream
put_char c o = record o { buf = write_char c o.buf }

unfoldable pub end_of_line : OutputStream → OutputStream
end_of_line o = let o' = put_char newline o in record o' { buf = flush_buf o'.buf }
