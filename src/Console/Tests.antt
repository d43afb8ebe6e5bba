-- ===== src/Console/Tests.antt =====
-- The theorems on the streams at texts.
use level_fs.Base.{◌≡◌, refl, List, [], ◌∷◌, ◌++◌, none, true, false, String, newline, find_char}
use level_fs.Console.{
  new_buf, write_text, flush_buf, flush_partial, emit, write_char, write_from, flush_line,
  push_history, InputBuf, content_length, apply_format, pad_left_aligned, getline, read_line,
  refill, take_line, has_data,
}
use level_fs.Console.Written.{
  perform, Output, write_one, write_many, flush_now, to_console, is_on, given, perform_all, written,
  perform_all-written,
}

-- "ab", a line break, "c"
abbrev two_parts : String
two_parts = b'a' ∷ b'b' ∷ newline ∷ b'c' ∷ []

abbrev session : List Output
session = write_many two_parts ∷ write_one b'd' ∷ flush_now ∷ write_one newline ∷ []

console_on : is_on to_console (new_buf 2) ≡ true
unfolding is_on
console_on = refl

perform_all-written_example :
    given to_console (perform_all session (new_buf 2)) ++ (perform_all session (new_buf 2)).buffer
    ≡ (given to_console (new_buf 2) ++ (new_buf 2).buffer) ++ written session
perform_all-written_example = perform_all-written to_console session (new_buf 2) console_on

abbrev drained : InputBuf
drained = record { input = b'x' ∷ newline ∷ []; read_pos = 2 }

abbrev fed : List String
fed = (b'l' ∷ b's' ∷ []) ∷ [] ∷ (b'q' ∷ []) ∷ []

-- The padding goes before the line break.
padded : apply_format 6 true two_parts ≡ b'a' ∷ b'b' ∷ 32 ∷ 32 ∷ 32 ∷ newline ∷ b'c' ∷ []
unfolding apply_format content_length pad_left_aligned find_char
padded = refl

-- What was flushed in the middle of a line is missing from the line in the history.
flushed_line : (perform_all session (new_buf 2)).history ≡ (b'a' ∷ b'b' ∷ []) ∷ [] ∷ []
unfolding perform_all perform write_text write_from write_char flush_buf flush_partial flush_line
    emit push_history
flushed_line = refl

-- An empty line at the end of the input is answered like its end.
empty_last_line : (getline none (record { input = newline ∷ []; read_pos = 0 })).2 ≡ false
unfolding getline read_line refill take_line has_data
empty_last_line = refl
