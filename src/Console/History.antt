-- ===== src/Console/History.antt =====
-- The history of lines.
use level_fs.Base.{
  ℕ, suc, ◌-◌, ◌≤◌, ◌==◌, ◌≡◌, refl, sym, ap, ◌∙◌, if◌then◌else◌, ltb, List, [], ◌∷◌, ◌++◌, true,
  false, String, newline, append_assoc, append-nil, arith, Bool-cases, inl, inr, if_true, length,
  length-append, drop,
}
use level_fs.Console.{
  StreamBuf, emit, push_history, flush_line, write_char, write_text, trim_history,
}
use level_fs.Console.Written.{write_chars, write_text-write_chars}

-- The last lines of a list.
abbrev pub last_lines : ℕ → List String → List String
last_lines n lines = drop (length lines - n) lines

trim_history_short : (max : ℕ) (xs : List String) → length xs ≤ max → trim_history max xs ≡ xs
unfolding trim_history
trim_history_short max [] h = refl
trim_history_short max (x ∷ xs) h = ground (arith, h)

trim_history-append :
    (n : ℕ) (xs ys : List String)
    → trim_history n (trim_history n xs ++ ys) ≡ trim_history n (xs ++ ys)
unfolding trim_history
trim_history-append n [] ys = refl
trim_history-append n (x ∷ xs) ys = ground (arith, trim_history-append n xs ys, length-append xs ys)

-- setMaxHistory keeps the last lines.
trim_history-last_lines : (max : ℕ) (xs : List String) → trim_history max xs ≡ last_lines max xs
unfolding trim_history
trim_history-last_lines max [] = let less : 0 - max ≡ 0 = omega arith in rw less refl
trim_history-last_lines max (x ∷ xs) = elim (Bool-cases (ltb max (length (x ∷ xs)))) [
  | inl long ↦
      let one_more : suc (length xs) - max ≡ suc (length xs - max) = ground (arith, long) in
      rw (long, one_more) (trim_history-last_lines max xs)
  | inr short ↦
      let none_more : suc (length xs) - max ≡ 0 = ground (arith, short) in
      rw (short, none_more) refl
]

push_history-trim_history :
    (max : ℕ) (line : String) (history : List String)
    → length history ≤ max
    → push_history max line history ≡ trim_history max (history ++ line ∷ [])
unfolding push_history trim_history
push_history-trim_history max line [] h = refl
push_history-trim_history max line (x ∷ xs) h =
    ground (arith, h, length-append xs (line ∷ []), trim_history_short max (xs ++ line ∷ []))

trim_history-le : (max : ℕ) (xs : List String) → length (trim_history max xs) ≤ max
unfolding trim_history
trim_history-le max [] = omega arith
trim_history-le max (x ∷ xs) = ground (arith, trim_history-le max xs)

-- The lines that a text ends, the first of them with the buffer before it.
pub lines_of : String → String → List String
lines_of buffer [] = []
lines_of buffer (c ∷ cs) =
    let rest = lines_of (if c == newline then [] else buffer ++ c ∷ []) cs in
    if c == newline then buffer ∷ rest else rest

flush_line-history :
    (b : StreamBuf)
    → b.buffer_enabled ≡ true
    → length b.history ≤ b.max_history
    → (flush_line b).history ≡ trim_history b.max_history (b.history ++ b.buffer ∷ [])
unfolding flush_line emit
flush_line-history b on h =
    if_true b.buffer_enabled (push_history b.max_history b.buffer b.history) b.history on
    ∙ push_history-trim_history b.max_history b.buffer b.history h

module _ (buffer : String) (c : ℕ) (cs : String) where
  lines_of_line : (c == newline) ≡ true → lines_of buffer (c ∷ cs) ≡ buffer ∷ lines_of [] cs
  unfolding lines_of
  lines_of_line e = rw e refl

  lines_of_other :
      (c == newline) ≡ false → lines_of buffer (c ∷ cs) ≡ lines_of (buffer ++ c ∷ []) cs
  unfolding lines_of
  lines_of_other e = rw e refl

module _ (c : ℕ) (b : StreamBuf) where
  write_char_line : (c == newline) ≡ true → write_char c b ≡ flush_line b
  unfolding write_char
  write_char_line e = rw e refl

  write_char_other :
      (c == newline) ≡ false → write_char c b ≡ record b { buffer = b.buffer ++ c ∷ [] }
  unfolding write_char
  write_char_other e = rw e refl

-- The lines of a text extend the history.
write_chars-history :
    (s : String) (b : StreamBuf)
    → b.buffer_enabled ≡ true
    → length b.history ≤ b.max_history
    → (write_chars s b).history ≡ trim_history b.max_history (b.history ++ lines_of b.buffer s)
unfolding lines_of write_chars write_char flush_line emit
write_chars-history [] b on h =
    rw (append-nil b.history) (sym (trim_history_short b.max_history b.history h))
write_chars-history (c ∷ cs) b on h = elim (Bool-cases (c == newline)) [
  | inl e ↦
      let pushed = flush_line-history b on h in
      let short = trim_history-le b.max_history (b.history ++ b.buffer ∷ []) in
      ap (λ (t : StreamBuf). (write_chars cs t).history) (write_char_line c b e)
      ∙ write_chars-history cs (flush_line b) on (rw pushed short)
      ∙ ap (λ ls. trim_history b.max_history (ls ++ lines_of [] cs)) pushed
      ∙ trim_history-append b.max_history (b.history ++ b.buffer ∷ []) (lines_of [] cs)
      ∙ ap (trim_history b.max_history) (append_assoc b.history (b.buffer ∷ []) (lines_of [] cs))
      ∙ ap (λ ls. trim_history b.max_history (b.history ++ ls))
          (sym (lines_of_line b.buffer c cs e))
  | inr e ↦
      ap (λ (t : StreamBuf). (write_chars cs t).history) (write_char_other c b e)
      ∙ write_chars-history cs (record b { buffer = b.buffer ++ c ∷ [] }) on h
      ∙ ap (λ ls. trim_history b.max_history (b.history ++ ls))
          (sym (lines_of_other b.buffer c cs e))
]

-- A text written to a buffer that keeps its history, which is no longer than its maximum, leaves the
-- last lines of the old history followed by the lines that the text completes.
pub write_text-history :
    (s : String) (b : StreamBuf)
    → b.buffer_enabled ≡ true
    → length b.history ≤ b.max_history
    → (write_text s b).history ≡ last_lines b.max_history (b.history ++ lines_of b.buffer s)
write_text-history s b on h =
    ap (λ (t : StreamBuf). t.history) (write_text-write_chars s b)
    ∙ write_chars-history s b on h
    ∙ trim_history-last_lines b.max_history (b.history ++ lines_of b.buffer s)
