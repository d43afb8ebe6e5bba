-- ===== src/Console/Reading.antt =====
-- Input: what is fed and what is read.
use level_fs.Base.{
  ℕ, zero, suc, ◌+◌, ◌-◌, ◌≤◌, ◌<◌, ◌==◌, ◌≡◌, refl, sym, ap, ◌∙◌, leb, List, [], ◌∷◌, ◌++◌, Option,
  false, All, String, newline, unlines, arith, length, length-append, drop, drop-append-suc, mem,
}
use level_fs.Console.{InputBuf, refill, take_line, read_line, feed_input}

-- What has not been read yet.
abbrev pub unread : InputBuf → String
unread b = drop b.read_pos b.input

drop_nil : (n : ℕ) → drop {A = ℕ} n [] ≡ []
drop_nil zero = refl
drop_nil (suc n) = refl

drop-drop : (m n : ℕ) (s : String) → drop (n + m) s ≡ drop m (drop n s)
drop-drop m zero s = let plain : 0 + m ≡ m = omega arith in rw plain refl
drop-drop m (suc n) [] = drop_nil (suc n + m) ∙ sym (drop_nil m)
drop-drop m (suc n) (c ∷ s) =
    let step : suc n + m ≡ suc (n + m) = omega arith in rw step (drop-drop m n s)

length-drop : (n : ℕ) (s : String) → length (drop n s) ≡ length s - n
length-drop zero s = omega arith
length-drop (suc n) [] = omega arith
length-drop (suc n) (c ∷ s) = omega (arith, length-drop n s)

drop-append_le : (n : ℕ) (s t : String) → n ≤ length s → drop n (s ++ t) ≡ drop n s ++ t
drop-append_le zero s t h = refl
drop-append_le (suc n) [] t h = absurd (omega (arith, h))
drop-append_le (suc n) (c ∷ s) t h = drop-append_le n s t (omega (arith, h))

take_line-append :
    (line rest : String)
    → mem newline line ≡ false
    → take_line (line ++ newline ∷ rest) ≡ (line, suc (length line))
unfolding take_line
take_line-append [] rest h = refl
take_line-append (c ∷ cs) rest h =
    let other : (c == newline) ≡ false = ground arith in
    rw (other, take_line-append cs rest (ground arith)) refl

refill-unread :
    (answer : Option String) (b : InputBuf) → 0 < length (unread b) → refill answer b ≡ b
unfolding refill
refill-unread answer b h =
    let more : leb (length b.input) b.read_pos ≡ false =
      ground (arith, length-drop b.read_pos b.input) in
    rw more refl

-- Reading the next line.
read_line_next :
    (answer : Option String) (b : InputBuf) (line rest : String)
    → unread b ≡ line ++ newline ∷ rest
    → mem newline line ≡ false
    → read_line answer b ≡ (record b { read_pos = b.read_pos + suc (length line) }, line)
unfolding read_line
read_line_next answer b line rest h one =
    let full : 0 < length (unread b) =
      omega (arith, ap length h, length-append line (newline ∷ rest)) in
    let taken : String × ℕ → InputBuf × String =
      λ (t : String × ℕ). (record b { read_pos = b.read_pos + t.1 }, t.0) in
    ap {B = InputBuf × String}
      (λ (r : InputBuf).
        (record r { read_pos = r.read_pos + (take_line (unread r)).1 }, (take_line (unread r)).0))
      (refill-unread answer b full)
    ∙ ap (λ s. taken (take_line s)) h
    ∙ ap taken (take_line-append line rest one)

unread_next :
    (b : InputBuf) (line rest : String)
    → unread b ≡ line ++ newline ∷ rest
    → unread (record b { read_pos = b.read_pos + suc (length line) }) ≡ rest
unread_next b line rest h =
    drop-drop (suc (length line)) b.read_pos b.input
    ∙ ap (drop (suc (length line))) h
    ∙ drop-append-suc newline line rest

-- Lines read one after the other, each with what the callback would answer.
pub read_lines : List (Option String) → InputBuf → List String
read_lines [] b = []
read_lines (answer ∷ answers) b =
    let (b', line) = read_line answer b in line ∷ read_lines answers b'

read_lines-unlines :
    (lines : List String) (answers : List (Option String)) (b : InputBuf)
    → unread b ≡ unlines lines
    → All (λ line. mem newline line ≡ false) lines
    → length answers ≡ length lines
    → read_lines answers b ≡ lines
unfolding read_lines
read_lines-unlines [] [] b h _ count = refl
read_lines-unlines [] (a ∷ as_rest) b h _ count = absurd (omega (arith, count))
read_lines-unlines (line ∷ lines) [] b h _ count = absurd (omega (arith, count))
read_lines-unlines (line ∷ lines) (answer ∷ answers) b h (one, all_one) count =
    let next = record b { read_pos = b.read_pos + suc (length line) } in
    ap (λ (r : InputBuf × String). r.1 ∷ read_lines answers r.0)
      (read_line_next answer b line (unlines lines) h one)
    ∙ ap (λ ls. line ∷ ls)
        (read_lines-unlines lines answers next (unread_next b line (unlines lines) h) all_one
          (omega (arith, count)))

-- Lines that are fed to an input that was read to its end are read back in order, one by each call, if
-- none of them has a line break; the callback is not asked.
pub read_lines-feed_input :
    (lines : List String) (answers : List (Option String)) (b : InputBuf)
    → unread b ≡ []
    → b.read_pos ≤ length b.input
    → All (λ line. mem newline line ≡ false) lines
    → length answers ≡ length lines
    → read_lines answers (feed_input (unlines lines) b) ≡ lines
unfolding feed_input
read_lines-feed_input lines answers b h below one count =
    read_lines-unlines lines answers (record b { input = b.input ++ unlines lines })
      (drop-append_le b.read_pos b.input (unlines lines) below ∙ ap (λ s. s ++ unlines lines) h) one
      count
