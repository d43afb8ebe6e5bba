-- ===== src/Console/Padding.antt =====
-- The width of what is written.
use level_fs.Base.{
  ℕ, zero, suc, ◌+◌, ◌-◌, ◌≡◌, refl, ap, if◌then◌else◌, ltb, [], ◌∷◌, ◌++◌, Bool, true, false,
  String, newline, arith, Option-cases, inl, inr, take, drop, find_char,
}
use level_fs.Console.{content_length, spaces, pad_left_aligned, apply_format}

content_length-append :
    (s t : String) → content_length (s ++ t) ≡ content_length s + content_length t
unfolding content_length
content_length-append [] t = omega arith
content_length-append (c ∷ s) t = ground (arith, content_length-append s t)

content_length-spaces : (n : ℕ) → content_length (spaces n) ≡ n
unfolding content_length
content_length-spaces zero = refl
content_length-spaces (suc n) = ap suc (content_length-spaces n)

content_length_split :
    (n : ℕ) (s : String) → content_length (take n s) + content_length (drop n s) ≡ content_length s
unfolding content_length
content_length_split zero s = omega arith
content_length_split (suc n) [] = omega arith
content_length_split (suc n) (c ∷ s) = ground (arith, content_length_split n s)

content_length-pad :
    (padding : ℕ) (s : String)
    → content_length (pad_left_aligned padding s) ≡ content_length s + padding
unfolding pad_left_aligned
content_length-pad padding s = elim (Option-cases (find_char newline s)) [
  | inl e ↦
      rw (e, pad_left_aligned)
        (omega (arith, content_length-append s (spaces padding), content_length-spaces padding))
  | inr (nl, e) ↦
      rw (e, pad_left_aligned)
        (omega (
          arith,
          content_length-append (take nl s) (spaces padding ++ drop nl s),
          content_length-append (spaces padding) (drop nl s),
          content_length-spaces padding,
          content_length_split nl s,
        ))
]

-- A text formatted to a width takes that width or, if it is wider, its own; on either side that it is
-- aligned to, with line breaks and tabs not counted.
pub content_length-apply_format :
    (width : ℕ) (left_align : Bool) (s : String)
    → content_length (apply_format width left_align s)
      ≡ (if ltb (content_length s) width then width else content_length s)
unfolding apply_format
content_length-apply_format width true s =
    ground (arith, content_length-pad (width - content_length s) s)
content_length-apply_format width false s = ground (
  arith,
  content_length-append (spaces (width - content_length s)) s,
  content_length-spaces (width - content_length s),
)
