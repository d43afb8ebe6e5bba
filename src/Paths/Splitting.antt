-- ===== src/Paths/Splitting.antt =====
-- splitPath against joinPath.
use level_fs.Base.{
  ◌==◌, ◌≡◌, refl, ◌∙◌, ap, List, [], ◌∷◌, ◌++◌, true, false, arith, mem, keep, All, String,
  append_assoc, append-nil,
}
use level_fs.Paths.{slash, is_part, read_parts, split_path, concat_parts, join_path}

-- A part of a path: a name without a slash, not empty and not ".".
pub record IsPart (part : String) : Type 0 where
  pub kept : is_part part ≡ true
  pub no_slash : mem slash part ≡ false

-- Reading over a text without a slash only collects it.
read_parts-append :
    (part text rest : String)
    → mem slash text ≡ false
    → read_parts part (text ++ rest) ≡ read_parts (part ++ text) rest
unfolding read_parts
read_parts-append part [] rest h = rw (append-nil part)
read_parts-append part (c ∷ cs) rest h =
    let other : (c == slash) ≡ false = ground arith in
    let no_more : mem slash cs ≡ false = ground arith in
    rw other (
      read_parts-append (part ++ c ∷ []) cs rest no_more
      ∙ ap (λ s. read_parts s rest) (append_assoc part (c ∷ []) cs))

kept_text :
    (part : String) (xs : List String)
    → is_part part ≡ true
    → keep is_part (part ∷ xs) ≡ part ∷ keep is_part xs
kept_text part xs h = rw h

parts_of :
    (part : String) (parts : List String)
    → IsPart part
    → All IsPart parts
    → keep is_part (read_parts part (concat_parts parts)) ≡ part ∷ parts
unfolding read_parts concat_parts
parts_of (c ∷ cs) [] p _ = rw p.kept
parts_of [] parts p _ = absurd (ground (arith, p.kept))
parts_of (c ∷ cs) (next ∷ parts) p (q, qs) =
    ap (λ xs. keep is_part ((c ∷ cs) ∷ xs))
      (read_parts-append [] next (concat_parts parts) q.no_slash)
    ∙ kept_text (c ∷ cs) (read_parts next (concat_parts parts)) p.kept
    ∙ ap (λ xs. (c ∷ cs) ∷ xs) (parts_of next parts q qs)

-- splitPath reads back the parts that joinPath has put together, if each of them is not empty, is
-- not "." and has no slash.
pub split_path-join_path :
    (parts : List String) → All IsPart parts → split_path (join_path parts) ≡ parts
unfolding split_path join_path concat_parts read_parts
split_path-join_path [] _ = refl
split_path-join_path (part ∷ parts) (p, ps) =
    ap (keep is_part) (read_parts-append [] part (concat_parts parts) p.no_slash)
    ∙ parts_of part parts p ps
