-- ===== src/Paths/Normal.antt =====
-- normalizePath.
use level_fs.Base.{
  ℕ, ◌==◌, ◌≡◌, refl, ◌∙◌, sym, List, [], ◌∷◌, ◌++◌, true, false, arith, mem, keep, All, All-append,
  String, list_eq, is_empty, drop_last, append_assoc, append-nil, Bool-cases, inl, inr,
}
use level_fs.Paths.{
  slash, dot, dot_dot, is_part, is_absolute, read_parts, split_path, concat_parts, join_path,
  normalize_from, normalize_path,
}
use level_fs.Paths.Splitting.{IsPart, split_path-join_path}

-- A part that is also not "..".
pub record IsNormal (part : String) : Type 0 where
  pub is_plain : IsPart part
  pub not_up : list_eq part dot_dot ≡ false

abbrev NoSlash : String → Type 0
NoSlash part = mem slash part ≡ false

mem_snoc : (k c : ℕ) (s : String) → mem k s ≡ false → (k == c) ≡ false → mem k (s ++ c ∷ []) ≡ false
mem_snoc k c [] h e = rw e
mem_snoc k c (x ∷ xs) h e =
    let rest : mem k xs ≡ false = ground arith in ground (arith, mem_snoc k c xs rest e)

read_parts-NoSlash : (part text : String) → NoSlash part → All NoSlash (read_parts part text)
unfolding read_parts
read_parts-NoSlash part [] h = elim (Bool-cases (is_empty part)) [
  | inl e ↦ rw e tt
  | inr e ↦ rw e (h, tt)
]
read_parts-NoSlash part (c ∷ cs) h = elim (Bool-cases (c == slash)) [
  | inl e ↦ rw e (h, read_parts-NoSlash [] cs refl)
  | inr e ↦ rw e (read_parts-NoSlash (part ++ c ∷ []) cs (mem_snoc slash c part h (ground arith)))
]

keep-IsPart : (xs : List String) → All NoSlash xs → All IsPart (keep is_part xs)
keep-IsPart [] _ = tt
keep-IsPart (x ∷ xs) (h, hs) = elim (Bool-cases (is_part x)) [
  | inl e ↦ rw e (record { kept = e; no_slash = h }, keep-IsPart xs hs)
  | inr e ↦ rw e (keep-IsPart xs hs)
]

split_path-IsPart : (path : String) → All IsPart (split_path path)
unfolding split_path
split_path-IsPart path = keep-IsPart (read_parts [] path) (read_parts-NoSlash [] path refl)

drop_last-All : (xs : List String) → All IsNormal xs → All IsNormal (drop_last xs)
drop_last-All [] h = h
drop_last-All (x ∷ []) h = tt
drop_last-All (x ∷ y ∷ ys) (h, hs) = (h, drop_last-All (y ∷ ys) hs)

not_dot : (part : String) → IsPart part → list_eq part dot ≡ false
not_dot part p = ground (arith, p.kept)

normalize_from-All :
    (normalized parts : List String)
    → All IsNormal normalized
    → All IsPart parts
    → All IsNormal (normalize_from normalized parts)
unfolding normalize_from
normalize_from-All normalized [] h _ = h
normalize_from-All normalized (part ∷ parts) h (p, ps) = elim (Bool-cases (list_eq part dot_dot)) [
  | inl up ↦ elim (Bool-cases (is_empty normalized)) [
    | inl e ↦ rw (up, e) (normalize_from-All normalized parts h ps)
    | inr e ↦
        rw (up, e) (normalize_from-All (drop_last normalized) parts (drop_last-All normalized h) ps)
  ]
  | inr down ↦
      rw (down, not_dot part p)
        (normalize_from-All (normalized ++ part ∷ []) parts
          (All-append IsNormal normalized (part ∷ []) h
            (record { is_plain = p; not_up = down }, tt))
          ps)
]

normalize_from_normal :
    (normalized parts : List String)
    → All IsNormal parts
    → normalize_from normalized parts ≡ normalized ++ parts
unfolding normalize_from
normalize_from_normal normalized [] _ = sym (append-nil normalized)
normalize_from_normal normalized (part ∷ parts) (p, ps) =
    rw (p.not_up, not_dot part p.is_plain)
      (normalize_from_normal (normalized ++ part ∷ []) parts ps
        ∙ append_assoc normalized (part ∷ []) parts)

pub parts_only : (xs : List String) → All IsNormal xs → All IsPart xs
parts_only [] _ = tt
parts_only (x ∷ xs) (h, hs) = (h.is_plain, parts_only xs hs)

pub normalize_from-IsNormal : (path : String) → All IsNormal (normalize_from [] (split_path path))
normalize_from-IsNormal path = normalize_from-All [] (split_path path) tt (split_path-IsPart path)

join_path-is_absolute : (parts : List String) → is_absolute (join_path parts) ≡ true
unfolding join_path concat_parts is_absolute
join_path-is_absolute [] = refl
join_path-is_absolute (part ∷ parts) = refl

-- The parts of a normalized path are not empty, hold no slash and are neither "." nor ".."; and the
-- path starts with a slash.
pub normalize_path-IsNormal :
    (path : String)
    → All IsNormal (split_path (normalize_path path)) × (is_absolute (normalize_path path) ≡ true)
unfolding normalize_path
normalize_path-IsNormal path = (
  rw (split_path-join_path _ (parts_only _ (normalize_from-IsNormal path)))
      (normalize_from-IsNormal path),
  join_path-is_absolute (normalize_from [] (split_path path)),
)

-- Normalizing a path twice is the same as normalizing it once.
pub normalize_path_idempotent :
    (path : String) → normalize_path (normalize_path path) ≡ normalize_path path
unfolding normalize_path
normalize_path_idempotent path =
    let parts = normalize_from [] (split_path path) in
    let normal = normalize_from-IsNormal path in
    rw (split_path-join_path parts (parts_only parts normal), normalize_from_normal [] parts normal)
