-- ===== src/Paths/Containing.antt =====
-- pathContains.
use level_fs.Base.{
  ℕ, zero, suc, ◌==◌, leb, ◌≡◌, refl, ◌∙◌, sym, ap, List, [], ◌∷◌, ◌++◌, true, false, ◌||◌, arith,
  keep, length, String, list_eq, list_eq→eq, is_empty, take, drop, append-nil, Bool-cases, inl, inr,
}
use level_fs.Paths.{
  slash, root_path, is_part, is_absolute, read_parts, split_path, join_path, normalize_from,
  normalize_path, path_contains,
}
use level_fs.Paths.Splitting.{split_path-join_path}
use level_fs.Paths.Normal.{normalize_from-IsNormal, parts_only}

take-drop : (n : ℕ) (s : String) → s ≡ take n s ++ drop n s
take-drop zero s = refl
take-drop (suc n) [] = refl
take-drop (suc n) (x ∷ xs) = ap (λ ys. x ∷ ys) (take-drop n xs)

keep-append : (xs ys : List String) → keep is_part (xs ++ ys) ≡ keep is_part xs ++ keep is_part ys
keep-append [] ys = refl
keep-append (x ∷ xs) ys = elim (Bool-cases (is_part x)) [
  | inl e ↦ rw e (ap (λ zs. x ∷ zs) (keep-append xs ys))
  | inr e ↦ rw e (keep-append xs ys)
]

-- A slash ends a part, so the parts before it and behind it are read on their own.
split-at_slash :
    (part s t : String)
    → keep is_part (read_parts part (s ++ slash ∷ t))
      ≡ keep is_part (read_parts part s) ++ keep is_part (read_parts [] t)
unfolding read_parts
split-at_slash [] [] t = refl
split-at_slash (p ∷ ps) [] t = keep-append ((p ∷ ps) ∷ []) (read_parts [] t)
split-at_slash part (c ∷ cs) t = elim (Bool-cases (c == slash)) [
  | inl e ↦ elim (Bool-cases (is_part part)) [
    | inl k ↦ rw (e, k) (ap (λ zs. part ∷ zs) (split-at_slash [] cs t))
    | inr k ↦ rw (e, k) (split-at_slash [] cs t)
  ]
  | inr e ↦ rw e (split-at_slash (part ++ c ∷ []) cs t)
]

-- A normalized path is put together from its parts.
join_path-normalize_path :
    (path : String) → join_path (split_path (normalize_path path)) ≡ normalize_path path
unfolding normalize_path
join_path-normalize_path path = ap join_path (
    split_path-join_path (normalize_from [] (split_path path))
      (parts_only (normalize_from [] (split_path path)) (normalize_from-IsNormal path)))

absolute-cases : (s : String) → is_absolute s ≡ true → (t : String) × (s ≡ slash ∷ t)
unfolding is_absolute
absolute-cases [] h = cc
absolute-cases (c ∷ cs) h = let e : c ≡ slash = ground arith in (cs, ap (λ x. x ∷ cs) e)

no_element : (xs : List String) → is_empty xs ≡ true → xs ≡ []
no_element [] h = refl
no_element (x ∷ xs) h = cc

-- What the tests of pathContains find.
contained :
    (parent child : String)
    → path_contains parent child ≡ true
    → (leb (length (normalize_path child)) (length (normalize_path parent)) ≡ false)
      × (list_eq
            (take (length (normalize_path parent)) (normalize_path child))
            (normalize_path parent)
          ≡ true)
      × ((is_absolute (drop (length (normalize_path parent)) (normalize_path child))
            || list_eq (normalize_path parent) root_path)
          ≡ true)
unfolding path_contains
contained parent child h = (ground arith, ground arith, ground arith)

-- The parts of the child are those of the parent and more.
extra_parts :
    (parent child : String)
    → path_contains parent child ≡ true
    → (rest : List String) × (split_path (normalize_path child)
        ≡ split_path (normalize_path parent) ++ rest)
unfolding split_path read_parts
extra_parts parent child h =
    let p = normalize_path parent in
    let c = normalize_path child in
    let (longer, prefix, next) = contained parent child h in
    elim (Bool-cases (is_absolute (drop (length p) c))) [
      | inl below ↦
          let (t, e) = absolute-cases (drop (length p) c) below in
          let whole : c ≡ p ++ slash ∷ t =
            take-drop (length p) c
            ∙ ap (λ xs. xs ++ drop (length p) c) (list_eq→eq (take (length p) c) p prefix)
            ∙ ap (λ ys. p ++ ys) e in
          (split_path t, ap split_path whole ∙ split-at_slash [] p t)
      | inr at_root ↦
          let root : p ≡ root_path = list_eq→eq p root_path (ground arith) in
          (split_path c, ap (λ xs. xs ++ split_path c) (sym (ap split_path root)))
    ]

-- If pathContains says that a path contains another, the parts of the second normalized path are those
-- of the first and at least one more.
pub path_contains-split_path :
    (parent child : String)
    → path_contains parent child ≡ true
    → (rest : List String) × (split_path (normalize_path child)
        ≡ split_path (normalize_path parent) ++ rest)
      × (is_empty rest ≡ false)
path_contains-split_path parent child h =
    let (rest, e) = extra_parts parent child h in
    elim (Bool-cases (is_empty rest)) [
      | inr more ↦ (rest, e, more)
      | inl none_more ↦
          let same : split_path (normalize_path child) ≡ split_path (normalize_path parent) =
            e
            ∙ ap (λ xs. split_path (normalize_path parent) ++ xs) (no_element rest none_more)
            ∙ append-nil (split_path (normalize_path parent)) in
          let equal : normalize_path child ≡ normalize_path parent =
            sym (join_path-normalize_path child)
            ∙ ap join_path same
            ∙ join_path-normalize_path parent in
          let longer = (contained parent child h).0 in
          absurd (ground (arith, longer, ap length equal))
    ]
