-- ===== src/Paths/Names.antt =====
-- The last part of a path and the extension of a name.
use level_fs.Base.{
  ℕ, zero, suc, ◌<◌, ◌==◌, if◌then◌else◌, ◌≡◌, refl, ◌∙◌, sym, ap, [], ◌∷◌, ◌++◌, false, ◌||◌,
  arith, mem, length, String, list_eq, is_empty, take, drop, last_char, rfind, rfind-append,
  rfind_split, rfind-none, drop_last, take-append, drop-append-suc, append_assoc, Bool-cases,
  Option-cases, inl, inr, ◌⊎◌,
}
use level_fs.Paths.{
  slash, dot_char, root_path, get_basename, get_dirname, split_name_extension, combine_path,
}

pub long_not_root :
    (s : String) (c : ℕ) (cs : String) → list_eq (s ++ slash ∷ c ∷ cs) root_path ≡ false
long_not_root [] c cs = refl
long_not_root (x ∷ []) c cs = ground arith
long_not_root (x ∷ y ∷ ys) c cs = ground arith

pub append_not_empty : (s t : String) (c : ℕ) → is_empty (s ++ c ∷ t) ≡ false
append_not_empty [] t c = refl
append_not_empty (x ∷ xs) t c = refl

pub get_basename-append :
    (s name : String)
    → is_empty name ≡ false
    → mem slash name ≡ false
    → get_basename (s ++ slash ∷ name) ≡ name
unfolding get_basename
get_basename-append s [] ne h = cc
get_basename-append s (c ∷ cs) ne h =
    rw (append_not_empty s (c ∷ cs) slash, long_not_root s c cs, rfind-append slash s (c ∷ cs) h)
      (drop-append-suc slash s (c ∷ cs))

pub get_dirname-append :
    (s name : String)
    → is_empty name ≡ false
    → mem slash name ≡ false
    → get_dirname (s ++ slash ∷ name) ≡ (if is_empty s then root_path else s)
unfolding get_dirname
get_dirname-append s [] ne h = cc
get_dirname-append [] (c ∷ cs) ne h = rw (rfind-append slash [] (c ∷ cs) h)
get_dirname-append (x ∷ xs) (c ∷ cs) ne h =
    rw (long_not_root (x ∷ xs) c cs, rfind-append slash (x ∷ xs) (c ∷ cs) h)
      (ground (arith, take-append (x ∷ xs) (slash ∷ c ∷ cs)))

drop_last-last_char :
    (base : String) → is_empty base ≡ false → base ≡ drop_last base ++ last_char base ∷ []
drop_last-last_char [] h = cc
drop_last-last_char (x ∷ []) h = refl
drop_last-last_char (x ∷ y ∷ ys) h = ap (λ s. x ∷ s) (drop_last-last_char (y ∷ ys) refl)

-- The directory that combinePath puts a name into, without the slash at its end.
abbrev pub directory : String → String
directory base =
    if is_empty base || list_eq base root_path
    then []
    else if last_char base == slash
    then drop_last base
    else base

pub combine_path-directory :
    (base name : String) → combine_path base name ≡ directory base ++ slash ∷ name
unfolding combine_path
combine_path-directory base name = elim (Bool-cases (is_empty base || list_eq base root_path)) [
  | inl e ↦ rw e refl
  | inr e ↦ elim (Bool-cases (last_char base == slash)) [
    | inl ends ↦
        let nonempty : is_empty base ≡ false = ground arith in
        let last : last_char base ≡ slash = ground arith in
        rw (e, ends)
          (ap (λ s. s ++ name) (drop_last-last_char base nonempty)
            ∙ append_assoc (drop_last base) (last_char base ∷ []) name
            ∙ rw last refl)
    | inr ends ↦ rw (e, ends) refl
  ]
]

-- getBasename and getDirname take apart what combinePath has put together: the name comes back if it
-- is not empty and has no slash, and so does the directory but for a slash at its end.
pub combine_path_parts :
    (base name : String)
    → is_empty name ≡ false
    → mem slash name ≡ false
    → (get_basename (combine_path base name) ≡ name)
      × (get_dirname (combine_path base name)
          ≡ (if is_empty (directory base) then root_path else directory base))
combine_path_parts base name ne h =
    rw (combine_path-directory base name) (
      get_basename-append (directory base) name ne h,
      get_dirname-append (directory base) name ne h,
    )

no_dot_behind : (s : String) → mem dot_char s ≡ false → mem dot_char (drop 1 s) ≡ false
no_dot_behind [] h = refl
no_dot_behind (x ∷ xs) h = ground arith

nonempty_take : (i : ℕ) (s : String) → (i == 0) ≡ false → i < length s → is_empty (take i s) ≡ false
nonempty_take zero s h below = cc
nonempty_take (suc i) [] h below = absurd (omega (arith, below))
nonempty_take (suc i) (x ∷ xs) h below = refl

-- A name split at its last dot is the stem, the dot and the extension, the extension has no dot, and
-- the stem is not empty; a name that is not split has no dot behind its first character.
pub split_name_extension_parts :
    (filename : String)
    → ((split_name_extension filename ≡ (filename, [])) × (mem dot_char (drop 1 filename) ≡ false))
      ⊎ ((filename
            ≡ (split_name_extension filename).0 ++ dot_char ∷ (split_name_extension filename).1)
          × (mem dot_char (split_name_extension filename).1 ≡ false)
          × (is_empty (split_name_extension filename).0 ≡ false))
unfolding split_name_extension
split_name_extension_parts filename = elim (Option-cases (rfind dot_char filename)) [
  | inl e ↦
      inl
        (rw (e, split_name_extension) refl, no_dot_behind filename (rfind-none dot_char filename e))
  | inr (i, e) ↦
      let (same, none_after, below) = rfind_split dot_char i filename e in
      elim (Bool-cases (i == 0)) [
        | inl first ↦
            let at_zero : i ≡ 0 = ground arith in
            inl (
              rw (e, first, split_name_extension) refl,
              ap (λ j. mem dot_char (drop (suc j) filename)) (sym at_zero) ∙ none_after,
            )
        | inr later ↦ inr (
            rw (e, later, split_name_extension)
              (same, none_after, nonempty_take i filename later below))
      ]
]
