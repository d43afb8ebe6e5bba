-- ===== src/Navigation/Moves.antt =====
-- Moves through the tree of folders and what the context shows after them.
use level_fs.Base.{
  ℕ, suc, ◌==◌, if◌then◌else◌, ◌≡◌, refl, ◌∙◌, sym, ap, [], ◌∷◌, ◌++◌, true, false, ◌||◌, not,
  arith, mem, String, list_eq, is_empty, last_char, append_assoc, Bool-cases, inl, inr, take, drop,
  list_eq→eq, rfind-append, take-append, drop-append-suc, if_false, ==_ne, length,
}
use level_fs.Paths.{slash, root_path}
use level_fs.Paths.Names.{long_not_root, append_not_empty}
use level_fs.Navigation.{
  NavigationContext, get_parent_path, get_current_folder_name, enter_folder, append_path,
}

-- A path as enterFolder and goToRoot leave it: the root, or a text without a slash at its end.
pub record IsWellPlaced (path : String) : Type 0 where
  pub nonempty : is_empty path ≡ false
  pub no_slash_at_end : (list_eq path root_path || not (last_char path == slash)) ≡ true

-- The path of the folder, without the slash that the root is.
abbrev folder : String → String
folder path = if list_eq path root_path then [] else path

entered_path :
    (ctx : NavigationContext) (name : String) (cluster perms : ℕ)
    → IsWellPlaced ctx.current_path
    → (enter_folder name cluster perms ctx).current_path ≡ folder ctx.current_path ++ slash ∷ name
unfolding enter_folder append_path
entered_path ctx name cluster perms h = elim (Bool-cases (list_eq ctx.current_path root_path)) [
  | inl e ↦ rw (e, list_eq→eq ctx.current_path root_path e) refl
  | inr e ↦
      let last : (last_char ctx.current_path == slash) ≡ false =
        ground (arith, h.no_slash_at_end) in
      rw (e, last) (append_assoc ctx.current_path (slash ∷ []) name)
]

last_char-append : (s t : String) (c : ℕ) → last_char (s ++ c ∷ t) ≡ last_char (c ∷ t)
last_char-append [] t c = refl
last_char-append (x ∷ []) t c = refl
last_char-append (x ∷ y ∷ ys) t c = last_char-append (y ∷ ys) t c

last_char-mem :
    (k : ℕ) (s : String) → is_empty s ≡ false → mem k s ≡ false → (last_char s == k) ≡ false
last_char-mem k [] e h = cc
last_char-mem k (x ∷ []) e h = ground arith
last_char-mem k (x ∷ y ∷ ys) e h =
    let rest : mem k (y ∷ ys) ≡ false = ground arith in last_char-mem k (y ∷ ys) refl rest

folder_path :
    (path : String)
    → IsWellPlaced path
    → (if is_empty (folder path) then root_path else folder path) ≡ path
folder_path path h = elim (Bool-cases (list_eq path root_path)) [
  | inl e ↦ rw e (sym (list_eq→eq path root_path e))
  | inr e ↦ rw (e, h.nonempty) refl
]

parent_of :
    (ctx : NavigationContext) (s name : String)
    → is_empty name ≡ false
    → mem slash name ≡ false
    → ctx.current_path ≡ s ++ slash ∷ name
    → (get_parent_path ctx ≡ (if is_empty s then root_path else s))
      × (get_current_folder_name ctx ≡ name)
unfolding get_parent_path get_current_folder_name
parent_of ctx s [] ne h e = cc
parent_of ctx [] (c ∷ cs) ne h e =
    rw (e, rfind-append slash [] (c ∷ cs) h, get_parent_path, get_current_folder_name)
      (refl, ap (drop 1) e)
parent_of ctx (x ∷ xs) (c ∷ cs) ne h e =
    rw
      (
        e,
        long_not_root (x ∷ xs) c cs,
        rfind-append slash (x ∷ xs) (c ∷ cs) h,
        get_parent_path,
        get_current_folder_name,
      )
      (
        if_false (length (x ∷ xs) == 0) _ _ (==_ne (suc (length xs)) 0 (omega arith))
            ∙ ap (take (length (x ∷ xs))) e
            ∙ take-append (x ∷ xs) (slash ∷ c ∷ cs),
        ap (drop (suc (length (x ∷ xs)))) e ∙ drop-append-suc slash (x ∷ xs) (c ∷ cs),
      )

-- After entering a folder, whose name is not empty and has no slash, from a well-formed path: the
-- parent path is the path before, the folder's name is the name given, and the path is well formed
-- again.
pub enter_folder-parent :
    (ctx : NavigationContext) (name : String) (cluster perms : ℕ)
    → IsWellPlaced ctx.current_path
    → is_empty name ≡ false
    → mem slash name ≡ false
    → (get_parent_path (enter_folder name cluster perms ctx) ≡ ctx.current_path)
      × (get_current_folder_name (enter_folder name cluster perms ctx) ≡ name)
      × IsWellPlaced (enter_folder name cluster perms ctx).current_path
enter_folder-parent ctx [] cluster perms h ne plain = cc
enter_folder-parent ctx (c ∷ cs) cluster perms h ne plain =
    let s = folder ctx.current_path in
    let e = entered_path ctx (c ∷ cs) cluster perms h in
    let (parent, name) =
      parent_of (enter_folder (c ∷ cs) cluster perms ctx) s (c ∷ cs) ne plain e in
    (
      parent ∙ folder_path ctx.current_path h,
      name,
      rw e (record {
        nonempty = append_not_empty s (c ∷ cs) slash;
        no_slash_at_end =
            rw
              (
                long_not_root s c cs,
                last_char-append s (c ∷ cs) slash,
                last_char-mem slash (c ∷ cs) ne plain,
              )
              refl;
      }),
    )
