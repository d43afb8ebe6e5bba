-- ===== src/Permissions/Resolved.antt =====
-- Permissions that are set and resolved.
use level_fs.Base.{
  ℕ, ◌+◌, ◌*◌, ◌≤◌, ◌≡◌, refl, sym, ap, ◌∙◌, List, [], ◌∷◌, some, true, false, ◌&&◌, ◌||◌, not,
  String, is_empty, list_eq, leb, bit_and, arith, Bool-cases, Option-cases, inl, inr,
}
use level_fs.Paths.{root_path, split_path}
use level_fs.Entries.{FileEntry, Store, Location, find_entry_with, change_entry, change_sector}
use level_fs.Entries.Applying.{IsStore}
use level_fs.Entries.Naming.{change_entry-keep}
use level_fs.Permissions.{
  PermissionResult, CacheEntry, has_flag, perm_read, perm_exec, get_permission, add_permission,
}
use level_fs.Permissions.Cached.{get_permission-add_permission}
use level_fs.Permissions.Resolver.{
  Resolver, linked, found_with, matches, read_entry_perms, write_entry_perms, resolve_parts,
  resolve_path_permissions,
}

-- The links play no part in a change of an entry.
linked-change_entry :
    (f : FileEntry → FileEntry) (l : Location) (r : Resolver) (cache : List CacheEntry)
    → ((change_entry f true l (linked r)).1 ≡ (change_entry f true l r.store).1)
      × ((change_entry f true l (linked r)).0
          ≡ linked (record r { store = (change_entry f true l r.store).0; cache = cache }))
unfolding change_entry change_sector
linked-change_entry f l r cache = elim (Bool-cases r.store.is_open) [
  | inr o ↦ rw o (refl, refl)
  | inl o ↦ elim (Option-cases (r.store.entries (l.cluster * 8 + l.sector))) [
    | inl e ↦ rw (o, e, change_sector) (refl, refl)
    | inr (es, e) ↦ elim (Bool-cases (leb 8 l.index || not true)) [
      | inl g ↦ rw (o, e, change_sector, g) (refl, refl)
      | inr g ↦ rw (o, e, change_sector, g) (refl, refl)
    ]
  ]
]

-- The permissions of an entry that can be read are set, and are the ones that are read from then on; the
-- cache is emptied; in a store whose sectors hold at most eight entries and whose device accepts the
-- write.
pub read_entry_perms-write_entry_perms :
    (r : Resolver) (parent : ℕ) (name : String) (perms now : ℕ)
    → IsStore r.store
    → (read_entry_perms r parent name).found ≡ true
    → ((write_entry_perms parent name perms now true r).1 ≡ found_with perms)
      × (read_entry_perms (write_entry_perms parent name perms now true r).0 parent name
          ≡ found_with perms)
      × ((write_entry_perms parent name perms now true r).0.cache ≡ [])
unfolding read_entry_perms write_entry_perms matches
read_entry_perms-write_entry_perms r parent name perms now sized h =
    let f : FileEntry → FileEntry = λ e. record e { attributes = perms; mod_time = now } in
    elim (Option-cases (find_entry_with (linked r) (matches name) parent)) [
      | inl e ↦ cc (rw (e, read_entry_perms) at h)
      | inr ((l, x), e) ↦
          let (written, same) = linked-change_entry f l r [] in
          let (accepted, kept) =
            change_entry-keep f (matches name) (linked r) parent l x
              (record { sized = sized.sized }) e (λ m y. refl) in
          let done : (change_entry f true l r.store).1 ≡ true = sym written ∙ accepted in
          let found : find_entry_with
                (linked (record r { store = (change_entry f true l r.store).0; cache = [] }))
                (matches name) parent
              ≡ some (l, f x) =
            ap (λ (s : Store). find_entry_with s (matches name) parent) (sym same) ∙ kept in
          rw (e, write_entry_perms) (rw done (refl, rw (found, read_entry_perms) refl, refl))
    ]

-- The parts of a path, each found in the root directory, all but the last one to be traversed.
abbrev pub Traversed : Resolver → ℕ → List String → Type 0
Traversed r root_cluster [] = Unit
Traversed r root_cluster (part ∷ parts) =
    ((read_entry_perms r root_cluster part).found ≡ true)
    × ((is_empty parts
          || (has_flag (read_entry_perms r root_cluster part).perms perm_exec
              && has_flag (read_entry_perms r root_cluster part).perms perm_read))
        ≡ true)
    × Traversed r root_cluster parts

resolve_parts-Traversed :
    (r : Resolver) (root_cluster cumulative : ℕ) (parts : List String)
    → (resolve_parts r root_cluster cumulative parts).found ≡ true
    → Traversed r root_cluster parts
unfolding resolve_parts
resolve_parts-Traversed r root_cluster cumulative [] h = tt
resolve_parts-Traversed r root_cluster cumulative (part ∷ parts) h =
    let entry = read_entry_perms r root_cluster part in
    elim (Bool-cases entry.found) [
      | inr e ↦ cc (rw e at h)
      | inl e ↦
          elim (Bool-cases (
            not (is_empty parts)
            && (not (has_flag entry.perms perm_exec) || not (has_flag entry.perms perm_read)))) [
              | inl g ↦ cc (rw (e, g) at h)
              | inr g ↦ (
                e,
                ground (arith, g),
                resolve_parts-Traversed r root_cluster (bit_and cumulative entry.perms) parts
                    (rw (e, g) at h),
              )
            ]
    ]

-- What a path that the cache does not know resolves to.
resolve_path-miss :
    (path : String) (root_cluster now : ℕ) (r : Resolver)
    → (is_empty path || list_eq path root_path) ≡ false
    → (get_permission path now r.cache).1.found ≡ false
    → is_empty (split_path path) ≡ false
    → (resolve_path_permissions path root_cluster now r).1.found ≡ true
    → let r' = record r { cache = (get_permission path now r.cache).0 } in
      let result = resolve_parts r' root_cluster 7 (split_path path) in
      (result.found ≡ true)
      × (resolve_path_permissions path root_cluster now r
          ≡ (record r' { cache = add_permission path result.perms now r'.cache }, result))
unfolding resolve_path_permissions
resolve_path-miss path root_cluster now r proper unknown some_part h =
    let r' = record r { cache = (get_permission path now r.cache).0 } in
    let result = resolve_parts r' root_cluster 7 (split_path path) in
    elim (Bool-cases result.found) [
      | inr f ↦ cc (rw (proper, unknown, some_part, f) at h)
      | inl f ↦ (f, rw (proper, unknown, some_part, f) refl)
    ]

resolve_path-hit :
    (path : String) (root_cluster now : ℕ) (r : Resolver) (perms : ℕ)
    → (is_empty path || list_eq path root_path) ≡ false
    → (get_permission path now r.cache).1 ≡ found_with perms
    → (resolve_path_permissions path root_cluster now r).1 ≡ found_with perms
unfolding resolve_path_permissions
resolve_path-hit path root_cluster now r perms proper hit = rw (proper, hit) refl

-- A path with at least one part that the cache does not know resolves to permissions only if each part is
-- found in the root directory, whichever part it is, and if all parts but the last one can be read and
-- executed.
pub resolve_path_permissions-Traversed :
    (path : String) (root_cluster now : ℕ) (r : Resolver)
    → (is_empty path || list_eq path root_path) ≡ false
    → (get_permission path now r.cache).1.found ≡ false
    → is_empty (split_path path) ≡ false
    → (resolve_path_permissions path root_cluster now r).1.found ≡ true
    → Traversed r root_cluster (split_path path)
unfolding read_entry_perms
resolve_path_permissions-Traversed path root_cluster now r proper unknown some_part h =
    resolve_parts-Traversed (record r { cache = (get_permission path now r.cache).0 }) root_cluster
      7 (split_path path) (resolve_path-miss path root_cluster now r proper unknown some_part h).0

-- Within thirty seconds after such a path was resolved it resolves to the same permissions, whatever has
-- become of the directories.
pub resolve_path_permissions-cached :
    (path : String) (root_cluster now later : ℕ) (r : Resolver) (store : Store)
    → (is_empty path || list_eq path root_path) ≡ false
    → (get_permission path now r.cache).1.found ≡ false
    → is_empty (split_path path) ≡ false
    → (resolve_path_permissions path root_cluster now r).1.found ≡ true
    → later ≤ now + 30
    → (resolve_path_permissions path root_cluster later
        (record ((resolve_path_permissions path root_cluster now r).0) { store = store })).1
      ≡ (resolve_path_permissions path root_cluster now r).1
resolve_path_permissions-cached path root_cluster now later r store proper unknown some_part h
      fresh =
    let r' = record r { cache = (get_permission path now r.cache).0 } in
    let result = resolve_parts r' root_cluster 7 (split_path path) in
    let (found, same) = resolve_path-miss path root_cluster now r proper unknown some_part h in
    let added = record r' {
      store = store;
      cache = add_permission path result.perms now r'.cache;
    } in
    let hit = get_permission-add_permission path result.perms now later r'.cache fresh in
    ap
      (λ (t : Resolver × PermissionResult).
        (resolve_path_permissions path root_cluster later (record (t.0) { store = store })).1)
      same
    ∙ resolve_path-hit path root_cluster later added result.perms proper hit
    ∙ ap (λ b. record { perms = result.perms; found = b }) (sym found)
    ∙ ap (λ (t : Resolver × PermissionResult). t.1) (sym same)
