-- ===== src/Permissions/Resolver.antt =====
-- Class PermissionResolver of src/permissions.hpp, on directories as Entries has them. `link` gives the
-- place of a cluster in the buffer after the table's sector was read, whether the read succeeds or not.
-- The error messages are left out.
use level_fs.Base.{
  ℕ, zero, suc, ◌==◌, if◌then◌else◌, List, [], ◌∷◌, Option, none, some, Bool, true, false, ◌&&◌,
  ◌||◌, not, String, is_empty, list_eq, mem, map, bit_and, ◌++◌,
}
use level_fs.Paths.{root_path, split_path, split_name_extension}
use level_fs.Entries.{
  FileEntry, VersionEntry, Store, Location, type_free, find_entry_with, change_entry, all_from,
  entry_of, c_string,
}
use level_fs.Permissions.{
  PermissionResult, CacheEntry, has_flag, perm_read, perm_exec, get_permission, add_permission,
}

abbrev pub type_leveled_dir : ℕ
type_leveled_dir = 2

abbrev pub type_level_mount : ℕ
type_level_mount = 5

-- Read, write and execute.
abbrev pub perm_root_default : ℕ
perm_root_default = 7

abbrev pub perm_dir_default : ℕ
perm_dir_default = 7

pub record Resolver : Type 0 where
  pub store : Store
  pub link : ℕ → ℕ
  pub cache : List CacheEntry
  pub root_content_cluster : ℕ

-- The directories as this class reads them.
abbrev pub linked : Resolver → Store
linked r = record (r.store) { next_cluster = λ c. some (r.link c) }

abbrev pub not_found : PermissionResult
not_found = record { perms = 0; found = false }

abbrev pub found_with : ℕ → PermissionResult
found_with perms = record { perms = perms; found = true }

-- The test on an entry's name and extension, arrays that end with a NUL; a name without extension
-- matches any.
unfoldable pub matches : String → (Location × FileEntry) → Bool
matches entry_name (l, e) =
    let (search_name, search_ext) = split_name_extension entry_name in
    not (e.type == type_free)
    && (list_eq (c_string e.name) search_name
        && (is_empty search_ext || list_eq (c_string e.extension) search_ext))

unfoldable pub read_entry_perms : Resolver → ℕ → String → PermissionResult
read_entry_perms r parent entry_name =
    elim (find_entry_with (linked r) (matches entry_name) parent) [
      | none ↦ not_found
      | some (l, e) ↦ found_with e.attributes
    ]

-- `ok` is whether the directory's sector can be written.
unfoldable pub write_entry_perms :
    ℕ → String → ℕ → ℕ → Bool → Resolver → Resolver × PermissionResult
write_entry_perms parent entry_name new_perms now ok r =
    elim (find_entry_with (linked r) (matches entry_name) parent) [
      | none ↦ (r, not_found)
      | some (l, e) ↦
          let (store', written) =
            change_entry (λ e. record e { attributes = new_perms; mod_time = now }) ok l r.store in
          if written
          then (record r { store = store'; cache = [] }, found_with new_perms)
          else (r, not_found)
    ]

-- The loop of resolvePathPermissions over the parts that are left: each is looked for in the root.
unfoldable pub resolve_parts : Resolver → ℕ → ℕ → List String → PermissionResult
resolve_parts r root_cluster cumulative [] = found_with cumulative
resolve_parts r root_cluster cumulative (part ∷ parts) =
    let entry = read_entry_perms r root_cluster part in
    let rest = resolve_parts r root_cluster (bit_and cumulative entry.perms) parts in
    if not entry.found
    then not_found
    else if not (is_empty parts)
        && (not (has_flag entry.perms perm_exec) || not (has_flag entry.perms perm_read))
    then not_found
    else rest

unfoldable pub resolve_path_permissions : String → ℕ → ℕ → Resolver → Resolver × PermissionResult
resolve_path_permissions path root_cluster now r =
    let (cache', cached) = get_permission path now r.cache in
    let r' = record r { cache = cache' } in
    let parts = split_path path in
    let result = resolve_parts r' root_cluster perm_root_default parts in
    if is_empty path || list_eq path root_path
    then (r, found_with perm_root_default)
    else if cached.found
    then (r', cached)
    else if is_empty parts
    then (r', found_with perm_root_default)
    else if not result.found
    then (r', result)
    else (record r' { cache = add_permission path result.perms now cache' }, result)

-- The content clusters of a folder's active versions, in the order of the loops over its table.
abbrev pub has_content : (Location × VersionEntry) → Bool
has_content (l, v) = not (v.is_active == 0) && not (v.content_table_cluster == 0)

unfoldable pub contents_of : Resolver → ℕ → List ℕ
contents_of r version_table =
    map (λ v. v.content_table_cluster)
      (map entry_of
        (all_from r.store.versions (linked r).next_cluster has_content 100 version_table))

abbrev pub is_folder : (Location × FileEntry) → Bool
is_folder (l, e) = e.type == type_leveled_dir || e.type == type_level_mount

unfoldable pub folders_of : Resolver → ℕ → List FileEntry
folders_of r content =
    map entry_of (all_from r.store.entries (linked r).next_cluster is_folder 1000 content)

-- A search with the clusters visited: the visited ones after it, and what it found.
abbrev pub Search : Type 0
Search = List ℕ → ℕ → List ℕ × Option ℕ

-- The loop over the contents of one folder's versions.
unfoldable pub search_contents : Search → ℕ → ℕ → List ℕ → List ℕ → List ℕ × Option ℕ
search_contents descend target attributes [] visited = (visited, none)
search_contents descend target attributes (content ∷ contents) visited =
    let (visited', child) = descend visited content in
    let rest = search_contents descend target attributes contents visited' in
    if content == target
    then (visited, some attributes)
    else elim child [ some perms ↦ (visited', some perms) | none ↦ rest ]

-- The loop over the folders of a directory.
unfoldable pub search_folders : Resolver → Search → ℕ → List FileEntry → List ℕ → List ℕ × Option ℕ
search_folders r descend target [] visited = (visited, none)
search_folders r descend target (folder ∷ folders) visited =
    let (visited', found) =
      search_contents descend target folder.attributes (contents_of r folder.start_cluster)
        visited in
    let rest = search_folders r descend target folders visited' in
    elim found [ some perms ↦ (visited', some perms) | none ↦ rest ]

-- searchFolderPermsInTree with the depths left, of which there are 51.
unfoldable pub search_tree : Resolver → ℕ → ℕ → Search
search_tree r target zero visited content = (visited, none)
search_tree r target (suc left) visited content =
    let result =
      search_folders r (search_tree r target left) target (folders_of r content)
        (visited ++ content ∷ []) in
    if mem content visited then (visited, none) else result

unfoldable pub search_folder_perms : Resolver → ℕ → Option ℕ
search_folder_perms r target = (search_tree r target 51 [] r.root_content_cluster).1

unfoldable pub get_folder_perms : Resolver → ℕ → ℕ → ℕ → ℕ
get_folder_perms r folder current_content current_perms =
    if folder == r.root_content_cluster
    then perm_root_default
    else if folder == current_content && not (current_perms == 0)
    then current_perms
    else elim (search_folder_perms r folder) [ none ↦ perm_dir_default | some perms ↦ perms ]
