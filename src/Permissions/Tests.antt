-- ===== src/Permissions/Tests.antt =====
-- Runs of the permission cache.
use level_fs.Base.{
  ℕ, ◌≡◌, ◌==◌, refl, ap, if◌then◌else◌, List, [], ◌∷◌, Option, none, some, true, false, arith,
  length, String, is_empty, Bool-cases, inl, inr,
}
use level_fs.Paths.{split_path, read_parts, split_name_extension}
use level_fs.Entries.{
  FileEntry, VersionEntry, Store, cleared, chain_end, slots_from, slots_of_sectors,
  slots_of_cluster, find_from, find_entry_with, all_from,
}
use level_fs.Entries.Applying.{IsStore}
use level_fs.Permissions.Resolver.{
  Resolver, found_with, matches, read_entry_perms, write_entry_perms, resolve_parts,
  resolve_path_permissions, search_tree, search_folders, search_contents, contents_of, folders_of,
}
use level_fs.Permissions.Resolved.{
  Traversed, read_entry_perms-write_entry_perms, resolve_path_permissions-Traversed,
}
use level_fs.Permissions.{remove_expired, find_entry, CacheEntry, get_permission, parse_perm_string}

-- "/a"
abbrev path_a : String
path_a = 47 ∷ 97 ∷ []

abbrev one_entry : List CacheEntry
one_entry = record { path = 47 ∷ []; perms = 7; cache_time = 100 } ∷ []

readable_and_hidden : parse_perm_string (43 ∷ 104 ∷ []) 1 ≡ 9
unfolding parse_perm_string
readable_and_hidden = refl

-- A root directory with a folder "d" and a file "t".
abbrev folder : FileEntry
folder = record cleared {
  name = 100 ∷ 0 ∷ [];
  extension = 0 ∷ [];
  type = 2;
  start_cluster = 30;
  attributes = 7;
}

abbrev text : FileEntry
text = record cleared {
  name = 116 ∷ 0 ∷ [];
  extension = 0 ∷ [];
  type = 1;
  start_cluster = 40;
  attributes = 3;
}

-- The one version of the folder has the root directory for its content.
abbrev version : VersionEntry
version = record {
  version_name = 118 ∷ [];
  content_table_cluster = 2;
  level_id = 1;
  parent_level_id = 0;
  flags = 0;
  permissions = 7;
  create_time = 0;
  mod_time = 0;
  is_active = 1;
  is_locked = 0;
  is_snapshot = 0;
}

abbrev directories : Store
directories = record {
  is_open = true;
  entries = λ k. if k == 16 then some (folder ∷ text ∷ []) else none;
  versions = λ k. if k == 240 then some (version ∷ []) else none;
  next_cluster = λ c. none;
}

abbrev resolver : Resolver
resolver = record {
  store = directories;
  link = λ c. chain_end;
  cache = [];
  root_content_cluster = 2;
}

abbrev o_length : Option (List FileEntry) → ℕ
o_length none = 0
o_length (some es) = length es

directories-IsStore : IsStore directories
directories-IsStore = record {
  sized = λ k es h. elim (Bool-cases (k == 16)) [
    | inl a ↦ omega (arith, ap o_length (rw a at h))
    | inr a ↦ cc (rw a at h)
  ];
}

text_readable : (read_entry_perms resolver 2 (116 ∷ [])).found ≡ true
unfolding read_entry_perms find_entry_with find_from slots_of_cluster slots_of_sectors slots_from
    matches split_name_extension
text_readable = refl

read_entry_perms-write_entry_perms_example :
    ((write_entry_perms 2 (116 ∷ []) 1 9 true resolver).1 ≡ found_with 1)
    × (read_entry_perms (write_entry_perms 2 (116 ∷ []) 1 9 true resolver).0 2 (116 ∷ [])
        ≡ found_with 1)
    × ((write_entry_perms 2 (116 ∷ []) 1 9 true resolver).0.cache ≡ [])
read_entry_perms-write_entry_perms_example =
    read_entry_perms-write_entry_perms resolver 2 (116 ∷ []) 1 9 directories-IsStore text_readable

-- "/d/t"
abbrev path_d_t : String
path_d_t = 47 ∷ 100 ∷ 47 ∷ 116 ∷ []

two_parts : split_path path_d_t ≡ (100 ∷ []) ∷ (116 ∷ []) ∷ []
unfolding split_path read_parts
two_parts = refl

unknown : (get_permission path_d_t 100 []).1.found ≡ false
unfolding get_permission
unknown = unfold remove_expired find_entry in refl

some_part : is_empty (split_path path_d_t) ≡ false
some_part = ap is_empty two_parts

resolved : (resolve_path_permissions path_d_t 2 100 resolver).1.found ≡ true
unfolding resolve_path_permissions get_permission remove_expired find_entry split_path read_parts
    resolve_parts read_entry_perms find_entry_with find_from slots_of_cluster slots_of_sectors
    slots_from matches split_name_extension
resolved = refl

resolve_path_permissions-Traversed_example : Traversed resolver 2 (split_path path_d_t)
resolve_path_permissions-Traversed_example =
    resolve_path_permissions-Traversed path_d_t 2 100 resolver refl unknown some_part resolved

-- The directories are replaced by unreadable ones in between.
abbrev unreadable : Store
unreadable = record directories { entries = λ k. none }

-- The folder's content is the directory that it stands in.
root_visited_once : (search_tree resolver 9 51 [] 2).0 ≡ 2 ∷ []
unfolding search_tree search_folders search_contents contents_of folders_of all_from
    slots_of_cluster slots_of_sectors slots_from
root_visited_once = refl
