-- ===== src/Navigation.antt =====
-- struct NavigationContext and class ContextManager of src/fs_context.hpp.
pub mod Moves
pub mod Buffer
mod Tests
use level_fs.Base.{
  ℕ, zero, suc, ◌+◌, ◌*◌, ◌==◌, leb, ltb, if◌then◌else◌, List, [], ◌∷◌, ◌++◌, Option, none, some,
  Bool, true, false, ◌&&◌, ◌||◌, not, bit_and, String, list_eq, is_empty, take, drop, last_char,
  rfind,
}
use level_fs.Paths.{slash, root_path}

abbrev pub perm_read : ℕ
perm_read = 1

abbrev pub perm_write : ℕ
perm_write = 2

abbrev pub perm_exec : ℕ
perm_exec = 4

abbrev pub perm_root_default : ℕ
perm_root_default = 7

-- "master"
abbrev pub master : String
master = 109 ∷ 97 ∷ 115 ∷ 116 ∷ 101 ∷ 114 ∷ []

pub record NavigationContext : Type 0 where
  pub current_dir_cluster : ℕ
  pub current_content_cluster : ℕ
  pub root_content_cluster : ℕ
  pub current_level_id : ℕ
  pub root_level_id : ℕ
  pub current_folder_perms : ℕ
  pub current_path : String
  pub current_version : String
  pub root_version : String

abbrev pub new_context : NavigationContext
new_context = record {
  current_dir_cluster = 0;
  current_content_cluster = 0;
  root_content_cluster = 0;
  current_level_id = 0;
  root_level_id = 0;
  current_folder_perms = perm_root_default;
  current_path = root_path;
  current_version = master;
  root_version = master;
}

unfoldable pub reset : ℕ → ℕ → ℕ → NavigationContext → NavigationContext
reset root_dir root_content root_level ctx = record {
  current_dir_cluster = root_dir;
  current_content_cluster = root_content;
  root_content_cluster = root_content;
  current_level_id = root_level;
  root_level_id = root_level;
  current_folder_perms = perm_root_default;
  current_path = root_path;
  current_version = master;
  root_version = master;
}

unfoldable pub is_at_root : NavigationContext → Bool
is_at_root ctx =
    list_eq ctx.current_path root_path || ctx.current_content_cluster == ctx.root_content_cluster

-- On a path that is not empty.
unfoldable pub append_path : NavigationContext → String → NavigationContext
append_path ctx name = record ctx {
  current_path =
      (if not (last_char ctx.current_path == slash)
        then ctx.current_path ++ slash ∷ []
        else ctx.current_path)
      ++ name;
}

unfoldable pub get_parent_path : NavigationContext → String
get_parent_path ctx =
    if list_eq ctx.current_path root_path || is_empty ctx.current_path
    then root_path
    else elim (rfind slash ctx.current_path) [
      | none ↦ root_path
      | some last_slash ↦ if last_slash == 0 then root_path else take last_slash ctx.current_path
    ]

unfoldable pub get_current_folder_name : NavigationContext → String
get_current_folder_name ctx =
    if list_eq ctx.current_path root_path || is_empty ctx.current_path
    then root_path
    else elim (rfind slash ctx.current_path) [
      | none ↦ ctx.current_path
      | some last_slash ↦ drop (suc last_slash) ctx.current_path
    ]

unfoldable pub enter_folder : String → ℕ → ℕ → NavigationContext → NavigationContext
enter_folder name new_content_cluster folder_perms ctx =
    append_path
      (record ctx {
        current_content_cluster = new_content_cluster;
        current_folder_perms = folder_perms;
      })
      name

unfoldable pub go_to_root : NavigationContext → NavigationContext
go_to_root ctx = record ctx {
  current_content_cluster = ctx.root_content_cluster;
  current_level_id = ctx.root_level_id;
  current_folder_perms = perm_root_default;
  current_path = root_path;
  current_version = if is_empty ctx.root_version then master else ctx.root_version;
}

unfoldable pub switch_version : String → ℕ → ℕ → NavigationContext → NavigationContext
switch_version version content_cluster level_id ctx = record ctx {
  current_content_cluster = content_cluster;
  current_level_id = level_id;
  current_version = version;
}

unfoldable pub can_read : NavigationContext → Bool
can_read ctx = not (bit_and ctx.current_folder_perms perm_read == 0)

unfoldable pub can_write : NavigationContext → Bool
can_write ctx = not (bit_and ctx.current_folder_perms perm_write == 0)

unfoldable pub can_execute : NavigationContext → Bool
can_execute ctx = not (bit_and ctx.current_folder_perms perm_exec == 0)
