-- ===== src/Permissions.antt =====
-- PermissionCache, PermissionResult and PermissionChecker of src/permissions.hpp. The clock is the
-- argument `now`, in seconds.
pub mod Cached
pub mod Resolver
pub mod Resolved
pub mod Visited
mod Tests
use level_fs.Base.{
  ℕ, zero, suc, ◌-◌, ◌==◌, ltb, leb, if◌then◌else◌, List, [], ◌∷◌, ◌++◌, Option, none, some, Bool,
  true, false, ◌&&◌, ◌||◌, not, String, list_eq, keep, length, bit_and, bit_or,
}

abbrev pub perm_read : ℕ
perm_read = 0x1

abbrev pub perm_write : ℕ
perm_write = 0x2

abbrev pub perm_exec : ℕ
perm_exec = 0x4

abbrev pub perm_hidden : ℕ
perm_hidden = 0x8

abbrev pub perm_system : ℕ
perm_system = 0x10

abbrev pub perm_readonly : ℕ
perm_readonly = 0x40

abbrev pub flag_encrypted : ℕ
flag_encrypted = 0x100

abbrev pub flag_compressed : ℕ
flag_compressed = 0x200

abbrev pub flag_immutable : ℕ
flag_immutable = 0x400

abbrev pub has_flag : ℕ → ℕ → Bool
has_flag perms flag = not (bit_and perms flag == 0)

-- The error message is left out.
pub record PermissionResult : Type 0 where
  pub perms : ℕ
  pub found : Bool

unfoldable pub has_read : PermissionResult → Bool
has_read r = r.found && has_flag r.perms perm_read

unfoldable pub has_write : PermissionResult → Bool
has_write r = r.found && has_flag r.perms perm_write

unfoldable pub has_exec : PermissionResult → Bool
has_exec r = r.found && has_flag r.perms perm_exec

pub record CacheEntry : Type 0 where
  pub path : String
  pub perms : ℕ
  pub cache_time : ℕ

abbrev pub max_entries : ℕ
max_entries = 64

abbrev pub ttl_seconds : ℕ
ttl_seconds = 30

-- A time before the entry's own gives a negative difference, which is not above the limit.
abbrev pub is_expired : ℕ → CacheEntry → Bool
is_expired now e = ltb ttl_seconds (now - e.cache_time)

unfoldable pub remove_expired : ℕ → List CacheEntry → List CacheEntry
remove_expired now cache = keep (λ e. not (is_expired now e)) cache

-- The loop of `add` over the entries; `none` when none has the path.
unfoldable pub update_entry : String → ℕ → ℕ → List CacheEntry → Option (List CacheEntry)
update_entry path perms now [] = none
update_entry path perms now (e ∷ es) =
    if list_eq e.path path
    then some (record e { perms = perms; cache_time = now } ∷ es)
    else elim (update_entry path perms now es) [ none ↦ none | some es' ↦ some (e ∷ es') ]

-- cache.erase(cache.begin())
abbrev pub erase_oldest : List CacheEntry → List CacheEntry
erase_oldest [] = []
erase_oldest (e ∷ es) = es

unfoldable pub add_permission : String → ℕ → ℕ → List CacheEntry → List CacheEntry
add_permission path perms now cache =
    let kept = remove_expired now cache in
    elim (update_entry path perms now kept) [
      | some updated ↦ updated
      | none ↦
          (if leb max_entries (length kept) then erase_oldest kept else kept)
          ++ record { path = path; perms = perms; cache_time = now } ∷ []
    ]

unfoldable pub find_entry : String → List CacheEntry → PermissionResult
find_entry path [] = record { perms = 0; found = false }
find_entry path (e ∷ es) =
    if list_eq e.path path then record { perms = e.perms; found = true } else find_entry path es

unfoldable pub get_permission : String → ℕ → List CacheEntry → List CacheEntry × PermissionResult
get_permission path now cache = let kept = remove_expired now cache in (kept, find_entry path kept)

unfoldable pub invalidate_path : String → List CacheEntry → List CacheEntry
invalidate_path path cache = keep (λ e. not (list_eq e.path path)) cache

unfoldable pub check_read : ℕ → Bool
check_read perms = has_flag perms perm_read

unfoldable pub check_write : ℕ → Bool
check_write perms = has_flag perms perm_write

unfoldable pub check_exec : ℕ → Bool
check_exec perms = has_flag perms perm_exec

unfoldable pub check_read_write : ℕ → Bool
check_read_write perms = check_read perms && check_write perms

unfoldable pub check_all : ℕ → Bool
check_all perms = check_read perms && check_write perms && check_exec perms

unfoldable pub is_hidden : ℕ → Bool
is_hidden attrs = has_flag attrs perm_hidden

unfoldable pub is_system : ℕ → Bool
is_system attrs = has_flag attrs perm_system

unfoldable pub is_read_only : ℕ → Bool
is_read_only attrs = has_flag attrs perm_readonly

unfoldable pub is_immutable : ℕ → Bool
is_immutable attrs = has_flag attrs flag_immutable

unfoldable pub is_encrypted : ℕ → Bool
is_encrypted attrs = has_flag attrs flag_encrypted

unfoldable pub is_compressed : ℕ → Bool
is_compressed attrs = has_flag attrs flag_compressed

-- 'r', 'w', 'x' or '-'
unfoldable pub get_perms_string : ℕ → String
get_perms_string attrs =
    (if has_flag attrs perm_read then 114 else 45)
    ∷ (if has_flag attrs perm_write then 119 else 45)
    ∷ (if has_flag attrs perm_exec then 120 else 45)
    ∷ []

-- perms & ~flag on 32 bits
abbrev pub without_flag : ℕ → ℕ → ℕ
without_flag perms flag = bit_and perms (0xFFFF_FFFF - flag)

-- "+r" and its like: a sign and a letter.
abbrev pub plus_sign : ℕ
plus_sign = 43

abbrev pub minus_sign : ℕ
minus_sign = 45

abbrev pub flag_of_letter : ℕ → Option ℕ
flag_of_letter c =
    if c == 114
    then some perm_read
    else if c == 119
    then some perm_write
    else if c == 120
    then some perm_exec
    else if c == 104
    then some perm_hidden
    else if c == 115
    then some perm_system
    else none

unfoldable pub parse_perm_string : String → ℕ → ℕ
parse_perm_string (sign ∷ letter ∷ []) current_perms = elim (flag_of_letter letter) [
  | none ↦ current_perms
  | some flag ↦
      if sign == plus_sign
      then bit_or current_perms flag
      else if sign == minus_sign
      then without_flag current_perms flag
      else current_perms
]
parse_perm_string _ current_perms = current_perms

unfoldable pub is_valid_option : String → Bool
is_valid_option (sign ∷ letter ∷ []) = elim (flag_of_letter letter) [
  | none ↦ false
  | some flag ↦ sign == plus_sign || sign == minus_sign
]
is_valid_option _ = false
