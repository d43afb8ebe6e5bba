-- ===== src/Levels.antt =====
-- The registry of levels of src/mount.cpp, struct LevelDescriptor of src/fs_common.hpp. The registry is
-- given by the descriptors of each sector, of which the code looks at the first four; `chain` stands for
-- what getChain gives for the registry's first cluster. Reads and writes succeed.
pub mod Filling
pub mod Registered
mod Tests
use level_fs.Base.{
  ℕ, zero, suc, ◌+◌, ◌*◌, ◌%◌, ◌^◌, ◌==◌, if◌then◌else◌, List, [], ◌∷◌, ◌++◌, Option, none, some,
  Bool, true, false, ◌&&◌, not, String, list_eq, bit_and, leb, length,
}

pub record LevelDescriptor : Type 0 where
  pub name : String
  pub level_id : ℕ
  pub parent_level_id : ℕ
  pub root_content_cluster : ℕ
  pub create_time : ℕ
  pub mod_time : ℕ
  pub flags : ℕ
  pub ref_count : ℕ
  pub child_count : ℕ
  pub total_size : ℕ

-- The registry with the fields of the superblock that go with it.
pub record Registry : Type 0 where
  pub registry_cluster : ℕ
  pub next_level_id : ℕ
  pub total_levels : ℕ
  pub sectors : ℕ → List LevelDescriptor

abbrev pub level_flag_active : ℕ
level_flag_active = 0x1

abbrev pub is_active : LevelDescriptor → Bool
is_active d = not (bit_and d.flags level_flag_active == 0)

-- The sectors of the clusters of a chain, in order.
unfoldable pub sectors_of : List ℕ → List ℕ
sectors_of [] = []
sectors_of (c ∷ cs) =
    (c * 8)
    ∷ (c * 8 + 1)
    ∷ (c * 8 + 2)
    ∷ (c * 8 + 3)
    ∷ (c * 8 + 4)
    ∷ (c * 8 + 5)
    ∷ (c * 8 + 6)
    ∷ (c * 8 + 7)
    ∷ sectors_of cs

unfoldable pub find_in_sector :
    (LevelDescriptor → Bool) → List LevelDescriptor → Option LevelDescriptor
find_in_sector p [] = none
find_in_sector p (d ∷ ds) = if p d then some d else find_in_sector p ds

unfoldable pub find_in :
    (LevelDescriptor → Bool) → (ℕ → List LevelDescriptor) → List ℕ → Option LevelDescriptor
find_in p sectors [] = none
find_in p sectors (k ∷ ks) =
    let rest = find_in p sectors ks in
    elim (find_in_sector p (sectors k)) [ some d ↦ some d | none ↦ rest ]

abbrev pub has_id : ℕ → LevelDescriptor → Bool
has_id level_id d = d.level_id == level_id && is_active d

abbrev pub has_level_name : String → LevelDescriptor → Bool
has_level_name name d = is_active d && list_eq d.name name

unfoldable pub find_level_by_id : Registry → List ℕ → ℕ → Option LevelDescriptor
find_level_by_id r chain level_id =
    if r.registry_cluster == 0 then none else find_in (has_id level_id) r.sectors (sectors_of chain)

unfoldable pub find_level_by_name : Registry → List ℕ → String → Option LevelDescriptor
find_level_by_name r chain name =
    if r.registry_cluster == 0
    then none
    else find_in (has_level_name name) r.sectors (sectors_of chain)

abbrev pub is_free_place : LevelDescriptor → Bool
is_free_place d = d.level_id == 0 && not (is_active d)

-- The first free place of a sector is filled; `none` when it has none.
unfoldable pub fill_in_sector :
    (LevelDescriptor → LevelDescriptor) → List LevelDescriptor → Option (List LevelDescriptor)
fill_in_sector fill [] = none
fill_in_sector fill (d ∷ ds) =
    let rest = fill_in_sector fill ds in
    if is_free_place d
    then some (fill d ∷ ds)
    else elim rest [ none ↦ none | some ds' ↦ some (d ∷ ds') ]

abbrev pub with_sector :
    ℕ → List LevelDescriptor → (ℕ → List LevelDescriptor) → ℕ → List LevelDescriptor
with_sector k ds sectors j = if j == k then ds else sectors j

unfoldable pub fill_in :
    (LevelDescriptor → LevelDescriptor)
    → (ℕ → List LevelDescriptor)
    → List ℕ
    → Option (ℕ → List LevelDescriptor)
fill_in fill sectors [] = none
fill_in fill sectors (k ∷ ks) =
    let rest = fill_in fill sectors ks in
    elim (fill_in_sector fill (sectors k)) [
      | some ds ↦ some (with_sector k ds sectors)
      | none ↦ rest
    ]

unfoldable pub new_level : String → ℕ → ℕ → ℕ → ℕ → LevelDescriptor → LevelDescriptor
new_level name level_id parent content timestamp d = record d {
  name = name;
  level_id = level_id;
  parent_level_id = parent;
  root_content_cluster = content;
  create_time = timestamp;
  mod_time = timestamp;
  flags = level_flag_active;
  ref_count = 1;
  child_count = 0;
}

-- The array of a name, with its NUL.
abbrev pub level_name_size : ℕ
level_name_size = 32

-- The new level's id, or 0; without a free place the counters in memory have changed all the same.
-- `none` is a name that strcpy writes past the end of its array, over the fields behind it.
unfoldable pub register_new_level : String → ℕ → ℕ → ℕ → List ℕ → Registry → Option (Registry × ℕ)
register_new_level name parent content timestamp chain r =
    let counted = record r {
      next_level_id = (r.next_level_id + 1) % 2 ^ 64;
      total_levels = (r.total_levels + 1) % 2 ^ 64;
    } in
    if r.registry_cluster == 0
    then some (r, 0)
    else elim (fill_in (new_level name r.next_level_id parent content timestamp) r.sectors
        (sectors_of chain)) [
          | none ↦ some (counted, 0)
          | some sectors' ↦
              if leb level_name_size (length name)
              then none
              else some (record counted { sectors = sectors' }, r.next_level_id)
        ]
