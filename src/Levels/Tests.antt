-- ===== src/Levels/Tests.antt =====
-- A registry with the level "m" and free places.
use level_fs.Base.{ℕ, zero, suc, ◌≡◌, refl, ◌==◌, if◌then◌else◌, [], ◌∷◌, none, some, String, arith}
use level_fs.Levels.{
  LevelDescriptor, Registry, sectors_of, find_in_sector, find_in, is_free_place, find_level_by_id,
  find_level_by_name, fill_in_sector, fill_in, register_new_level,
}
use level_fs.Levels.Filling.{IsNumbered}
use level_fs.Levels.Registered.{
  HasValues, find_level-register_new_level, register_new_level-IsNumbered,
}

abbrev free_level : LevelDescriptor
free_level = record {
  name = [];
  level_id = 0;
  parent_level_id = 0;
  root_content_cluster = 0;
  create_time = 0;
  mod_time = 0;
  flags = 0;
  ref_count = 0;
  child_count = 0;
  total_size = 0;
}

abbrev master : LevelDescriptor
master = record free_level { name = 109 ∷ []; level_id = 1; root_content_cluster = 31; flags = 1 }

abbrev registry : Registry
registry = record {
  registry_cluster = 5;
  next_level_id = 2;
  total_levels = 1;
  sectors =
      λ k. if k == 40 then master ∷ [] else if k == 42 then free_level ∷ free_level ∷ [] else [];
}

registry-IsNumbered : IsNumbered registry (5 ∷ [])
registry-IsNumbered =
    unfold sectors_of in
    record { ids = (refl, (refl, (refl, (refl, (refl, (refl, (refl, (refl, tt)))))))) }

-- "w"
w_unused : find_level_by_name registry (5 ∷ []) (119 ∷ []) ≡ none
unfolding find_level_by_name find_in find_in_sector sectors_of
w_unused = refl

free_found : find_in is_free_place registry.sectors (sectors_of (5 ∷ [])) ≡ some free_level
unfolding find_in find_in_sector sectors_of
free_found = refl

abbrev padded_name : ℕ → String
padded_name zero = []
padded_name (suc n) = 119 ∷ padded_name n

-- A name of 32 characters.
abbrev long_name : String
long_name = padded_name 32

runs_over : register_new_level long_name 1 33 7 (5 ∷ []) registry ≡ none
unfolding register_new_level fill_in fill_in_sector sectors_of
runs_over = refl

find_level-register_new_level_example :
    (r' : Registry) × (register_new_level (119 ∷ []) 1 33 7 (5 ∷ []) registry ≡ some (r', 2))
    × ((d : LevelDescriptor) × (find_level_by_id r' (5 ∷ []) 2 ≡ some d)
        × HasValues (119 ∷ []) 2 1 33 7 d)
    × ((d : LevelDescriptor) × (find_level_by_name r' (5 ∷ []) (119 ∷ []) ≡ some d)
        × HasValues (119 ∷ []) 2 1 33 7 d)
find_level-register_new_level_example =
    find_level-register_new_level registry (5 ∷ []) (119 ∷ []) 1 33 7 registry-IsNumbered w_unused
      (omega arith) (λ e. omega (arith, e)) (λ e. cc (free_found, e))

register_new_level-IsNumbered_example :
    (result : Registry × ℕ) × (register_new_level (119 ∷ []) 1 33 7 (5 ∷ []) registry ≡ some result)
    × IsNumbered result.0 (5 ∷ [])
register_new_level-IsNumbered_example =
    register_new_level-IsNumbered registry (5 ∷ []) (119 ∷ []) 1 33 7 (omega arith) (omega arith)
      registry-IsNumbered
