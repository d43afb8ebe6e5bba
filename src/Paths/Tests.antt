-- ===== src/Paths/Tests.antt =====
-- Runs of the path functions.
use level_fs.Base.{[], ◌∷◌, ◌≡◌, refl, true, All, String}
use level_fs.Paths.Splitting.{IsPart, split_path-join_path}
use level_fs.Paths.{
  path_contains, is_absolute, read_parts, split_path, concat_parts, join_path, normalize_from,
  normalize_path,
}

-- "ab", "c", "/ab//./c/../c" and "c.ab"
abbrev name_ab : String
name_ab = 97 ∷ 98 ∷ []

abbrev name_c : String
name_c = 99 ∷ []

abbrev winding : String
winding = 47 ∷ 97 ∷ 98 ∷ 47 ∷ 47 ∷ 46 ∷ 47 ∷ 99 ∷ 47 ∷ 46 ∷ 46 ∷ 47 ∷ 99 ∷ []

abbrev name_c_ab : String
name_c_ab = 99 ∷ 46 ∷ 97 ∷ 98 ∷ []

winding_normalized : normalize_path winding ≡ 47 ∷ 97 ∷ 98 ∷ 47 ∷ 99 ∷ []
unfolding normalize_path normalize_from split_path read_parts join_path concat_parts
winding_normalized = refl

plain_parts : All IsPart (name_ab ∷ name_c ∷ [])
plain_parts =
    (record { kept = refl; no_slash = refl }, (record { kept = refl; no_slash = refl }, tt))

split_path-join_path_example :
    split_path (join_path (name_ab ∷ name_c ∷ [])) ≡ name_ab ∷ name_c ∷ []
split_path-join_path_example = split_path-join_path (name_ab ∷ name_c ∷ []) plain_parts

-- "/ab"
abbrev parent_ab : String
parent_ab = 47 ∷ name_ab

winding_contained : path_contains parent_ab winding ≡ true
unfolding path_contains normalize_path normalize_from split_path read_parts join_path concat_parts
    is_absolute
winding_contained = refl
