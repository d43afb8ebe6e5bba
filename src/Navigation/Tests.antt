-- ===== src/Navigation/Tests.antt =====
-- Runs of the navigation context.
use level_fs.Base.{[], ◌∷◌, ◌≡◌, refl, arith, String}
use level_fs.Navigation.Moves.{IsWellPlaced}
use level_fs.Navigation.Buffer.{Buffer, serialize, deserialize}
use level_fs.Navigation.Buffer.Saved.{IsStorable, deserialize-serialize}
use level_fs.Navigation.{NavigationContext, new_context, master}

-- "docs"
abbrev docs : String
docs = 100 ∷ 111 ∷ 99 ∷ 115 ∷ []

root-IsWellPlaced : IsWellPlaced (new_context).current_path
root-IsWellPlaced = record { nonempty = refl; no_slash_at_end = refl }

abbrev in_docs : NavigationContext
in_docs = record new_context {
  current_content_cluster = 12;
  current_path = 47 ∷ docs;
  root_version = docs;
}

in_docs-IsStorable : IsStorable in_docs
in_docs-IsStorable = record {
  dir_small = omega arith;
  content_small = omega arith;
  root_small = omega arith;
  level_small = omega arith;
  root_level_small = omega arith;
  perms_small = omega arith;
  path_short = omega arith;
  path_plain = refl;
  version_short = omega arith;
  version_plain = refl;
}

abbrev any_buffer : Buffer
any_buffer i = 255

deserialize-serialize_example :
    deserialize new_context 512 (serialize in_docs 512 any_buffer)
    ≡ record in_docs { root_version = master }
deserialize-serialize_example =
    deserialize-serialize in_docs new_context 512 any_buffer (omega arith) in_docs-IsStorable
