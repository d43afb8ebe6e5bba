-- ===== src/Permissions/Visited.antt =====
-- The clusters that the search for a folder in the tree visits.
use level_fs.Base.{ℕ, ◌≡◌, List, true, mem, Distinct}
use level_fs.Permissions.Resolver.{Resolver, Search}

-- What a search leaves of the visited clusters.
record Keeps (visited after : List ℕ) : Type 0 where
  distinct : Distinct after
  still : (k : ℕ) → mem k visited ≡ true → mem k after ≡ true

abbrev KeepsAll : Search → Type 0
KeepsAll descend =
    (visited : List ℕ) (content : ℕ) → Distinct visited → Keeps visited (descend visited content).0
