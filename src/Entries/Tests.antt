-- ===== src/Entries/Tests.antt =====
-- The theorems on directory entries at a directory of two clusters.
use level_fs.Base.{
  ℕ, ◌≡◌, refl, ◌==◌, if◌then◌else◌, List, [], ◌∷◌, Option, none, some, true, ◌||◌, not, all, any,
  list_eq, arith, length, ◌≤◌, Bool-cases, inl, inr, ap,
}
use level_fs.Entries.{
  FileEntry, Store, Location, chain_end, slots_from, slots_of_sectors, slots_of_cluster, find_from,
  chain_from, read_all_entries, entry_name, has_name, find_entry_with, find_by_name, find_free_slot,
  write_entry, delete_entry, cleared,
}
use level_fs.Entries.Chains.{slots_of_chain, is_some, find_by_name-read_all_entries}
use level_fs.Entries.Changes.{same_place}
use level_fs.Entries.Applying.{IsStore}
use level_fs.Entries.Naming.{find_by_name-write_entry, find_by_name-delete_entry}

abbrev readme : FileEntry
readme = record cleared { name = b'r' ∷ b'm' ∷ 0 ∷ []; type = 1; start_cluster = 40; size = 12 }

abbrev music : FileEntry
music = record cleared { name = b'm' ∷ 0 ∷ []; type = 2; start_cluster = 41 }

abbrev sectors : ℕ → Option (List FileEntry)
sectors k =
    if k == 16 then some (readme ∷ readme ∷ []) else if k == 27 then some (cleared ∷ []) else none

abbrev next : ℕ → Option ℕ
next c = if c == 2 then some 3 else some chain_end

abbrev volume : Store
volume = record { is_open = true; entries = sectors; versions = λ k. none; next_cluster = next }

abbrev o_length : Option (List FileEntry) → ℕ
o_length none = 0
o_length (some es) = length es

sectors-le : (k : ℕ) → o_length (sectors k) ≤ 8
sectors-le k = elim (Bool-cases (k == 16)) [
  | inl a ↦ rw a (omega arith)
  | inr a ↦ elim (Bool-cases (k == 27)) [
    | inl b ↦ rw (a, b) (omega arith)
    | inr b ↦ rw (a, b) (omega arith)
  ]
]

volume-IsStore : IsStore volume
volume-IsStore = record { sized = λ k es h. omega (arith, sectors-le k, ap o_length h) }

free_place : find_free_slot volume 2 ≡ some (record { cluster = 3; sector = 3; index = 0 })
unfolding find_free_slot find_entry_with find_from slots_of_cluster slots_of_sectors slots_from
free_place = refl

music_absent : find_by_name volume 2 (entry_name music) ≡ none
unfolding find_by_name find_entry_with find_from slots_of_cluster slots_of_sectors slots_from
music_absent = refl

abbrev place : Location
place = record { cluster = 2; sector = 0; index = 0 }

readme_found : find_by_name volume 2 (entry_name readme) ≡ some (place, readme)
unfolding find_by_name find_entry_with find_from slots_of_cluster slots_of_sectors slots_from
readme_found = refl

find_by_name-write_entry_example :
    ((write_entry music true (record { cluster = 3; sector = 3; index = 0 }) volume).1 ≡ true)
    × (find_by_name
          (write_entry music true (record { cluster = 3; sector = 3; index = 0 }) volume).0
          2
          (entry_name music)
        ≡ some (record { cluster = 3; sector = 3; index = 0 }, music))
find_by_name-write_entry_example =
    find_by_name-write_entry volume 2 (record { cluster = 3; sector = 3; index = 0 }) music
      volume-IsStore free_place music_absent refl

-- The same directory with the entry only once.
abbrev plain : Store
plain = record volume { entries = λ k. if k == 16 then some (readme ∷ cleared ∷ []) else none }

plain-IsStore : IsStore plain
plain-IsStore = record {
  sized = λ k es h. elim (Bool-cases (k == 16)) [
    | inl a ↦ omega (arith, ap o_length (rw a at h))
    | inr a ↦ cc (rw a at h)
  ];
}

plain_found : find_by_name plain 2 (entry_name readme) ≡ some (place, readme)
unfolding find_by_name find_entry_with find_from slots_of_cluster slots_of_sectors slots_from
plain_found = refl

plain_only :
    all
      (λ (y : Location × FileEntry). not (has_name (entry_name readme) y) || same_place y.0 place)
      (slots_of_chain plain.entries (chain_from plain.next_cluster 1000 2))
    ≡ true
unfolding slots_of_chain chain_from slots_of_cluster slots_of_sectors slots_from
plain_only = refl

find_by_name-delete_entry_example :
    ((delete_entry true place plain).1 ≡ true)
    × (find_by_name (delete_entry true place plain).0 2 (entry_name readme) ≡ none)
find_by_name-delete_entry_example =
    find_by_name-delete_entry plain 2 (entry_name readme) place readme plain-IsStore plain_found
      plain_only

find_by_name-read_all_entries_example :
    is_some (find_by_name volume 2 (entry_name music))
    ≡ any (λ e. list_eq (entry_name e) (entry_name music)) (read_all_entries volume 2)
find_by_name-read_all_entries_example = find_by_name-read_all_entries volume 2 (entry_name music)
