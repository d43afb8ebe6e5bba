-- ===== src/Defrag/Tests.antt =====
-- A volume on which the defragmenter's theorems are applied.
use level_fs.Base.{
  ℕ, zero, suc, ◌+◌, ◌<◌, ◌≡◌, ◌≢◌, refl, sym, ap, subst, ◌∙◌, ◌==◌, if◌then◌else◌, List, [], ◌∷◌,
  true, mem, map, length, keep, arith, Bool-cases, inl, inr,
}
use level_fs.Defrag.{
  DefragVolume, lat_free, lat_end, get_link, find_contiguous_space, space_from, links_from,
  get_file_chain, fragment_count, breaks_after, is_contiguous, read_backup, write_backup,
  move_cluster_chain,
}
use level_fs.Defrag.Space.{IsFree, IsSpace, find_contiguous_space-IsSpace}
use level_fs.Entries.{FileEntry, Location}
use level_fs.Defrag.File.{
  Defragmenter, new_result, processed, defrag_file, is_file, defrag_directory_files,
}
use level_fs.Defrag.Finished.{defrag_file-contiguous, files_seen, files_seen-defrag_directory_files}
use level_fs.Defrag.Links.{IsStored}

-- A file in the clusters 5 and 9, and another one in cluster 12.
abbrev volume : DefragVolume
volume = record {
  links = λ sector place.
      if place == 5 then 9 else if place == 9 then lat_end else if place == 12 then lat_end else 0;
  stale = λ c. 0;
  content = λ c. 100 + c;
  starts = λ sector place. if place == 2 then 5 else 0;
  readable = λ c. true;
  writable = λ c. true;
  data_start = 10;
  total_clusters = 20;
}

old_chain : get_file_chain volume 5 ≡ 5 ∷ 9 ∷ []
unfolding get_file_chain links_from get_link
old_chain = refl

old_fragments : fragment_count (5 ∷ 9 ∷ []) ≡ 2
unfolding fragment_count breaks_after
old_fragments = refl

found_first : find_contiguous_space volume 3 ≡ 13
unfolding find_contiguous_space space_from get_link
found_first = refl

IsFree-behind : IsFree volume 14 3
unfolding get_link
IsFree-behind zero h = refl
IsFree-behind (suc zero) h = refl
IsFree-behind (suc (suc zero)) h = refl
IsFree-behind (suc (suc (suc n))) h = absurd (omega (arith, h))

find_contiguous_space-IsSpace_example : IsSpace volume 10 20 3 (find_contiguous_space volume 3)
find_contiguous_space-IsSpace_example =
    find_contiguous_space-IsSpace volume 3 14 (omega arith) (omega arith) (omega arith)
      (omega arith) IsFree-behind

moves : (move_cluster_chain (5 ∷ 9 ∷ []) 16 8 2 true volume).1 ≡ true
unfolding move_cluster_chain read_backup write_backup
moves = refl

abbrev report : FileEntry
report = record {
  name = 114 ∷ [];
  extension = [];
  type = 1;
  owner_level = 1;
  start_cluster = 5;
  size = 8000;
  attributes = 3;
  create_time = 1;
  mod_time = 2;
  access_time = 3;
}

abbrev idle : Defragmenter
idle = record { volume = volume; flags = 0; result = new_result }

counted : (defrag_file report 8 2 true idle).0.result.files_processed ≡ 1
unfolding defrag_file processed get_file_chain links_from get_link fragment_count breaks_after
    is_contiguous find_contiguous_space space_from move_cluster_chain read_backup write_backup
counted = refl

used : (c : ℕ) → mem c (get_file_chain volume 5) ≡ true → get_link volume c ≢ lat_free
unfolding get_link
used c h e =
    let h' : mem c (5 ∷ 9 ∷ []) ≡ true = sym (ap (mem c) old_chain) ∙ h in
    elim (Bool-cases (c == 5)) [
      | inl first ↦
          let at : c ≡ 5 = ground (arith, first) in
          let no : 9 ≡ 0 = sym (ap (get_link volume) at) ∙ e in omega (arith, no)
      | inr other ↦
          let at : c ≡ 9 = ground (arith, h', other) in
          let no : lat_end ≡ 0 = sym (ap (get_link volume) at) ∙ e in omega (arith, no)
    ]

space_for_two : find_contiguous_space volume (length (get_file_chain volume 5)) ≡ 10
unfolding find_contiguous_space space_from get_link get_file_chain links_from
space_for_two = refl

space-IsStored :
    (i : ℕ)
    → i < length (get_file_chain volume 5)
    → IsStored (find_contiguous_space volume (length (get_file_chain volume 5)) + i)
space-IsStored i h =
    let short : i < 2 = subst (λ n. i < n) (ap length old_chain) h in
    omega (arith, space_for_two, short)

defrag_file-contiguous_example :
    let v = (defrag_file report 8 2 true idle).0.volume in
    (is_contiguous (get_file_chain v (v.starts 8 2)) ≡ true)
    × (map v.content (get_file_chain v (v.starts 8 2))
        ≡ map volume.content (get_file_chain volume 5))
defrag_file-contiguous_example =
    defrag_file-contiguous report 8 2 idle refl (λ e. omega (arith, counted, e)) (omega arith)
      (omega arith) used space-IsStored

abbrev slots : List (Location × FileEntry)
slots =
    (record { cluster = 1; sector = 8; index = 2 }, report)
    ∷ (record { cluster = 1; sector = 8; index = 3 }, record report { type = 0 })
    ∷ []

files_seen-defrag_directory_files_example :
    files_seen (defrag_directory_files (λ l. true) slots idle)
    ≡ files_seen idle + length (keep is_file slots)
files_seen-defrag_directory_files_example = files_seen-defrag_directory_files (λ l. true) slots idle
