-- ===== src/Defrag/File.antt =====
-- DefragResult, defragFile, and the loop over a directory's files of class Defragmenter in src/defrag.hpp.
-- The error message is left out. The counters of the result are C++ ints that stay below 2 ^ 31.
use level_fs.Base.{
  ℕ, suc, ◌+◌, ◌-◌, ◌%◌, ◌^◌, ◌==◌, if◌then◌else◌, List, [], ◌∷◌, Bool, true, false, ◌&&◌, ◌||◌,
  not, length, keep, bit_and,
}
use level_fs.Entries.{FileEntry, Location}
use level_fs.Defrag.{
  DefragVolume, get_file_chain, fragment_count, is_contiguous, find_contiguous_space,
  move_cluster_chain,
}

abbrev pub type_file : ℕ
type_file = 1

abbrev pub perm_write : ℕ
perm_write = 0x2

abbrev pub defrag_dry_run : ℕ
defrag_dry_run = 0x1

abbrev pub defrag_force : ℕ
defrag_force = 0x4

abbrev pub has_bit : ℕ → ℕ → Bool
has_bit flags bit = not (bit_and flags bit == 0)

pub record DefragResult : Type 0 where
  pub files_processed : ℕ
  pub files_skipped : ℕ
  pub files_failed : ℕ
  pub clusters_recovered : ℕ
  pub bytes_processed : ℕ
  pub success : Bool

abbrev pub new_result : DefragResult
new_result = record {
  files_processed = 0;
  files_skipped = 0;
  files_failed = 0;
  clusters_recovered = 0;
  bytes_processed = 0;
  success = true;
}

pub record Defragmenter : Type 0 where
  pub volume : DefragVolume
  pub flags : ℕ
  pub result : DefragResult

unfoldable pub skipped : Defragmenter → Defragmenter
skipped d = record d { result = record (d.result) { files_skipped = suc d.result.files_skipped } }

unfoldable pub dry_processed : Defragmenter → Defragmenter
dry_processed d = record d {
  result = record (d.result) { files_processed = suc d.result.files_processed };
}

unfoldable pub no_space : Defragmenter → Defragmenter
no_space d = record d { result = record (d.result) { files_failed = suc d.result.files_failed } }

unfoldable pub move_failed : DefragVolume → Defragmenter → Defragmenter
move_failed v d = record d {
  volume = v;
  result = record (d.result) { files_failed = suc d.result.files_failed; success = false };
}

-- A file that was moved, with the fragments it had and its size.
unfoldable pub processed : DefragVolume → ℕ → ℕ → Defragmenter → Defragmenter
processed v fragments size d = record d {
  volume = v;
  result = record (d.result) {
    files_processed = suc d.result.files_processed;
    clusters_recovered = d.result.clusters_recovered + (fragments - 1);
    bytes_processed = (d.result.bytes_processed + size) % 2 ^ 64;
  };
}

unfoldable pub defrag_file : FileEntry → ℕ → ℕ → Bool → Defragmenter → Defragmenter × Bool
defrag_file entry entry_sector entry_idx entry_ok d =
    let old_chain = get_file_chain d.volume entry.start_cluster in
    let new_start = find_contiguous_space d.volume (length old_chain) in
    if not (entry.type == type_file) || entry.start_cluster == 0
    then (d, true)
    else if not (has_bit entry.attributes perm_write) && not (has_bit d.flags defrag_force)
    then (skipped d, true)
    else if is_contiguous old_chain
    then (skipped d, true)
    else if has_bit d.flags defrag_dry_run
    then (dry_processed d, true)
    else if new_start == 0
    then (no_space d, false)
    else let (v, moved) =
        move_cluster_chain old_chain new_start entry_sector entry_idx entry_ok d.volume in
      if not moved
      then (move_failed v d, false)
      else (processed v (fragment_count old_chain) entry.size d, true)

abbrev pub is_file : (Location × FileEntry) → Bool
is_file (l, e) = e.type == type_file && not (e.start_cluster == 0)

-- The loop over the files, of which `entry_ok` says whose sector can be read and written.
unfoldable pub defrag_files :
    (Location → Bool) → List (Location × FileEntry) → Defragmenter → Defragmenter
defrag_files entry_ok [] d = d
defrag_files entry_ok ((l, e) ∷ files) d =
    defrag_files entry_ok files (defrag_file e l.sector l.index (entry_ok l) d).0

-- The files among a directory's entries are gathered before the first one is moved.
unfoldable pub defrag_directory_files :
    (Location → Bool) → List (Location × FileEntry) → Defragmenter → Defragmenter
defrag_directory_files entry_ok slots d = defrag_files entry_ok (keep is_file slots) d
