-- ===== src/Formatter.antt =====
-- Formatter::performFormat of src/fs.cpp: the superblock that it computes, and the table of clusters
-- that it leaves. Sums of the superblock's fields stay below 2 ^ 64.
pub mod Layout
pub mod Counted
mod Tests
use level_fs.Base.{ℕ, ◌+◌, ◌-◌, ◌*◌, ◌/◌, ◌==◌, ltb, if◌then◌else◌, Bool, ◌&&◌}
use level_fs.Volume.{
  SuperBlock, LitEntry, LabEntry, Volume, free_entry, in_region, clusters_per_lit_entry, put_entry,
}

-- sizeof(LITEntry), sizeof(JournalEntry), and the sizes of a cluster
abbrev pub lit_entry_size : ℕ
lit_entry_size = 24

abbrev pub journal_entry_size : ℕ
journal_entry_size = 72

abbrev pub sector_size : ℕ
sector_size = 512

abbrev pub sectors_per_cluster : ℕ
sectors_per_cluster = 8

abbrev pub cluster_bytes : ℕ
cluster_bytes = 4096

abbrev pub lit_entries_needed : ℕ → ℕ
lit_entries_needed total_clusters =
    (total_clusters + clusters_per_lit_entry - 1) / clusters_per_lit_entry

-- The superblock for a disk of this many bytes; a field is computed from the ones before it.
unfoldable pub format_super_block : ℕ → SuperBlock
format_super_block disk_size_bytes =
    let total_sectors = disk_size_bytes / sector_size in
    let total_clusters = total_sectors / sectors_per_cluster in
    let entries = lit_entries_needed total_clusters in
    let lit_clusters = (entries * lit_entry_size + cluster_bytes - 1) / cluster_bytes in
    let lab_pool_start = 1 + lit_clusters in
    let level_registry_cluster = lab_pool_start + entries in
    let journal_sectors = (1024 * journal_entry_size + sector_size - 1) / sector_size in
    let journal_start_cluster = level_registry_cluster + 2 in
    let journal_clusters = (journal_sectors + sectors_per_cluster - 1) / sectors_per_cluster in
    let root_dir_cluster = journal_start_cluster + journal_clusters in
    record {
      magic = 0x4C46_5332;
      version = 2;
      total_sectors = total_sectors;
      cluster_size = sectors_per_cluster;
      total_clusters = total_clusters;
      lit_start_cluster = 1;
      lit_clusters = lit_clusters;
      lab_pool_start = lab_pool_start;
      lab_pool_clusters = entries;
      next_free_lab = 0;
      level_registry_cluster = level_registry_cluster;
      level_registry_clusters = 2;
      journal_start_cluster = journal_start_cluster;
      journal_sectors = journal_sectors;
      last_tx_id = 0;
      next_level_id = 2;
      total_levels = 1;
      root_level_id = 1;
      root_dir_cluster = root_dir_cluster;
      backup_sb_cluster = total_clusters - 1;
      free_cluster_hint = root_dir_cluster + 2;
      total_free_clusters = total_clusters - (root_dir_cluster + 2) - 1;
      lat_start_cluster = 1;
      lat_sectors = lit_clusters * sectors_per_cluster;
    }

abbrev pub empty_lit_entry : LitEntry
empty_lit_entry = record { lab_cluster = 0; base_cluster = 0; allocated_count = 0; flags = 0 }

-- The disk before, with the index cleared and the first 16 blocks of the pool.
unfoldable pub format_volume : ℕ → Volume → Volume
unfolding format_super_block
format_volume disk_size_bytes before =
    let sb = format_super_block disk_size_bytes in
    record {
      sb = sb;
      primary = sb;
      backup = sb;
      lit = λ c i.
          if in_region c sb.lit_start_cluster sb.lit_clusters
          then empty_lit_entry
          else before.lit c i;
      lab = λ c i.
          if in_region c sb.lab_pool_start
            (if ltb sb.lab_pool_clusters 16 then sb.lab_pool_clusters else 16)
          then free_entry
          else before.lab c i;
    }
