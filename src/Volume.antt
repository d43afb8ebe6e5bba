-- ===== src/Volume.antt =====
-- The allocation core of FileSystemShell in src/mount.cpp over the structures of src/fs_common.hpp:
-- the superblock, and the two-level table of cluster entries (the Level Index Table points to Level
-- Allocation Blocks). The disk is seen through two typed views, `lit` and `lab`, each from a
-- cluster's number and an index in it; the regions that the code reads through them are disjoint.
-- Reads and writes of the disk succeed. The volume's name and the padding are left out. Sums of the superblock's fields stay below 2 ^ 64.
pub mod Reserved
pub mod Table
pub mod Hlat
pub mod Flat
pub mod Counts
pub mod Alloc
pub mod Taking
pub mod Steps
pub mod Search
pub mod Counter
pub mod Leak
pub mod Chain
pub mod Following
pub mod Freeing
mod Tests
use level_fs.Base.{
  ℕ, zero, suc, ◌+◌, ◌-◌, ◌*◌, ◌/◌, ◌%◌, ◌^◌, ◌==◌, ltb, leb, if◌then◌else◌, List, [], ◌∷◌, ◌++◌,
  Option, none, some, Bool, true, false, ◌&&◌, ◌||◌, not, mem, bit_or,
}

-- sizeof(LITEntry) is 24 and a cluster has 4096 bytes, so an index cluster holds 170 entries.
-- LIT_ENTRIES_PER_CLUSTER says 512, which is the number of 8-byte words.
abbrev pub lat_free : ℕ
lat_free = 0

abbrev pub lat_end : ℕ
lat_end = 0xffff_ffff_ffff_ffff

abbrev pub lat_bad : ℕ
lat_bad = 0xffff_ffff_ffff_fffe

abbrev pub lat_flag_used : ℕ
lat_flag_used = 1

abbrev pub clusters_per_lit_entry : ℕ
clusters_per_lit_entry = 256

abbrev pub lit_entries_per_cluster : ℕ
lit_entries_per_cluster = 512

-- CLUSTER_SIZE / sizeof(LITEntry)
abbrev pub lit_entries_held : ℕ
lit_entries_held = 170

pub record SuperBlock : Type 0 where
  pub magic : ℕ
  pub version : ℕ
  pub total_sectors : ℕ
  pub cluster_size : ℕ
  pub total_clusters : ℕ
  pub lit_start_cluster : ℕ
  pub lit_clusters : ℕ
  pub lab_pool_start : ℕ
  pub lab_pool_clusters : ℕ
  pub next_free_lab : ℕ
  pub level_registry_cluster : ℕ
  pub level_registry_clusters : ℕ
  pub journal_start_cluster : ℕ
  pub journal_sectors : ℕ
  pub last_tx_id : ℕ
  pub next_level_id : ℕ
  pub total_levels : ℕ
  pub root_level_id : ℕ
  pub root_dir_cluster : ℕ
  pub backup_sb_cluster : ℕ
  pub free_cluster_hint : ℕ
  pub total_free_clusters : ℕ
  pub lat_start_cluster : ℕ
  pub lat_sectors : ℕ

pub record LitEntry : Type 0 where
  pub lab_cluster : ℕ
  pub base_cluster : ℕ
  pub allocated_count : ℕ
  pub flags : ℕ

pub record LabEntry : Type 0 where
  pub next_cluster : ℕ
  pub level_id : ℕ
  pub flags : ℕ
  pub ref_count : ℕ

abbrev pub free_entry : LabEntry
free_entry = record { next_cluster = lat_free; level_id = 0; flags = 0; ref_count = 0 }

-- `sb` is the superblock in memory, `primary` and `backup` its copies on the disk.
pub record Volume : Type 0 where
  pub sb : SuperBlock
  pub primary : SuperBlock
  pub backup : SuperBlock
  pub lit : ℕ → ℕ → LitEntry
  pub lab : ℕ → ℕ → LabEntry

-- One entry of a cluster written anew.
abbrev pub put_entry {ℓ} : {A : Type ℓ} → (ℕ → ℕ → A) → ℕ → ℕ → A → ℕ → ℕ → A
put_entry f cluster index a c i = if cluster == c && index == i then a else f c i

abbrev pub in_region : ℕ → ℕ → ℕ → Bool
in_region cluster start count = leb start cluster && ltb cluster (start + count)

-- journalSectors / SECTORS_PER_CLUSTER + 1
abbrev pub journal_clusters : SuperBlock → ℕ
journal_clusters sb = sb.journal_sectors / 8 + 1

unfoldable pub is_reserved_cluster : SuperBlock → ℕ → Bool
is_reserved_cluster sb cluster =
    cluster == 0
    || cluster == sb.backup_sb_cluster
    || in_region cluster sb.lit_start_cluster sb.lit_clusters
    || in_region cluster sb.lab_pool_start sb.lab_pool_clusters
    || in_region cluster sb.level_registry_cluster sb.level_registry_clusters
    || in_region cluster sb.journal_start_cluster (journal_clusters sb)
    || leb sb.root_dir_cluster cluster && leb cluster (sb.root_dir_cluster + 1)

-- The cluster of the index table and the entry in it that a cluster falls under.
abbrev pub lit_cluster_of : SuperBlock → ℕ → ℕ
lit_cluster_of sb cluster =
    sb.lit_start_cluster + cluster / clusters_per_lit_entry / lit_entries_held

abbrev pub lit_index_of : ℕ → ℕ
lit_index_of cluster = cluster / clusters_per_lit_entry % lit_entries_held

abbrev pub lab_offset_of : ℕ → ℕ
lab_offset_of cluster = cluster % clusters_per_lit_entry

abbrev pub lit_entry_of : Volume → ℕ → LitEntry
lit_entry_of v cluster = v.lit (lit_cluster_of v.sb cluster) (lit_index_of cluster)
