-- ===== src/Volume/Alloc.antt =====
-- Freeing and allocating clusters: freeCluster, skipPastReserved, allocClusterForLevel.
use level_fs.Base.{
  ℕ, zero, suc, ◌+◌, ◌-◌, ◌%◌, ◌^◌, ◌==◌, leb, if◌then◌else◌, Option, none, some, Bool, true, false,
  ◌&&◌, ◌||◌,
}
use level_fs.Volume.{
  SuperBlock, LabEntry, Volume, lat_free, lat_end, free_entry, in_region, journal_clusters,
  is_reserved_cluster,
}
use level_fs.Volume.Table.{
  get_lab_entry, set_lab_entry, set_lat_entry_with_level, write_super_block,
  update_lit_allocated_count, plus, minus,
}

abbrev pub set_free_entry : Volume → ℕ → Volume
set_free_entry v cluster = set_lab_entry v cluster free_entry

abbrev pub count_freed : Volume → Volume
count_freed v = record v {
  sb = record (v.sb) { total_free_clusters = (v.sb.total_free_clusters + 1) % 2 ^ 64 };
}

unfoldable pub free_cluster : Volume → ℕ → Option Volume
free_cluster v cluster =
    if cluster == 0 || is_reserved_cluster v.sb cluster
    then some v
    else elim (update_lit_allocated_count v cluster (minus 1)) [
      | none ↦ none
      | some v' ↦ some (write_super_block (count_freed (set_free_entry v' cluster)))
    ]

unfoldable pub skip_past_reserved : SuperBlock → ℕ → ℕ
skip_past_reserved sb c =
    if c == 0
    then 1
    else if c == sb.backup_sb_cluster
    then c + 1
    else if in_region c sb.lit_start_cluster sb.lit_clusters
    then sb.lit_start_cluster + sb.lit_clusters
    else if in_region c sb.lab_pool_start sb.lab_pool_clusters
    then sb.lab_pool_start + sb.lab_pool_clusters
    else if in_region c sb.level_registry_cluster sb.level_registry_clusters
    then sb.level_registry_cluster + sb.level_registry_clusters
    else if in_region c sb.journal_start_cluster (journal_clusters sb)
    then sb.journal_start_cluster + journal_clusters sb
    else if leb sb.root_dir_cluster c && leb c (sb.root_dir_cluster + 1)
    then sb.root_dir_cluster + 2
    else c

-- How an allocation ends: with a cluster, by an access out of bounds, or without fuel.
pub data Outcome (A : Type 0) : Type 0 where
  done : A → Outcome A
  out_of_bounds out_of_fuel : Outcome A

abbrev pub is_free : LabEntry → Bool
is_free e = e.next_cluster == lat_free && e.flags == 0

unfoldable pub take_cluster : ℕ → ℕ → Volume → Outcome (ℕ × Volume)
take_cluster level_id c v =
    elim (update_lit_allocated_count (set_lat_entry_with_level v c lat_end level_id) c (plus 1)) [
      | none ↦ out_of_bounds
      | some v' ↦ done (
        c,
        write_super_block (record v' {
          sb = record (v'.sb) {
            free_cluster_hint = c + 1;
            total_free_clusters = (v'.sb.total_free_clusters + (2 ^ 64 - 1)) % 2 ^ 64;
          };
        }),
      )
    ]

-- The loop, at the cluster `c`; 0 stands for a full volume.
unfoldable pub alloc_from : ℕ → ℕ → ℕ → ℕ → Bool → Volume → Outcome (ℕ × Volume)
alloc_from zero level_id start c wrapped v = out_of_fuel
alloc_from (suc fuel) level_id start c wrapped v =
    let at = skip_past_reserved v.sb c in
    let from_the_start = alloc_from fuel level_id start 1 true v in
    let onwards = alloc_from fuel level_id start (at + 1) wrapped v in
    if leb v.sb.total_clusters at
    then (if wrapped then done (0, v) else from_the_start)
    else if wrapped && leb start at
    then done (0, v)
    else if is_reserved_cluster v.sb at
    then onwards
    else if is_free (get_lab_entry v at)
    then take_cluster level_id at v
    else onwards

abbrev pub first_candidate : Volume → ℕ
first_candidate v = if v.sb.free_cluster_hint == 0 then 1 else v.sb.free_cluster_hint

unfoldable pub alloc_cluster_for_level : ℕ → ℕ → Volume → Outcome (ℕ × Volume)
alloc_cluster_for_level fuel level_id v =
    alloc_from fuel level_id (first_candidate v) (first_candidate v) false v
