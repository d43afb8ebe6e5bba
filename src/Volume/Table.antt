-- ===== src/Volume/Table.antt =====
-- getLABEntry, setLABEntry and the functions on single entries of src/mount.cpp.
use level_fs.Base.{
  ℕ, ◌+◌, ◌-◌, ◌*◌, ◌/◌, ◌%◌, ◌^◌, ◌==◌, leb, if◌then◌else◌, Option, none, some, ◌||◌, not, bit_or,
}
use level_fs.Volume.{
  LabEntry, Volume, lat_end, lat_flag_used, clusters_per_lit_entry, lit_entries_per_cluster,
  lit_entries_held, free_entry, put_entry, in_region, is_reserved_cluster, lit_cluster_of,
  lit_index_of, lab_offset_of, lit_entry_of,
}

-- The part of getLABEntry behind the tests on the cluster.
unfoldable pub find_lab_entry : Volume → ℕ → LabEntry
find_lab_entry v cluster =
    let lab_cluster = (lit_entry_of v cluster).lab_cluster in
    if leb v.sb.total_clusters (lit_cluster_of v.sb cluster)
    then free_entry
    else if lab_cluster == 0
    then free_entry
    else if not (in_region lab_cluster v.sb.lab_pool_start v.sb.lab_pool_clusters)
    then free_entry
    else v.lab lab_cluster (lab_offset_of cluster)

unfoldable pub get_lab_entry : Volume → ℕ → LabEntry
get_lab_entry v cluster =
    if cluster == 0 || leb v.sb.total_clusters cluster
    then free_entry
    else if is_reserved_cluster v.sb cluster
    then record free_entry { next_cluster = lat_end }
    else find_lab_entry v cluster

unfoldable pub get_lat_entry : Volume → ℕ → ℕ
get_lat_entry v cluster =
    if cluster == 0 || leb v.sb.total_clusters cluster
    then lat_end
    else if is_reserved_cluster v.sb cluster
    then lat_end
    else (get_lab_entry v cluster).next_cluster

unfoldable pub write_super_block : Volume → Volume
write_super_block v = record v {
  primary = v.sb;
  backup = if v.sb.backup_sb_cluster == 0 then v.backup else v.sb;
}

-- The first write under an index entry takes the next block of the pool.
unfoldable pub new_lab : Volume → ℕ → Volume
unfolding write_super_block
new_lab v cluster =
    let new_lab_cluster = v.sb.lab_pool_start + v.sb.next_free_lab in
    write_super_block (record v {
      sb = record (v.sb) { next_free_lab = v.sb.next_free_lab + 1 };
      lab = λ c i. if new_lab_cluster == c then free_entry else v.lab c i;
      lit = put_entry v.lit (lit_cluster_of v.sb cluster) (lit_index_of cluster) (record {
        lab_cluster = new_lab_cluster;
        base_cluster = cluster / clusters_per_lit_entry * clusters_per_lit_entry;
        allocated_count = 0;
        flags = 0;
      });
    })

unfoldable pub set_lab_entry : Volume → ℕ → LabEntry → Volume
unfolding new_lab
set_lab_entry v cluster value =
    let v' = if (lit_entry_of v cluster).lab_cluster == 0 then new_lab v cluster else v in
    record v' {
      lab = put_entry v'.lab (lit_entry_of v' cluster).lab_cluster (lab_offset_of cluster) value;
    }

unfoldable pub set_lat_entry : Volume → ℕ → ℕ → Volume
set_lat_entry v cluster value =
    let entry = get_lab_entry v cluster in
    set_lab_entry v cluster (record entry {
      next_cluster = value;
      flags = if value == lat_end then bit_or entry.flags lat_flag_used else entry.flags;
    })

unfoldable pub set_lat_entry_with_level : Volume → ℕ → ℕ → ℕ → Volume
set_lat_entry_with_level v cluster value level_id =
    set_lab_entry v cluster
      (record { next_cluster = value; level_id = level_id; flags = lat_flag_used; ref_count = 1 })

-- The sign and size of `int delta`.
pub data Delta : Type 0 where
  plus minus : ℕ → Delta

-- uint32_t allocatedCount
abbrev pub add_delta : ℕ → Delta → ℕ
add_delta count (plus n) = (count + n) % 2 ^ 32
add_delta count (minus n) = if leb n count then count - n else count

-- `none` is an access past the end of the 4096-byte buffer: the index is taken modulo 512, and only
-- 170 entries are in the buffer.
unfoldable pub update_lit_allocated_count : Volume → ℕ → Delta → Option Volume
update_lit_allocated_count v cluster delta =
    let lit_index = cluster / clusters_per_lit_entry in
    let cluster_idx = lit_index / lit_entries_per_cluster in
    let entry_idx = lit_index % lit_entries_per_cluster in
    let entry = v.lit (v.sb.lit_start_cluster + cluster_idx) entry_idx in
    if leb v.sb.lit_clusters cluster_idx
    then some v
    else if leb lit_entries_held entry_idx
    then none
    else if entry.lab_cluster == 0
    then some v
    else some (record v {
      lit =
          put_entry v.lit (v.sb.lit_start_cluster + cluster_idx) entry_idx
            (record entry { allocated_count = add_delta entry.allocated_count delta });
    })
