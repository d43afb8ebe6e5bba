-- ===== src/Formatter/Tests.antt =====
-- Disks of 64 and of 87041 clusters.
use level_fs.Base.{ℕ, ◌+◌, ◌≤◌, ◌<◌, ◌≡◌, ◌↔◌, arith, refl}
use level_fs.Formatter.{format_super_block, format_volume, empty_lit_entry}
use level_fs.Formatter.Layout.{
  format_volume-IsHlat, format_super_block-IsData, format_super_block-overlap,
}
use level_fs.Formatter.Counted.{format_volume-IsCounted}
use level_fs.Volume.Counter.{IsCounted, alloc_cluster_for_level-IsCounted}
use level_fs.Volume.Table.{
  get_lab_entry, find_lab_entry, set_lab_entry, new_lab, set_lat_entry_with_level,
  write_super_block, update_lit_allocated_count,
}
use level_fs.Volume.Alloc.{
  Outcome, done, skip_past_reserved, take_cluster, alloc_from, alloc_cluster_for_level,
}
use level_fs.Volume.Hlat.{IsHlat}
use level_fs.Volume.Flat.{IsData}
use level_fs.Volume.{is_reserved_cluster, Volume, free_entry, lit_cluster_of}

abbrev scratch_disk : Volume
scratch_disk = record {
  sb = format_super_block 0;
  primary = format_super_block 0;
  backup = format_super_block 0;
  lit = λ c i. record empty_lit_entry { lab_cluster = 99 };
  lab = λ c i. free_entry;
}

format_volume-IsHlat_example : IsHlat (format_volume 262144 scratch_disk)
format_volume-IsHlat_example = format_volume-IsHlat 262144 scratch_disk (omega arith) (omega arith)

format_super_block-IsData_example : IsData (format_super_block 262144) 30 ↔ (
    ((format_super_block 262144).free_cluster_hint ≤ 30)
    × (30
        < (format_super_block 262144).free_cluster_hint
          + (format_super_block 262144).total_free_clusters))
format_super_block-IsData_example = format_super_block-IsData 262144 30 (omega arith)

-- A disk of 87200 clusters, and a data cluster of it.
hint_below :
    ((format_super_block 357171200).free_cluster_hint ≤ 87100)
    × (87100
        < (format_super_block 357171200).free_cluster_hint
          + (format_super_block 357171200).total_free_clusters)
unfolding format_super_block
hint_below = (omega arith, omega arith)

IsData-87100 : IsData (format_super_block 357171200) 87100
IsData-87100 = (format_super_block-IsData 357171200 87100 (omega arith)).1 hint_below

format_super_block-overlap_example :
    let sb = format_super_block 357171200 in
    (lit_cluster_of sb 87100 ≡ sb.lit_start_cluster + sb.lit_clusters)
    × (lit_cluster_of sb 87100 ≡ sb.lab_pool_start)
    × (0 < sb.lab_pool_clusters)
format_super_block-overlap_example =
    format_super_block-overlap 357171200 87100 (omega arith) (omega arith) (omega arith)
      (omega arith)

format_volume-IsCounted_example : IsCounted (format_volume 262144 scratch_disk)
format_volume-IsCounted_example =
    format_volume-IsCounted 262144 scratch_disk (omega arith) (omega arith)

-- The formatted disk after its first allocation.
abbrev formatted : Volume
formatted = format_volume 262144 scratch_disk

abbrev left_by : Outcome (ℕ × Volume) → Volume
left_by (done r) = r.1
left_by out = scratch_disk

formatted_total : (formatted).sb.total_clusters ≡ 64
unfolding format_volume format_super_block
formatted_total = refl

formatted_counter : (formatted).sb.total_free_clusters ≡ 38
unfolding format_volume format_super_block
formatted_counter = refl

first_allocation :
    alloc_cluster_for_level 200 1 formatted
    ≡ done (25, left_by (alloc_cluster_for_level 200 1 formatted))
unfolding format_volume format_super_block alloc_cluster_for_level alloc_from skip_past_reserved
    is_reserved_cluster get_lab_entry find_lab_entry take_cluster set_lat_entry_with_level
    set_lab_entry new_lab update_lit_allocated_count write_super_block
first_allocation = refl

alloc_cluster_for_level-IsCounted_example :
    IsCounted (left_by (alloc_cluster_for_level 200 1 formatted))
alloc_cluster_for_level-IsCounted_example =
    alloc_cluster_for_level-IsCounted 200 1 25 formatted
      (left_by (alloc_cluster_for_level 200 1 formatted)) (omega (arith, formatted_total))
      (format_volume-IsHlat 262144 scratch_disk (omega arith) (omega arith))
      (omega (arith, formatted_total)) (omega (arith, formatted_counter))
      (format_volume-IsCounted 262144 scratch_disk (omega arith) (omega arith)) first_allocation
      (omega arith)
