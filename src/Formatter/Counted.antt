-- ===== src/Formatter/Counted.antt =====
-- The counter of free clusters that the formatter writes.
use level_fs.Base.{
  ℕ, ◌+◌, ◌/◌, ◌<◌, ◌≤◌, ltb, leb, ◌≡◌, refl, true, ◌&&◌, arith, Bool-cases, inl, inr,
}
use level_fs.Formatter.{format_super_block, format_volume}
use level_fs.Formatter.Layout.{
  clusters_of, empty_index, format_volume-IsHlat, format_super_block-IsData,
}
use level_fs.Volume.Flat.{IsData, get_lab_entry-flat}
use level_fs.Volume.Table.{get_lab_entry}
use level_fs.Volume.Alloc.{is_free}
use level_fs.Volume.Counter.{is_available, IsCounted, count_range}
use level_fs.Volume.{Volume, is_reserved_cluster}

formatted_total : (bytes : ℕ) → (format_super_block bytes).total_clusters ≡ clusters_of bytes
unfolding format_super_block
formatted_total bytes = refl

formatted_counter :
    (bytes : ℕ)
    → 64 ≤ clusters_of bytes
    → (format_super_block bytes).free_cluster_hint
        + (format_super_block bytes).total_free_clusters
        + 1
      ≡ clusters_of bytes
unfolding format_super_block
formatted_counter bytes large = omega (arith, large)

formatted_free :
    (bytes c : ℕ) (before : Volume)
    → 64 ≤ clusters_of bytes
    → clusters_of bytes ≤ 87040
    → IsData (format_volume bytes before).sb c
    → is_free (get_lab_entry (format_volume bytes before) c) ≡ true
unfolding format_volume
formatted_free bytes c before large small d =
    let v = format_volume bytes before in
    let h = format_volume-IsHlat bytes before large small in
    let total = formatted_total bytes in
    let empty = empty_index bytes (c / 256) before small (omega (arith, d.inside, total)) in
    rw (get_lab_entry-flat v c d h) (ground (arith, empty))

formatted_available :
    (bytes c : ℕ) (before : Volume)
    → 64 ≤ clusters_of bytes
    → clusters_of bytes ≤ 87040
    → c < clusters_of bytes
    → is_available (format_volume bytes before) c ≡ (
        leb (format_super_block bytes).free_cluster_hint c
        && ltb c (
            (format_super_block bytes).free_cluster_hint
            + (format_super_block bytes).total_free_clusters))
unfolding format_volume
formatted_available bytes c before large small below =
    let sb = format_super_block bytes in
    let (inside, outside) = format_super_block-IsData bytes c large in
    let total = formatted_total bytes in
    elim (Bool-cases (is_reserved_cluster sb c)) [
      | inl reserved ↦
          elim (Bool-cases
            (leb sb.free_cluster_hint c && ltb c (sb.free_cluster_hint + sb.total_free_clusters))) [
              | inl range ↦
                  let d = outside (ground arith, ground arith) in
                  absurd (cc (reserved, d.unreserved))
              | inr range ↦ rw (reserved, range)
            ]
      | inr data_cluster ↦
          let d : IsData sb c = record {
            inside = omega (arith, below, total);
            unreserved = data_cluster;
          } in
          let (from, before_end) = inside d in
          let range : (leb sb.free_cluster_hint c
                && ltb c (sb.free_cluster_hint + sb.total_free_clusters))
              ≡ true =
            ground arith in
          rw (data_cluster, range) (formatted_free bytes c before large small d)
    ]

-- A disk of 64 to 87040 clusters is formatted with a true counter of free clusters, whatever was on it.
pub format_volume-IsCounted :
    (bytes : ℕ) (before : Volume)
    → 64 ≤ clusters_of bytes
    → clusters_of bytes ≤ 87040
    → IsCounted (format_volume bytes before)
unfolding format_volume
format_volume-IsCounted bytes before large small =
    let sb = format_super_block bytes in
    let total = formatted_total bytes in
    let counter = formatted_counter bytes large in
    let counted =
      count_range (is_available (format_volume bytes before)) sb.free_cluster_hint
        sb.total_free_clusters sb.total_clusters
        (λ i b. formatted_available bytes i before large small (omega (arith, b, total))) in
    ground (arith, counted, total, counter)
