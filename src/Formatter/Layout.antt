-- ===== src/Formatter/Layout.antt =====
-- The layout that the formatter computes, against the allocator's table of clusters.
use level_fs.Base.{ℕ, zero, suc, ◌+◌, ◌/◌, ◌<◌, ◌≤◌, ◌≡◌, ◌↔◌, arith}
use level_fs.Formatter.{lit_entries_needed, format_super_block, format_volume}
use level_fs.Volume.Counts.{zeros}
use level_fs.Volume.Hlat.{IsHlat, lab_of_index}
use level_fs.Volume.Flat.{IsData}
use level_fs.Volume.{Volume, is_reserved_cluster, lit_cluster_of}

zeros-le : (f : ℕ → ℕ) (n : ℕ) → zeros f n ≤ n
unfolding zeros
zeros-le f zero = omega arith
zeros-le f (suc n) = ground (arith, zeros-le f n)

-- The clusters of a disk of this many bytes.
abbrev pub clusters_of : ℕ → ℕ
clusters_of bytes = bytes / 512 / 8

count_same : (total : ℕ) → (total + 255) / 256 ≡ lit_entries_needed total
count_same total = omega arith

pub empty_index :
    (bytes i : ℕ) (before : Volume)
    → clusters_of bytes ≤ 87040
    → i < (clusters_of bytes + 255) / 256
    → lab_of_index (format_volume bytes before) i ≡ 0
unfolding format_volume format_super_block
empty_index bytes i before small below = ground arith

-- A disk of 64 to 87040 clusters is formatted to a well-formed table of clusters, whatever was on it.
pub format_volume-IsHlat :
    (bytes : ℕ) (before : Volume)
    → 64 ≤ clusters_of bytes
    → clusters_of bytes ≤ 87040
    → IsHlat (format_volume bytes before)
unfolding format_volume format_super_block
format_volume-IsHlat bytes before large small = record {
  fits = λ i h. omega (arith, h, large);
  table = record {
    positive = omega arith;
    in_pool = λ i h full. absurd (full (empty_index bytes i before small h));
    apart = λ i j hi hj ne full. absurd (full (empty_index bytes i before small hi));
    spare = omega (
      arith,
      zeros-le (lab_of_index (format_volume bytes before)) ((clusters_of bytes + 255) / 256),
      count_same (clusters_of bytes),
    );
  };
}

-- On a disk of at least 64 clusters, the clusters that the allocator manages are exactly those from
-- the hint on, as many as the counter of free clusters says.
pub format_super_block-IsData :
    (bytes c : ℕ)
    → 64 ≤ clusters_of bytes
    → IsData (format_super_block bytes) c ↔ (
        ((format_super_block bytes).free_cluster_hint ≤ c)
        × (c
            < (format_super_block bytes).free_cluster_hint
              + (format_super_block bytes).total_free_clusters))
unfolding format_super_block is_reserved_cluster
format_super_block-IsData bytes c large = (
  λ d. let i = d.inside in let u = d.unreserved in (ground arith, ground arith),
  λ h. record { inside = omega (arith, h.0, h.1, large); unreserved = ground arith },
)

-- On a disk of 87041 to 87296 clusters, the index is one cluster too short: the entry of each cluster
-- from 87040 on is looked up in the cluster behind the index's last one, which is the first block of the
-- pool.
pub format_super_block-overlap :
    (bytes c : ℕ)
    → 87040 < clusters_of bytes
    → clusters_of bytes ≤ 87296
    → 87040 ≤ c
    → c < clusters_of bytes
    → let sb = format_super_block bytes in
      (lit_cluster_of sb c ≡ sb.lit_start_cluster + sb.lit_clusters)
      × (lit_cluster_of sb c ≡ sb.lab_pool_start)
      × (0 < sb.lab_pool_clusters)
unfolding format_super_block
format_super_block-overlap bytes c large small from inside = (
  omega (arith, large, small, from, inside),
  omega (arith, large, small, from, inside),
  omega (arith, large),
)
