-- ===== src/Volume/Tests.antt =====
-- The allocator on a volume of 64 clusters.
use level_fs.Base.{true, List, [], ◌∷◌, ℕ, ◌==◌, if◌then◌else◌, ◌≡◌, ◌≢◌, refl, some, false, arith}
use level_fs.Volume.Counts.{zeros}
use level_fs.Volume.Hlat.{IsHlat}
use level_fs.Volume.Flat.{IsData, get_lab_entry-set_lab_entry}
use level_fs.Volume.Table.{
  get_lab_entry, get_lat_entry, find_lab_entry, set_lab_entry, new_lab, set_lat_entry,
  set_lat_entry_with_level, write_super_block, update_lit_allocated_count,
}
use level_fs.Volume.Taking.{taken_entry}
use level_fs.Volume.Search.{
  IsAllocation, alloc_cluster_for_level-IsAllocation, alloc_cluster_for_level-apart,
}
use level_fs.Volume.Chain.{follow, get_chain, free_chain}
use level_fs.Volume.Following.{IsChain, ends_here, get_chain-IsChain}
use level_fs.Volume.Freeing.{Frees, free_chain-Frees}
use level_fs.Volume.Counter.{IsCounted, count_true, free_cluster-IsCounted}
use level_fs.Volume.Leak.{set_lat_entry-is_free}
use level_fs.Volume.Alloc.{
  Outcome, done, is_free, free_cluster, skip_past_reserved, take_cluster, alloc_from,
  alloc_cluster_for_level,
}
use level_fs.Volume.{SuperBlock, LitEntry, Volume, free_entry, lat_free, is_reserved_cluster}

abbrev small_super_block : SuperBlock
small_super_block = record {
  magic = 0;
  version = 0;
  total_sectors = 512;
  cluster_size = 4096;
  total_clusters = 64;
  lit_start_cluster = 1;
  lit_clusters = 1;
  lab_pool_start = 2;
  lab_pool_clusters = 1;
  next_free_lab = 0;
  level_registry_cluster = 3;
  level_registry_clusters = 1;
  journal_start_cluster = 4;
  journal_sectors = 8;
  last_tx_id = 0;
  next_level_id = 1;
  total_levels = 0;
  root_level_id = 1;
  root_dir_cluster = 6;
  backup_sb_cluster = 63;
  free_cluster_hint = 0;
  total_free_clusters = 55;
  lat_start_cluster = 0;
  lat_sectors = 0;
}

abbrev no_block : LitEntry
no_block = record { lab_cluster = 0; base_cluster = 0; allocated_count = 0; flags = 0 }

abbrev small_volume : Volume
small_volume = record {
  sb = small_super_block;
  primary = small_super_block;
  backup = small_super_block;
  lit = λ a i. no_block;
  lab = λ b i. free_entry;
}

small_volume-IsHlat : IsHlat small_volume
unfolding zeros
small_volume-IsHlat = record {
  fits = λ i h. omega (arith, h);
  table = record {
    positive = omega arith;
    in_pool = λ i h full. absurd (full refl);
    apart = λ i j hi hj ne full. absurd (full refl);
    spare = omega arith;
  };
}

IsData-8 : IsData small_super_block 8
unfolding is_reserved_cluster
IsData-8 = record { inside = omega arith; unreserved = refl }

IsData-9 : IsData small_super_block 9
unfolding is_reserved_cluster
IsData-9 = record { inside = omega arith; unreserved = refl }

-- The same volume with the first block of the pool in use, and the cluster 8 in it.
abbrev used_volume : Volume
used_volume = record {
  sb = record small_super_block { next_free_lab = 1; total_free_clusters = 54 };
  primary = small_super_block;
  backup = small_super_block;
  lit = λ a i. record no_block { lab_cluster = if i == 0 then 2 else 0 };
  lab = λ b i. if i == 8 then taken_entry 1 else free_entry;
}

used_volume-IsHlat : IsHlat used_volume
unfolding zeros
used_volume-IsHlat = record {
  fits = λ i h. omega (arith, h);
  table = record {
    positive = omega arith;
    in_pool = λ i h full. ground arith;
    apart = λ i j hi hj ne full. absurd (ground arith);
    spare = omega arith;
  };
}

used_8 : IsData (used_volume).sb 8
unfolding is_reserved_cluster
used_8 = record { inside = omega arith; unreserved = refl }

used_flags : (get_lab_entry used_volume 8).flags ≢ 0
unfolding get_lab_entry find_lab_entry is_reserved_cluster
used_flags = λ e. ground arith

get_lab_entry-set_lab_entry_example :
    get_lab_entry (set_lab_entry small_volume 8 (taken_entry 1)) 9
    ≡ (if 8 == 9 then taken_entry 1 else get_lab_entry small_volume 9)
get_lab_entry-set_lab_entry_example =
    get_lab_entry-set_lab_entry small_volume 8 9 (taken_entry 1) small_volume-IsHlat IsData-8
      IsData-9

alloc_cluster_for_level-IsAllocation_example :
    IsAllocation 1 small_volume (alloc_cluster_for_level 200 1 small_volume)
alloc_cluster_for_level-IsAllocation_example =
    alloc_cluster_for_level-IsAllocation 200 1 small_volume (omega arith) small_volume-IsHlat
      (omega arith)

set_lat_entry-is_free_example :
    (get_lab_entry (set_lat_entry used_volume 8 lat_free) 8
      ≡ record (get_lab_entry used_volume 8) { next_cluster = lat_free })
    × (is_free (get_lab_entry (set_lat_entry used_volume 8 lat_free) 8) ≡ false)
set_lat_entry-is_free_example =
    set_lat_entry-is_free used_volume 8 used_volume-IsHlat used_8 used_flags

-- The volumes after the first and the second allocation.
abbrev left_by : Outcome (ℕ × Volume) → Volume
left_by (done r) = r.1
left_by out = small_volume

abbrev after_one : Volume
after_one = left_by (alloc_cluster_for_level 200 1 small_volume)

first_allocation : alloc_cluster_for_level 200 1 small_volume ≡ done (8, after_one)
unfolding alloc_cluster_for_level alloc_from skip_past_reserved is_reserved_cluster get_lab_entry
    find_lab_entry take_cluster set_lat_entry_with_level set_lab_entry new_lab
    update_lit_allocated_count write_super_block
first_allocation = refl

second_allocation :
    alloc_cluster_for_level 200 1 after_one
    ≡ done (9, left_by (alloc_cluster_for_level 200 1 after_one))
unfolding alloc_cluster_for_level alloc_from skip_past_reserved is_reserved_cluster get_lab_entry
    find_lab_entry take_cluster set_lat_entry_with_level set_lab_entry new_lab
    update_lit_allocated_count write_super_block
second_allocation = refl

alloc_cluster_for_level-apart_example : ◌≢◌ {A = ℕ} 8 9
alloc_cluster_for_level-apart_example =
    alloc_cluster_for_level-apart 200 1 1 8 9 small_volume after_one
      (left_by (alloc_cluster_for_level 200 1 after_one)) (omega arith) small_volume-IsHlat
      (omega arith) first_allocation (omega arith) second_allocation (omega arith)

get_chain-IsChain_example :
    (xs : List ℕ) × (get_chain 1000000 used_volume 8 ≡ some xs)
    × IsChain used_volume 8 xs
    × (ends_here used_volume xs ≡ true)
get_chain-IsChain_example =
    get_chain-IsChain 1000000 used_volume 8 (omega arith) (omega arith) (omega arith)

used_chain : get_chain 3 used_volume 8 ≡ some (8 ∷ [])
unfolding get_chain follow get_lat_entry get_lab_entry find_lab_entry is_reserved_cluster
used_chain = refl

free_chain-Frees_example :
    (w : Volume) × (free_chain 3 used_volume 8 ≡ some w) × Frees used_volume (8 ∷ []) w
free_chain-Frees_example =
    free_chain-Frees 3 8 used_volume (8 ∷ []) (omega arith) used_volume-IsHlat used_8 used_chain
      (used_8, tt)

used_volume-IsCounted : IsCounted used_volume
unfolding count_true is_reserved_cluster get_lab_entry find_lab_entry
used_volume-IsCounted = refl

used_is_free : is_free (get_lab_entry used_volume 8) ≡ false
unfolding is_reserved_cluster get_lab_entry find_lab_entry
used_is_free = refl

free_cluster-IsCounted_example : (w : Volume) × (free_cluster used_volume 8 ≡ some w) × IsCounted w
free_cluster-IsCounted_example =
    free_cluster-IsCounted 8 used_volume (omega arith) used_volume-IsHlat used_8 used_is_free
      (omega arith) used_volume-IsCounted
