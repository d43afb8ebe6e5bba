-- ===== src/Volume/Steps.antt =====
-- The steps of allocClusterForLevel and freeCluster that take and free one cluster.
use level_fs.Base.{ℕ, ◌+◌, ◌-◌, ◌%◌, ◌^◌, ◌≡◌, refl, ◌∙◌, ap, some, ==_ne, inl, inr}
use level_fs.Volume.Hlat.{IsHlat, set_lab_entry-cases}
use level_fs.Volume.Flat.{IsData, IsData-layout, not_zero, set_lab_entry-layout}
use level_fs.Volume.Table.{
  set_lab_entry, set_lat_entry_with_level, new_lab, write_super_block, plus, minus,
}
use level_fs.Volume.Alloc.{set_free_entry, count_freed, free_cluster, done, take_cluster}
use level_fs.Volume.Taking.{
  IsSmall, IsSmall-layout, IsAlike-refl, IsAlike-trans, Sets, Sets-build, recount, recount-IsAlike,
  counted-IsAlike, taken_entry,
}
use level_fs.Volume.{SuperBlock, LabEntry, Volume, free_entry}

new_lab-total_free_clusters :
    (v : Volume) (c : ℕ) → (new_lab v c).sb.total_free_clusters ≡ v.sb.total_free_clusters
unfolding new_lab
new_lab-total_free_clusters v c = refl

set_lab_entry-total_free_clusters :
    (v : Volume) (c : ℕ) (value : LabEntry)
    → (set_lab_entry v c value).sb.total_free_clusters ≡ v.sb.total_free_clusters
set_lab_entry-total_free_clusters v c value = elim (set_lab_entry-cases v c value) [
  | inl (empty, e) ↦ rw e (new_lab-total_free_clusters v c)
  | inr (full, e) ↦ rw e
]

-- A data cluster is taken, and the counter of free clusters goes down by one, modulo 2 ^ 64.
pub take_cluster-Sets :
    (level_id c : ℕ) (v : Volume)
    → IsSmall v.sb
    → IsHlat v
    → IsData v.sb c
    → (w : Volume) × (take_cluster level_id c v ≡ done (c, w))
      × Sets (taken_entry level_id) v c w
      × (w.sb.total_free_clusters ≡ (v.sb.total_free_clusters + (2 ^ 64 - 1)) % 2 ^ 64)
unfolding take_cluster set_lat_entry_with_level write_super_block
take_cluster-Sets level_id c v small h dc =
    let v1 = set_lab_entry v c (taken_entry level_id) in
    let same = set_lab_entry-layout v c (taken_entry level_id) in
    let small1 = IsSmall-layout v.sb v1.sb same small in
    let (u, counted, r) =
      recount v1 c (plus 1) small1 (IsData-layout v.sb v1.sb c same dc).inside in
    let free = (u.sb.total_free_clusters + (2 ^ 64 - 1)) % 2 ^ 64 in
    let w =
      write_super_block (record u {
        sb = record (u.sb) { free_cluster_hint = c + 1; total_free_clusters = free };
      }) in
    (
      w,
      rw (counted, take_cluster),
      Sets-build (taken_entry level_id) v v w c h dc (IsAlike-refl v)
          (IsAlike-trans v1 u w (recount-IsAlike v1 u r) (counted-IsAlike u (c + 1) free)),
      ap (λ (sb : SuperBlock). (sb.total_free_clusters + (2 ^ 64 - 1)) % 2 ^ 64) r.sb
          ∙ ap (λ n. (n + (2 ^ 64 - 1)) % 2 ^ 64)
              (set_lab_entry-total_free_clusters v c (taken_entry level_id)),
    )

-- freeCluster on a data cluster succeeds, makes the cluster's entry the empty one, changes no other
-- data cluster's entry, keeps the layout and a well-formed table, and counts one free cluster more,
-- modulo 2 ^ 64. The volume is well formed and has at most 43520 clusters.
pub free_cluster-Sets :
    (c : ℕ) (v : Volume)
    → IsSmall v.sb
    → IsHlat v
    → IsData v.sb c
    → (w : Volume) × (free_cluster v c ≡ some w)
      × Sets free_entry v c w
      × (w.sb.total_free_clusters ≡ (v.sb.total_free_clusters + 1) % 2 ^ 64)
unfolding free_cluster write_super_block
free_cluster-Sets c v small h dc =
    let (u, counted, r) = recount v c (minus 1) small dc.inside in
    let u1 = set_free_entry u c in
    (
      write_super_block (count_freed u1),
      rw (==_ne c 0 (not_zero v.sb c dc.unreserved), dc.unreserved, counted),
      Sets-build free_entry v u (write_super_block (count_freed u1)) c h dc (recount-IsAlike v u r)
          (counted-IsAlike u1 u1.sb.free_cluster_hint ((u1.sb.total_free_clusters + 1) % 2 ^ 64)),
      ap (λ n. (n + 1) % 2 ^ 64)
          (set_lab_entry-total_free_clusters u c free_entry
            ∙ ap (λ (sb : SuperBlock). sb.total_free_clusters) r.sb),
    )
