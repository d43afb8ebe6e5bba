-- ===== src/Volume/Leak.antt =====
-- setLATEntry with LAT_FREE, the undo step of createInCluster, against freeCluster.
use level_fs.Base.{ℕ, ◌≡◌, ◌≢◌, ◌∙◌, ◌==◌, ==_refl, if_true, ap, false, arith}
use level_fs.Volume.Hlat.{IsHlat}
use level_fs.Volume.Flat.{IsData, get_lab_entry-set_lab_entry}
use level_fs.Volume.Table.{get_lab_entry, set_lat_entry}
use level_fs.Volume.Alloc.{is_free}
use level_fs.Volume.{LabEntry, Volume, lat_free}

-- A data cluster in use whose next cluster is set to LAT_FREE keeps the other fields of its entry, its
-- flags among them, so the search of allocClusterForLevel does not take it for free.
pub set_lat_entry-is_free :
    (v : Volume) (c : ℕ)
    → IsHlat v
    → IsData v.sb c
    → (get_lab_entry v c).flags ≢ 0
    → (get_lab_entry (set_lat_entry v c lat_free) c
        ≡ record (get_lab_entry v c) { next_cluster = lat_free })
      × (is_free (get_lab_entry (set_lat_entry v c lat_free) c) ≡ false)
unfolding set_lat_entry
set_lat_entry-is_free v c h dc used =
    let e = get_lab_entry v c in
    let value : LabEntry = record e { next_cluster = lat_free } in
    let reads : get_lab_entry (set_lat_entry v c lat_free) c ≡ value =
      get_lab_entry-set_lab_entry v c c value h dc dc ∙ if_true (c == c) value e (==_refl c) in
    (reads, ap is_free reads ∙ ground (arith, used))
