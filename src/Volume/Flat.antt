-- ===== src/Volume/Flat.antt =====
-- getLABEntry and setLABEntry as the reads and writes of a flat table of cluster entries.
use level_fs.Base.{
  ℕ, ◌/◌, ◌<◌, ◌==◌, if◌then◌else◌, ◌≡◌, ◌≢◌, refl, ◌∙◌, false, inl, inr, arith, sym, ap,
}
use level_fs.Volume.Hlat.{
  IsHlat, flat, find_lab_entry-flat, flat-new_lab, flat-with_entry, with_entry-IsHlat,
  new_lab-IsHlat, lab_of_index-new_lab, set_lab_entry-cases,
}
use level_fs.Volume.Table.{get_lab_entry, new_lab, set_lab_entry}
use level_fs.Volume.{SuperBlock, LabEntry, Volume, is_reserved_cluster}

-- The superblock without its counters.
abbrev pub layout : SuperBlock → SuperBlock
layout sb = record sb { next_free_lab = 0; free_cluster_hint = 0; total_free_clusters = 0 }

pub layout-is_reserved_cluster :
    (sb : SuperBlock) (c : ℕ) → is_reserved_cluster (layout sb) c ≡ is_reserved_cluster sb c
unfolding is_reserved_cluster
layout-is_reserved_cluster sb c = refl

new_lab-layout : (v : Volume) (c : ℕ) → layout (new_lab v c).sb ≡ layout v.sb
unfolding new_lab
new_lab-layout v c = refl

pub set_lab_entry-layout :
    (v : Volume) (c : ℕ) (value : LabEntry) → layout (set_lab_entry v c value).sb ≡ layout v.sb
set_lab_entry-layout v c value = elim (set_lab_entry-cases v c value) [
  | inl (empty, e) ↦ rw e (new_lab-layout v c)
  | inr (full, e) ↦ rw e
]

-- A write keeps the structure, and changes the entry of its cluster alone.
pub set_lab_entry-flat :
    (v : Volume) (c : ℕ) (value : LabEntry)
    → c < v.sb.total_clusters
    → IsHlat v
    → IsHlat (set_lab_entry v c value)
      × ((d : ℕ)
          → d < v.sb.total_clusters
          → flat (set_lab_entry v c value) d ≡ (if c == d then value else flat v d))
set_lab_entry-flat v c value bound h = elim (set_lab_entry-cases v c value) [
  | inl (empty, e) ↦
      let h' = new_lab-IsHlat v c bound empty h in
      let total : (new_lab v c).sb.total_clusters ≡ v.sb.total_clusters =
        ap (λ (sb : SuperBlock). sb.total_clusters) (new_lab-layout v c) in
      rw e (
        with_entry-IsHlat (new_lab v c) c value h',
        λ d bd.
            flat-with_entry (new_lab v c) c d value (rw total bound) (rw total bd)
              (ground (arith, lab_of_index-new_lab v c (c / 256), h.table.positive)) h'
            ∙ rw (flat-new_lab v c d bound bd empty h) refl,
      )
  | inr (full, e) ↦
      rw e (with_entry-IsHlat v c value h, λ d bd. flat-with_entry v c d value bound bd full h)
]

-- A cluster that the allocator manages: in the volume and not reserved.
pub record IsData (sb : SuperBlock) (c : ℕ) : Type 0 where
  pub inside : c < sb.total_clusters
  pub unreserved : is_reserved_cluster sb c ≡ false

pub not_zero : (sb : SuperBlock) (c : ℕ) → is_reserved_cluster sb c ≡ false → c ≢ 0
unfolding is_reserved_cluster
not_zero sb c h = ground arith

pub get_lab_entry-flat :
    (v : Volume) (c : ℕ) → IsData v.sb c → IsHlat v → get_lab_entry v c ≡ flat v c
unfolding get_lab_entry
get_lab_entry-flat v c data_cluster h =
    ground (
      arith,
      not_zero v.sb c data_cluster.unreserved,
      find_lab_entry-flat v c data_cluster.inside h,
    )

pub IsData-layout :
    (sb sb' : SuperBlock) (c : ℕ) → layout sb' ≡ layout sb → IsData sb c → IsData sb' c
IsData-layout sb sb' c same d = record {
  inside = rw (ap (λ (s : SuperBlock). s.total_clusters) same) d.inside;
  unreserved =
      sym (layout-is_reserved_cluster sb' c)
      ∙ ap (λ s. is_reserved_cluster s c) same
      ∙ layout-is_reserved_cluster sb c
      ∙ d.unreserved;
}

-- The two-level table refines a flat map from clusters to entries: where it is well formed, after
-- setLABEntry on a data cluster, getLABEntry gives for that cluster the entry written, and for each
-- other data cluster the entry it gave before.
pub get_lab_entry-set_lab_entry :
    (v : Volume) (c d : ℕ) (value : LabEntry)
    → IsHlat v
    → IsData v.sb c
    → IsData v.sb d
    → get_lab_entry (set_lab_entry v c value) d ≡ (if c == d then value else get_lab_entry v d)
get_lab_entry-set_lab_entry v c d value h dc dd =
    let (h', reads) = set_lab_entry-flat v c value dc.inside h in
    let dd' =
      IsData-layout v.sb (set_lab_entry v c value).sb d (set_lab_entry-layout v c value) dd in
    get_lab_entry-flat (set_lab_entry v c value) d dd' h'
    ∙ reads d dd.inside
    ∙ rw (get_lab_entry-flat v d dd h) refl
