-- ===== src/Volume/Hlat.antt =====
-- The two-level table of cluster entries: well-formed tables, and the flat table they stand for.
use level_fs.Base.{
  ℕ, ◌+◌, ◌/◌, ◌%◌, ◌<◌, ◌≤◌, ◌==◌, if◌then◌else◌, ◌≡◌, ◌≢◌, refl, ◌⊎◌, ◌&&◌, inl, inr, arith,
  Bool-cases,
}
use level_fs.Volume.Counts.{zeros, zeros_filled}
use level_fs.Volume.Table.{find_lab_entry, new_lab, set_lab_entry}
use level_fs.Volume.{SuperBlock, LitEntry, LabEntry, Volume, free_entry, put_entry}

-- The block that the index entry `i` points to.
abbrev pub lab_of_index : Volume → ℕ → ℕ
lab_of_index v i = (v.lit (v.sb.lit_start_cluster + i / 170) (i % 170)).lab_cluster

-- Index entries for the clusters of the volume.
abbrev pub lit_count : SuperBlock → ℕ
lit_count sb = (sb.total_clusters + 255) / 256

-- The entries below `n` point to distinct blocks among the `next` first ones of the pool, and the
-- pool has a block for each entry that is still empty.
pub record IsTable (blocks : ℕ → ℕ) (n start next pool : ℕ) : Type 0 where
  pub positive : 0 < start
  pub in_pool : (i : ℕ) → i < n → blocks i ≢ 0 → (start ≤ blocks i) × (blocks i < start + next)
  pub apart : (i j : ℕ) → i < n → j < n → i ≢ j → blocks i ≢ 0 → blocks i ≢ blocks j
  pub spare : next + zeros blocks n ≤ pool

IsTable-fill :
    (blocks filled : ℕ → ℕ) (k n start next pool : ℕ)
    → k < n
    → blocks k ≡ 0
    → ((i : ℕ) → filled i ≡ (if k == i then start + next else blocks i))
    → IsTable blocks n start next pool
    → IsTable filled n start (next + 1) pool
IsTable-fill blocks filled k n start next pool bound empty fill t = record {
  positive = t.positive;
  in_pool = λ i below full.
      (ground (arith, fill i, t.in_pool i below), ground (arith, fill i, t.in_pool i below));
  apart = λ i j bi bj ne full.
      ground
        (arith, fill i, fill j, t.positive, t.in_pool i bi, t.in_pool j bj, t.apart i j bi bj ne);
  spare = omega (
    arith,
    t.spare,
    zeros_filled blocks filled k (start + next) n fill (omega (arith, t.positive)) empty bound,
  );
}

-- The index lies in the volume, and its entries are a table over the pool.
pub record IsHlat (v : Volume) : Type 0 where
  pub fits : (i : ℕ) → i < lit_count v.sb → v.sb.lit_start_cluster + i / 170 < v.sb.total_clusters
  pub table :
      IsTable
        (lab_of_index v)
        (lit_count v.sb)
        v.sb.lab_pool_start
        v.sb.next_free_lab
        v.sb.lab_pool_clusters

same_entry : (a b s : ℕ) → (s + a / 170 == s + b / 170 && a % 170 == b % 170) ≡ (a == b)
same_entry a b s = ground arith

lab_of_index-put_entry :
    (lit : ℕ → ℕ → LitEntry) (s a i : ℕ) (e : LitEntry)
    → (put_entry lit (s + a / 170) (a % 170) e (s + i / 170) (i % 170)).lab_cluster
      ≡ (if a == i then e.lab_cluster else (lit (s + i / 170) (i % 170)).lab_cluster)
lab_of_index-put_entry lit s a i e = rw (same_entry a i s) (ground arith)

pub lab_of_index-new_lab :
    (v : Volume) (c i : ℕ)
    → lab_of_index (new_lab v c) i
      ≡ (if c / 256 == i then v.sb.lab_pool_start + v.sb.next_free_lab else lab_of_index v i)
unfolding new_lab
lab_of_index-new_lab v c i = lab_of_index-put_entry v.lit v.sb.lit_start_cluster (c / 256) i _

index_bound : (sb : SuperBlock) (c : ℕ) → c < sb.total_clusters → c / 256 < lit_count sb
index_bound sb c h = omega arith

pub new_lab-IsHlat :
    (v : Volume) (c : ℕ)
    → c < v.sb.total_clusters
    → lab_of_index v (c / 256) ≡ 0
    → IsHlat v
    → IsHlat (new_lab v c)
unfolding new_lab
new_lab-IsHlat v c bound empty h = record {
  fits = h.fits;
  table =
      IsTable-fill (lab_of_index v) (lab_of_index (new_lab v c)) (c / 256) (lit_count v.sb)
        v.sb.lab_pool_start v.sb.next_free_lab v.sb.lab_pool_clusters (index_bound v.sb c bound)
        empty (lab_of_index-new_lab v c) h.table;
}

-- The entry of a cluster, without the tests that the invariant settles.
abbrev pub flat : Volume → ℕ → LabEntry
flat v c =
    if lab_of_index v (c / 256) == 0 then free_entry else v.lab (lab_of_index v (c / 256)) (c % 256)

pub find_lab_entry-flat :
    (v : Volume) (c : ℕ) → c < v.sb.total_clusters → IsHlat v → find_lab_entry v c ≡ flat v c
unfolding find_lab_entry
find_lab_entry-flat v c bound h =
    let below = index_bound v.sb c bound in
    ground (arith, h.fits (c / 256) below, h.table.in_pool (c / 256) below, h.table.spare)

new_lab-lab :
    (v : Volume) (c b i : ℕ)
    → (new_lab v c).lab b i
      ≡ (if v.sb.lab_pool_start + v.sb.next_free_lab == b then free_entry else v.lab b i)
unfolding new_lab
new_lab-lab v c b i = refl

pub flat-new_lab :
    (v : Volume) (c d : ℕ)
    → c < v.sb.total_clusters
    → d < v.sb.total_clusters
    → lab_of_index v (c / 256) ≡ 0
    → IsHlat v
    → flat (new_lab v c) d ≡ flat v d
flat-new_lab v c d bc bd empty h =
    let block = lab_of_index (new_lab v c) (d / 256) in
    ground (
      arith,
      lab_of_index-new_lab v c (d / 256),
      new_lab-lab v c block (d % 256),
      new_lab-lab v c (lab_of_index v (d / 256)) (d % 256),
      h.table.in_pool (d / 256) (index_bound v.sb d bd),
      h.table.positive,
    )

abbrev pub with_entry : Volume → ℕ → LabEntry → Volume
with_entry v c value = record v { lab = put_entry v.lab (lab_of_index v (c / 256)) (c % 256) value }

pub flat-with_entry :
    (v : Volume) (c d : ℕ) (value : LabEntry)
    → c < v.sb.total_clusters
    → d < v.sb.total_clusters
    → lab_of_index v (c / 256) ≢ 0
    → IsHlat v
    → flat (with_entry v c value) d ≡ (if c == d then value else flat v d)
flat-with_entry v c d value bc bd full h =
    let below = index_bound v.sb c bc in
    let below' = index_bound v.sb d bd in
    ground (arith, h.table.apart (c / 256) (d / 256) below below')

pub with_entry-IsHlat :
    (v : Volume) (c : ℕ) (value : LabEntry) → IsHlat v → IsHlat (with_entry v c value)
with_entry-IsHlat v c value h = record { fits = h.fits; table = h.table }

-- What a write leaves, by whether the cluster's index entry was empty.
pub set_lab_entry-cases :
    (v : Volume) (c : ℕ) (value : LabEntry)
    → ((lab_of_index v (c / 256) ≡ 0)
        × (set_lab_entry v c value ≡ with_entry (new_lab v c) c value))
      ⊎ ((lab_of_index v (c / 256) ≢ 0) × (set_lab_entry v c value ≡ with_entry v c value))
unfolding set_lab_entry
set_lab_entry-cases v c value = elim (Bool-cases (lab_of_index v (c / 256) == 0)) [
  | inl empty ↦ inl (ground arith, rw (empty, set_lab_entry))
  | inr full ↦ inr (ground arith, rw (full, set_lab_entry))
]
