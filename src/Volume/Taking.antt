-- ===== src/Volume/Taking.antt =====
-- Volumes that differ in counters alone, and the change of one cluster's entry.
use level_fs.Base.{
  ℕ, ◌+◌, ◌*◌, ◌/◌, ◌%◌, ◌<◌, ◌≤◌, ◌==◌, leb, if◌then◌else◌, ◌≡◌, refl, ◌∙◌, some, false, inl, inr,
  arith, Bool-cases, sym, ap, subst,
}
use mathlib.Core.Path.{fun_ext}
use level_fs.Volume.Hlat.{IsHlat, IsTable, lab_of_index, lit_count, flat}
use level_fs.Volume.Flat.{
  layout, IsData, IsData-layout, get_lab_entry-flat, set_lab_entry-flat, set_lab_entry-layout,
}
use level_fs.Volume.Table.{
  get_lab_entry, set_lab_entry, write_super_block, Delta, add_delta, update_lit_allocated_count,
}
use level_fs.Volume.Alloc.{count_freed}
use level_fs.Volume.{SuperBlock, LitEntry, LabEntry, Volume, lat_end, lat_flag_used, put_entry}

-- Two volumes that differ in the counts of the index alone.
pub record IsRecount (v w : Volume) : Type 0 where
  pub sb : w.sb ≡ v.sb
  pub lab : w.lab ≡ v.lab
  pub blocks : (a i : ℕ) → (w.lit a i).lab_cluster ≡ (v.lit a i).lab_cluster

-- The volumes for which the count's index stays inside the buffer: up to 170 index entries.
abbrev pub IsSmall : SuperBlock → Type 0
IsSmall sb = sb.total_clusters ≤ 170 * 256

recounted_entry :
    (lit : ℕ → ℕ → LitEntry) (a i n c j : ℕ)
    → (put_entry lit a i (record (lit a i) { allocated_count = n }) c j).lab_cluster
      ≡ (lit c j).lab_cluster
recounted_entry lit a i n c j = ground arith

pub recount :
    (v : Volume) (c : ℕ) (delta : Delta)
    → IsSmall v.sb
    → c < v.sb.total_clusters
    → (w : Volume) × (update_lit_allocated_count v c delta ≡ some w) × IsRecount v w
unfolding update_lit_allocated_count
recount v c delta small bound =
    let a = v.sb.lit_start_cluster + c / 256 / 512 in
    let i = c / 256 % 512 in
    let within : leb 170 i ≡ false = ground arith in
    let same : IsRecount v v = record { sb = refl; lab = refl; blocks = λ b j. refl } in
    elim (Bool-cases (leb v.sb.lit_clusters (c / 256 / 512))) [
      | inl past ↦ (v, rw past, same)
      | inr reached ↦ elim (Bool-cases ((v.lit a i).lab_cluster == 0)) [
        | inl empty ↦ (v, rw (reached, within, empty), same)
        | inr full ↦ (
          record v {
            lit = put_entry v.lit a i (record (v.lit a i) {
              allocated_count = add_delta (v.lit a i).allocated_count delta;
            });
          },
          rw (reached, within, full),
          record {
            sb = refl;
            lab = refl;
            blocks = recounted_entry v.lit a i (add_delta (v.lit a i).allocated_count delta);
          },
        )
      ]
    ]

-- Two volumes with the same data entries under the same layout.
pub record IsAlike (v w : Volume) : Type 0 where
  pub layout_same : layout w.sb ≡ layout v.sb
  pub table_kept : IsHlat v → IsHlat w
  pub entries : (c : ℕ) → flat w c ≡ flat v c

abbrev OverPool : (ℕ → ℕ) → SuperBlock → Type 0
OverPool blocks sb =
    IsTable blocks (lit_count sb) sb.lab_pool_start sb.next_free_lab sb.lab_pool_clusters

pub recount-IsAlike : (v w : Volume) → IsRecount v w → IsAlike v w
recount-IsAlike v w r =
    let blocks : lab_of_index w ≡ lab_of_index v = fun_ext (λ i. rw r.sb (r.blocks _ _)) in
    record {
      layout_same = rw r.sb;
      table_kept = λ h. record {
        fits = rw r.sb h.fits;
        table =
            subst (λ (sb : SuperBlock). OverPool (lab_of_index w) sb) (sym r.sb)
              (subst (λ (f : ℕ → ℕ). OverPool f v.sb) (sym blocks) h.table);
      };
      entries = λ c. ground (arith, ap (λ f. f (c / 256)) blocks, r.lab);
    }

-- Writing the superblock and its counters touches no entry.
pub counted-IsAlike :
    (v : Volume) (hint free : ℕ)
    → IsAlike v (
        write_super_block (record v {
          sb = record (v.sb) { free_cluster_hint = hint; total_free_clusters = free };
        }))
unfolding write_super_block
counted-IsAlike v hint free = record {
  layout_same = refl;
  table_kept = λ h. record { fits = h.fits; table = h.table };
  entries = λ c. refl;
}

pub count_freed-IsAlike : (v : Volume) → IsAlike v (count_freed v)
count_freed-IsAlike v = record {
  layout_same = refl;
  table_kept = λ h. record { fits = h.fits; table = h.table };
  entries = λ c. refl;
}

pub write_super_block-IsAlike : (v : Volume) → IsAlike v (write_super_block v)
unfolding write_super_block
write_super_block-IsAlike v = record {
  layout_same = refl;
  table_kept = λ h. record { fits = h.fits; table = h.table };
  entries = λ c. refl;
}

-- One data cluster is given a new entry; nothing else changes that the table shows.
pub record Sets (value : LabEntry) (v : Volume) (c : ℕ) (w : Volume) : Type 0 where
  pub layout_same : layout w.sb ≡ layout v.sb
  pub table : IsHlat w
  pub reads :
      (d : ℕ) → IsData v.sb d → get_lab_entry w d ≡ (if c == d then value else get_lab_entry v d)

pub Sets-build :
    (value : LabEntry) (v u w : Volume) (c : ℕ)
    → IsHlat v
    → IsData v.sb c
    → IsAlike v u
    → IsAlike (set_lab_entry u c value) w
    → Sets value v c w
Sets-build value v u w c h dc before after =
    let hu = before.table_kept h in
    let du = IsData-layout v.sb u.sb c before.layout_same dc in
    let (hs, reads) = set_lab_entry-flat u c value du.inside hu in
    let same : layout w.sb ≡ layout v.sb =
      after.layout_same ∙ set_lab_entry-layout u c value ∙ before.layout_same in
    record {
      layout_same = same;
      table = after.table_kept hs;
      reads = λ d dd.
          get_lab_entry-flat w d (IsData-layout v.sb w.sb d same dd) (after.table_kept hs)
          ∙ after.entries d
          ∙ reads d (IsData-layout v.sb u.sb d before.layout_same dd).inside
          ∙ rw (get_lab_entry-flat v d dd h, before.entries d) refl;
    }

pub IsAlike-refl : (v : Volume) → IsAlike v v
IsAlike-refl v = record { layout_same = refl; table_kept = λ h. h; entries = λ c. refl }

pub IsAlike-trans : (u v w : Volume) → IsAlike u v → IsAlike v w → IsAlike u w
IsAlike-trans u v w a b = record {
  layout_same = b.layout_same ∙ a.layout_same;
  table_kept = λ h. b.table_kept (a.table_kept h);
  entries = λ c. b.entries c ∙ a.entries c;
}

pub IsSmall-layout : (sb sb' : SuperBlock) → layout sb' ≡ layout sb → IsSmall sb → IsSmall sb'
IsSmall-layout sb sb' same small = rw (ap (λ (s : SuperBlock). s.total_clusters) same) small

abbrev pub taken_entry : ℕ → LabEntry
taken_entry level_id = record {
  next_cluster = lat_end;
  level_id = level_id;
  flags = lat_flag_used;
  ref_count = 1;
}
