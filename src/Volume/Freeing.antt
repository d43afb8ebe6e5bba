-- ===== src/Volume/Freeing.antt =====
-- freeChain on the table of clusters.
use level_fs.Base.{
  ℕ, if◌then◌else◌, ◌≡◌, refl, ◌∙◌, sym, List, [], ◌∷◌, some, mem, arith, All, ==_ne,
}
use level_fs.Volume.Hlat.{IsHlat}
use level_fs.Volume.Flat.{IsData, IsData-layout, layout, not_zero, get_lab_entry-flat}
use level_fs.Volume.Table.{get_lab_entry, minus, write_super_block}
use level_fs.Volume.Alloc.{set_free_entry, count_freed}
use level_fs.Volume.Chain.{get_chain, free_all, free_chain}
use level_fs.Volume.Taking.{
  IsSmall, IsSmall-layout, IsAlike, Sets, Sets-build, recount, recount-IsAlike, count_freed-IsAlike,
  write_super_block-IsAlike,
}
use level_fs.Volume.{SuperBlock, Volume, free_entry}

-- The clusters of the list are given the empty entry; nothing else changes that the table shows.
pub record Frees (v : Volume) (cs : List ℕ) (w : Volume) : Type 0 where
  pub layout_same : layout w.sb ≡ layout v.sb
  pub table : IsHlat w
  pub reads :
      (d : ℕ)
      → IsData v.sb d
      → get_lab_entry w d ≡ (if mem d cs then free_entry else get_lab_entry v d)

All-IsData :
    (sb sb' : SuperBlock) (cs : List ℕ)
    → layout sb' ≡ layout sb
    → All (λ c. IsData sb c) cs
    → All (λ c. IsData sb' c) cs
All-IsData sb sb' [] same _ = tt
All-IsData sb sb' (c ∷ cs) same (d, ds) =
    (IsData-layout sb sb' c same d, All-IsData sb sb' cs same ds)

free_all-Frees :
    (cs : List ℕ) (v : Volume)
    → IsSmall v.sb
    → IsHlat v
    → All (λ c. IsData v.sb c) cs
    → (w : Volume) × (free_all cs v ≡ some w) × Frees v cs w
unfolding free_all
free_all-Frees [] v small h _ =
    (v, refl, record { layout_same = refl; table = h; reads = λ d dd. refl })
free_all-Frees (c ∷ cs) v small h (dc, dcs) =
    let (u, counted, r) = recount v c (minus 1) small dc.inside in
    let v1 = count_freed (set_free_entry u c) in
    let sets : Sets free_entry v c v1 =
      Sets-build free_entry v u v1 c h dc (recount-IsAlike v u r)
        (count_freed-IsAlike (set_free_entry u c)) in
    let (w, runs, frees) =
      free_all-Frees cs v1 (IsSmall-layout v.sb v1.sb sets.layout_same small) sets.table
        (All-IsData v.sb v1.sb cs sets.layout_same dcs) in
    (
      w,
      rw (counted, free_all) runs,
      record {
        layout_same = frees.layout_same ∙ sets.layout_same;
        table = frees.table;
        reads = λ d dd. ground (
          arith,
          frees.reads d (IsData-layout v.sb v1.sb d sets.layout_same dd),
          sets.reads d dd,
        );
      },
    )

Frees-alike : (v w w' : Volume) (cs : List ℕ) → Frees v cs w → IsAlike w w' → Frees v cs w'
Frees-alike v w w' cs f a = record {
  layout_same = a.layout_same ∙ f.layout_same;
  table = a.table_kept f.table;
  reads = λ d dd.
      let dw = IsData-layout v.sb w.sb d f.layout_same dd in
      let dw' = IsData-layout w.sb w'.sb d a.layout_same dw in
      get_lab_entry-flat w' d dw' (a.table_kept f.table)
      ∙ a.entries d
      ∙ sym (get_lab_entry-flat w d dw f.table)
      ∙ f.reads d dd;
}

-- freeChain on a chain of data clusters succeeds: each cluster of the chain reads as the empty entry
-- afterwards, each other data cluster as before, and the layout and a well-formed table are kept. The
-- chain is the one that getChain gives; the volume is well formed and has at most 43520 clusters.
pub free_chain-Frees :
    (fuel start : ℕ) (v : Volume) (cs : List ℕ)
    → IsSmall v.sb
    → IsHlat v
    → IsData v.sb start
    → get_chain fuel v start ≡ some cs
    → All (λ c. IsData v.sb c) cs
    → (w : Volume) × (free_chain fuel v start ≡ some w) × Frees v cs w
unfolding free_chain
free_chain-Frees fuel start v cs small h ds chain dcs =
    let (w, runs, frees) = free_all-Frees cs v small h dcs in
    (
      write_super_block w,
      rw (==_ne start 0 (not_zero v.sb start ds.unreserved), ds.unreserved, chain, runs),
      Frees-alike v w (write_super_block w) cs frees (write_super_block-IsAlike w),
    )
