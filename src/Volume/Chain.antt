-- ===== src/Volume/Chain.antt =====
-- Following and freeing a chain of clusters: getChain and freeChain.
use level_fs.Base.{
  ℕ, zero, suc, ◌==◌, ltb, leb, if◌then◌else◌, List, [], ◌∷◌, ◌++◌, Option, none, some, Bool, ◌&&◌,
  ◌||◌, not, mem, length,
}
use level_fs.Volume.{Volume, lat_end, lat_bad, is_reserved_cluster}
use level_fs.Volume.Table.{get_lat_entry, write_super_block, update_lit_allocated_count, minus}
use level_fs.Volume.Alloc.{set_free_entry, count_freed}

-- The test of the loop.
abbrev pub continues : Volume → ℕ → Bool
continues v current =
    not (current == 0)
    && not (current == lat_end)
    && not (current == lat_bad)
    && ltb current v.sb.total_clusters

-- The loop, with the chain so far; `none` when the fuel runs out.
unfoldable pub follow : ℕ → Volume → List ℕ → ℕ → Option (List ℕ)
follow zero v chain current = none
follow (suc fuel) v chain current =
    let chain' = chain ++ current ∷ [] in
    let rest = follow fuel v chain' (get_lat_entry v current) in
    if not (continues v current)
    then some chain
    else if mem current chain
    then some chain
    else if ltb 1000000 (length chain')
    then some chain'
    else rest

unfoldable pub get_chain : ℕ → Volume → ℕ → Option (List ℕ)
get_chain fuel v start =
    if start == 0 || leb v.sb.total_clusters start
    then some []
    else if is_reserved_cluster v.sb start
    then some (start ∷ [])
    else follow fuel v (start ∷ []) (get_lat_entry v start)

-- The loop of freeChain.
unfoldable pub free_all : List ℕ → Volume → Option Volume
free_all [] v = some v
free_all (c ∷ cs) v = elim (update_lit_allocated_count v c (minus 1)) [
  | none ↦ none
  | some v' ↦ free_all cs (count_freed (set_free_entry v' c))
]

unfoldable pub free_chain : ℕ → Volume → ℕ → Option Volume
free_chain fuel v start =
    if start == 0 || is_reserved_cluster v.sb start then some v else elim (get_chain fuel v start) [
      | none ↦ none
      | some chain ↦ elim (free_all chain v) [ none ↦ none | some v' ↦ some (write_super_block v') ]
    ]
