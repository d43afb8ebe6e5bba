-- ===== src/Defrag.antt =====
-- Class Defragmenter of src/defrag.hpp: its chains, its search for space, and the move of one file. A
-- cluster's data is one value. The table is read as the code reads it: sector cluster / 256 of the
-- volume, of which a read fills the first 32 places of the buffer and a write stores these; `stale` is
-- what the buffer holds behind them. Data, directory and these sectors are apart.
pub mod File
pub mod Space
pub mod Links
pub mod Moved
pub mod Finished
mod Tests
use level_fs.Base.{
  ℕ, zero, suc, ◌+◌, ◌-◌, ◌*◌, ◌/◌, ◌%◌, ◌^◌, ◌==◌, ltb, leb, if◌then◌else◌, List, [], ◌∷◌, ◌++◌,
  Option, none, some, Bool, true, false, ◌&&◌, ◌||◌, not, length, String, is_empty, bit_and,
}

abbrev pub lat_free : ℕ
lat_free = 0

abbrev pub lat_end : ℕ
lat_end = 2 ^ 64 - 1

-- `starts` is the start cluster of each directory entry, by sector and place.
pub record DefragVolume : Type 0 where
  pub links : ℕ → ℕ → ℕ
  pub stale : ℕ → ℕ
  pub content : ℕ → ℕ
  pub starts : ℕ → ℕ → ℕ
  pub readable : ℕ → Bool
  pub writable : ℕ → Bool
  pub data_start : ℕ
  pub total_clusters : ℕ

unfoldable pub get_link : DefragVolume → ℕ → ℕ
get_link v cluster =
    if ltb (cluster % 256) 32 then v.links (cluster / 256) (cluster % 256) else v.stale cluster

unfoldable pub set_link : ℕ → ℕ → DefragVolume → DefragVolume
set_link cluster next v = record v {
  links = λ sector place.
      if (sector == cluster / 256 && place == cluster % 256) && ltb (cluster % 256) 32
      then next
      else v.links sector place;
}

-- The loop of getChain, with the rounds left.
unfoldable pub links_from : DefragVolume → ℕ → ℕ → List ℕ
links_from v zero current = []
links_from v (suc limit) current =
    let rest = links_from v limit (get_link v current) in
    if current == 0 || (current == lat_end || current == lat_free)
    then []
    else current ∷ (if get_link v current == current then [] else rest)

unfoldable pub get_file_chain : DefragVolume → ℕ → List ℕ
get_file_chain v start = if start == 0 then [] else links_from v 100000 start

-- The breaks in a chain.
unfoldable pub breaks_after : ℕ → List ℕ → ℕ
breaks_after c [] = 0
breaks_after c (d ∷ ds) = (if d == c + 1 then 0 else 1) + breaks_after d ds

unfoldable pub fragment_count : List ℕ → ℕ
fragment_count [] = 1
fragment_count (c ∷ cs) = 1 + breaks_after c cs

unfoldable pub is_contiguous : List ℕ → Bool
is_contiguous chain = leb (fragment_count chain) 1

-- The loop of findContiguousSpace, with the clusters left, the next one, and the run before it.
unfoldable pub space_from : DefragVolume → ℕ → ℕ → ℕ → ℕ → ℕ → ℕ
space_from v needed zero c consecutive candidate = 0
space_from v needed (suc left) c consecutive candidate =
    let free = get_link v c == lat_free in
    let candidate' = if free && consecutive == 0 then c else candidate in
    let consecutive' = if free then suc consecutive else 0 in
    let rest = space_from v needed left (c + 1) consecutive' candidate' in
    if free && leb needed consecutive' then candidate' else rest

unfoldable pub find_contiguous_space : DefragVolume → ℕ → ℕ
find_contiguous_space v needed =
    space_from v needed (v.total_clusters - v.data_start) v.data_start 0 0

-- Reading the whole chain before anything is written; `none` is a read that fails.
unfoldable pub read_backup : DefragVolume → List ℕ → Option (List ℕ)
read_backup v [] = some []
read_backup v (c ∷ cs) =
    if not (v.readable c)
    then none
    else elim (read_backup v cs) [ none ↦ none | some rest ↦ some (v.content c ∷ rest) ]

-- Writing the clusters in order and reading each of them back; false at the first failure.
unfoldable pub write_backup : ℕ → List ℕ → DefragVolume → DefragVolume × Bool
write_backup at [] v = (v, true)
write_backup at (value ∷ values) v =
    let v' = record v { content = λ c. if c == at then value else v.content c } in
    let (v'', done) = write_backup (at + 1) values v' in
    if not (v.writable at)
    then (v, false)
    else if not (v.readable at)
    then (v', false)
    else (v'', done)

-- The new chain, from its first cluster and with the clusters left.
unfoldable pub link_new : ℕ → ℕ → DefragVolume → DefragVolume
link_new zero at v = v
link_new (suc zero) at v = set_link at lat_end v
link_new (suc (suc n)) at v = link_new (suc n) (at + 1) (set_link at (at + 1) v)

unfoldable pub free_old : List ℕ → DefragVolume → DefragVolume
free_old [] v = v
free_old (c ∷ cs) v = free_old cs (set_link c lat_free v)

-- `entry_ok` is whether the directory's sector can be read and written.
unfoldable pub move_cluster_chain : List ℕ → ℕ → ℕ → ℕ → Bool → DefragVolume → DefragVolume × Bool
move_cluster_chain old_chain new_start entry_sector entry_idx entry_ok v =
    if is_empty old_chain then (v, true) else elim (read_backup v old_chain) [
      | none ↦ (v, false)
      | some values ↦
          let (v', written) = write_backup new_start values v in
          let v'' = record v' {
            starts = λ sector place.
                if sector == entry_sector && place == entry_idx
                then new_start
                else v'.starts sector place;
          } in
          if not written || not entry_ok
          then (v', false)
          else (free_old old_chain (link_new (length old_chain) new_start v''), true)
    ]
