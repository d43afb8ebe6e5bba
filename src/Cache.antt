-- ===== src/Cache.antt =====
-- LfsLRUCache of src/cache.hpp, over any type of block `D` and any state `W` of what stands behind
-- the write callback (its `context`). A key's node in `lruList` is the key, so the iterators of
-- `lruMap` are the keys that it holds. The mutex only serialises the calls.
pub mod Order
pub mod Invariant
pub mod Bounds
pub mod Histories
mod Tests
use level_fs.Base.{
  ℕ, zero, suc, ◌+◌, ◌%◌, ◌^◌, ◌==◌, leb, ltb, if◌then◌else◌, List, [], ◌∷◌, Option, none, some,
  Bool, true, false, ◌&&◌, length, mem, remove, lookup, insert, erase, contains,
}
pub use Order.{back, pop_back}

pub record Stats : Type 0 where
  pub hits : ℕ
  pub misses : ℕ
  pub evictions : ℕ
  pub writes : ℕ
  pub writebacks : ℕ

abbrev pub no_stats : Stats
no_stats = record { hits = 0; misses = 0; evictions = 0; writes = 0; writebacks = 0 }

pub record LruCache (D W : Type 0) : Type 0 where
  pub max_entries : ℕ
  pub lru_list : List ℕ
  pub lru_map : List ℕ
  pub cache_data : List (ℕ × D)
  pub dirty_bits : List (ℕ × Bool)
  pub stats : Stats
  pub enabled : Bool
  pub write_callback : Option (ℕ → D → W → W × Bool)

-- A 64-bit counter.
abbrev pub count_up : ℕ → ℕ
count_up n = (n + 1) % 2 ^ 64

-- dirtyBits.count(key) && dirtyBits[key]
abbrev pub is_dirty : ℕ → List (ℕ × Bool) → Bool
is_dirty key bits = elim (lookup key bits) [ none ↦ false | some b ↦ b ]

unfoldable pub get_dirty_count : List (ℕ × Bool) → ℕ
get_dirty_count [] = 0
get_dirty_count ((k, b) ∷ bits) = if b then suc (get_dirty_count bits) else get_dirty_count bits

module _ {D W : Type 0} where
  abbrev pub empty_cache : ℕ → LruCache D W
  empty_cache max_size = record {
    max_entries = max_size;
    lru_list = [];
    lru_map = [];
    cache_data = [];
    dirty_bits = [];
    stats = no_stats;
    enabled = true;
    write_callback = none;
  }

  -- The call of `writeCallback` inside the eviction; its result is not looked at.
  unfoldable pub call_back : ℕ → LruCache D W → W → LruCache D W × W
  call_back key c w = elim c.write_callback [
    | none ↦ (c, w)
    | some write ↦ elim (lookup key c.cache_data) [
      | none ↦ (c, w)
      | some block ↦ (
        record c { stats = record (c.stats) { writebacks = count_up c.stats.writebacks } },
        (write key block w).0,
      )
    ]
  ]

  unfoldable pub write_back : ℕ → LruCache D W → W → LruCache D W × W
  unfolding call_back
  write_back key c w =
      if is_dirty key c.dirty_bits
      then (let (c', w') = call_back key c w in
          (record c' { dirty_bits = erase key c'.dirty_bits }, w'))
      else (c, w)

  unfoldable pub evict_key : ℕ → LruCache D W → W → LruCache D W × W
  unfolding write_back
  evict_key oldest c w =
      let (c', w') = write_back oldest c w in
      (
        record c' {
          lru_list = pop_back c'.lru_list;
          lru_map = remove oldest c'.lru_map;
          cache_data = erase oldest c'.cache_data;
          stats = record (c'.stats) { evictions = count_up c'.stats.evictions };
        },
        w',
      )

  unfoldable pub evict_oldest : LruCache D W → W → LruCache D W × W
  unfolding evict_key back pop_back
  evict_oldest c w = elim (back c.lru_list) [ none ↦ (c, w) | some oldest ↦ evict_key oldest c w ]

  unfoldable pub touch : ℕ → LruCache D W → LruCache D W
  touch key c = record c {
    lru_list = key ∷ (if mem key c.lru_map then remove key c.lru_list else c.lru_list);
    lru_map = key ∷ remove key c.lru_map;
  }

  unfoldable pub get : ℕ → LruCache D W → LruCache D W × Option D
  unfolding touch
  get key c =
      if c.enabled
      then elim (lookup key c.cache_data) [
        | none ↦ (record c { stats = record (c.stats) { misses = count_up c.stats.misses } }, none)
        | some block ↦ (
          touch key (record c { stats = record (c.stats) { hits = count_up c.stats.hits } }),
          some block,
        )
      ]
      else (c, none)

  -- The eviction at the head of `put`.
  unfoldable pub make_room : ℕ → LruCache D W → W → LruCache D W × W
  unfolding evict_oldest
  make_room key c w =
      if contains key c.cache_data
      then (c, w)
      else if leb c.max_entries (length c.cache_data)
      then evict_oldest c w
      else (c, w)

  -- The rest of `put`: store the block, mark it, move the key to the front.
  unfoldable pub store : ℕ → D → Bool → LruCache D W → LruCache D W
  unfolding touch
  store key block dirty c =
      let c' = touch key (record c {
        cache_data = insert key block c.cache_data;
        dirty_bits = if dirty then insert key true c.dirty_bits else c.dirty_bits;
      }) in
      record c' { stats = record (c'.stats) { writes = count_up c'.stats.writes } }

  unfoldable pub put : ℕ → D → Bool → LruCache D W → W → LruCache D W × W
  unfolding make_room store
  put key block dirty c w =
      if c.enabled
      then (let (c', w') = make_room key c w in (store key block dirty c', w'))
      else (c, w)

  -- The dirty bit stays.
  unfoldable pub invalidate : ℕ → LruCache D W → LruCache D W
  invalidate key c =
      if contains key c.cache_data
      then record c {
        lru_list = (if mem key c.lru_map then remove key c.lru_list else c.lru_list);
        lru_map = remove key c.lru_map;
        cache_data = erase key c.cache_data;
      }
      else c

  -- `count` rounds left, from the key `start`.
  unfoldable pub invalidate_range : ℕ → ℕ → LruCache D W → LruCache D W
  unfolding invalidate
  invalidate_range start zero c = c
  invalidate_range start (suc count) c = invalidate_range (start + 1) count (invalidate start c)

  unfoldable pub clear : LruCache D W → LruCache D W
  clear c = record c { lru_list = []; lru_map = []; cache_data = [] }

  -- The loop of `setCapacity`; `none` when the fuel runs out.
  unfoldable pub shrink : ℕ → LruCache D W → W → Option (LruCache D W × W)
  unfolding evict_oldest
  shrink zero c w = none
  shrink (suc fuel) c w =
      let rest = shrink fuel (evict_oldest c w).0 (evict_oldest c w).1 in
      if ltb c.max_entries (length c.cache_data) then rest else some (c, w)

  unfoldable pub set_capacity : ℕ → LruCache D W → W → Option (LruCache D W × W)
  unfolding shrink
  set_capacity cap c w = shrink (suc (length c.cache_data)) (record c { max_entries = cap }) w

  unfoldable pub mark_dirty : ℕ → LruCache D W → LruCache D W
  mark_dirty key c =
      if contains key c.cache_data
      then record c { dirty_bits = insert key true c.dirty_bits }
      else c

  unfoldable pub mark_clean : ℕ → LruCache D W → LruCache D W
  mark_clean key c = record c { dirty_bits = erase key c.dirty_bits }

  unfoldable pub enable : Bool → LruCache D W → LruCache D W
  enable e c = record c { enabled = e }

  -- One round of `flush`: the number flushed, the writebacks and what stands behind the callback.
  unfoldable pub flush_one : (ℕ → D → W → W × Bool) → List (ℕ × D) → ℕ → Bool → ℕ → W → ℕ × W
  flush_one write blocks key dirty flushed w =
      if dirty
      then elim (lookup key blocks) [
        | none ↦ (flushed, w)
        | some block ↦
            let (w', done) = write key block w in if done then (suc flushed, w') else (flushed, w')
      ]
      else (flushed, w)

  unfoldable pub flush_all : (ℕ → D → W → W × Bool) → List (ℕ × D) → List (ℕ × Bool) → ℕ → W → ℕ × W
  unfolding flush_one
  flush_all write blocks [] flushed w = (flushed, w)
  flush_all write blocks ((key, dirty) ∷ bits) flushed w =
      let (n, w') = flush_one write blocks key dirty flushed w in flush_all write blocks bits n w'

  -- The dirty bits are cleared whatever the callback returned.
  unfoldable pub flush : LruCache D W → W → LruCache D W × W × ℕ
  unfolding flush_all
  flush c w = elim c.write_callback [
    | none ↦ (c, w, 0)
    | some write ↦
        let (n, w') = flush_all write c.cache_data c.dirty_bits 0 w in
        (
          record c {
            dirty_bits = [];
            stats = record (c.stats) { writebacks = (c.stats.writebacks + n) % 2 ^ 64 };
          },
          w',
          n,
        )
  ]
