-- ===== src/Cache/Invariant.antt =====
-- Well-formed caches: the recency list, the map of its iterators and the map of the blocks.
use level_fs.Base.{
  ℕ, zero, suc, ◌+◌, ◌==◌, if◌then◌else◌, some, ◌≡◌, refl, Bool, true, inl, inr, arith, mem, remove,
  Distinct, lookup, contains, contains-insert, contains-erase, mem-remove, remove-Distinct,
  remove_absent, erase, insert, Option-cases,
}
use level_fs.Cache.Order.{back, mem-pop_back, pop_back-Distinct}
use level_fs.Cache.{
  LruCache, Stats, count_up, write_back, evict_key, evict_oldest, touch, get, make_room, store, put,
  invalidate, invalidate_range, clear, mark_dirty, flush,
}

pub record IsTracked {D W : Type 0} (c : LruCache D W) : Type 0 where
  pub distinct : Distinct c.lru_list
  pub listed : (k : ℕ) → mem k c.lru_list ≡ contains k c.cache_data
  pub mapped : (k : ℕ) → mem k c.lru_map ≡ mem k c.lru_list

module _ {D W : Type 0} where
  pub write_back-same :
      (key : ℕ) (c : LruCache D W) (w : W)
      → ((write_back key c w).0.lru_list ≡ c.lru_list)
        × ((write_back key c w).0.lru_map ≡ c.lru_map)
        × ((write_back key c w).0.cache_data ≡ c.cache_data)
        × ((write_back key c w).0.max_entries ≡ c.max_entries)
  unfolding write_back
  write_back-same key c w = ground arith

  evict_key-IsTracked :
      (key : ℕ) (c : LruCache D W) (w : W)
      → back c.lru_list ≡ some key
      → IsTracked c
      → IsTracked (evict_key key c w).0
  unfolding evict_key
  evict_key-IsTracked key c w last t =
      let same = write_back-same key c w in
      record {
        distinct = rw same.0 (pop_back-Distinct c.lru_list key t.distinct last);
        listed = λ k.
            rw (same.0, same.2)
              (ground (
                arith,
                mem-pop_back c.lru_list key k t.distinct last,
                contains-erase key k c.cache_data,
                t.listed k,
              ));
        mapped = λ k.
            rw (same.0, same.1)
              (ground (
                arith,
                mem-pop_back c.lru_list key k t.distinct last,
                mem-remove key k c.lru_map,
                t.mapped k,
              ));
      }

  pub evict_oldest-IsTracked :
      (c : LruCache D W) (w : W) → IsTracked c → IsTracked (evict_oldest c w).0
  unfolding evict_oldest
  evict_oldest-IsTracked c w t = elim (Option-cases (back c.lru_list)) [
    | inl e ↦ rw (e, evict_oldest) t
    | inr (key, e) ↦ rw (e, evict_oldest) (evict_key-IsTracked key c w e t)
  ]

  make_room-IsTracked :
      (key : ℕ) (c : LruCache D W) (w : W) → IsTracked c → IsTracked (make_room key c w).0
  unfolding make_room
  make_room-IsTracked key c w t = ground (arith, evict_oldest-IsTracked c w t)

  -- The list that `touch` and `invalidate` leave once the old node is gone.
  unlink-remove :
      (key : ℕ) (c : LruCache D W)
      → IsTracked c
      → (if mem key c.lru_map then remove key c.lru_list else c.lru_list) ≡ remove key c.lru_list
  unlink-remove key c t = ground (arith, t.mapped key, remove_absent key c.lru_list)

  touch-IsTracked :
      (key : ℕ) (c c' : LruCache D W)
      → IsTracked c
      → c'.lru_list ≡ c.lru_list
      → c'.lru_map ≡ c.lru_map
      → ((k : ℕ) → contains k c'.cache_data ≡ (if key == k then true else contains k c.cache_data))
      → IsTracked (touch key c')
  unfolding touch
  touch-IsTracked key c c' t l m h =
      rw (l, m, unlink-remove key c t)
        (record {
          distinct = (
            ground (arith, mem-remove key key c.lru_list),
            remove-Distinct key c.lru_list t.distinct,
          );
          listed = λ k. ground (arith, mem-remove key k c.lru_list, h k, t.listed k);
          mapped = λ k.
              ground (arith, mem-remove key k c.lru_list, mem-remove key k c.lru_map, t.mapped k);
        })

  stats-IsTracked :
      (c : LruCache D W) (st : Stats) → IsTracked c → IsTracked (record c { stats = st })
  stats-IsTracked c st t = record { distinct = t.distinct; listed = t.listed; mapped = t.mapped }

  hit-IsTracked :
      (key : ℕ) (block : D) (st : Stats) (c : LruCache D W)
      → lookup key c.cache_data ≡ some block
      → IsTracked c
      → IsTracked (touch key (record c { stats = st }))
  hit-IsTracked key block st c e t =
      touch-IsTracked key c (record c { stats = st }) t refl refl λ k. ground arith

  pub get-IsTracked : (key : ℕ) (c : LruCache D W) → IsTracked c → IsTracked (get key c).0
  unfolding get
  get-IsTracked key c t = elim (Option-cases (lookup key c.cache_data)) [
    | inl e ↦
        rw (e, get)
          (ground
            (arith, stats-IsTracked c (record (c.stats) { misses = count_up c.stats.misses }) t))
    | inr (block, e) ↦
        rw (e, get)
          (ground (
            arith,
            hit-IsTracked key block (record (c.stats) { hits = count_up c.stats.hits }) c e t,
          ))
  ]

  store-IsTracked :
      (key : ℕ) (block : D) (dirty : Bool) (c : LruCache D W)
      → IsTracked c
      → IsTracked (store key block dirty c)
  unfolding store
  store-IsTracked key block dirty c t = stats-IsTracked _ _ (
      touch-IsTracked key c
        (record c {
          cache_data = insert key block c.cache_data;
          dirty_bits = if dirty then insert key true c.dirty_bits else c.dirty_bits;
        })
        t refl refl λ k. contains-insert key k block c.cache_data)

  pub put-IsTracked :
      (key : ℕ) (block : D) (dirty : Bool) (c : LruCache D W) (w : W)
      → IsTracked c
      → IsTracked (put key block dirty c w).0
  unfolding put
  put-IsTracked key block dirty c w t =
      ground (arith, store-IsTracked key block dirty _ (make_room-IsTracked key c w t))

  drop-IsTracked :
      (key : ℕ) (c : LruCache D W)
      → IsTracked c
      → IsTracked (record c {
        lru_list = (if mem key c.lru_map then remove key c.lru_list else c.lru_list);
        lru_map = remove key c.lru_map;
        cache_data = erase key c.cache_data;
      })
  drop-IsTracked key c t = record {
    distinct = rw (unlink-remove key c t) (remove-Distinct key c.lru_list t.distinct);
    listed = λ k. rw (unlink-remove key c t) (
        ground (arith, mem-remove key k c.lru_list, contains-erase key k c.cache_data, t.listed k));
    mapped = λ k.
        rw (unlink-remove key c t)
          (ground (arith, mem-remove key k c.lru_list, mem-remove key k c.lru_map, t.mapped k));
  }

  pub invalidate-IsTracked :
      (key : ℕ) (c : LruCache D W) → IsTracked c → IsTracked (invalidate key c)
  unfolding invalidate
  invalidate-IsTracked key c t = ground (arith, drop-IsTracked key c t)

  pub invalidate_range-IsTracked :
      (start count : ℕ) (c : LruCache D W)
      → IsTracked c
      → IsTracked (invalidate_range start count c)
  unfolding invalidate_range
  invalidate_range-IsTracked start zero c t = t
  invalidate_range-IsTracked start (suc count) c t =
      invalidate_range-IsTracked (start + 1) count (invalidate start c)
        (invalidate-IsTracked start c t)

  pub clear-IsTracked : (c : LruCache D W) → IsTracked (clear c)
  unfolding clear
  clear-IsTracked c = record { distinct = tt; listed = λ k. refl; mapped = λ k. refl }

  pub mark_dirty-IsTracked :
      (key : ℕ) (c : LruCache D W) → IsTracked c → IsTracked (mark_dirty key c)
  unfolding mark_dirty
  mark_dirty-IsTracked key c t = ground (arith, dirty-IsTracked key c t)
    where
      dirty-IsTracked :
          (key : ℕ) (c : LruCache D W)
          → IsTracked c
          → IsTracked (record c { dirty_bits = insert key true c.dirty_bits })
      dirty-IsTracked key c t = record {
        distinct = t.distinct;
        listed = t.listed;
        mapped = t.mapped;
      }

  pub flush-IsTracked : (c : LruCache D W) (w : W) → IsTracked c → IsTracked (flush c w).0
  unfolding flush
  flush-IsTracked c w t = elim (Option-cases c.write_callback) [
    | inl e ↦ rw (e, flush) t
    | inr (write, e) ↦
        rw (e, flush) (record { distinct = t.distinct; listed = t.listed; mapped = t.mapped })
  ]
