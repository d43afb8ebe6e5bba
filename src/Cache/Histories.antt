-- ===== src/Cache/Histories.antt =====
-- Histories of calls of LfsLRUCache.
use level_fs.Base.{ℕ, List, [], ◌∷◌, none, some, refl, Bool}
use level_fs.Cache.Invariant.{
  IsTracked, get-IsTracked, put-IsTracked, invalidate-IsTracked, invalidate_range-IsTracked,
  clear-IsTracked, mark_dirty-IsTracked, flush-IsTracked,
}
use level_fs.Cache.Bounds.{set_capacity_total}
use level_fs.Cache.{
  LruCache, empty_cache, get, put, invalidate, invalidate_range, clear, set_capacity, mark_dirty,
  mark_clean, enable, flush,
}

pub data Operation (D : Type 0) : Type 0 where
  get_block invalidate_block mark unmark limit : ℕ → Operation D
  put_block : ℕ → D → Bool → Operation D
  invalidate_blocks : ℕ → ℕ → Operation D
  switch : Bool → Operation D
  clear_all flush_blocks : Operation D

module _ {D W : Type 0} where
  -- One call; a loop of `setCapacity` that did not end would leave the state.
  unfoldable pub perform : Operation D → LruCache D W × W → LruCache D W × W
  perform (get_block k) (c, w) = ((get k c).0, w)
  perform (put_block k d dirty) (c, w) = put k d dirty c w
  perform (invalidate_block k) (c, w) = (invalidate k c, w)
  perform (invalidate_blocks start count) (c, w) = (invalidate_range start count c, w)
  perform clear_all (c, w) = (clear c, w)
  perform (limit cap) (c, w) = elim (set_capacity cap c w) [ none ↦ (c, w) | some r ↦ r ]
  perform (mark k) (c, w) = (mark_dirty k c, w)
  perform (unmark k) (c, w) = (mark_clean k c, w)
  perform (switch e) (c, w) = (enable e c, w)
  perform flush_blocks (c, w) = let (c', w', n) = flush c w in (c', w')

  unfoldable pub perform_all : List (Operation D) → LruCache D W × W → LruCache D W × W
  perform_all [] s = s
  perform_all (o ∷ os) s = perform_all os (perform o s)

  perform-IsTracked :
      (o : Operation D) (c : LruCache D W) (w : W) → IsTracked c → IsTracked (perform o (c, w)).0
  unfolding perform mark_clean enable
  perform-IsTracked (get_block k) c w t = get-IsTracked k c t
  perform-IsTracked (put_block k d dirty) c w t = put-IsTracked k d dirty c w t
  perform-IsTracked (invalidate_block k) c w t = invalidate-IsTracked k c t
  perform-IsTracked (invalidate_blocks start count) c w t =
      invalidate_range-IsTracked start count c t
  perform-IsTracked clear_all c w t = clear-IsTracked c
  perform-IsTracked (limit cap) c w t =
      let (r, runs, fits, tracked) = set_capacity_total cap c w t in rw (runs, perform) tracked
  perform-IsTracked (mark k) c w t = mark_dirty-IsTracked k c t
  perform-IsTracked (unmark k) c w t = record {
    distinct = t.distinct;
    listed = t.listed;
    mapped = t.mapped;
  }
  perform-IsTracked (switch e) c w t = record {
    distinct = t.distinct;
    listed = t.listed;
    mapped = t.mapped;
  }
  perform-IsTracked flush_blocks c w t = flush-IsTracked c w t

  perform_all-kept :
      (os : List (Operation D)) (s : LruCache D W × W)
      → IsTracked s.0
      → IsTracked (perform_all os s).0
  unfolding perform_all
  perform_all-kept [] s t = t
  perform_all-kept (o ∷ os) (c, w) t =
      perform_all-kept os (perform o (c, w)) (perform-IsTracked o c w t)

  -- After every history of calls on a new cache, the recency list has no key twice, and the list, the
  -- map of its iterators and the map of the blocks have the same keys.
  pub perform_all-IsTracked :
      (os : List (Operation D)) (max_size : ℕ) (w : W)
      → IsTracked (perform_all os (empty_cache max_size, w)).0
  perform_all-IsTracked os max_size w =
      perform_all-kept os (empty_cache max_size, w)
        (record { distinct = tt; listed = λ k. refl; mapped = λ k. refl })
