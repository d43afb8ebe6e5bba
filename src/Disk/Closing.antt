-- ===== src/Disk/Closing.antt =====
-- writeSector, flushCache and close at the edges: a disabled cache, a device that fails, another one.
use level_fs.Base.{
  ℕ, List, [], ◌∷◌, some, ◌≡◌, refl, Bool, true, false, lookup, inl, inr, ◌⊎◌, arith, Option-cases,
  contains, length, ◌<◌,
}
use level_fs.Cache.{make_room, put, get, flush_one, flush_all, flush}
use level_fs.Disk.{BlockDevice, Disk, read_sector, write_sector, flush_cache, reopen}

module _ {D : Type 0} (b : BlockDevice D) where
  -- A single-sector write to a cache that is disabled changes nothing, and reports success.
  pub write_sector_disabled :
      (k : ℕ) (d : D) (s : Disk b) → s.cache.enabled ≡ false → write_sector b k d s ≡ (s, true)
  unfolding write_sector put
  write_sector_disabled k d s off = ground (arith, off)

  -- A write while the cache holds the sector or has room does not reach the device.
  pub write_sector_deferred :
      (k : ℕ) (d : D) (s : Disk b)
      → (contains k s.cache.cache_data ≡ true) ⊎ (length s.cache.cache_data < s.cache.max_entries)
      → (write_sector b k d s).0.world ≡ s.world
  unfolding write_sector put make_room
  write_sector_deferred k d s room = ground (arith, room)

  flush_all_failing :
      (blocks : List (ℕ × D)) (bits : List (ℕ × Bool)) (n : ℕ) (w : b.World)
      → ((k : ℕ) (d : D) (w : b.World) → b.write k d w ≡ (w, false))
      → flush_all b.write blocks bits n w ≡ (n, w)
  unfolding flush_all flush_one
  flush_all_failing blocks [] n w fails = refl
  flush_all_failing blocks ((key, dirty) ∷ bits) n w fails =
      elim (Option-cases (lookup key blocks)) [
        | inl gone ↦ ground (arith, flush_all_failing blocks bits n w fails)
        | inr (d, found) ↦ ground (arith, fails key d w, flush_all_failing blocks bits n w fails)
      ]

  -- A flush to a device that refuses every write stores nothing, and forgets what was dirty.
  pub flush_cache_failing :
      (s : Disk b)
      → s.cache.write_callback ≡ some b.write
      → ((k : ℕ) (d : D) (w : b.World) → b.write k d w ≡ (w, false))
      → ((flush_cache b s).0.world ≡ s.world) × ((flush_cache b s).0.cache.dirty_bits ≡ [])
  unfolding flush_cache flush
  flush_cache_failing s set fails =
      rw (set, flush)
        (ground (arith, flush_all_failing s.cache.cache_data s.cache.dirty_bits 0 s.world fails))

  flush-cache_data :
      (s : Disk b)
      → ((flush_cache b s).0.cache.cache_data ≡ s.cache.cache_data)
        × ((flush_cache b s).0.cache.enabled ≡ s.cache.enabled)
  unfolding flush_cache flush
  flush-cache_data s = ground arith

  -- After `close` and `open` of another device, a sector that was cached is answered from the
  -- closed device's block, whatever the new device holds.
  pub read_sector-reopen :
      (k : ℕ) (d : D) (s : Disk b) (other : b.World)
      → s.cache.enabled ≡ true
      → lookup k s.cache.cache_data ≡ some d
      → (read_sector b k (reopen b other s)).1 ≡ some d
  unfolding read_sector get reopen
  read_sector-reopen k d s other on found = ground (arith, flush-cache_data s)
