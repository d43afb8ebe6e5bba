-- ===== src/Disk.antt =====
-- DiskDevice of src/fs_common.hpp, for requests of one sector (the default count, which is what
-- every caller asks for), and the LfsSectorCache of src/cache.hpp that it reads and writes through.
-- The image file or volume behind it belongs to the C++ library or to Windows and is a parameter.
pub mod Coherence
pub mod Histories
pub mod Refinement
pub mod Closing
mod Tests
use level_fs.Base.{
  ℕ, if◌then◌else◌, List, Option, none, some, ◌≡◌, Bool, true, false, ◌==◌, lookup, ◌*◌, ◌∷◌, [],
}
use level_fs.Cache
use level_fs.Cache.{LruCache, empty_cache}

-- What stands behind the cache: a state, the blocks in it, and a request for one sector.
pub record BlockDevice (D : Type 0) : Type 1 where
  pub World : Type 0
  pub sector : World → ℕ → D
  pub read : ℕ → World → Option D
  pub write : ℕ → D → World → World × Bool

-- No request fails, and a write changes its sector alone.
pub record IsReliable {D : Type 0} (b : BlockDevice D) : Type 0 where
  pub reads : (k : ℕ) (w : b.World) → b.read k w ≡ some (b.sector w k)
  pub writes : (k : ℕ) (d : D) (w : b.World) → (b.write k d w).1 ≡ true
  pub written :
      (k j : ℕ) (d : D) (w : b.World)
      → b.sector (b.write k d w).0 j ≡ (if k == j then d else b.sector w j)

pub record Disk {D : Type 0} (b : BlockDevice D) : Type 0 where
  pub cache : LruCache D b.World
  pub world : b.World

module _ {D : Type 0} (b : BlockDevice D) where
  -- The constructor, over a device that has been opened.
  unfoldable pub open_disk : b.World → Disk b
  open_disk w = record {
    cache = record (empty_cache 4096) { write_callback = some b.write };
    world = w;
  }

  unfoldable pub read_sector : ℕ → Disk b → Disk b × Option D
  read_sector k s =
      let (c, hit) = Cache.get k s.cache in
      elim hit [
        | some d ↦ (record s { cache = c }, some d)
        | none ↦ elim (b.read k s.world) [
          | none ↦ (record s { cache = c }, none)
          | some d ↦
              let (c', w') = Cache.put k d false c s.world in
              (record { cache = c'; world = w' }, some d)
        ]
      ]

  -- The write goes to the cache, and the answer is always `true`.
  unfoldable pub write_sector : ℕ → D → Disk b → Disk b × Bool
  write_sector k d s =
      let (c, w) = Cache.put k d true s.cache s.world in (record { cache = c; world = w }, true)

  unfoldable pub flush_cache : Disk b → Disk b × ℕ
  flush_cache s =
      let (c, w, n) = Cache.flush s.cache s.world in (record { cache = c; world = w }, n)

  -- What `close` and a following `open` do to the object: the cache is flushed, and kept.
  unfoldable pub reopen : b.World → Disk b → Disk b
  reopen other s = record ((flush_cache s).0) { world = other }

  -- What a read gives: the cached block, or the block of the device.
  abbrev pub view : LruCache D b.World → b.World → ℕ → D
  view c w k = elim (lookup k c.cache_data) [ none ↦ b.sector w k | some d ↦ d ]
