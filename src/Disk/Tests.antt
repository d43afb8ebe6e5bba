-- ===== src/Disk/Tests.antt =====
-- The cached device over a device that is an association list of sectors.
use level_fs.Base.{
  ℕ, List, [], ◌∷◌, ◌≡◌, refl, none, some, true, false, arith, lookup, insert, lookup-insert,
}
use level_fs.Disk.Histories.{Request, read, write, run, spec_run, IsSound}
use level_fs.Disk.Refinement.{run-refines}
use level_fs.Disk.Closing.{read_sector-reopen}
use level_fs.Disk.{BlockDevice, IsReliable, Disk, open_disk, read_sector, flush_cache, reopen}

abbrev block_of : List (ℕ × ℕ) → ℕ → ℕ
block_of w k = elim (lookup k w) [ none ↦ 0 | some d ↦ d ]

abbrev array_device : BlockDevice ℕ
array_device = record {
  World = List (ℕ × ℕ);
  sector = block_of;
  read = λ k w. some (block_of w k);
  write = λ k d w. (insert k d w, true);
}

-- A device that stores nothing.
abbrev broken_device : BlockDevice ℕ
broken_device = record {
  World = List (ℕ × ℕ);
  sector = block_of;
  read = λ k w. some (block_of w k);
  write = λ k d w. (w, false);
}

array_device-IsReliable : IsReliable array_device
array_device-IsReliable = record {
  reads = λ k w. refl;
  writes = λ k d w. refl;
  written = λ k j d w. ground (arith, lookup-insert k j d w);
}

abbrev requests : List (Request ℕ)
requests = write 3 7 ∷ read 3 ∷ read 4 ∷ []

run-refines_example :
    ((run array_device requests (open_disk array_device ((4, 9) ∷ []))).0
      ≡ (spec_run requests (block_of ((4, 9) ∷ []))).0)
    × IsSound array_device (run array_device requests (open_disk array_device ((4, 9) ∷ []))).1
    × ((j : ℕ)
        → block_of
            (flush_cache array_device
              (run array_device requests (open_disk array_device ((4, 9) ∷ []))).1).0.world
            j
          ≡ (spec_run requests (block_of ((4, 9) ∷ []))).1 j)
run-refines_example = run-refines array_device array_device-IsReliable requests ((4, 9) ∷ [])

-- A disk just opened, and disks that have cached a write.
abbrev opened : Disk array_device
opened = record {
  cache = record {
    max_entries = 4096;
    lru_list = [];
    lru_map = [];
    cache_data = [];
    dirty_bits = [];
    stats = record { hits = 0; misses = 0; evictions = 0; writes = 0; writebacks = 0 };
    enabled = true;
    write_callback = some (λ k d w. (insert k d w, true));
  };
  world = [];
}

abbrev cached : Disk array_device
cached = record {
  cache = record (opened.cache) {
    lru_list = 3 ∷ [];
    lru_map = 3 ∷ [];
    cache_data = (3, 7) ∷ [];
    dirty_bits = (3, true) ∷ [];
  };
  world = [];
}

abbrev cached_broken : Disk broken_device
cached_broken = record {
  cache = record (cached.cache) { write_callback = some (λ k d w. (w, false)) };
  world = [];
}

read_sector-reopen_example :
    (read_sector array_device 3 (reopen array_device ((3, 8) ∷ []) cached)).1 ≡ some 7
read_sector-reopen_example = read_sector-reopen array_device 3 7 cached ((3, 8) ∷ []) refl refl
