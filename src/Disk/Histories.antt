-- ===== src/Disk/Histories.antt =====
-- Histories of requests to a disk, and the array of sectors that specifies them.
use level_fs.Base.{
  ℕ, if◌then◌else◌, List, [], ◌∷◌, Option, some, Bool, true, ◌==◌, length, ◌≤◌, ◌<◌,
}
use level_fs.Cache.Invariant.{IsTracked}
use level_fs.Disk.Coherence.{IsCoherent}
use level_fs.Disk.{BlockDevice, Disk, read_sector, write_sector}

pub data Request (D : Type 0) : Type 0 where
  read : ℕ → Request D
  write : ℕ → D → Request D

pub data Response (D : Type 0) : Type 0 where
  block : Option D → Response D
  done : Bool → Response D

-- The specification: an array of sectors, where every request succeeds.
module _ {D : Type 0} where
  unfoldable pub spec_step : Request D → (ℕ → D) → Response D × (ℕ → D)
  spec_step (read k) a = (block (some (a k)), a)
  spec_step (write k d) a = (done true, λ j. if k == j then d else a j)

  unfoldable pub spec_run : List (Request D) → (ℕ → D) → List (Response D) × (ℕ → D)
  unfolding spec_step
  spec_run [] a = ([], a)
  spec_run (r ∷ rs) a =
      let (out, a') = spec_step r a in let (outs, a'') = spec_run rs a' in (out ∷ outs, a'')

module _ {D : Type 0} (b : BlockDevice D) where
  unfoldable pub step : Request D → Disk b → Response D × Disk b
  step (read k) s = let (s', d) = read_sector b k s in (block d, s')
  step (write k d) s = let (s', ok) = write_sector b k d s in (done ok, s')

  unfoldable pub run : List (Request D) → Disk b → List (Response D) × Disk b
  unfolding step
  run [] s = ([], s)
  run (r ∷ rs) s = let (out, s') = step r s in let (outs, s'') = run rs s' in (out ∷ outs, s'')

  -- The cache is well formed, within its capacity, and agrees with the device.
  pub record IsSound (s : Disk b) : Type 0 where
    pub tracked : IsTracked s.cache
    pub coherent : IsCoherent b s.cache s.world
    pub room : 0 < s.cache.max_entries
    pub bounded : length s.cache.cache_data ≤ s.cache.max_entries
