-- ===== src/Disk/Refinement.antt =====
-- The cached device against a plain array of sectors: reads, writes and the flush.
use level_fs.Base.{
  ℕ, if◌then◌else◌, List, [], ◌∷◌, none, some, ◌≡◌, refl, Bool, true, false, ◌==◌, lookup,
  lookup-erase, inl, inr, ◌⊎◌, arith, Option-cases, ◌∙◌,
}
use level_fs.Cache.{
  LruCache, is_dirty, evict_oldest, make_room, put, get, flush_one, flush_all, flush,
}
use level_fs.Cache.Order.{back}
use level_fs.Cache.Invariant.{get-IsTracked, put-IsTracked}
use level_fs.Cache.Bounds.{put_bounded, evict_key-cache_data}
use level_fs.Disk.Coherence.{IsCoherent, make_room-Same, put-Same, get-Same}
use level_fs.Disk.{
  BlockDevice, IsReliable, Disk, open_disk, read_sector, write_sector, flush_cache, view,
}
use level_fs.Disk.Histories.{Request, read, write, spec_run, run, IsSound}

module _ {D : Type 0} (b : BlockDevice D) where
  module _ (reliable : IsReliable b) where
    evict_oldest-absent :
        (key : ℕ) (c : LruCache D b.World) (w : b.World)
        → lookup key c.cache_data ≡ none
        → lookup key (evict_oldest c w).0.cache_data ≡ none
    unfolding evict_oldest
    evict_oldest-absent key c w e = elim (Option-cases (back c.lru_list)) [
      | inl h ↦ rw (h, evict_oldest) e
      | inr (last, h) ↦
          rw (h, evict_oldest, (evict_key-cache_data last c w).0)
            (ground (arith, lookup-erase last key c.cache_data))
    ]

    make_room-absent :
        (key : ℕ) (c : LruCache D b.World) (w : b.World)
        → lookup key c.cache_data ≡ none
        → lookup key (make_room key c w).0.cache_data ≡ none
    unfolding make_room
    make_room-absent key c w e = ground (arith, evict_oldest-absent key c w)

    -- A block that was read for a missing key is still the device's block after the eviction.
    make_room-sector :
        (key : ℕ) (c : LruCache D b.World) (w : b.World)
        → IsCoherent b c w
        → lookup key c.cache_data ≡ none
        → b.sector (make_room key c w).1 key ≡ b.sector w key
    make_room-sector key c w h e =
        ground (arith, (make_room-Same b reliable key c w h).1 key, make_room-absent key c w e)

    put-IsSound :
        (k : ℕ) (d : D) (dirty : Bool) (s : Disk b)
        → (dirty ≡ true) ⊎ (b.sector (make_room k s.cache s.world).1 k ≡ d)
        → IsSound b s
        → let r = put k d dirty s.cache s.world in
          IsSound b (record { cache = r.0; world = r.1 })
          × ((j : ℕ) → view b r.0 r.1 j ≡ (if k == j then d else view b s.cache s.world j))
    put-IsSound k d dirty s ok h =
        let same = put-Same b reliable k d dirty s.cache s.world ok h.coherent in
        let fits = put_bounded k d dirty s.cache s.world h.tracked h.room h.bounded in
        (
          record {
            tracked = put-IsTracked k d dirty s.cache s.world h.tracked;
            coherent = same.0;
            room = rw fits.1 h.room;
            bounded = rw fits.1 fits.0;
          },
          same.1,
        )

    get_keeps :
        (k : ℕ) (c : LruCache D b.World)
        → ((get k c).0.max_entries ≡ c.max_entries) × ((get k c).0.cache_data ≡ c.cache_data)
    unfolding get
    get_keeps k c = ground arith

    get-IsSound :
        (k : ℕ) (s : Disk b) → IsSound b s → IsSound b (record s { cache = (get k s.cache).0 })
    get-IsSound k s h =
        let kept = get_keeps k s.cache in
        record {
          tracked = get-IsTracked k s.cache h.tracked;
          coherent = (get-Same b reliable k s.cache s.world h.coherent).0;
          room = rw kept.0 h.room;
          bounded = rw (kept.0, kept.1) h.bounded;
        }

    pub read_sector-IsSound :
        (k : ℕ) (s : Disk b)
        → IsSound b s
        → IsSound b (read_sector b k s).0
          × ((read_sector b k s).1 ≡ some (view b s.cache s.world k))
          × ((j : ℕ)
              → view b (read_sector b k s).0.cache (read_sector b k s).0.world j
                ≡ view b s.cache s.world j)
    unfolding read_sector
    read_sector-IsSound k s h =
        let got = get-Same b reliable k s.cache s.world h.coherent in
        let sound = get-IsSound k s h in
        elim (Option-cases (lookup k s.cache.cache_data)) [
          | inr (d, hit) ↦ rw (got.2, hit, read_sector) (sound, ground (arith, hit), got.1)
          | inl miss ↦
              let gone : lookup k (get k s.cache).0.cache_data ≡ none =
                rw ((get_keeps k s.cache).1) miss in
              let stored =
                put-IsSound k (b.sector s.world k) false (record s { cache = (get k s.cache).0 })
                  (inr (make_room-sector k (get k s.cache).0 s.world sound.coherent gone)) sound in
              rw (got.2, miss, read_sector, reliable.reads)
                (stored.0, ground (arith, miss), λ j. ground (arith, miss, stored.1 j, got.1 j))
        ]

    pub write_sector-IsSound :
        (k : ℕ) (d : D) (s : Disk b)
        → IsSound b s
        → IsSound b (write_sector b k d s).0
          × ((j : ℕ)
              → view b (write_sector b k d s).0.cache (write_sector b k d s).0.world j
                ≡ (if k == j then d else view b s.cache s.world j))
    unfolding write_sector
    write_sector-IsSound k d s h = put-IsSound k d true s (inl refl) h

    -- The loop of `flush`, at one sector.
    flush_one-sector :
        (blocks : List (ℕ × D)) (key j n : ℕ) (dirty : Bool) (w : b.World)
        → b.sector (flush_one b.write blocks key dirty n w).1 j ≡ (
            if dirty
            then (if key == j
                then (elim (lookup key blocks) [ none ↦ b.sector w j | some d ↦ d ])
                else b.sector w j)
            else b.sector w j)
    unfolding flush_one
    flush_one-sector blocks key j n dirty w = elim (Option-cases (lookup key blocks)) [
      | inl gone ↦ ground arith
      | inr (d, found) ↦ ground (arith, reliable.written key j d w)
    ]

    flush_all-cached :
        (blocks : List (ℕ × D)) (bits : List (ℕ × Bool)) (j n : ℕ) (d : D) (w : b.World)
        → lookup j blocks ≡ some d
        → (b.sector w j ≡ d) ⊎ (is_dirty j bits ≡ true)
        → b.sector (flush_all b.write blocks bits n w).1 j ≡ d
    unfolding flush_all
    flush_all-cached blocks [] j n d w found h = ground arith
    flush_all-cached blocks ((key, dirty) ∷ bits) j n d w found h =
        flush_all-cached blocks bits j (flush_one b.write blocks key dirty n w).0 d
          (flush_one b.write blocks key dirty n w).1 found
          (ground (arith, flush_one-sector blocks key j n dirty w))

    flush_all-uncached :
        (blocks : List (ℕ × D)) (bits : List (ℕ × Bool)) (j n : ℕ) (w : b.World)
        → lookup j blocks ≡ none
        → b.sector (flush_all b.write blocks bits n w).1 j ≡ b.sector w j
    unfolding flush_all
    flush_all-uncached blocks [] j n w gone = refl
    flush_all-uncached blocks ((key, dirty) ∷ bits) j n w gone =
        flush_all-uncached blocks bits j (flush_one b.write blocks key dirty n w).0
          (flush_one b.write blocks key dirty n w).1 gone
        ∙ ground (arith, flush_one-sector blocks key j n dirty w)

    -- After a flush the device itself holds what a read would have given, and nothing is dirty.
    pub flush_cache-sector :
        (s : Disk b) (j : ℕ)
        → IsSound b s
        → (b.sector (flush_cache b s).0.world j ≡ view b s.cache s.world j)
          × ((flush_cache b s).0.cache.dirty_bits ≡ [])
    unfolding flush_cache flush
    flush_cache-sector s j h =
        rw (h.coherent.callback, flush)
          (
            elim (Option-cases (lookup j s.cache.cache_data)) [
              | inl gone ↦
                  flush_all-uncached s.cache.cache_data s.cache.dirty_bits j 0 s.world gone
                  ∙ ground (arith, gone)
              | inr (d, found) ↦
                  flush_all-cached s.cache.cache_data s.cache.dirty_bits j 0 d s.world found
                    (ground (arith, h.coherent.clean j d found))
                  ∙ ground (arith, found)
            ],
            refl,
          )

    open_disk-IsSound : (w : b.World) → IsSound b (open_disk b w)
    unfolding open_disk
    open_disk-IsSound w = record {
      tracked = record { distinct = tt; listed = λ k. refl; mapped = λ k. refl };
      coherent = record { enabled = refl; callback = refl; clean = λ k d e u. cc };
      room = omega arith;
      bounded = omega arith;
    }

    open_disk-view :
        (w : b.World) (j : ℕ) → view b (open_disk b w).cache (open_disk b w).world j ≡ b.sector w j
    unfolding open_disk
    open_disk-view w j = refl

    write_sector-true : (k : ℕ) (d : D) (s : Disk b) → (write_sector b k d s).1 ≡ true
    unfolding write_sector
    write_sector-true k d s = refl

    run-spec_run :
        (rs : List (Request D)) (s : Disk b) (a : ℕ → D)
        → IsSound b s
        → ((j : ℕ) → view b s.cache s.world j ≡ a j)
        → IsSound b (run b rs s).1
          × ((run b rs s).0 ≡ (spec_run rs a).0)
          × ((j : ℕ) → view b (run b rs s).1.cache (run b rs s).1.world j ≡ (spec_run rs a).1 j)
    unfolding run spec_run
    run-spec_run [] s a h e = (h, refl, e)
    run-spec_run (read k ∷ rs) s a h e =
        let (sound, answer, same) = read_sector-IsSound k s h in
        let (sound', outs, rest) =
          run-spec_run rs (read_sector b k s).0 a sound (λ j. same j ∙ e j) in
        (sound', cc (answer, e k, outs), rest)
    run-spec_run (write k d ∷ rs) s a h e =
        let (sound, same) = write_sector-IsSound k d s h in
        let (sound', outs, rest) =
          run-spec_run rs (write_sector b k d s).0 (λ j. if k == j then d else a j) sound
            (λ j. same j ∙ ground (arith, e j)) in
        (sound', cc (outs, write_sector-true k d s), rest)

    -- Over a reliable device, every history of single-sector requests on a freshly opened disk gives
    -- the answers of a plain array of sectors, and leaves the cache well formed, within its capacity and
    -- in agreement with the device; a flush then leaves that array on the device.
    pub run-refines :
        (rs : List (Request D)) (w : b.World)
        → ((run b rs (open_disk b w)).0 ≡ (spec_run rs (b.sector w)).0)
          × IsSound b (run b rs (open_disk b w)).1
          × ((j : ℕ)
              → b.sector (flush_cache b (run b rs (open_disk b w)).1).0.world j
                ≡ (spec_run rs (b.sector w)).1 j)
    run-refines rs w =
        let start = open_disk-IsSound w in
        let (sound, outs, same) =
          run-spec_run rs (open_disk b w) (b.sector w) start (λ j. open_disk-view w j) in
        (outs, sound, λ j. (flush_cache-sector (run b rs (open_disk b w)).1 j sound).0 ∙ same j)
