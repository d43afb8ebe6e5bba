-- ===== src/Disk/Coherence.antt =====
-- The agreement of the sector cache with the device behind it.
use level_fs.Base.{
  ℕ, if◌then◌else◌, some, ◌≡◌, refl, Bool, true, false, ◌==◌, lookup, lookup-insert, lookup-erase,
  inl, inr, arith, Option-cases, Bool-cases, ◌∙◌, contains, length, leb, ◌⊎◌, if_true,
}
use level_fs.Cache.{
  LruCache, is_dirty, call_back, write_back, evict_key, evict_oldest, touch, get, make_room, store,
  put,
}
use level_fs.Cache.Order.{back}
use level_fs.Cache.Invariant.{write_back-same}
use level_fs.Disk.{BlockDevice, IsReliable, view}

pub record IsCoherent {D : Type 0} (b : BlockDevice D) (c : LruCache D b.World) (w : b.World)
    : Type 0 where
  pub enabled : c.enabled ≡ true
  pub callback : c.write_callback ≡ some b.write
  pub clean :
      (k : ℕ) (d : D)
      → lookup k c.cache_data ≡ some d
      → is_dirty k c.dirty_bits ≡ false
      → b.sector w k ≡ d

module _ {D : Type 0} (b : BlockDevice D) (reliable : IsReliable b) where
  -- The two states answer alike.
  abbrev Same : LruCache D b.World × b.World → LruCache D b.World → b.World → Type 0
  Same r c w = IsCoherent b r.0 r.1 × ((j : ℕ) → view b r.0 r.1 j ≡ view b c w j)

  -- The write-back stores the cached block of its sector, if that is dirty.
  write_back-sector :
      (key j : ℕ) (c : LruCache D b.World) (w : b.World)
      → c.write_callback ≡ some b.write
      → b.sector (write_back key c w).1 j ≡ (
          if is_dirty key c.dirty_bits
          then (if key == j then view b c w j else b.sector w j)
          else b.sector w j)
  unfolding write_back call_back
  write_back-sector key j c w e = elim (Option-cases (lookup key c.cache_data)) [
    | inl gone ↦ ground arith
    | inr (d, found) ↦ ground (arith, reliable.written key j d w)
  ]

  write_back-dirty_bits :
      (key j : ℕ) (c : LruCache D b.World) (w : b.World)
      → is_dirty j (write_back key c w).0.dirty_bits
        ≡ (if key == j then false else is_dirty j c.dirty_bits)
  unfolding write_back call_back
  write_back-dirty_bits key j c w = ground (arith, lookup-erase key j c.dirty_bits)

  write_back-settings :
      (key : ℕ) (c : LruCache D b.World) (w : b.World)
      → ((write_back key c w).0.enabled ≡ c.enabled)
        × ((write_back key c w).0.write_callback ≡ c.write_callback)
  unfolding write_back call_back
  write_back-settings key c w = ground arith

  -- An eviction changes no answer: a dirty block is on the device before it is dropped.
  evict_key-Same :
      (key : ℕ) (c : LruCache D b.World) (w : b.World)
      → IsCoherent b c w
      → Same (evict_key key c w) c w
  unfolding evict_key
  evict_key-Same key c w h =
      let same = write_back-same key c w in
      let kept = write_back-settings key c w in
      (
        record {
          enabled = kept.0 ∙ h.enabled;
          callback = kept.1 ∙ h.callback;
          clean = λ k d found unmarked. ground (
            arith,
            h.callback,
            h.clean k d,
            same.2,
            lookup-erase key k c.cache_data,
            write_back-sector key k c w h.callback,
            write_back-dirty_bits key k c w,
          );
        },
        λ j. elim (Option-cases (lookup j c.cache_data)) [
          | inl gone ↦ ground (
            arith,
            same.2,
            lookup-erase key j c.cache_data,
            write_back-sector key j c w h.callback,
          )
          | inr (d, found) ↦ ground (
            arith,
            h.clean j d,
            same.2,
            lookup-erase key j c.cache_data,
            write_back-sector key j c w h.callback,
          )
        ],
      )

  evict_oldest-Same :
      (c : LruCache D b.World) (w : b.World) → IsCoherent b c w → Same (evict_oldest c w) c w
  unfolding evict_oldest
  evict_oldest-Same c w h = elim (Option-cases (back c.lru_list)) [
    | inl e ↦ rw (e, evict_oldest) (h, λ j. refl)
    | inr (key, e) ↦ rw (e, evict_oldest) (evict_key-Same key c w h)
  ]

  pub make_room-Same :
      (key : ℕ) (c : LruCache D b.World) (w : b.World)
      → IsCoherent b c w
      → Same (make_room key c w) c w
  unfolding make_room
  make_room-Same key c w h = elim (Bool-cases (contains key c.cache_data)) [
    | inl old ↦ rw (old, make_room) (h, λ j. refl)
    | inr new ↦ elim (Bool-cases (leb c.max_entries (length c.cache_data))) [
      | inl full ↦ rw (new, full, make_room) (evict_oldest-Same c w h)
      | inr room ↦ rw (new, room, make_room) (h, λ j. refl)
    ]
  ]

  -- A store changes the answer at its sector, to the block; a clean store is of the device's block.
  store-Same :
      (key : ℕ) (block : D) (dirty : Bool) (c : LruCache D b.World) (w : b.World)
      → (dirty ≡ true) ⊎ (b.sector w key ≡ block)
      → IsCoherent b c w
      → IsCoherent b (store key block dirty c) w
        × ((j : ℕ)
            → view b (store key block dirty c) w j ≡ (if key == j then block else view b c w j))
  unfolding store touch
  store-Same key block dirty c w ok h = (
    record {
      enabled = h.enabled;
      callback = h.callback;
      clean = λ k d found unmarked. ground (
        arith,
        ok,
        h.clean k d,
        lookup-insert key k block c.cache_data,
        lookup-insert key k true c.dirty_bits,
      );
    },
    λ j. ground (arith, lookup-insert key j block c.cache_data),
  )

  put_enabled :
      (key : ℕ) (block : D) (dirty : Bool) (c : LruCache D b.World) (w : b.World)
      → c.enabled ≡ true
      → put key block dirty c w
        ≡ (store key block dirty (make_room key c w).0, (make_room key c w).1)
  unfolding put
  put_enabled key block dirty c w e = if_true c.enabled _ _ e

  pub put-Same :
      (key : ℕ) (block : D) (dirty : Bool) (c : LruCache D b.World) (w : b.World)
      → (dirty ≡ true) ⊎ (b.sector (make_room key c w).1 key ≡ block)
      → IsCoherent b c w
      → IsCoherent b (put key block dirty c w).0 (put key block dirty c w).1
        × ((j : ℕ)
            → view b (put key block dirty c w).0 (put key block dirty c w).1 j
              ≡ (if key == j then block else view b c w j))
  put-Same key block dirty c w ok h =
      let room = make_room-Same key c w h in
      let stored =
        store-Same key block dirty (make_room key c w).0 (make_room key c w).1 ok room.0 in
      rw (put_enabled key block dirty c w h.enabled)
        (stored.0, λ j. ground (arith, stored.1 j, room.1 j))

  pub get-Same :
      (key : ℕ) (c : LruCache D b.World) (w : b.World)
      → IsCoherent b c w
      → IsCoherent b (get key c).0 w
        × ((j : ℕ) → view b (get key c).0 w j ≡ view b c w j)
        × ((get key c).1 ≡ lookup key c.cache_data)
  unfolding get touch
  get-Same key c w h = (
    record {
      enabled = ground (arith, h.enabled);
      callback = ground (arith, h.callback);
      clean = λ k d found unmarked. ground (arith, h.clean k d);
    },
    λ j. ground arith,
    ground (arith, h.enabled),
  )
