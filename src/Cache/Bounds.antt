-- ===== src/Cache/Bounds.antt =====
-- The capacity of the cache in put and setCapacity.
use level_fs.Base.{
  ℕ, zero, suc, ltb, List, [], ◌∷◌, some, ◌≡◌, refl, Bool, true, ◌⊎◌, ◌∙◌, inl, inr, arith, mem,
  lookup, contains, insert, erase, ◌<◌, ◌≤◌, length, length-insert_new, length-insert_old,
  length-erase-lt, Bool-cases, Option-cases,
}
use level_fs.Cache.Order.{back, mem-back}
use level_fs.Cache.Invariant.{IsTracked, write_back-same, evict_oldest-IsTracked}
use level_fs.Cache.{
  LruCache, evict_key, evict_oldest, touch, make_room, store, put, shrink, set_capacity,
}

back_of_mem : (xs : List ℕ) (k : ℕ) → mem k xs ≡ true → (last : ℕ) × (back xs ≡ some last)
unfolding back
back_of_mem [] k h = cc
back_of_mem (x ∷ []) k h = (x, refl)
back_of_mem (x ∷ y ∷ xs) k h = back_of_mem (y ∷ xs) y (ground arith)

length-insert-le {ℓ} :
    {D : Type ℓ} (key n : ℕ) (block : D) (m : List (ℕ × D))
    → ((contains key m ≡ true) × (length m ≤ n)) ⊎ (length m < n)
    → length (insert key block m) ≤ n
length-insert-le key n block m h = elim (Option-cases (lookup key m)) [
  | inl e ↦ ground (arith, length-insert_new key block m e)
  | inr (old, e) ↦ ground (arith, length-insert_old key block old m e)
]

module _ {D W : Type 0} where
  pub evict_key-cache_data :
      (key : ℕ) (c : LruCache D W) (w : W)
      → ((evict_key key c w).0.cache_data ≡ erase key c.cache_data)
        × ((evict_key key c w).0.max_entries ≡ c.max_entries)
  unfolding evict_key
  evict_key-cache_data key c w = let same = write_back-same key c w in (rw same.2, same.3)

  head_listed :
      (c : LruCache D W) (blocks : List (ℕ × D))
      → IsTracked c
      → c.cache_data ≡ blocks
      → 0 < length blocks
      → (key : ℕ) × (mem key c.lru_list ≡ true)
  head_listed c [] t e h = absurd (omega arith)
  head_listed c ((key, block) ∷ blocks) t e h = (key, t.listed key ∙ rw e (ground arith))

  -- An eviction from a cache that holds something makes it smaller.
  pub length-evict_oldest :
      (c : LruCache D W) (w : W)
      → IsTracked c
      → 0 < length c.cache_data
      → (length (evict_oldest c w).0.cache_data < length c.cache_data)
        × ((evict_oldest c w).0.max_entries ≡ c.max_entries)
  unfolding evict_oldest
  length-evict_oldest c w t h =
      let (key, listed) = head_listed c c.cache_data t refl h in
      let (last, e) = back_of_mem c.lru_list key listed in
      let parts = evict_key-cache_data last c w in
      elim (Option-cases (lookup last c.cache_data)) [
        | inl gone ↦ absurd (ground (arith, t.listed last, mem-back c.lru_list last e))
        | inr (block, found) ↦
            rw (e, evict_oldest, parts.0, parts.1)
              (length-erase-lt last block c.cache_data found, refl)
      ]

  -- Once the room is made, a store of `key` fits.
  make_room-fits :
      (key : ℕ) (c : LruCache D W) (w : W)
      → IsTracked c
      → 0 < c.max_entries
      → length c.cache_data ≤ c.max_entries
      → ((contains key c.cache_data ≡ true) × ((make_room key c w).0 ≡ c))
        ⊎ (length (make_room key c w).0.cache_data < c.max_entries)
  unfolding make_room
  make_room-fits key c w t p h = ground (arith, length-evict_oldest c w t)

  store-cache_data :
      (key : ℕ) (block : D) (dirty : Bool) (c : LruCache D W)
      → ((store key block dirty c).cache_data ≡ insert key block c.cache_data)
        × ((store key block dirty c).max_entries ≡ c.max_entries)
  unfolding store touch
  store-cache_data key block dirty c = (refl, refl)

  evict_oldest-max_entries :
      (c : LruCache D W) (w : W) → (evict_oldest c w).0.max_entries ≡ c.max_entries
  unfolding evict_oldest
  evict_oldest-max_entries c w = elim (Option-cases (back c.lru_list)) [
    | inl e ↦ rw (e, evict_oldest)
    | inr (last, e) ↦ rw (e, evict_oldest) ((evict_key-cache_data last c w).1)
  ]

  make_room-max_entries :
      (key : ℕ) (c : LruCache D W) (w : W) → (make_room key c w).0.max_entries ≡ c.max_entries
  unfolding make_room
  make_room-max_entries key c w = ground (arith, evict_oldest-max_entries c w)

  -- On a well-formed cache of a positive capacity that is kept, put leaves at most `maxEntries` blocks
  -- again, and leaves `maxEntries` as it is.
  pub put_bounded :
      (key : ℕ) (block : D) (dirty : Bool) (c : LruCache D W) (w : W)
      → IsTracked c
      → 0 < c.max_entries
      → length c.cache_data ≤ c.max_entries
      → (length (put key block dirty c w).0.cache_data ≤ c.max_entries)
        × ((put key block dirty c w).0.max_entries ≡ c.max_entries)
  unfolding put
  put_bounded key block dirty c w t p h =
      let room = make_room key c w in
      let parts = store-cache_data key block dirty room.0 in
      ground (
        arith,
        make_room-fits key c w t p h,
        make_room-max_entries key c w,
        length-insert-le key c.max_entries block room.0.cache_data,
        parts.0,
        parts.1,
      )

  shrink_total :
      (fuel : ℕ) (c : LruCache D W) (w : W)
      → IsTracked c
      → length c.cache_data < fuel
      → (r : LruCache D W × W) × (shrink fuel c w ≡ some r)
        × (length r.0.cache_data ≤ c.max_entries)
        × IsTracked r.0
  unfolding shrink
  shrink_total zero c w t h = absurd (omega arith)
  shrink_total (suc fuel) c w t h = elim (Bool-cases (ltb c.max_entries (length c.cache_data))) [
    | inr small ↦ ((c, w), rw small, ground arith, t)
    | inl big ↦
        let smaller = length-evict_oldest c w t (ground arith) in
        let (r, runs, fits, tracked) =
          shrink_total fuel (evict_oldest c w).0 (evict_oldest c w).1 (evict_oldest-IsTracked c w t)
            (omega (arith, smaller.0)) in
        (r, rw big runs, rw smaller.1 at fits, tracked)
  ]

  -- On a well-formed cache the loop of setCapacity ends, with at most the new capacity's number of
  -- blocks and the cache well formed.
  pub set_capacity_total :
      (cap : ℕ) (c : LruCache D W) (w : W)
      → IsTracked c
      → (r : LruCache D W × W) × (set_capacity cap c w ≡ some r)
        × (length r.0.cache_data ≤ cap)
        × IsTracked r.0
  unfolding set_capacity
  set_capacity_total cap c w t =
      shrink_total (suc (length c.cache_data)) (record c { max_entries = cap }) w
        (record { distinct = t.distinct; listed = t.listed; mapped = t.mapped }) (omega arith)
