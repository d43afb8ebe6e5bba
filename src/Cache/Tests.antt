-- ===== src/Cache/Tests.antt =====
-- Runs of the cache on small data.
use level_fs.Base.{ℕ, List, [], ◌∷◌, ◌≡◌, refl, true, false}
use level_fs.Cache.Invariant.{IsTracked}
use level_fs.Cache.Histories.{
  Operation, get_block, put_block, limit, invalidate_block, flush_blocks, perform_all,
  perform_all-IsTracked,
}
use level_fs.Cache.{LruCache, empty_cache, put}

-- A cache of one block without a callback, over blocks of numbers.
abbrev one_place : LruCache ℕ ℕ
one_place = empty_cache 1

one_place-IsTracked : IsTracked one_place
one_place-IsTracked = record { distinct = tt; listed = λ k. refl; mapped = λ k. refl }

evicting_run : (put 6 60 true (put 5 50 false one_place 0).0 0).0.cache_data ≡ (6, 60) ∷ []
unfolding put
evicting_run = refl

abbrev calls : List (Operation ℕ)
calls =
    put_block 5 50 true
    ∷ put_block 6 60 false
    ∷ get_block 5
    ∷ invalidate_block 6
    ∷ limit 3
    ∷ flush_blocks
    ∷ []

perform_all-IsTracked_example : IsTracked (perform_all calls (one_place, 0)).0
perform_all-IsTracked_example = perform_all-IsTracked calls 1 0
