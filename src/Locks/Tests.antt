-- ===== src/Locks/Tests.antt =====
-- Runs of the lock manager on small tables.
use level_fs.Base.{ℕ, ◌*◌, List, [], ◌∷◌, ◌++◌, ◌≡◌, refl, some, true, arith}
use level_fs.Locks.Acquire.{Ticks}
use level_fs.Locks.Granted.{blocked, IsAnswer, acquire_file_lock-IsAnswer}
use level_fs.Locks.Histories.{
  Call, take_file, give_file, perform, perform_all, new_manager, acquire_file_lock-perform_all,
}
use level_fs.Locks.{
  LockStatus, shared, exclusive, acquired, FileLock, Manager, locks_of, has_conflicting_file_lock,
  wait, add_file_lock, acquire_file_lock, release_file_lock, erase_first,
}

abbrev clock : ℕ → ℕ
clock i = 10 * i

clock-Ticks : Ticks clock
clock-Ticks i = omega arith

-- The table of the process 42, with the shared lock of another owner on the file 5.
abbrev shared_lock : FileLock
shared_lock = record {
  file_cluster = 5;
  file_name = [];
  type = shared;
  owner_id = 7;
  acquire_time = 1;
}

abbrev one_lock : Manager
one_lock = record {
  file_locks = (5, shared_lock ∷ []) ∷ [];
  range_locks = [];
  current_owner_id = 42;
}

in_the_way : blocked exclusive 42 (locks_of 5 one_lock.file_locks) ≡ true
in_the_way = refl

acquire_file_lock-IsAnswer_example :
    (r : Manager × LockStatus) × (acquire_file_lock 3 clock 1 5 [] exclusive 20 one_lock ≡ some r)
    × IsAnswer 5 [] exclusive 1 one_lock r
acquire_file_lock-IsAnswer_example =
    acquire_file_lock-IsAnswer 3 1 clock 5 [] exclusive 20 one_lock clock-Ticks (omega arith)

-- A lock taken and given back, and an exclusive lock on the file 5 that is held.
abbrev calls : List Call
calls =
    take_file 3 clock 1 6 [] shared 20 ∷ give_file 6 0 ∷ take_file 3 clock 2 5 [] exclusive 20 ∷ []

abbrev held : Manager
held = perform_all calls (new_manager 42)

held_locks :
    locks_of 5 held.file_locks
    ≡ record { file_cluster = 5; file_name = []; type = exclusive; owner_id = 42; acquire_time = 2 }
      ∷ []
unfolding perform_all perform acquire_file_lock release_file_lock erase_first add_file_lock
    has_conflicting_file_lock wait
held_locks = refl

acquire_file_lock-perform_all_example :
    (m' : Manager) × (acquire_file_lock 1 clock 3 5 [] exclusive 0 held ≡ some (m', acquired))
    × (locks_of 5 m'.file_locks
        ≡ locks_of 5 held.file_locks
          ++ record {
            file_cluster = 5;
            file_name = [];
            type = exclusive;
            owner_id = held.current_owner_id;
            acquire_time = 3;
          }
            ∷ [])
acquire_file_lock-perform_all_example =
    acquire_file_lock-perform_all calls 42 1 3 clock 5 [] exclusive 0 clock-Ticks (omega arith) refl
