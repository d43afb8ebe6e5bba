-- ===== src/Locks/Granted.antt =====
-- What acquireFileLock answers, on any table and on the tables that the calls of one process leave.
use level_fs.Base.{
  ℕ, ◌+◌, ◌*◌, ◌≤◌, ◌==◌, if◌then◌else◌, List, [], ◌∷◌, ◌++◌, some, ◌≡◌, refl, Bool, ◌&&◌, ◌||◌,
  not, inl, inr, arith, Bool-cases, any,
}
use level_fs.Locks.Acquire.{Ticks, outcome, acquire_file_lock-outcome}
use level_fs.Locks.Release.{add_file_lock-locks_of}
use level_fs.Locks.{
  LockType, LockStatus, acquired, timeout, invalid, FileLock, Manager, is_none, is_exclusive,
  is_shared, conflicts, locks_of, has_conflicting_file_lock, add_file_lock, acquire_file_lock,
}

-- Another owner's lock stands in the way: an exclusive one always, a shared one of an exclusive request.
abbrev pub blocked : LockType → ℕ → List FileLock → Bool
blocked requested requester = any (λ (l : FileLock).
    not (l.owner_id == requester)
    && (is_exclusive l.type || (is_exclusive requested && is_shared l.type)))

-- The answer to a request, and the tables after it.
pub record IsAnswer (cluster : ℕ) (name : List ℕ) (type : LockType) (now : ℕ) (m : Manager)
    (r : Manager × LockStatus) : Type 0 where
  pub status : r.1 ≡ (
      if is_none type
      then invalid
      else if blocked type m.current_owner_id (locks_of cluster m.file_locks)
      then timeout
      else acquired)
  pub locks :
      (j : ℕ)
      → locks_of j r.0.file_locks ≡ (
          if (not (is_none type)
              && not (blocked type m.current_owner_id (locks_of cluster m.file_locks)))
            && cluster == j
          then locks_of cluster m.file_locks
            ++ record {
              file_cluster = cluster;
              file_name = name;
              type = type;
              owner_id = m.current_owner_id;
              acquire_time = now;
            }
              ∷ []
          else locks_of j m.file_locks)
  pub others : (r.0.range_locks ≡ m.range_locks) × (r.0.current_owner_id ≡ m.current_owner_id)

pub conflicts-blocked :
    (type : LockType) (owner : ℕ) (xs : List FileLock)
    → any (λ (l : FileLock). conflicts type owner l.type l.owner_id) xs ≡ blocked type owner xs
conflicts-blocked type owner [] = refl
conflicts-blocked type owner (x ∷ xs) = ground (arith, conflicts-blocked type owner xs)

outcome-IsAnswer :
    (cluster : ℕ) (name : List ℕ) (type : LockType) (now : ℕ) (m : Manager)
    → IsAnswer cluster name type now m (
        outcome type
          (has_conflicting_file_lock cluster type m.current_owner_id m)
          m
          (add_file_lock cluster name type now m))
unfolding has_conflicting_file_lock
outcome-IsAnswer cluster name type now m =
    let owner = m.current_owner_id in
    let same = conflicts-blocked type owner (locks_of cluster m.file_locks) in
    elim (Bool-cases (is_none type)) [
      | inl none_asked ↦ rw none_asked (record {
        status = rw none_asked refl;
        locks = λ j. rw none_asked refl;
        others = (refl, refl);
      })
      | inr asked ↦ elim (Bool-cases (blocked type owner (locks_of cluster m.file_locks))) [
        | inl busy ↦
            rw (asked, same, busy)
              (record {
                status = rw (asked, busy) refl;
                locks = λ j. rw (asked, busy) refl;
                others = (refl, refl);
              })
        | inr free ↦
            rw (asked, same, free)
              (record {
                status = rw (asked, free) refl;
                locks = λ j. rw (asked, free) (add_file_lock-locks_of cluster j name type now m);
                others = unfold add_file_lock in (refl, refl);
              })
      ]
    ]

-- With a clock that moves on by ten milliseconds a round and fuel for the timeout, acquireFileLock
-- returns: INVALID for no type, TIMEOUT where another owner's lock on the file stands in the way, an
-- exclusive one or, if the request is exclusive, a shared one, and else ACQUIRED. When it is acquired,
-- the new lock, the caller's, stands behind those that were on the file; all else in the tables is as
-- before, and so is everything when it is not acquired.
pub acquire_file_lock-IsAnswer :
    (fuel now : ℕ) (elapsed : ℕ → ℕ) (cluster : ℕ) (name : List ℕ) (type : LockType)
    (timeout_ms : ℕ) (m : Manager)
    → Ticks elapsed
    → timeout_ms + 10 ≤ 10 * fuel
    → (r : Manager × LockStatus) × (acquire_file_lock fuel elapsed now cluster name type timeout_ms
          m
        ≡ some r)
      × IsAnswer cluster name type now m r
acquire_file_lock-IsAnswer fuel now elapsed cluster name type timeout_ms m ticks enough = (
  _,
  acquire_file_lock-outcome fuel elapsed now ticks cluster name type timeout_ms m enough,
  outcome-IsAnswer cluster name type now m,
)
