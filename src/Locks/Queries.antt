-- ===== src/Locks/Queries.antt =====
-- The questions that FileLockManager answers: isFileLocked, canWrite, canRead and the counts.
use level_fs.Base.{
  ℕ, ◌+◌, ◌==◌, if◌then◌else◌, List, [], ◌∷◌, Bool, true, false, ◌&&◌, not, any, length,
}
use level_fs.Locks.{
  LockType, FileLock, Manager, is_exclusive, is_shared, is_none, locks_of, or_current,
}

unfoldable pub is_file_locked : ℕ → LockType → Manager → Bool
is_file_locked cluster check m =
    any
      (λ (l : FileLock).
        (if is_exclusive check && is_exclusive l.type then true else is_shared check))
      (locks_of cluster m.file_locks)

-- The loop of `canWrite`.
unfoldable pub can_write_from : ℕ → List FileLock → Bool
can_write_from requester [] = true
can_write_from requester (l ∷ ls) =
    if l.owner_id == requester && is_exclusive l.type
    then true
    else if not (l.owner_id == requester) && not (is_none l.type)
    then false
    else can_write_from requester ls

unfoldable pub can_write : ℕ → ℕ → Manager → Bool
unfolding can_write_from
can_write cluster requester m =
    can_write_from (or_current requester m) (locks_of cluster m.file_locks)

-- The loop of `canRead`.
unfoldable pub can_read_from : ℕ → List FileLock → Bool
can_read_from requester [] = true
can_read_from requester (l ∷ ls) =
    if l.owner_id == requester
    then true
    else if is_exclusive l.type
    then false
    else can_read_from requester ls

unfoldable pub can_read : ℕ → ℕ → Manager → Bool
unfolding can_read_from
can_read cluster requester m =
    can_read_from (or_current requester m) (locks_of cluster m.file_locks)

unfoldable pub count_locks {ℓ} : {L : Type ℓ} → List (ℕ × List L) → ℕ
count_locks [] = 0
count_locks ((k, locks) ∷ table) = length locks + count_locks table
