-- ===== src/Locks.antt =====
-- FileLockManager, ScopedFileLock and ByteRange of src/concurrent.hpp. The manager's mutex is held
-- for the whole of a call, also while `acquireFileLock` sleeps, so a call reads one table; the clock
-- is the argument `elapsed`, the milliseconds since the call at each round of its loop.
pub mod Table
pub mod Acquire
pub mod Release
pub mod Granted
pub mod Histories
pub mod Ranges
pub mod Queries
mod Tests
use level_fs.Base.{
  ℕ, zero, suc, ◌+◌, ◌%◌, ◌^◌, ◌==◌, ltb, leb, if◌then◌else◌, List, [], ◌∷◌, ◌++◌, Option, none,
  some, Bool, true, false, ◌&&◌, ◌||◌, not, length, any, keep, lookup, insert, erase, map,
}

pub data LockType : Type 0 where
  no_lock shared exclusive : LockType

pub data LockStatus : Type 0 where
  acquired denied timeout deadlock invalid : LockStatus

pub record ByteRange : Type 0 where
  pub start : ℕ
  pub len : ℕ

-- uint64_t: start + length wraps.
abbrev pub range_end : ByteRange → ℕ
range_end r = (r.start + r.len) % 2 ^ 64

unfoldable pub overlaps : ByteRange → ByteRange → Bool
overlaps r other = ltb r.start (range_end other) && ltb other.start (range_end r)

pub record FileLock : Type 0 where
  pub file_cluster : ℕ
  pub file_name : List ℕ
  pub type : LockType
  pub owner_id : ℕ
  pub acquire_time : ℕ

pub record RangeLock : Type 0 where
  pub file_cluster : ℕ
  pub range : ByteRange
  pub type : LockType
  pub owner_id : ℕ
  pub acquire_time : ℕ

pub record Manager : Type 0 where
  pub file_locks : List (ℕ × List FileLock)
  pub range_locks : List (ℕ × List RangeLock)
  pub current_owner_id : ℕ

abbrev pub is_exclusive : LockType → Bool
is_exclusive exclusive = true
is_exclusive _ = false

abbrev pub is_shared : LockType → Bool
is_shared shared = true
is_shared _ = false

abbrev pub is_none : LockType → Bool
is_none no_lock = true
is_none _ = false

abbrev pub is_acquired : LockStatus → Bool
is_acquired acquired = true
is_acquired _ = false

-- The body of the loop of `hasConflictingFileLock`.
abbrev pub conflicts : LockType → ℕ → LockType → ℕ → Bool
conflicts requested requester type owner =
    if owner == requester
    then false
    else if is_exclusive type
    then true
    else is_exclusive requested && is_shared type

-- The vector behind a key of either table; a missing key has none.
abbrev pub locks_of {ℓ} : {L : Type ℓ} → ℕ → List (ℕ × List L) → List L
locks_of cluster table = elim (lookup cluster table) [ none ↦ [] | some locks ↦ locks ]

unfoldable pub has_conflicting_file_lock : ℕ → LockType → ℕ → Manager → Bool
has_conflicting_file_lock cluster requested requester m =
    any (λ (l : FileLock). conflicts requested requester l.type l.owner_id)
      (locks_of cluster m.file_locks)

unfoldable pub has_conflicting_range_lock : ℕ → ByteRange → LockType → ℕ → Manager → Bool
unfolding overlaps
has_conflicting_range_lock cluster range requested requester m =
    any
      (λ (l : RangeLock). overlaps l.range range && conflicts requested requester l.type l.owner_id)
      (locks_of cluster m.range_locks)

-- `while (conflict) { if (elapsed >= timeoutMs) return TIMEOUT; Sleep(10); }` from the round `i`:
-- whether the loop ended by its test; `none` when the fuel runs out.
unfoldable pub wait : ℕ → Bool → (ℕ → ℕ) → ℕ → ℕ → Option Bool
wait zero conflict elapsed i timeout_ms = none
wait (suc fuel) conflict elapsed i timeout_ms =
    let again = wait fuel conflict elapsed (suc i) timeout_ms in
    if conflict then (if leb timeout_ms (elapsed i) then some false else again) else some true

-- fileLocks[cluster].push_back(newLock)
unfoldable pub add_file_lock : ℕ → List ℕ → LockType → ℕ → Manager → Manager
add_file_lock cluster name type now m =
    let new_lock : FileLock = record {
      file_cluster = cluster;
      file_name = name;
      type = type;
      owner_id = m.current_owner_id;
      acquire_time = now;
    } in
    record m {
      file_locks = insert cluster (locks_of cluster m.file_locks ++ new_lock ∷ []) m.file_locks;
    }

unfoldable pub add_range_lock : ℕ → ByteRange → LockType → ℕ → Manager → Manager
add_range_lock cluster range type now m =
    let new_lock : RangeLock = record {
      file_cluster = cluster;
      range = range;
      type = type;
      owner_id = m.current_owner_id;
      acquire_time = now;
    } in
    record m {
      range_locks = insert cluster (locks_of cluster m.range_locks ++ new_lock ∷ []) m.range_locks;
    }

module _ (fuel : ℕ) (elapsed : ℕ → ℕ) (now : ℕ) where
  unfoldable pub acquire_file_lock :
      ℕ → List ℕ → LockType → ℕ → Manager → Option (Manager × LockStatus)
  acquire_file_lock cluster name type timeout_ms m =
      if is_none type
      then some (m, invalid)
      else elim (wait fuel (has_conflicting_file_lock cluster type m.current_owner_id m) elapsed 0
          timeout_ms) [
            | none ↦ none
            | some ended ↦
                if ended
                then some (add_file_lock cluster name type now m, acquired)
                else some (m, timeout)
          ]

  unfoldable pub acquire_range_lock :
      ℕ → ByteRange → LockType → ℕ → Manager → Option (Manager × LockStatus)
  acquire_range_lock cluster range type timeout_ms m =
      if is_none type
      then some (m, invalid)
      else elim (wait fuel (has_conflicting_range_lock cluster range type m.current_owner_id m)
          elapsed 0 timeout_ms) [
            | none ↦ none
            | some ended ↦
                if ended
                then some (add_range_lock cluster range type now m, acquired)
                else some (m, timeout)
          ]

-- The default argument 0 stands for the manager's own id.
abbrev pub or_current : ℕ → Manager → ℕ
or_current owner m = if owner == 0 then m.current_owner_id else owner

-- The vector without its first lock of the owner; `none` if there is no such lock.
unfoldable pub erase_first {ℓ} : {L : Type ℓ} → (L → Bool) → List L → Option (List L)
erase_first p [] = none
erase_first p (l ∷ ls) =
    if p l then some ls else elim (erase_first p ls) [ none ↦ none | some rest ↦ some (l ∷ rest) ]

-- locks.erase(it); if (locks.empty()) table.erase(cluster);
abbrev pub put_back {ℓ} : {L : Type ℓ} → ℕ → List L → List (ℕ × List L) → List (ℕ × List L)
put_back cluster [] table = erase cluster table
put_back cluster (l ∷ ls) table = insert cluster (l ∷ ls) table

unfoldable pub release_file_lock : ℕ → ℕ → Manager → Manager × Bool
unfolding erase_first
release_file_lock cluster owner m =
    elim (erase_first (λ (l : FileLock). l.owner_id == or_current owner m)
      (locks_of cluster m.file_locks)) [
        | none ↦ (m, false)
        | some rest ↦ (record m { file_locks = put_back cluster rest m.file_locks }, true)
      ]

unfoldable pub release_range_lock : ℕ → ByteRange → ℕ → Manager → Manager × Bool
unfolding erase_first
release_range_lock cluster range owner m =
    elim (erase_first
      (λ (l : RangeLock).
        l.owner_id == or_current owner m
        && (l.range.start == range.start && l.range.len == range.len))
      (locks_of cluster m.range_locks)) [
        | none ↦ (m, false)
        | some rest ↦ (record m { range_locks = put_back cluster rest m.range_locks }, true)
      ]

-- A vector that becomes empty stays in the table.
unfoldable pub release_all_locks : ℕ → Manager → Manager
release_all_locks owner m =
    let id = or_current owner m in
    record m {
      file_locks =
          map (λ (e : ℕ × List FileLock). (e.0, keep (λ l. not (l.owner_id == id)) e.1))
            m.file_locks;
      range_locks =
          map (λ (e : ℕ × List RangeLock). (e.0, keep (λ l. not (l.owner_id == id)) e.1))
            m.range_locks;
    }

-- ScopedFileLock: the constructor, with the flag `held`, and the destructor.
unfoldable pub scoped_enter :
    ℕ → (ℕ → ℕ) → ℕ → ℕ → List ℕ → LockType → ℕ → Manager → Option (Manager × Bool)
scoped_enter fuel elapsed now cluster name type timeout_ms m =
    elim (acquire_file_lock fuel elapsed now cluster name type timeout_ms m) [
      | none ↦ none
      | some (m', status) ↦ some (m', is_acquired status)
    ]

unfoldable pub scoped_leave : ℕ → Bool → Manager → Manager
scoped_leave cluster held m = if held then (release_file_lock cluster 0 m).0 else m

-- ScopedRangeLock
unfoldable pub scoped_range_enter :
    ℕ → (ℕ → ℕ) → ℕ → ℕ → ByteRange → LockType → ℕ → Manager → Option (Manager × Bool)
scoped_range_enter fuel elapsed now cluster range type timeout_ms m =
    elim (acquire_range_lock fuel elapsed now cluster range type timeout_ms m) [
      | none ↦ none
      | some (m', status) ↦ some (m', is_acquired status)
    ]

unfoldable pub scoped_range_leave : ℕ → ByteRange → Bool → Manager → Manager
scoped_range_leave cluster range held m =
    if held then (release_range_lock cluster range 0 m).0 else m
