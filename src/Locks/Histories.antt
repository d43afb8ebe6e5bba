-- ===== src/Locks/Histories.antt =====
-- Histories of the calls of one process to FileLockManager.
use level_fs.Base.{
  ℕ, ◌+◌, ◌*◌, ◌≤◌, ◌==◌, List, [], ◌∷◌, ◌++◌, Option, none, some, ◌≡◌, refl, sym, ap, ◌∙◌, true,
  false, ◌&&◌, not, inl, inr, Bool-cases, Option-cases, All-keep, ==_refl,
}
use level_fs.Locks.Acquire.{Ticks}
use level_fs.Locks.Table.{locks_of-put_back, locks_of-keep, erase_first-All}
use level_fs.Locks.Release.{IsOwn, add_file_lock-IsOwn, own_no_conflict}
use level_fs.Locks.Granted.{blocked, conflicts-blocked, acquire_file_lock-IsAnswer}
use level_fs.Locks.{
  LockType, LockStatus, acquired, ByteRange, FileLock, RangeLock, Manager, add_range_lock, is_none,
  locks_of, has_conflicting_file_lock, has_conflicting_range_lock, wait, acquire_file_lock,
  acquire_range_lock, erase_first, or_current, release_file_lock, release_range_lock,
  release_all_locks,
}

-- The calls that change the tables, an acquisition with its clock and its fuel.
pub data Call : Type 0 where
  take_file : ℕ → (ℕ → ℕ) → ℕ → ℕ → List ℕ → LockType → ℕ → Call
  take_range : ℕ → (ℕ → ℕ) → ℕ → ℕ → ByteRange → LockType → ℕ → Call
  give_file : ℕ → ℕ → Call
  give_range : ℕ → ByteRange → ℕ → Call
  give_all : ℕ → Call

-- The tables after an acquisition; one that is still waiting has not changed them.
abbrev pub tables_after : Option (Manager × LockStatus) → Manager → Manager
tables_after none m = m
tables_after (some r) m = r.0

unfoldable pub perform : Call → Manager → Manager
perform (take_file fuel elapsed now cluster name type timeout_ms) m =
    tables_after (acquire_file_lock fuel elapsed now cluster name type timeout_ms m) m
perform (take_range fuel elapsed now cluster range type timeout_ms) m =
    tables_after (acquire_range_lock fuel elapsed now cluster range type timeout_ms m) m
perform (give_file cluster owner) m = (release_file_lock cluster owner m).0
perform (give_range cluster range owner) m = (release_range_lock cluster range owner m).0
perform (give_all owner) m = release_all_locks owner m

unfoldable pub perform_all : List Call → Manager → Manager
perform_all [] m = m
perform_all (call ∷ calls) m = perform_all calls (perform call m)

-- The constructor's tables, for a process.
abbrev pub new_manager : ℕ → Manager
new_manager owner = record { file_locks = []; range_locks = []; current_owner_id = owner }

acquire_file_lock-IsOwn :
    (fuel now : ℕ) (elapsed : ℕ → ℕ) (cluster : ℕ) (name : List ℕ) (type : LockType)
    (timeout_ms : ℕ) (m : Manager)
    → IsOwn m
    → IsOwn (tables_after (acquire_file_lock fuel elapsed now cluster name type timeout_ms m) m)
unfolding acquire_file_lock
acquire_file_lock-IsOwn fuel now elapsed cluster name type timeout_ms m h =
    let conflict = has_conflicting_file_lock cluster type m.current_owner_id m in
    elim (Bool-cases (is_none type)) [
      | inl e ↦ rw e h
      | inr e ↦ elim (Option-cases (wait fuel conflict elapsed 0 timeout_ms)) [
        | inl f ↦ rw (e, f) h
        | inr (true, f) ↦ rw (e, f) (add_file_lock-IsOwn cluster name type now m h)
        | inr (false, f) ↦ rw (e, f) h
      ]
    ]

acquire_range_lock-IsOwn :
    (fuel now : ℕ) (elapsed : ℕ → ℕ) (cluster : ℕ) (range : ByteRange) (type : LockType)
    (timeout_ms : ℕ) (m : Manager)
    → IsOwn m
    → IsOwn (tables_after (acquire_range_lock fuel elapsed now cluster range type timeout_ms m) m)
unfolding acquire_range_lock add_range_lock
acquire_range_lock-IsOwn fuel now elapsed cluster range type timeout_ms m h =
    let conflict = has_conflicting_range_lock cluster range type m.current_owner_id m in
    elim (Bool-cases (is_none type)) [
      | inl e ↦ rw e h
      | inr e ↦ elim (Option-cases (wait fuel conflict elapsed 0 timeout_ms)) [
        | inl f ↦ rw (e, f) h
        | inr (true, f) ↦ rw (e, f) h
        | inr (false, f) ↦ rw (e, f) h
      ]
    ]

release_file_lock-IsOwn :
    (cluster owner : ℕ) (m : Manager) → IsOwn m → IsOwn (release_file_lock cluster owner m).0
unfolding release_file_lock
release_file_lock-IsOwn cluster owner m h k =
    let p = λ (l : FileLock). l.owner_id == or_current owner m in
    elim (Option-cases (erase_first p (locks_of cluster m.file_locks))) [
      | inl gone ↦ rw (gone, release_file_lock) (h k)
      | inr (rest, found) ↦
          rw (found, release_file_lock, locks_of-put_back cluster k rest m.file_locks)
            (elim (Bool-cases (cluster == k)) [
              | inl same ↦ rw same (
                  erase_first-All (λ (l : FileLock). l.owner_id ≡ m.current_owner_id) p
                    (locks_of cluster m.file_locks) rest found (h cluster))
              | inr other ↦ rw other (h k)
            ])
    ]

release_range_lock-IsOwn :
    (cluster owner : ℕ) (range : ByteRange) (m : Manager)
    → IsOwn m
    → IsOwn (release_range_lock cluster range owner m).0
unfolding release_range_lock
release_range_lock-IsOwn cluster owner range m h =
    elim (Option-cases (
      erase_first
        (λ (l : RangeLock).
          l.owner_id == or_current owner m
          && (l.range.start == range.start && l.range.len == range.len))
        (locks_of cluster m.range_locks))) [
          | inl gone ↦ rw (gone, release_range_lock) h
          | inr (rest, found) ↦ rw (found, release_range_lock) h
        ]

release_all_locks-IsOwn : (owner : ℕ) (m : Manager) → IsOwn m → IsOwn (release_all_locks owner m)
unfolding release_all_locks
release_all_locks-IsOwn owner m h k =
    rw (locks_of-keep (λ (l : FileLock). not (l.owner_id == or_current owner m)) k m.file_locks) (
      All-keep (λ (l : FileLock). l.owner_id ≡ m.current_owner_id)
        (λ (l : FileLock). not (l.owner_id == or_current owner m)) (locks_of k m.file_locks) (h k))

perform-IsOwn : (call : Call) (m : Manager) → IsOwn m → IsOwn (perform call m)
unfolding perform
perform-IsOwn (take_file fuel elapsed now cluster name type timeout_ms) m h =
    acquire_file_lock-IsOwn fuel now elapsed cluster name type timeout_ms m h
perform-IsOwn (take_range fuel elapsed now cluster range type timeout_ms) m h =
    acquire_range_lock-IsOwn fuel now elapsed cluster range type timeout_ms m h
perform-IsOwn (give_file cluster owner) m h = release_file_lock-IsOwn cluster owner m h
perform-IsOwn (give_range cluster range owner) m h =
    release_range_lock-IsOwn cluster owner range m h
perform-IsOwn (give_all owner) m h = release_all_locks-IsOwn owner m h

perform_all-IsOwn : (calls : List Call) (m : Manager) → IsOwn m → IsOwn (perform_all calls m)
unfolding perform_all
perform_all-IsOwn [] m h = h
perform_all-IsOwn (call ∷ calls) m h =
    perform_all-IsOwn calls (perform call m) (perform-IsOwn call m h)

own_free :
    (m : Manager) (cluster : ℕ) (type : LockType)
    → IsOwn m
    → blocked type m.current_owner_id (locks_of cluster m.file_locks) ≡ false
own_free m cluster type h =
    sym (conflicts-blocked type m.current_owner_id (locks_of cluster m.file_locks))
    ∙ own_no_conflict m.current_owner_id type (locks_of cluster m.file_locks) (h cluster)

-- Within one process the file locks exclude nothing: after any history of calls to a new manager, a
-- request for a shared or an exclusive lock is granted, whatever is locked already and even without
-- time to wait, and the new lock then stands behind the ones that were on the file. The clock moves on
-- by ten milliseconds a round, and the fuel is for the timeout.
pub acquire_file_lock-perform_all :
    (calls : List Call) (owner fuel now : ℕ) (elapsed : ℕ → ℕ) (cluster : ℕ) (name : List ℕ)
    (type : LockType) (timeout_ms : ℕ)
    → Ticks elapsed
    → timeout_ms + 10 ≤ 10 * fuel
    → is_none type ≡ false
    → let m = perform_all calls (new_manager owner) in
      (m' : Manager) × (acquire_file_lock fuel elapsed now cluster name type timeout_ms m
        ≡ some (m', acquired))
      × (locks_of cluster m'.file_locks
          ≡ locks_of cluster m.file_locks
            ++ record {
              file_cluster = cluster;
              file_name = name;
              type = type;
              owner_id = m.current_owner_id;
              acquire_time = now;
            }
              ∷ [])
acquire_file_lock-perform_all calls owner fuel now elapsed cluster name type timeout_ms ticks enough
      asked =
    let m = perform_all calls (new_manager owner) in
    let own : IsOwn m = perform_all-IsOwn calls (new_manager owner) (λ k. tt) in
    let free = own_free m cluster type own in
    let ((m', status), answered, is_answer) =
      acquire_file_lock-IsAnswer fuel now elapsed cluster name type timeout_ms m ticks enough in
    let granted : status ≡ acquired = is_answer.status ∙ rw (asked, free) refl in
    (
      m',
      answered ∙ ap (λ s. some (m', s)) granted,
      is_answer.locks cluster ∙ rw (asked, free, ==_refl cluster) refl,
    )
