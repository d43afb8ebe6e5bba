-- ===== src/Locks/Acquire.antt =====
-- acquireFileLock and acquireRangeLock, with the wait by the clock.
use level_fs.Base.{
  ℕ, zero, suc, ◌+◌, ◌*◌, ◌≤◌, ◌<◌, if◌then◌else◌, List, some, ◌≡◌, refl, Bool, true, false, arith,
}
use level_fs.Locks.{
  LockType, LockStatus, acquired, timeout, invalid, ByteRange, Manager, is_none,
  has_conflicting_file_lock, has_conflicting_range_lock, wait, add_file_lock, add_range_lock,
  acquire_file_lock, acquire_range_lock,
}

-- Each round sleeps for ten milliseconds.
abbrev pub Ticks : (ℕ → ℕ) → Type 0
Ticks elapsed = (i : ℕ) → 10 * i ≤ elapsed i

wait_free : (fuel i t : ℕ) (elapsed : ℕ → ℕ) → 0 < fuel → wait fuel false elapsed i t ≡ some true
unfolding wait
wait_free zero i t elapsed h = absurd (omega arith)
wait_free (suc fuel) i t elapsed h = refl

wait_blocked :
    (fuel i t : ℕ) (elapsed : ℕ → ℕ)
    → Ticks elapsed
    → t + 10 ≤ 10 * (fuel + i)
    → 0 < fuel
    → wait fuel true elapsed i t ≡ some false
unfolding wait
wait_blocked zero i t elapsed ticks h p = absurd (omega arith)
wait_blocked (suc zero) i t elapsed ticks h p = ground (arith, ticks i)
wait_blocked (suc (suc fuel)) i t elapsed ticks h p =
    ground (arith, wait_blocked (suc fuel) (suc i) t elapsed ticks (omega arith) (omega arith))

-- What an acquisition answers, by the type asked for and by the conflict.
abbrev pub outcome : LockType → Bool → Manager → Manager → Manager × LockStatus
outcome type conflict m added =
    if is_none type then (m, invalid) else if conflict then (m, timeout) else (added, acquired)

module _ (fuel : ℕ) (elapsed : ℕ → ℕ) (now : ℕ) (ticks : Ticks elapsed) where
  wait_outcome :
      (conflict : Bool) (t : ℕ)
      → t + 10 ≤ 10 * fuel
      → wait fuel conflict elapsed 0 t ≡ some (if conflict then false else true)
  wait_outcome true t h = wait_blocked fuel 0 t elapsed ticks (omega arith) (omega arith)
  wait_outcome false t h = wait_free fuel 0 t elapsed (omega arith)

  -- With a clock that moves on by ten milliseconds a round, fuel for the timeout is enough, and
  -- acquireFileLock answers INVALID for no type, TIMEOUT with the tables unchanged on a conflict, and
  -- otherwise ACQUIRED with the lock appended.
  pub acquire_file_lock-outcome :
      (cluster : ℕ) (name : List ℕ) (type : LockType) (timeout_ms : ℕ) (m : Manager)
      → timeout_ms + 10 ≤ 10 * fuel
      → acquire_file_lock fuel elapsed now cluster name type timeout_ms m
        ≡ some (
            outcome type
              (has_conflicting_file_lock cluster type m.current_owner_id m)
              m
              (add_file_lock cluster name type now m))
  unfolding acquire_file_lock
  acquire_file_lock-outcome cluster name type timeout_ms m h =
      let conflict = has_conflicting_file_lock cluster type m.current_owner_id m in
      rw (wait_outcome conflict timeout_ms h, acquire_file_lock) (ground arith)

  -- The same for acquireRangeLock: with such a clock and fuel for the timeout it answers INVALID for
  -- no type, TIMEOUT with the tables unchanged on a conflict with an overlapping range, and otherwise
  -- ACQUIRED with the lock appended.
  pub acquire_range_lock-outcome :
      (cluster : ℕ) (range : ByteRange) (type : LockType) (timeout_ms : ℕ) (m : Manager)
      → timeout_ms + 10 ≤ 10 * fuel
      → acquire_range_lock fuel elapsed now cluster range type timeout_ms m
        ≡ some (
            outcome type
              (has_conflicting_range_lock cluster range type m.current_owner_id m)
              m
              (add_range_lock cluster range type now m))
  unfolding acquire_range_lock
  acquire_range_lock-outcome cluster range type timeout_ms m h =
      let conflict = has_conflicting_range_lock cluster range type m.current_owner_id m in
      rw (wait_outcome conflict timeout_ms h, acquire_range_lock) (ground arith)
