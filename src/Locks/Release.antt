-- ===== src/Locks/Release.antt =====
-- releaseFileLock, ScopedFileLock, and tables whose locks have one owner.
use level_fs.Base.{
  ℕ, ◌==◌, if◌then◌else◌, List, [], ◌∷◌, ◌++◌, none, some, ◌≡◌, refl, Bool, true, false, inl, inr,
  arith, Bool-cases, Option-cases, All, All-append, any, ◌∙◌, if_true, ==_refl,
}
use level_fs.Locks.Table.{locks_of-insert, locks_of-put_back}
use level_fs.Locks.{
  LockType, FileLock, Manager, conflicts, locks_of, add_file_lock, erase_first, release_file_lock,
  scoped_leave, put_back,
}

-- All locks of the table belong to the manager's own process.
abbrev pub IsOwn : Manager → Type 0
IsOwn m =
    (cluster : ℕ)
    → All (λ (l : FileLock). l.owner_id ≡ m.current_owner_id) (locks_of cluster m.file_locks)

pub own_no_conflict :
    (owner : ℕ) (type : LockType) (xs : List FileLock)
    → All (λ (l : FileLock). l.owner_id ≡ owner) xs
    → any (λ (l : FileLock). conflicts type owner l.type l.owner_id) xs ≡ false
own_no_conflict owner type [] h = refl
own_no_conflict owner type (x ∷ xs) h = ground (arith, own_no_conflict owner type xs h.1)

pub add_file_lock-IsOwn :
    (cluster : ℕ) (name : List ℕ) (type : LockType) (now : ℕ) (m : Manager)
    → IsOwn m
    → IsOwn (add_file_lock cluster name type now m)
unfolding add_file_lock
add_file_lock-IsOwn cluster name type now m h k = elim (Bool-cases (cluster == k)) [
  | inl same ↦
      rw (locks_of-insert cluster k _ m.file_locks, same)
        (All-append (λ (l : FileLock). l.owner_id ≡ m.current_owner_id)
          (locks_of cluster m.file_locks) _ (h cluster) (refl, tt))
  | inr other ↦ rw (locks_of-insert cluster k _ m.file_locks, other) (h k)
]

erase_first-snoc_absent :
    {L : Type 0} (p : L → Bool) (xs : List L) (y : L)
    → any p xs ≡ false
    → p y ≡ true
    → erase_first p (xs ++ y ∷ []) ≡ some xs
unfolding erase_first
erase_first-snoc_absent p [] y h e = ground arith
erase_first-snoc_absent p (x ∷ xs) y h e = ground (arith, erase_first-snoc_absent p xs y)

erase_first-snoc_present :
    {L : Type 0} (p : L → Bool) (xs rest : List L) (y : L)
    → erase_first p xs ≡ some rest
    → erase_first p (xs ++ y ∷ []) ≡ some (rest ++ y ∷ [])
unfolding erase_first
erase_first-snoc_present p [] rest y e = cc
erase_first-snoc_present p (x ∷ xs) rest y e = elim (Bool-cases (p x)) [
  | inl here ↦ ground arith
  | inr later ↦ elim (Option-cases (erase_first p xs)) [
    | inl gone ↦ ground arith
    | inr (r, found) ↦ ground (arith, erase_first-snoc_present p xs r y found)
  ]
]

-- What the scope's release leaves on a file, by whether the owner had a lock there before.
abbrev pub left_over : ℕ → FileLock → List FileLock → List FileLock
left_over owner new locks = elim (erase_first (λ (l : FileLock). l.owner_id == owner) locks) [
  | none ↦ locks
  | some rest ↦ rest ++ new ∷ []
]

erase_first-none :
    {L : Type 0} (p : L → Bool) (xs : List L) → erase_first p xs ≡ none → any p xs ≡ false
unfolding erase_first
erase_first-none p [] e = refl
erase_first-none p (x ∷ xs) e = ground (arith, erase_first-none p xs)

erase_first-left_over :
    (owner : ℕ) (new : FileLock) (xs : List FileLock)
    → new.owner_id ≡ owner
    → erase_first (λ (l : FileLock). l.owner_id == owner) (xs ++ new ∷ [])
      ≡ some (left_over owner new xs)
erase_first-left_over owner new xs o =
    let p = λ (l : FileLock). l.owner_id == owner in
    elim (Option-cases (erase_first p xs)) [
      | inl gone ↦
          rw (gone, left_over)
            (erase_first-snoc_absent p xs new (erase_first-none p xs gone) (ground arith))
      | inr (rest, found) ↦ rw (found, left_over) (erase_first-snoc_present p xs rest new found)
    ]

abbrev pub new_lock : ℕ → List ℕ → LockType → ℕ → Manager → FileLock
new_lock cluster name type now m = record {
  file_cluster = cluster;
  file_name = name;
  type = type;
  owner_id = m.current_owner_id;
  acquire_time = now;
}

release_file_lock-found :
    (cluster : ℕ) (m : Manager) (rest : List FileLock)
    → erase_first
        (λ (l : FileLock). l.owner_id == m.current_owner_id)
        (locks_of cluster m.file_locks)
      ≡ some rest
    → (release_file_lock cluster 0 m).0.file_locks ≡ put_back cluster rest m.file_locks
unfolding release_file_lock
release_file_lock-found cluster m rest e = rw (e, release_file_lock)

pub add_file_lock-locks_of :
    (cluster j : ℕ) (name : List ℕ) (type : LockType) (now : ℕ) (m : Manager)
    → locks_of j (add_file_lock cluster name type now m).file_locks ≡ (
        if cluster == j
        then locks_of cluster m.file_locks ++ new_lock cluster name type now m ∷ []
        else locks_of j m.file_locks)
unfolding add_file_lock
add_file_lock-locks_of cluster j name type now m = locks_of-insert cluster j _ m.file_locks

-- A scope whose lock was granted leaves every other file alone. On its own file it leaves what was
-- there if the owner had no lock on it before; else it takes the owner's older lock away and leaves
-- its own behind.
pub scoped_leave-locks_of :
    (cluster j : ℕ) (name : List ℕ) (type : LockType) (now : ℕ) (m : Manager)
    → locks_of j (scoped_leave cluster true (add_file_lock cluster name type now m)).file_locks ≡ (
        if cluster == j
        then left_over m.current_owner_id
            (new_lock cluster name type now m)
            (locks_of cluster m.file_locks)
        else locks_of j m.file_locks)
unfolding scoped_leave add_file_lock
scoped_leave-locks_of cluster j name type now m =
    let added = add_file_lock cluster name type now m in
    let new = new_lock cluster name type now m in
    let left = left_over m.current_owner_id new (locks_of cluster m.file_locks) in
    let on_file : locks_of cluster added.file_locks ≡ locks_of cluster m.file_locks ++ new ∷ [] =
      add_file_lock-locks_of cluster cluster name type now m
      ∙ if_true (cluster == cluster) _ _ (==_refl cluster) in
    rw
      (release_file_lock-found cluster added left
        (rw on_file (erase_first-left_over m.current_owner_id new _ refl)))
      (ground (
        arith,
        locks_of-put_back cluster j left added.file_locks,
        add_file_lock-locks_of cluster j name type now m,
      ))
