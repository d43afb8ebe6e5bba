-- ===== src/Scheduler/Table/Managed.antt =====
-- The invariant of the table, operation by operation.
use level_fs.Base.{
  ℕ, ◌<◌, ◌≤◌, ◌≢◌, ◌≡◌, ◌⊎◌, refl, ap, ◌==◌, if◌then◌else◌, [], ◌∷◌, Option, none, some, Bool,
  true, false, ◌||◌, ◌||◌, not, lookup, insert, All, keys, Distinct, arith, Bool-cases, inl, inr,
}
use level_fs.Scheduler.Table.{
  ManagedProcess, Entries, Scheduler, still_active, stopped, update_single_process_status,
  update_entries,
}

-- An entry below the next identifier, under its own, with handles while it runs.
pub record IsEntry (next : ℕ) (e : ℕ × ManagedProcess) : Type 0 where
  pub below : e.0 < next
  pub own_pid : e.1.pid ≡ e.0
  pub handled : e.1.is_running ≡ true → e.1.process_handle ≢ 0

pub record IsManaged (s : Scheduler) : Type 0 where
  pub from_one : 0 < s.next_pid
  pub entries : All (IsEntry s.next_pid) s.processes
  pub unique : Distinct (keys s.processes)

module _ (P : (ℕ × ManagedProcess) → Type 0) (pid : ℕ) (proc : ManagedProcess)
    (new : P (pid, proc)) where
  pub All-insert : (m : Entries) → All P m → All P (insert pid proc m)
  All-insert [] _ = (new, tt)
  All-insert ((k, p) ∷ m) (h, hs) = elim (Bool-cases (pid == k)) [
    | inl e ↦ rw e (new, hs)
    | inr e ↦ rw e (h, All-insert m hs)
  ]

pub All-lookup :
    (P : (ℕ × ManagedProcess) → Type 0) (pid : ℕ) (proc : ManagedProcess) (m : Entries)
    → All P m
    → lookup pid m ≡ some proc
    → P (pid, proc)
All-lookup P pid proc [] _ h = cc
All-lookup P pid proc ((k, p) ∷ m) (h, hs) e = elim (Bool-cases (pid == k)) [
  | inl same ↦
      let at : k ≡ pid = ground (arith, same) in
      let found : p ≡ proc = ground (arith, same) in rw (← at, ← found) h
  | inr other ↦ All-lookup P pid proc m hs (ground (arith, other))
]

pub keys-update_entries :
    (codes : ℕ → Option ℕ) (m : Entries) → keys (update_entries codes m) ≡ keys m
unfolding update_entries
keys-update_entries codes [] = refl
keys-update_entries codes ((pid, proc) ∷ m) = ap (λ ks. pid ∷ ks) (keys-update_entries codes m)

if-cases :
    {x y p q : ManagedProcess} (b : Bool)
    → (x ≡ p) ⊎ (x ≡ q)
    → (y ≡ p) ⊎ (y ≡ q)
    → ((if b then x else y) ≡ p) ⊎ ((if b then x else y) ≡ q)
if-cases true hx hy = hx
if-cases false hx hy = hy

pub update_single_process_status-cases :
    (codes : ℕ → Option ℕ) (proc : ManagedProcess)
    → (update_single_process_status codes proc ≡ proc)
      ⊎ (update_single_process_status codes proc ≡ stopped proc)
unfolding update_single_process_status
update_single_process_status-cases codes proc =
    if-cases (not proc.is_running || proc.process_handle == 0) (inl refl)
      (elim (codes proc.process_handle)
        as (λ o.
          ((elim o [
            | none ↦ proc
            | some code ↦ if code == still_active then proc else stopped proc
          ])
            ≡ proc)
          ⊎ ((elim o [
            | none ↦ proc
            | some code ↦ if code == still_active then proc else stopped proc
          ])
              ≡ stopped proc)) [
                | none ↦ inl refl
                | some code ↦ if-cases (code == still_active) (inl refl) (inr refl)
              ])

pub stopped-IsEntry :
    (next pid : ℕ) (proc : ManagedProcess)
    → IsEntry next (pid, proc)
    → IsEntry next (pid, stopped proc)
stopped-IsEntry next pid proc h = record { below = h.below; own_pid = h.own_pid; handled = λ e. cc }

-- A change of the status touches neither the identifier nor a handle, and starts nothing.
update_single_process_status-IsEntry :
    (codes : ℕ → Option ℕ) (next pid : ℕ) (proc : ManagedProcess)
    → IsEntry next (pid, proc)
    → IsEntry next (pid, update_single_process_status codes proc)
update_single_process_status-IsEntry codes next pid proc h =
    elim (update_single_process_status-cases codes proc) [
      | inl e ↦ rw e h
      | inr e ↦ rw e (stopped-IsEntry next pid proc h)
    ]

pub update_entries-IsEntry :
    (codes : ℕ → Option ℕ) (next : ℕ) (m : Entries)
    → All (IsEntry next) m
    → All (IsEntry next) (update_entries codes m)
unfolding update_entries
update_entries-IsEntry codes next [] _ = tt
update_entries-IsEntry codes next ((pid, proc) ∷ m) (h, hs) = (
  update_single_process_status-IsEntry codes next pid proc h,
  update_entries-IsEntry codes next m hs,
)

pub All-next : (n n' : ℕ) (m : Entries) → n ≤ n' → All (IsEntry n) m → All (IsEntry n') m
All-next n n' [] le _ = tt
All-next n n' (e ∷ m) le (h, hs) = (
  record { below = omega (arith, h.below); own_pid = h.own_pid; handled = h.handled },
  All-next n n' m le hs,
)

-- No entry has the identifier that is next.
pub fresh_key : (n : ℕ) (m : Entries) → All (IsEntry n) m → lookup n m ≡ none
fresh_key n [] _ = refl
fresh_key n ((k, p) ∷ m) (h, hs) = ground (arith, fresh_key n m hs, h.below)
