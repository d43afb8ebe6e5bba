-- ===== src/Scheduler/Table/Stopped.antt =====
-- What stays of a process once it has stopped, and what the destructor leaves open.
use level_fs.Base.{
  ℕ, ◌+◌, ◌*◌, ◌^◌, ◌<◌, ◌≡◌, refl, ◌==◌, List, [], ◌∷◌, Option, none, some, Bool, false, not, keep,
  lookup, insert, String, length, length-append, All, All-keep, mem, keys, Distinct, arith,
  Option-cases, Bool-cases, inl, inr,
}
use level_fs.Scheduler.Table.{
  ManagedProcess, Entries, Scheduler, update_single_process_status, update_entries, running,
  handles_of_running, destroy, is_process_running, new_scheduler,
}
use level_fs.Scheduler.Table.Calls.{Call, perform, perform_all, started}
use level_fs.Scheduler.Table.Managed.{IsManaged, All-insert, All-lookup}
use level_fs.Scheduler.Table.Steps.{
  Step, idle, spawned, changed, killed, polled, cleaned, IsAnswered, perform-Step,
  update_single_process_status-Continues,
}
use level_fs.Scheduler.Table.Histories.{Step-next, perform_all-next, perform_all-handles, held}

-- No entry under the identifier is running.
abbrev IsDead : ℕ → (ℕ × ManagedProcess) → Type 0
IsDead pid e = e.0 ≡ pid → e.1.is_running ≡ false

update_entries-IsDead :
    (codes : ℕ → Option ℕ) (pid : ℕ) (m : Entries)
    → All (IsDead pid) m
    → All (IsDead pid) (update_entries codes m)
unfolding update_entries
update_entries-IsDead codes pid [] _ = tt
update_entries-IsDead codes pid ((k, p) ∷ m) (h, hs) = (
  λ e. (update_single_process_status-Continues codes p).not_restarted (h e),
  update_entries-IsDead codes pid m hs,
)

Step-IsDead :
    {s s' : Scheduler} {r : ℕ} (pid : ℕ)
    → Step s s' r
    → pid < s.next_pid
    → All (IsDead pid) s.processes
    → All (IsDead pid) s'.processes
Step-IsDead {s} pid (idle m c low high r) below h = rw m h
Step-IsDead {s} pid (spawned proc m c next r own real) below h =
    rw m (All-insert (IsDead pid) s.next_pid proc (λ e. absurd (omega (arith, e))) s.processes h)
Step-IsDead {s} pid (changed k old new e m c next r on) below h = rw m (
    All-insert (IsDead pid) k new
      (λ same. on.not_restarted (All-lookup (IsDead pid) k old s.processes h e same)) s.processes h)
Step-IsDead {s} pid (killed k old new e m c next r real null dead own) below h =
    rw m (All-insert (IsDead pid) k new (λ same. dead) s.processes h)
Step-IsDead {s} pid (polled codes m c next r) below h =
    rw m (update_entries-IsDead codes pid s.processes h)
Step-IsDead {s} pid (cleaned codes m c next r) below h = rw m (
    All-keep (IsDead pid) running (update_entries codes s.processes)
      (update_entries-IsDead codes pid s.processes h))

perform_all-IsDead :
    (pid : ℕ) (cs : List Call) (s : Scheduler)
    → All IsAnswered cs
    → s.next_pid + length cs < 2 ^ 32
    → pid < s.next_pid
    → All (IsDead pid) s.processes
    → All (IsDead pid) (perform_all cs s).processes
unfolding perform_all
perform_all-IsDead pid [] s _ bound below h = h
perform_all-IsDead pid (c ∷ cs) s (a, as_rest) bound below h =
    let st = perform-Step c s a (omega (arith, bound)) in
    perform_all-IsDead pid cs (perform c s).0 as_rest (perform_all-next cs c s st bound)
      (omega (arith, Step-next st)) (Step-IsDead pid st below h)

absent-IsDead : (pid : ℕ) (m : Entries) → lookup pid m ≡ none → All (IsDead pid) m
absent-IsDead pid [] _ = tt
absent-IsDead pid ((k, p) ∷ m) h =
    ((λ e. absurd (ground (arith, h, e))), absent-IsDead pid m (ground (arith, h)))

other-IsDead : (pid : ℕ) (m : Entries) → mem pid (keys m) ≡ false → All (IsDead pid) m
other-IsDead pid [] _ = tt
other-IsDead pid ((k, p) ∷ m) h =
    ((λ e. absurd (ground (arith, h, e))), other-IsDead pid m (ground (arith, h)))

-- An insertion under the identifier of a process that does not run.
insert-IsDead :
    (pid : ℕ) (old new : ManagedProcess) (m : Entries)
    → Distinct (keys m)
    → lookup pid m ≡ some old
    → new.is_running ≡ false
    → All (IsDead pid) (insert pid new m)
insert-IsDead pid old new [] d e h = cc
insert-IsDead pid old new ((k, p) ∷ m) d e h = elim (Bool-cases (pid == k)) [
  | inl same ↦ rw same ((λ _. h), other-IsDead pid m (ground (arith, same, d.0)))
  | inr other ↦ rw other (
    (λ at. absurd (ground (arith, other, at))),
    insert-IsDead pid old new m d.1 (ground (arith, other, e)) h,
  )
]

is_process_running-IsDead :
    (codes : ℕ → Option ℕ) (pid : ℕ) (s : Scheduler)
    → Distinct (keys s.processes)
    → (is_process_running codes pid s).1 ≡ false
    → All (IsDead pid) (is_process_running codes pid s).0.processes
unfolding is_process_running
is_process_running-IsDead codes pid s d h = elim (Option-cases (lookup pid s.processes)) [
  | inl e ↦ rw (e, is_process_running) (absent-IsDead pid s.processes e)
  | inr (proc, e) ↦
      rw (e, is_process_running)
        (insert-IsDead pid proc (update_single_process_status codes proc) s.processes d e
          (rw (e, is_process_running) at h))
]

IsDead-is_process_running :
    (codes : ℕ → Option ℕ) (pid : ℕ) (s : Scheduler)
    → All (IsDead pid) s.processes
    → (is_process_running codes pid s).1 ≡ false
unfolding is_process_running
IsDead-is_process_running codes pid s h = elim (Option-cases (lookup pid s.processes)) [
  | inl e ↦ rw (e, is_process_running) refl
  | inr (proc, e) ↦
      rw (e, is_process_running)
        ((update_single_process_status-Continues codes proc).not_restarted
          (All-lookup (IsDead pid) pid proc s.processes h e refl))
]

is_process_running-next :
    (codes : ℕ → Option ℕ) (pid : ℕ) (s : Scheduler)
    → (is_process_running codes pid s).0.next_pid ≡ s.next_pid
unfolding is_process_running
is_process_running-next codes pid s = elim (Option-cases (lookup pid s.processes)) [
  | inl e ↦ rw (e, is_process_running) refl
  | inr (proc, e) ↦ rw (e, is_process_running) refl
]

-- Once isProcessRunning has denied an identifier that has been given out, it denies it after every
-- further history of calls, whatever the operating system answers, as long as the identifiers do not
-- wrap around and CreateProcess hands out no NULL handle.
pub is_process_running-perform_all :
    (codes codes' : ℕ → Option ℕ) (pid : ℕ) (cs : List Call) (s : Scheduler)
    → IsManaged s
    → pid < s.next_pid
    → (is_process_running codes pid s).1 ≡ false
    → All IsAnswered cs
    → s.next_pid + length cs < 2 ^ 32
    → (is_process_running codes' pid (perform_all cs (is_process_running codes pid s).0)).1 ≡ false
is_process_running-perform_all codes codes' pid cs s v below h real bound =
    IsDead-is_process_running codes' pid (perform_all cs (is_process_running codes pid s).0) (
      perform_all-IsDead pid cs (is_process_running codes pid s).0 real
        (omega (arith, bound, is_process_running-next codes pid s))
        (omega (arith, below, is_process_running-next codes pid s))
        (is_process_running-IsDead codes pid s v.unique h))

abbrev new_scheduler-IsManaged :
    (startup : Option String) (configured : Bool) → IsManaged (new_scheduler startup configured)
new_scheduler-IsManaged startup configured = record {
  from_one = omega arith;
  entries = tt;
  unique = tt;
}

-- Handles of the processes that have stopped but were not removed.
abbrev pub left_open : Entries → ℕ
left_open m = held (keep (λ e. not (running e)) m)

held-running : (m : Entries) → length (handles_of_running m) + left_open m ≡ held m
unfolding held handles_of_running
held-running [] = omega arith
held-running ((pid, proc) ∷ m) = ground (arith, held-running m)

-- After every history of calls on a new scheduler, two handles have been closed or are still held for
-- each process that was started, as long as the identifiers do not wrap around and CreateProcess hands
-- out no NULL handle; and the destructor then closes them all, but for two of each process that has
-- stopped by itself and was not cleaned up.
pub perform_all-closed :
    (startup : Option String) (configured : Bool) (cs : List Call)
    → All IsAnswered cs
    → 1 + length cs < 2 ^ 32
    → (length (perform_all cs (new_scheduler startup configured)).closed
          + held (perform_all cs (new_scheduler startup configured)).processes
        ≡ 2 * started cs (new_scheduler startup configured))
      × (length (destroy (perform_all cs (new_scheduler startup configured))).closed
            + left_open (perform_all cs (new_scheduler startup configured)).processes
          ≡ 2 * started cs (new_scheduler startup configured))
unfolding destroy
perform_all-closed startup configured cs real bound =
    let s = perform_all cs (new_scheduler startup configured) in
    let kept =
      perform_all-handles cs (new_scheduler startup configured) real bound
        (new_scheduler-IsManaged startup configured) in
    let none_held : held [] ≡ 0 = unfold held in refl in
    (
      omega (arith, kept, none_held),
      omega (
        arith,
        kept,
        none_held,
        held-running s.processes,
        length-append s.closed (handles_of_running s.processes),
      ),
    )
