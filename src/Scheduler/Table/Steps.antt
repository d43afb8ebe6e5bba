-- ===== src/Scheduler/Table/Steps.antt =====
-- What one call does to the table, as a relation between the states before and after it.
use level_fs.Base.{
  ℕ, ◌+◌, ◌%◌, ◌^◌, ◌<◌, ◌≤◌, ◌≢◌, ◌≡◌, refl, ◌∙◌, ◌&&◌, ◌==◌, if◌then◌else◌, [], ◌∷◌, ◌++◌, Option,
  none, some, Bool, true, false, not, keep, lookup, insert, String, is_empty, arith, Option-cases,
  Bool-cases, inl, inr,
}
use level_fs.Scheduler.Prc.{ProcessDefinition, parse}
use level_fs.Scheduler.Table.{
  ManagedProcess, Spawned, Scheduler, stopped, managed, save_startup_process, executable,
  add_process, start_process, start_from_prc_file, kill_found, kill_process,
  update_single_process_status, update_entries, update_process_statuses, running,
  cleanup_terminated, is_process_running, monitor_process, handles_of_stopped, command_buffer,
  command_line, join_args,
}
use level_fs.Scheduler.Table.Calls.{
  Call, start, start_text, kill, refresh, ask, cleanup, exit, perform,
}
use level_fs.Scheduler.Table.Managed.{update_single_process_status-cases}

-- An entry that goes on with the same handles, and does not start again.
pub record Continues (old new : ManagedProcess) : Type 0 where
  pub same_pid : new.pid ≡ old.pid
  pub same_handle : new.process_handle ≡ old.process_handle
  pub not_restarted : old.is_running ≡ false → new.is_running ≡ false

pub data Step (s s' : Scheduler) (r : ℕ) : Type 0 where
  idle :
      s'.processes ≡ s.processes
      → s'.closed ≡ s.closed
      → s.next_pid ≤ s'.next_pid
      → s'.next_pid ≤ s.next_pid + 1
      → r ≡ 0
      → Step s s' r
  spawned :
      (proc : ManagedProcess)
      → s'.processes ≡ insert s.next_pid proc s.processes
      → s'.closed ≡ s.closed
      → s'.next_pid ≡ s.next_pid + 1
      → r ≡ s.next_pid
      → proc.pid ≡ s.next_pid
      → proc.process_handle ≢ 0
      → Step s s' r
  changed :
      (pid : ℕ) (old new : ManagedProcess)
      → lookup pid s.processes ≡ some old
      → s'.processes ≡ insert pid new s.processes
      → s'.closed ≡ s.closed
      → s'.next_pid ≡ s.next_pid
      → r ≡ 0
      → Continues old new
      → Step s s' r
  killed :
      (pid : ℕ) (old new : ManagedProcess)
      → lookup pid s.processes ≡ some old
      → s'.processes ≡ insert pid new s.processes
      → s'.closed ≡ s.closed ++ old.process_handle ∷ old.thread_handle ∷ []
      → s'.next_pid ≡ s.next_pid
      → r ≡ 0
      → old.process_handle ≢ 0
      → new.process_handle ≡ 0
      → new.is_running ≡ false
      → new.pid ≡ old.pid
      → Step s s' r
  polled :
      (codes : ℕ → Option ℕ)
      → s'.processes ≡ update_entries codes s.processes
      → s'.closed ≡ s.closed
      → s'.next_pid ≡ s.next_pid
      → r ≡ 0
      → Step s s' r
  cleaned :
      (codes : ℕ → Option ℕ)
      → s'.processes ≡ keep running (update_entries codes s.processes)
      → s'.closed ≡ s.closed ++ handles_of_stopped (update_entries codes s.processes)
      → s'.next_pid ≡ s.next_pid
      → r ≡ 0
      → Step s s' r

pub stopped-Continues : (proc : ManagedProcess) → Continues proc (stopped proc)
stopped-Continues proc = record { same_pid = refl; same_handle = refl; not_restarted = λ _. refl }

pub update_single_process_status-Continues :
    (codes : ℕ → Option ℕ) (proc : ManagedProcess)
    → Continues proc (update_single_process_status codes proc)
update_single_process_status-Continues codes proc =
    elim (update_single_process_status-cases codes proc) [
      | inl e ↦ rw e (record { same_pid = refl; same_handle = refl; not_restarted = λ h. h })
      | inr e ↦ rw e (stopped-Continues proc)
    ]

-- A process handle that CreateProcessA hands out is never NULL.
abbrev pub IsReal : (String → Option Spawned) → Type 0
IsReal create = (text : String) (sp : Spawned) → create text ≡ some sp → sp.process ≢ 0

-- Saving a definition leaves the table alone.
saved_fields :
    (b : Bool) (def : ProcessDefinition) (s : Scheduler)
    → let s' = if b then save_startup_process def s else s in
      (s'.processes ≡ s.processes) × (s'.closed ≡ s.closed) × (s'.next_pid ≡ s.next_pid)
unfolding save_startup_process
saved_fields b def s = ground arith

add_process-Step :
    (def : ProcessDefinition) (o : Option Spawned) (s : Scheduler) (n : ℕ)
    → ((sp : Spawned) → o ≡ some sp → sp.process ≢ 0)
    → n ≡ s.next_pid + 1
    → let res = add_process def s.next_pid o (record s { next_pid = n }) in Step s res.0 res.1
unfolding add_process
add_process-Step def none s n real e = idle refl refl (omega arith) (omega arith) refl
add_process-Step def (some sp) s n real e =
    let s' = record s {
      processes = insert s.next_pid (managed def s.next_pid sp) s.processes;
      next_pid = n;
    } in
    let (same, closed, next) = saved_fields def.on_reboot def s' in
    spawned (managed def s.next_pid sp) same closed (next ∙ e) refl refl (real sp refl)

start_process-Step :
    (extract : Option (String → String)) (create : String → Option Spawned)
    (def : ProcessDefinition) (s : Scheduler)
    → IsReal create
    → s.next_pid + 1 < 2 ^ 32
    → let res = start_process extract create def s in Step s res.0 res.1
unfolding start_process
start_process-Step extract create def s real bound =
    let next : (s.next_pid + 1) % 2 ^ 32 ≡ s.next_pid + 1 = grind arith in
    elim (Option-cases (executable extract def.path)) [
      | inl e ↦
          rw (e, start_process) (idle refl refl (omega (arith, next)) (omega (arith, next)) refl)
      | inr (path, e) ↦
          let line = command_buffer (command_line path (join_args def.args)) in
          rw (e, start_process)
            (add_process-Step def (create line) s ((s.next_pid + 1) % 2 ^ 32) (real line) next)
    ]

if-Step :
    (s : Scheduler) (b : Bool) (x y : Scheduler × Bool)
    → (b ≡ true → Step s x.0 0)
    → Step s y.0 0
    → Step s (if b then x else y).0 0
if-Step s true x y h _ = h refl
if-Step s false x y _ h = h

kill_found-Step :
    (terminated : Bool) (pid : ℕ) (proc : ManagedProcess) (s : Scheduler)
    → lookup pid s.processes ≡ some proc
    → Step s (kill_found terminated pid proc s).0 0
unfolding kill_found
kill_found-Step terminated pid proc s e =
    let killed_proc = record proc { is_running = false; process_handle = 0; thread_handle = 0 } in
    let none_done : Step s s 0 = idle refl refl (omega arith) (omega arith) refl in
    let s' = record s {
      processes = insert pid killed_proc s.processes;
      closed = s.closed ++ proc.process_handle ∷ proc.thread_handle ∷ [];
    } in
    if-Step s (not proc.is_running) (s, false) _ (λ _. none_done)
      (if-Step s (not (proc.process_handle == 0) && terminated) (s', true) (s, false)
        (λ real.
          killed pid proc killed_proc e refl refl refl refl (ground (arith, real)) refl refl refl)
        none_done)

kill_process-Step :
    (terminated : Bool) (pid : ℕ) (s : Scheduler) → Step s (kill_process terminated pid s).0 0
unfolding kill_process
kill_process-Step terminated pid s = elim (Option-cases (lookup pid s.processes)) [
  | inl e ↦ rw (e, kill_process) (idle refl refl (omega arith) (omega arith) refl)
  | inr (proc, e) ↦ rw (e, kill_process) (kill_found-Step terminated pid proc s e)
]

is_process_running-Step :
    (codes : ℕ → Option ℕ) (pid : ℕ) (s : Scheduler) → Step s (is_process_running codes pid s).0 0
unfolding is_process_running
is_process_running-Step codes pid s = elim (Option-cases (lookup pid s.processes)) [
  | inl e ↦ rw (e, is_process_running) (idle refl refl (omega arith) (omega arith) refl)
  | inr (proc, e) ↦
      rw (e, is_process_running)
        (changed pid proc (update_single_process_status codes proc) e refl refl refl refl
          (update_single_process_status-Continues codes proc))
]

monitor_process-Step : (pid : ℕ) (s : Scheduler) → Step s (monitor_process pid s) 0
unfolding monitor_process
monitor_process-Step pid s = elim (Option-cases (lookup pid s.processes)) [
  | inl e ↦ rw (e, monitor_process) (idle refl refl (omega arith) (omega arith) refl)
  | inr (proc, e) ↦
      rw (e, monitor_process)
        (changed pid proc (stopped proc) e refl refl refl refl (stopped-Continues proc))
]

start_from_prc_file-Step :
    (extract : Option (String → String)) (create : String → Option Spawned) (text name : String)
    (s : Scheduler)
    → IsReal create
    → s.next_pid + 1 < 2 ^ 32
    → let res = start_from_prc_file extract create text name s in Step s res.0 res.1
unfolding start_from_prc_file
start_from_prc_file-Step extract create text name s real bound =
    elim (Bool-cases (is_empty (parse text).path)) [
      | inl e ↦ rw e (idle refl refl (omega arith) (omega arith) refl)
      | inr e ↦ rw e (start_process-Step extract create _ s real bound)
    ]

-- The system calls of a start answer with real handles.
abbrev pub IsAnswered : Call → Type 0
IsAnswered (start extract create def) = IsReal create
IsAnswered (start_text extract create text name) = IsReal create
IsAnswered _ = Unit {0}

pub perform-Step :
    (c : Call) (s : Scheduler)
    → IsAnswered c
    → s.next_pid + 1 < 2 ^ 32
    → Step s (perform c s).0 (perform c s).1
unfolding perform
perform-Step (start extract create def) s real bound =
    start_process-Step extract create def s real bound
perform-Step (start_text extract create text name) s real bound =
    start_from_prc_file-Step extract create text name s real bound
perform-Step (kill terminated pid) s _ _ = kill_process-Step terminated pid s
perform-Step (refresh codes) s _ _ =
    unfold update_process_statuses in polled codes refl refl refl refl
perform-Step (ask codes pid) s _ _ = is_process_running-Step codes pid s
perform-Step (cleanup codes) s _ _ = unfold cleanup_terminated in cleaned codes refl refl refl refl
perform-Step (exit pid) s _ _ = monitor_process-Step pid s
