-- ===== src/Tasks/Handler.antt =====
-- Class TaskHandler of src/utils/handler.hpp: its table, and the threads that run the tasks. The clock
-- and what a task does are arguments: its failure is the text of a std::exception. A task that throws
-- anything else ends the program, and is not modelled.
pub mod Progress
pub mod Ending
use level_fs.Base.{
  ℕ, suc, ◌+◌, ◌%◌, ◌^◌, ◌==◌, if◌then◌else◌, List, [], ◌∷◌, Option, none, some, Bool, true, false,
  ◌||◌, not, keep, passes, lookup, insert, contains, length, String,
}

pub data TaskStatus : Type 0 where
  task_pending task_running task_completed task_failed : TaskStatus

pub record BackgroundTask : Type 0 where
  pub id : ℕ
  pub name : String
  pub status : TaskStatus
  pub start_time : ℕ
  pub end_time : ℕ
  pub result : String

-- Where the thread of a task stands: before its first lock, in the task, or at its end.
pub data Phase : Type 0 where
  ready in_task done : Phase

pub record TaskHandler : Type 0 where
  pub tasks : List (ℕ × BackgroundTask)
  pub threads : List (ℕ × Phase)
  pub next_task_id : ℕ

abbrev pub new_handler : TaskHandler
new_handler = record { tasks = []; threads = []; next_task_id = 1 }

unfoldable pub run_background : String → ℕ → TaskHandler → TaskHandler × ℕ
run_background name now h =
    let id = h.next_task_id in
    let task : BackgroundTask = record {
      id = id;
      name = name;
      status = task_pending;
      start_time = now;
      end_time = 0;
      result = [];
    } in
    (
      record {
        tasks = insert id task h.tasks;
        threads = insert id ready h.threads;
        next_task_id = (id + 1) % 2 ^ 32;
      },
      id,
    )

-- tasks[id], if it is there.
unfoldable pub set_task : ℕ → (BackgroundTask → BackgroundTask) → TaskHandler → TaskHandler
set_task id f h = elim (lookup id h.tasks) [
  | none ↦ h
  | some t ↦ record h { tasks = insert id (f t) h.tasks }
]

abbrev pub begun : BackgroundTask → BackgroundTask
begun t = record t { status = task_running }

-- `none` is a task that returns; otherwise the text of its exception.
abbrev pub ended : Option String → ℕ → BackgroundTask → BackgroundTask
ended none now t = record t { status = task_completed; end_time = now }
ended (some what) now t = record t { status = task_failed; result = what; end_time = now }

abbrev pub next_phase : Phase → Phase
next_phase ready = in_task
next_phase in_task = done
next_phase done = done

abbrev pub phase_change : Phase → Option String → ℕ → BackgroundTask → BackgroundTask
phase_change ready outcome now t = begun t
phase_change in_task outcome now t = ended outcome now t
phase_change done outcome now t = t

-- The next locked section of the thread of a task.
unfoldable pub advance : ℕ → Option String → ℕ → TaskHandler → TaskHandler
advance id outcome now h = elim (lookup id h.threads) [
  | none ↦ h
  | some phase ↦
      let h' = set_task id (phase_change phase outcome now) h in
      record h' { threads = insert id (next_phase phase) h'.threads }
]

abbrev pub is_finished : TaskStatus → Bool
is_finished task_completed = true
is_finished task_failed = true
is_finished _ = false

abbrev pub unfinished : BackgroundTask → Bool
unfinished t = not (is_finished t.status)

unfoldable pub cleanup_completed : TaskHandler → TaskHandler
cleanup_completed h = record h { tasks = keep (passes unfinished) h.tasks }

-- An identifier without a task is answered like a task that has not begun.
unfoldable pub get_task_status : ℕ → TaskHandler → TaskStatus
get_task_status id h = elim (lookup id h.tasks) [ none ↦ task_pending | some t ↦ t.status ]

abbrev pub is_running : BackgroundTask → Bool
is_running t = elim t.status [ task_running ↦ true | _ ↦ false ]

unfoldable pub task_running_count : TaskHandler → ℕ
task_running_count h = length (keep (passes is_running) h.tasks)

pub data Event : Type 0 where
  submit : String → ℕ → Event
  turn : ℕ → Option String → ℕ → Event
  cleanup : Event

unfoldable pub perform : Event → TaskHandler → TaskHandler
perform (submit name now) h = (run_background name now h).0
perform (turn id outcome now) h = advance id outcome now h
perform cleanup h = cleanup_completed h

unfoldable pub perform_all : List Event → TaskHandler → TaskHandler
perform_all [] h = h
perform_all (e ∷ es) h = perform_all es (perform e h)
