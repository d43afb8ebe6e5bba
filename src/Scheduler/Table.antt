-- ===== src/Scheduler/Table.antt =====
-- The table of managed processes: struct ManagedProcess and class ProcessScheduler of
-- src/scheduler.hpp. What the operating system answers is an argument of each operation, and a call of
-- CloseHandle adds its handle to `closed`.
pub mod Calls
pub mod Managed
pub mod Steps
pub mod Histories
pub mod Stopped
use level_fs.Base.{
  ℕ, zero, suc, ◌+◌, ◌%◌, ◌^◌, ◌==◌, ltb, if◌then◌else◌, List, [], ◌∷◌, ◌++◌, Option, none, some,
  Bool, true, false, ◌&&◌, ◌||◌, not, keep, passes, lookup, insert, String, list_eq, is_empty, take,
  length, space, quote, find_char,
}
use level_fs.Scheduler.Prc.{ProcessDefinition, parse, serialize_definition, first_char, colon}

pub record ManagedProcess : Type 0 where
  pub pid : ℕ
  pub name : String
  pub path : String
  pub args : String
  pub process_handle : ℕ
  pub thread_handle : ℕ
  pub system_pid : ℕ
  pub start_time : ℕ
  pub is_running : Bool
  pub on_reboot : Bool

-- What CreateProcessA hands out, with the clock at that moment.
pub record Spawned : Type 0 where
  pub process : ℕ
  pub thread : ℕ
  pub system_pid : ℕ
  pub now : ℕ

abbrev pub Entries : Type 0
Entries = List (ℕ × ManagedProcess)

-- `startup` is the text of the startup file, if that file exists; `configured` says that its path and the
-- callbacks are set.
pub record Scheduler : Type 0 where
  pub processes : Entries
  pub next_pid : ℕ
  pub startup : Option String
  pub configured : Bool
  pub closed : List ℕ

abbrev pub still_active : ℕ
still_active = 259

-- The loop that joins the arguments.
unfoldable pub quoted_arg : String → String
quoted_arg arg = elim (find_char space arg) [ none ↦ arg | some _ ↦ quote ∷ (arg ++ quote ∷ []) ]

unfoldable pub spaced_args : List String → String
spaced_args [] = []
spaced_args (arg ∷ args) = space ∷ (quoted_arg arg ++ spaced_args args)

unfoldable pub join_args : List String → String
join_args [] = []
join_args (arg ∷ args) = quoted_arg arg ++ spaced_args args

-- std::string::find of a text: whether it occurs at all.
unfoldable pub is_prefix : String → String → Bool
is_prefix [] s = true
is_prefix (c ∷ cs) [] = false
is_prefix (c ∷ cs) (x ∷ xs) = c == x && is_prefix cs xs

unfoldable pub occurs : String → String → Bool
occurs text [] = is_prefix text []
occurs text (x ∷ xs) = is_prefix text (x ∷ xs) || occurs text xs

-- "/..." or "disk:...", but not "C:\..."
unfoldable pub is_lfs_path : String → Bool
is_lfs_path path =
    first_char path == b'/' || (occurs (colon ∷ []) path && not (occurs (colon ∷ 92 ∷ []) path))

unfoldable pub command_line : String → String → String
command_line exec_path args =
    let program = quote ∷ (exec_path ++ quote ∷ []) in
    if is_empty args then program else program ++ space ∷ args

-- The buffer of 4096 characters, the last of them 0.
unfoldable pub command_buffer : String → String
command_buffer line = take 4095 line

unfoldable pub save_startup_process : ProcessDefinition → Scheduler → Scheduler
save_startup_process def s =
    let existing : String = elim s.startup [ none ↦ [] | some text ↦ text ] in
    if not s.configured
    then s
    else if occurs def.name existing
    then s
    else record s { startup = some (existing ++ serialize_definition def) }

-- The path to run: `none` if a file of the volume could not be extracted.
unfoldable pub executable : Option (String → String) → String → Option String
executable none path = some path
executable (some extract) path =
    if is_lfs_path path
    then (if is_empty (extract path) then none else some (extract path))
    else some path

abbrev pub managed : ProcessDefinition → ℕ → Spawned → ManagedProcess
managed def pid sp = record {
  pid = pid;
  name = def.name;
  path = def.path;
  args = join_args def.args;
  process_handle = sp.process;
  thread_handle = sp.thread;
  system_pid = sp.system_pid;
  start_time = sp.now;
  is_running = true;
  on_reboot = def.on_reboot;
}

unfoldable pub add_process : ProcessDefinition → ℕ → Option Spawned → Scheduler → Scheduler × ℕ
add_process def pid none s = (s, 0)
add_process def pid (some sp) s =
    let s' = record s { processes = insert pid (managed def pid sp) s.processes } in
    (if def.on_reboot then save_startup_process def s' else s', pid)

-- The process identifier is taken before anything can fail; the answer 0 is a failure. The call is one
-- step: the code takes the identifier, an atomic counter, before it locks the table.
unfoldable pub start_process :
    Option (String → String)
    → (String → Option Spawned)
    → ProcessDefinition
    → Scheduler
    → Scheduler × ℕ
start_process extract create def s =
    let s' = record s { next_pid = (s.next_pid + 1) % 2 ^ 32 } in
    elim (executable extract def.path) [
      | none ↦ (s', 0)
      | some path ↦
          add_process def s.next_pid
            (create (command_buffer (command_line path (join_args def.args)))) s'
    ]

abbrev pub process_text : String
process_text = b'P' ∷ b'r' ∷ b'o' ∷ b'c' ∷ b'e' ∷ b's' ∷ b's' ∷ []

unfoldable pub start_from_prc_file :
    Option (String → String)
    → (String → Option Spawned)
    → String
    → String
    → Scheduler
    → Scheduler × ℕ
start_from_prc_file extract create content source_name s =
    let def = parse content in
    if is_empty def.path
    then (s, 0)
    else start_process extract create
        (if is_empty def.name
          then record def { name = if is_empty source_name then process_text else source_name }
          else def)
        s

abbrev pub stopped : ManagedProcess → ManagedProcess
stopped proc = record proc { is_running = false }

-- killProcess once the process is found; `terminated` is the answer of TerminateProcess.
unfoldable pub kill_found : Bool → ℕ → ManagedProcess → Scheduler → Scheduler × Bool
kill_found terminated pid proc s =
    if not proc.is_running
    then (s, false)
    else if not (proc.process_handle == 0) && terminated
    then (
      record s {
        processes =
            insert pid (record proc { is_running = false; process_handle = 0; thread_handle = 0 })
              s.processes;
        closed = s.closed ++ proc.process_handle ∷ proc.thread_handle ∷ [];
      },
      true,
    )
    else (s, false)

unfoldable pub kill_process : Bool → ℕ → Scheduler → Scheduler × Bool
kill_process terminated pid s = elim (lookup pid s.processes) [
  | none ↦ (s, false)
  | some proc ↦ kill_found terminated pid proc s
]

-- GetExitCodeProcess of each handle; `none` is its failure.
unfoldable pub update_single_process_status : (ℕ → Option ℕ) → ManagedProcess → ManagedProcess
update_single_process_status codes proc =
    if not proc.is_running || proc.process_handle == 0
    then proc
    else elim (codes proc.process_handle) [
      | none ↦ proc
      | some code ↦ if code == still_active then proc else stopped proc
    ]

unfoldable pub update_entries : (ℕ → Option ℕ) → Entries → Entries
update_entries codes [] = []
update_entries codes ((pid, proc) ∷ m) =
    (pid, update_single_process_status codes proc) ∷ update_entries codes m

unfoldable pub update_process_statuses : (ℕ → Option ℕ) → Scheduler → Scheduler
update_process_statuses codes s = record s { processes = update_entries codes s.processes }

-- The handles that cleanupTerminated closes.
unfoldable pub handles_of_stopped : Entries → List ℕ
handles_of_stopped [] = []
handles_of_stopped ((pid, proc) ∷ m) =
    if not proc.is_running && not (proc.process_handle == 0)
    then proc.process_handle ∷ proc.thread_handle ∷ handles_of_stopped m
    else handles_of_stopped m

abbrev pub running : (ℕ × ManagedProcess) → Bool
running = passes (λ (proc : ManagedProcess). proc.is_running)

unfoldable pub cleanup_terminated : (ℕ → Option ℕ) → Scheduler → Scheduler
cleanup_terminated codes s =
    let m = update_entries codes s.processes in
    record s { processes = keep running m; closed = s.closed ++ handles_of_stopped m }

unfoldable pub get_running_count : (ℕ → Option ℕ) → Scheduler → Scheduler × ℕ
get_running_count codes s =
    let s' = update_process_statuses codes s in (s', length (keep running s'.processes))

unfoldable pub is_process_running : (ℕ → Option ℕ) → ℕ → Scheduler → Scheduler × Bool
is_process_running codes pid s = elim (lookup pid s.processes) [
  | none ↦ (s, false)
  | some proc ↦
      let proc' = update_single_process_status codes proc in
      (record s { processes = insert pid proc' s.processes }, proc'.is_running)
]

-- The handle that monitorProcess waits for; `none` if it returns at once.
unfoldable pub monitored : ℕ → Scheduler → Option ℕ
monitored pid s = elim (lookup pid s.processes) [
  | none ↦ none
  | some proc ↦ if proc.process_handle == 0 then none else some proc.process_handle
]

-- monitorProcess after its wait.
unfoldable pub monitor_process : ℕ → Scheduler → Scheduler
monitor_process pid s = elim (lookup pid s.processes) [
  | none ↦ s
  | some proc ↦ record s { processes = insert pid (stopped proc) s.processes }
]

-- The handles that the destructor closes.
unfoldable pub handles_of_running : Entries → List ℕ
handles_of_running [] = []
handles_of_running ((pid, proc) ∷ m) =
    if proc.is_running && not (proc.process_handle == 0)
    then proc.process_handle ∷ proc.thread_handle ∷ handles_of_running m
    else handles_of_running m

unfoldable pub destroy : Scheduler → Scheduler
destroy s = record s { processes = []; closed = s.closed ++ handles_of_running s.processes }

abbrev pub new_scheduler : Option String → Bool → Scheduler
new_scheduler startup configured = record {
  processes = [];
  next_pid = 1;
  startup = startup;
  configured = configured;
  closed = [];
}
