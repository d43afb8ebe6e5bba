-- ===== src/Scheduler/Table/Calls.antt =====
-- The calls of a scheduler, and histories of them in any order.
use level_fs.Base.{ℕ, suc, ◌==◌, if◌then◌else◌, List, [], ◌∷◌, Option, Bool, String}
use level_fs.Scheduler.Prc.{ProcessDefinition}
use level_fs.Scheduler.Table.{
  Scheduler, Spawned, start_process, start_from_prc_file, kill_process, update_process_statuses,
  cleanup_terminated, is_process_running, monitor_process,
}

-- Each call with what the operating system answers to it. `refresh` is any of the listing calls.
pub data Call : Type 0 where
  start : Option (String → String) → (String → Option Spawned) → ProcessDefinition → Call
  start_text : Option (String → String) → (String → Option Spawned) → String → String → Call
  kill : Bool → ℕ → Call
  refresh : (ℕ → Option ℕ) → Call
  ask : (ℕ → Option ℕ) → ℕ → Call
  cleanup : (ℕ → Option ℕ) → Call
  exit : ℕ → Call

-- The state after a call, and the identifier that a start returns (0 of other calls).
unfoldable pub perform : Call → Scheduler → Scheduler × ℕ
perform (start extract create def) s = start_process extract create def s
perform (start_text extract create text name) s = start_from_prc_file extract create text name s
perform (kill terminated pid) s = ((kill_process terminated pid s).0, 0)
perform (refresh codes) s = (update_process_statuses codes s, 0)
perform (ask codes pid) s = ((is_process_running codes pid s).0, 0)
perform (cleanup codes) s = (cleanup_terminated codes s, 0)
perform (exit pid) s = (monitor_process pid s, 0)

unfoldable pub perform_all : List Call → Scheduler → Scheduler
perform_all [] s = s
perform_all (c ∷ cs) s = perform_all cs (perform c s).0

-- How many processes the calls start.
unfoldable pub started : List Call → Scheduler → ℕ
started [] s = 0
started (c ∷ cs) s =
    let rest = started cs (perform c s).0 in if (perform c s).1 == 0 then rest else suc rest
