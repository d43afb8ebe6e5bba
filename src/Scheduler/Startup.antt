-- ===== src/Scheduler/Startup.antt =====
-- The startup file: loadStartupProcesses and saveStartupProcess of class ProcessScheduler in
-- src/scheduler.hpp.
pub mod RoundTrip
use level_fs.Base.{
  ℕ, ◌==◌, if◌then◌else◌, List, [], ◌∷◌, ◌++◌, Option, none, some, Bool, true, false, ◌&&◌, not,
  keep, map, String, is_empty, length, newline, lines_from, find_char,
}
use level_fs.Scheduler.Prc.{ProcessDefinition, parse}
use level_fs.Scheduler.Table.{Scheduler, Spawned, start_process}

-- A line of nothing but a full stop ends a definition.
unfoldable pub is_end : String → Bool
is_end line =
    not (is_empty line)
    && (elim (find_char b'.' line) [ none ↦ false | some i ↦ i == 0 ])
    && length line == 1

-- The blocks of the file, each with its last line.
unfoldable pub blocks_from : String → List String → List String
blocks_from block [] = if is_empty block then [] else block ∷ []
blocks_from block (line ∷ lines) =
    let block' = block ++ (line ++ newline ∷ []) in
    let rest = blocks_from (if is_end line then [] else block') lines in
    if is_end line then block' ∷ rest else rest

-- The definitions that are started, in order: those with a path.
unfoldable pub startup_definitions : String → List ProcessDefinition
startup_definitions content =
    keep (λ def. not (is_empty def.path))
      (map parse (blocks_from [] (lines_from newline [] content)))

unfoldable pub start_all :
    Option (String → String)
    → (String → Option Spawned)
    → List ProcessDefinition
    → Scheduler
    → Scheduler
start_all extract create [] s = s
start_all extract create (def ∷ defs) s =
    start_all extract create defs (start_process extract create def s).0

-- A scheduler without callbacks loads nothing.
unfoldable pub load_startup_processes :
    Option (String → String) → (String → Option Spawned) → Scheduler → Scheduler
load_startup_processes extract create s = elim s.startup [
  | none ↦ s
  | some content ↦
      if not s.configured then s else start_all extract create (startup_definitions content) s
]
