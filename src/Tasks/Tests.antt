-- ===== src/Tasks/Tests.antt =====
-- The theorems on commands, parallel loops and tasks at inputs.
use level_fs.Base.{
  ◌+◌, ◌-◌, ◌≡◌, ◌⊎◌, refl, List, [], ◌∷◌, none, some, true, false, String, lookup, arith,
  trim_start, trim_end,
}
use level_fs.Tasks.Chunks.{
  range_chunks, scan_chunks, process_chunks, run_chunks, indices, chunks_from, chunk_size, smaller,
  range_chunks-indices,
}
use level_fs.Tasks.Command.{
  parse_command, args_to_string, is_background, without_ampersand, words_from,
}
use level_fs.Tasks.Command.RoundTrip.{command_text}
use level_fs.Tasks.Handler.{
  ready, TaskHandler, new_handler, run_background, Event, submit, turn, perform_all,
  get_task_status, is_finished, task_pending, task_completed, cleanup_completed,
}
use level_fs.Tasks.Handler.Ending.{perform_all-is_finished}
use level_fs.Tasks.Handler.Progress.{InStep, run_background-InStep}
use level_fs.Tasks.Pool.{Worker, waiting, busy, Pool, rounds, stop_pool}
use level_fs.Tasks.Pool.Draining.{weights, count, all_busy_with, rounds-stop_pool}

abbrev copy_word : String
copy_word = b'c' ∷ b'p' ∷ []

abbrev names : List String
names = (b'a' ∷ []) ∷ (b'b' ∷ b'&' ∷ []) ∷ []

copy_line : parse_command (command_text copy_word names true) ≡ record {
  command = copy_word;
  args = names;
  run_in_background = true;
  raw_line = command_text copy_word names true;
}
unfolding args_to_string parse_command is_background without_ampersand words_from trim_start
    trim_end
copy_line = refl

-- Ten indices for four workers: chunks of three, the last of one.
ten_chunks : range_chunks 5 15 4 ≡ (5, 8) ∷ (8, 11) ∷ (11, 14) ∷ (14, 15) ∷ []
unfolding range_chunks chunks_from chunk_size smaller
ten_chunks = refl

range_chunks-indices_example :
    (run_chunks (range_chunks 5 15 4) ≡ indices (15 - 5) 5)
    × (run_chunks (scan_chunks 5 15 4) ≡ indices (15 - 5) 5)
    × (run_chunks (process_chunks 15 4) ≡ indices 15 0)
range_chunks-indices_example = range_chunks-indices 5 15 4 (omega arith) (omega arith)

abbrev two_workers : List Worker
two_workers = waiting ∷ (busy 1) ∷ []

abbrev loaded : Pool
loaded = record { queue = 2 ∷ 3 ∷ []; started = 1 ∷ []; finished = []; stop = false }

rounds-stop_pool_example :
    ((rounds 9 two_workers (stop_pool loaded)).1.queue ≡ [])
    × (weights (rounds 9 two_workers (stop_pool loaded)).0 ≡ 0)
    × (count 3 (rounds 9 two_workers (stop_pool loaded)).1.finished
        ≡ count 3 loaded.finished + all_busy_with 3 two_workers + count 3 loaded.queue)
rounds-stop_pool_example =
    rounds-stop_pool 9 3 two_workers loaded (omega arith) (refl, (refl, tt)) (omega arith)

new_handler-InStep : InStep new_handler
new_handler-InStep = record { matched = λ id. tt; fresh = λ id le. refl; unique = tt }

abbrev one_task : TaskHandler
one_task = (run_background copy_word 10 new_handler).0

one_task_fields : (lookup 1 one_task.threads ≡ some ready) × (one_task.next_task_id ≡ 2)
unfolding run_background
one_task_fields = (refl, refl)

abbrev working_day : List Event
working_day = turn 1 none 11 ∷ submit copy_word 12 ∷ turn 1 (some copy_word) 13 ∷ []

perform_all-is_finished_example :
    (lookup 1 (perform_all working_day one_task).tasks ≡ none)
    ⊎ (is_finished (get_task_status 1 (perform_all working_day one_task)) ≡ true)
perform_all-is_finished_example =
    perform_all-is_finished working_day 1 one_task ready
      (run_background-InStep copy_word 10 new_handler (omega arith) new_handler-InStep)
      (omega (arith, one_task_fields.1)) one_task_fields.0 (omega arith)

-- A task that was completed and cleaned up is answered like one that has not begun.
cleaned_up_pending :
    get_task_status 1 (
      cleanup_completed (record new_handler {
        tasks =
            (
              1,
              record {
                id = 1;
                name = copy_word;
                status = task_completed;
                start_time = 10;
                end_time = 12;
                result = [];
              },
            )
            ∷ [];
      }))
    ≡ task_pending
unfolding get_task_status cleanup_completed
cleaned_up_pending = refl
