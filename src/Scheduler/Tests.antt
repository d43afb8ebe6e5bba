-- ===== src/Scheduler/Tests.antt =====
-- The theorems on the scheduler at definitions and histories of its use.
use level_fs.Base.{
  ℕ, ◌+◌, ◌*◌, ◌≡◌, refl, List, [], ◌∷◌, ◌++◌, Option, none, some, true, false, length, All, String,
  find_char, arith,
}
use level_fs.Scheduler.Prc.{ProcessDefinition, parse, serialize_definition}
use level_fs.Scheduler.Prc.RoundTrip.{IsPrintable, parse-serialize_definition}
use level_fs.Scheduler.Startup.{startup_definitions}
use level_fs.Scheduler.Startup.RoundTrip.{
  serialize_all, text_of, startup_definitions-save_startup_process,
}
use level_fs.Scheduler.Table.{
  Scheduler, Spawned, save_startup_process, occurs, is_prefix, destroy, stopped, managed,
  update_single_process_status, start_process, executable, add_process, kill_process, kill_found,
  monitor_process, handles_of_running, command_line, command_buffer, join_args, spaced_args,
  quoted_arg, is_process_running, new_scheduler,
}
use level_fs.Scheduler.Table.Calls.{Call, start, kill, exit, perform, perform_all, started}
use level_fs.Scheduler.Table.Histories.{held}
use level_fs.Scheduler.Table.Managed.{IsManaged}
use level_fs.Scheduler.Table.Steps.{IsReal, IsAnswered}
use level_fs.Scheduler.Table.Stopped.{left_open, perform_all-closed, is_process_running-perform_all}

abbrev backup : ProcessDefinition
backup = record {
  name = b'b' ∷ b'k' ∷ [];
  path = b'/' ∷ b'b' ∷ [];
  args = (b'-' ∷ b'f' ∷ []) ∷ (b'a' ∷ b' ' ∷ b'b' ∷ []) ∷ [];
  on_reboot = true;
}

abbrev mailer : ProcessDefinition
mailer = record { name = b'm' ∷ b'x' ∷ []; path = b'/' ∷ b'm' ∷ []; args = []; on_reboot = true }

backup-IsPrintable : IsPrintable backup
backup-IsPrintable = record {
  name_bracket = refl;
  name_line = refl;
  path_text = record { no_quote = refl; one_line = refl };
  arguments = (
    (refl, record { no_quote = refl; one_line = refl }),
    ((refl, record { no_quote = refl; one_line = refl }), tt),
  );
}

mailer-IsPrintable : IsPrintable mailer
mailer-IsPrintable = record {
  name_bracket = refl;
  name_line = refl;
  path_text = record { no_quote = refl; one_line = refl };
  arguments = tt;
}

parse-serialize_definition_example : parse (serialize_definition backup) ≡ backup
parse-serialize_definition_example = parse-serialize_definition backup backup-IsPrintable

abbrev with_backup : Scheduler
with_backup = new_scheduler (some (serialize_all (backup ∷ []))) true

mailer_new : occurs mailer.name (serialize_all (backup ∷ [])) ≡ false
unfolding occurs is_prefix serialize_all serialize_definition
mailer_new = refl

startup_definitions-save_startup_process_example :
    startup_definitions (text_of (save_startup_process mailer with_backup).startup)
    ≡ (backup ∷ []) ++ mailer ∷ []
startup_definitions-save_startup_process_example =
    startup_definitions-save_startup_process (backup ∷ []) mailer with_backup
      (record { printable = backup-IsPrintable; has_path = refl }, tt)
      (record { printable = mailer-IsPrintable; has_path = refl }) refl refl mailer_new

abbrev spawn : String → Option Spawned
spawn text = some (record { process = 40; thread = 44; system_pid = 912; now = 5 })

spawn-IsReal : IsReal spawn
spawn-IsReal text sp e = λ z. cc

abbrev day : List Call
day = start none spawn backup ∷ start none spawn mailer ∷ exit 1 ∷ kill true 2 ∷ []

day-IsAnswered : All IsAnswered day
day-IsAnswered = (spawn-IsReal, (spawn-IsReal, (tt, (tt, tt))))

perform_all-closed_example :
    (length (perform_all day (new_scheduler none true)).closed
        + held (perform_all day (new_scheduler none true)).processes
      ≡ 2 * started day (new_scheduler none true))
    × (length (destroy (perform_all day (new_scheduler none true))).closed
          + left_open (perform_all day (new_scheduler none true)).processes
        ≡ 2 * started day (new_scheduler none true))
perform_all-closed_example = perform_all-closed none true day day-IsAnswered (omega arith)

-- A table with a process that has exited by itself.
abbrev after_exit : Scheduler
after_exit = record (new_scheduler none true) {
  processes =
      (
        1,
        stopped
            (managed backup 1 (record { process = 40; thread = 44; system_pid = 912; now = 5 })),
      )
      ∷ [];
  next_pid = 2;
}

after_exit-IsManaged : IsManaged after_exit
after_exit-IsManaged = record {
  from_one = omega arith;
  entries = (record { below = omega arith; own_pid = refl; handled = λ e. cc }, tt);
  unique = (refl, tt);
}

abbrev unanswered : ℕ → Option ℕ
unanswered handle = none

after_exit_denied : (is_process_running unanswered 1 after_exit).1 ≡ false
unfolding is_process_running update_single_process_status
after_exit_denied = refl

is_process_running-perform_all_example :
    (is_process_running unanswered 1
      (perform_all day (is_process_running unanswered 1 after_exit).0)).1
    ≡ false
is_process_running-perform_all_example =
    is_process_running-perform_all unanswered unanswered 1 day after_exit after_exit-IsManaged
      (omega arith) after_exit_denied day-IsAnswered (omega arith)

-- The process that has exited keeps its two handles when the scheduler goes.
day_leaves_open :
    (left_open (perform_all day (new_scheduler none true)).processes ≡ 2)
    × (length (destroy (perform_all day (new_scheduler none true))).closed ≡ 2)
unfolding perform_all perform start_process executable add_process save_startup_process kill_process
    kill_found monitor_process destroy held handles_of_running command_line command_buffer join_args
    spaced_args quoted_arg find_char occurs is_prefix serialize_definition
day_leaves_open = (refl, refl)
