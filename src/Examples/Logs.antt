-- ===== src/Examples/Logs.antt =====
-- A logger over an hour's end, and a file that it closed.
use report_api.Prelude.{suc, zero, ◌≡◌, refl, none, List, [], ◌∷◌, ◌++◌, length, arith}
use report_api.Go.Returns.{returned}
use report_api.Go.Text.{codes, str_eq}
use report_api.Common.Agents.{occurs}
use report_api.Logger.{
  Logger, Clock, Event, logged, ticked, init_log, log_file, name_of, current_name, closed, rotated,
  write_log, sent_to, send_or_write, deal, round, run,
}
use report_api.Logger.Kept.{lines, lines-run}
use report_api.Logger.Rounds.{ticks, length-run-ticks}
use report_api.Logger.Tasks.{
  count_scanned, counted, count_lines, System, inserted, checkpoint_of, input_named, input_sized,
  input_counted, input_task,
}

abbrev clock : Clock
clock zero = (codes "20250101", codes "2025010100")
clock (suc n) = (codes "20250101", codes "2025010101")

abbrev logger : Logger
logger = init_log (codes "log/") (codes "imp")

abbrev events : List Event
events = logged (codes "a") ∷ logged (codes "b") ∷ ticked ∷ logged (codes "c") ∷ []

lines-run_example :
    lines (run clock events logger) ++ (run clock events logger).ms_loglist
    ≡ codes "a" ∷ codes "b" ∷ codes "c" ∷ []
lines-run_example = unfold init_log in lines-run clock events logger

-- The file of the first hour is handed on when a line of the second hour is written.
rotated_once : (run clock events logger).tasks ≡ codes "log/20250101/imp.hour.2025010100" ∷ []
unfolding run round deal send_or_write sent_to write_log current_name name_of rotated closed occurs
    log_file init_log str_eq
rotated_once = refl

abbrev queued : Logger
queued = record logger { ms_dealnumfre = 2; ms_loglist = codes "a" ∷ codes "b" ∷ codes "c" ∷ [] }

length-run-ticks_example : length (run clock (ticks 1) queued).ms_loglist ≡ 1
length-run-ticks_example = length-run-ticks clock 1 queued (omega arith)

-- A file of two lines, in a table that takes every row.
abbrev small_system : System
small_system = record {
  open_log =
      λ file. returned (record { scanned_lines = codes "a" ∷ codes "b" ∷ []; scan_error = none });
  stat_size = λ file. returned 4;
  hostname = returned (codes "host");
  unix = 1_700_000_000;
  prepare = none;
  exec = λ row. none;
}

two_lines_recorded :
    input_task small_system (codes "imp.log") []
    ≡ checkpoint_of small_system (codes "imp.log") 2 4 (codes "host") ∷ []
unfolding input_task input_counted count_lines counted count_scanned input_sized input_named
    inserted
two_lines_recorded = refl
