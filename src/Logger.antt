-- ===== src/Logger.antt =====
-- The queue of log lines of common/logger/file/loglib.go. LogFile and the rounds of Start_Log hold one
-- lock, so what they do is a sequence of events. Files can be opened, and what Kafka and `inputTask`
-- are called with is recorded.
pub mod Kept
pub mod Rounds
pub mod Tasks
use report_api.Prelude.{
  ℕ, zero, suc, ◌+◌, Bool, true, false, List, [], ◌∷◌, ◌++◌, length, ◌==◌, if◌then◌else◌,
}
use report_api.Go.Text.{Str, codes, str_eq}
use report_api.Common.Agents.{occurs}

-- Where a line went: to a file, or to a topic of Kafka.
pub data Place : Type 0 where
  in_file : Str → Place
  to_topic : Str → Place

-- `ms_loglist` is the queue; `output` and `tasks` record what was written or sent, and the files that
-- were handed to inputTask. A number of lines that is not positive is 0: it never ends a round.
pub record Logger : Type 0 where
  pub ms_dir : Str
  pub ms_filname : Str
  pub ms_curfile : Str
  pub ms_topic : Str
  pub ms_dealnumfre : ℕ
  pub ms_loglist : List Str
  pub output : List (Place × Str)
  pub tasks : List Str

-- `Init_Log` on a new logger.
unfoldable pub init_log : Str → Str → Logger
init_log filemkdir filename = record {
  ms_dir = filemkdir;
  ms_filname = filename;
  ms_curfile = [];
  ms_topic = [];
  ms_dealnumfre = 5000;
  ms_loglist = [];
  output = [];
  tasks = [];
}

unfoldable pub log_file : Str → Logger → Logger
log_file str l = record l { ms_loglist = l.ms_loglist ++ str ∷ [] }

-- The day and the hour of `time.Now()`, by the number of lines that went out before.
abbrev pub Clock : Type 0
Clock = ℕ → Str × Str

unfoldable pub name_of : Str → Str → Str × Str → Str
name_of dir filname (time_date, time_date_hour) =
    dir ++ time_date ++ codes "/" ++ filname ++ codes ".hour." ++ time_date_hour

unfoldable pub current_name : Clock → Logger → Str
unfolding name_of
current_name clock l = name_of l.ms_dir l.ms_filname (clock (length l.output))

-- The file that is closed is handed on, unless it holds errors.
unfoldable pub closed : Str → List Str → List Str
unfolding occurs
closed curfile tasks = if occurs curfile (codes "err.log") then tasks else tasks ++ curfile ∷ []

-- The file that is open when the line is printed, and the tasks then.
unfoldable pub rotated : Str → Str → List Str → Str × List Str
unfolding closed str_eq
rotated [] name tasks = (name, tasks)
rotated (c ∷ curfile) name tasks =
    if str_eq name (c ∷ curfile) then (c ∷ curfile, tasks) else (name, closed (c ∷ curfile) tasks)

unfoldable pub write_log : Clock → Str → Logger → Logger
unfolding rotated current_name
write_log clock str l =
    let (curfile, tasks) = rotated l.ms_curfile (current_name clock l) l.tasks in
    record l {
      ms_curfile = curfile;
      tasks = tasks;
      output = l.output ++ (in_file curfile, str) ∷ [];
    }

-- The test `l.ms_topic != ""`.
unfoldable pub sent_to : Str → Clock → Str → Logger → Logger
unfolding write_log
sent_to [] clock str l = write_log clock str l
sent_to (c ∷ topic) clock str l = record l { output = l.output ++ (to_topic (c ∷ topic), str) ∷ [] }

unfoldable pub send_or_write : Clock → Str → Logger → Logger
unfolding sent_to
send_or_write clock str l = sent_to l.ms_topic clock str l

-- The loop of a round over the queue, where `i` lines went out before.
unfoldable pub deal : Clock → ℕ → List Str → Logger → Logger
unfolding send_or_write
deal clock i [] l = record l { ms_loglist = [] }
deal clock i (e ∷ rest) l =
    let sent = send_or_write clock e l in
    let more = deal clock (suc i) rest sent in
    if suc i == l.ms_dealnumfre then record sent { ms_loglist = rest } else more

-- A round of Start_Log.
unfoldable pub round : Clock → Logger → Logger
unfolding deal
round clock l = deal clock 0 l.ms_loglist l

pub data Event : Type 0 where
  logged : Str → Event
  ticked : Event

unfoldable pub run : Clock → List Event → Logger → Logger
unfolding log_file round
run clock [] l = l
run clock (logged str ∷ events) l = run clock events (log_file str l)
run clock (ticked ∷ events) l = run clock events (round clock l)
