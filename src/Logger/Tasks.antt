-- ===== src/Logger/Tasks.antt =====
-- Logging JSON, and `inputTask` of common/logger/file/loglib.go, which records a file that was closed in
-- the database. Files, the name of the host, the clock and the database are parameters.
use report_api.Prelude.{
  ℕ, zero, suc, ◌+◌, ◌<◌, ◌≡◌, ◌⊎◌, Option, none, some, List, [], ◌∷◌, ◌++◌, length, if◌then◌else◌,
}
use report_api.Go.Result.{Error}
use report_api.Go.Returns.{Returns, failed, returned}
use report_api.Go.Text.{Str, str_eq}
use report_api.Logger.{Logger, log_file}

-- `memmap[key] = data`, with the newest key last.
unfoldable pub set_key : List (Str × Str) → Str → Str → List (Str × Str)
unfolding str_eq
set_key [] key content = (key, content) ∷ []
set_key ((k, v) ∷ memmap) key content =
    let rest = set_key memmap key content in
    if str_eq k key then (key, content) ∷ memmap else (k, v) ∷ rest

unfoldable pub set_json_log_prefix : List (Str × Str) → Str → Str → List (Str × Str)
unfolding set_key
set_json_log_prefix memmap key [] = memmap
set_json_log_prefix memmap key (c ∷ content) = set_key memmap key (c ∷ content)

-- `str, _ := jsoniter.Marshal(…)`: with an error the line is empty.
unfoldable pub text_or_empty : Returns Str → Str
text_or_empty (failed e) = []
text_or_empty (returned str) = str

-- LogJson, and LogStruct, which does the same.
unfoldable pub log_json {ℓ} : {V : Type ℓ} → (V → Returns Str) → V → Logger → Logger
unfolding text_or_empty log_file
log_json marshal memmap l = log_file (text_or_empty (marshal memmap)) l

-- The pause between the rounds, which is set too, is no part of the model.
unfoldable pub set_deal_pro_info : ℕ → Logger → Logger
set_deal_pro_info numfre l = record l { ms_dealnumfre = numfre }

-- What a scanner yields in turn: the lines, and then its error, if there is one.
pub record Scanned : Type 0 where
  pub scanned_lines : List Str
  pub scan_error : Option Error

unfoldable pub count_scanned : ℕ → List Str → ℕ
count_scanned line_count [] = line_count
count_scanned line_count (line ∷ rest) = count_scanned (line_count + 1) rest

unfoldable pub counted : Scanned → Returns ℕ
unfolding count_scanned
counted scanner = elim scanner.scan_error [
  | some e ↦ failed e
  | none ↦ returned (count_scanned 0 scanner.scanned_lines)
]

unfoldable pub count_lines : (Str → Returns Scanned) → Str → Returns ℕ
unfolding counted
count_lines open_log file_path = elim (open_log file_path) [
  | failed e ↦ failed e
  | returned scanner ↦ counted scanner
]

-- A row of `load_checkpoint`; both times are the same, and status and err_count are 0.
pub record Checkpoint : Type 0 where
  pub host : Str
  pub file : Str
  pub size : ℕ
  pub numbers : ℕ
  pub create_time : ℕ

-- What surrounds the logger: `prepare` is the error of preparing the statement, and `exec` that of
-- executing it.
pub record System : Type 0 where
  pub open_log : Str → Returns Scanned
  pub stat_size : Str → Returns ℕ
  pub hostname : Returns Str
  pub unix : ℕ
  pub prepare : Option Error
  pub exec : Checkpoint → Option Error

-- The rows of the table after the statement, by the errors of preparing and of executing it.
unfoldable pub inserted :
    Option Error → Option Error → Checkpoint → List Checkpoint → List Checkpoint
inserted (some e) exec_error row rows = rows
inserted none (some e) row rows = rows
inserted none none row rows = rows ++ row ∷ []

unfoldable pub checkpoint_of : System → Str → ℕ → ℕ → Str → Checkpoint
checkpoint_of s logname line_count file_size hostname = record {
  host = hostname;
  file = logname;
  size = file_size;
  numbers = line_count;
  create_time = s.unix;
}

unfoldable pub input_named : System → Str → ℕ → ℕ → Returns Str → List Checkpoint → List Checkpoint
unfolding inserted checkpoint_of
input_named s logname line_count file_size (failed e) rows = rows
input_named s logname line_count file_size (returned hostname) rows =
    let row = checkpoint_of s logname line_count file_size hostname in
    inserted s.prepare (s.exec row) row rows

unfoldable pub input_sized : System → Str → ℕ → Returns ℕ → List Checkpoint → List Checkpoint
unfolding input_named
input_sized s logname line_count (failed e) rows = rows
input_sized s logname line_count (returned file_size) rows =
    input_named s logname line_count file_size s.hostname rows

-- A file without lines is passed over.
unfoldable pub input_counted : System → Str → Returns ℕ → List Checkpoint → List Checkpoint
unfolding input_sized
input_counted s logname (failed e) rows = rows
input_counted s logname (returned zero) rows = rows
input_counted s logname (returned (suc n)) rows =
    input_sized s logname (suc n) (s.stat_size logname) rows

unfoldable pub input_task : System → Str → List Checkpoint → List Checkpoint
unfolding input_counted count_lines
input_task s logname rows = input_counted s logname (count_lines s.open_log logname) rows

-- What a call adds: the file was scanned to its end, and the numbers are those of its lines.
pub record IsRecorded (s : System) (logname : Str) (row : Checkpoint) : Type 0 where
  pub named : row.file ≡ logname
  pub scanner : Scanned
  pub scanned : s.open_log logname ≡ returned scanner
  pub no_scan_error : scanner.scan_error ≡ none
  pub all_lines : row.numbers ≡ length scanner.scanned_lines
  pub some_lines : 0 < row.numbers
  pub sized : s.stat_size logname ≡ returned row.size
  pub hosted : s.hostname ≡ returned row.host
  pub timed : row.create_time ≡ s.unix
  pub prepared : s.prepare ≡ none
  pub executed : s.exec row ≡ none

-- Why nothing is added.
pub data IsSkipped (s : System) (logname : Str) : Type 0 where
  not_opened : (e : Error) → s.open_log logname ≡ failed e → IsSkipped s logname
  not_scanned :
      (scanner : Scanned) (e : Error)
      → s.open_log logname ≡ returned scanner
      → scanner.scan_error ≡ some e
      → IsSkipped s logname
  no_lines :
      (scanner : Scanned)
      → s.open_log logname ≡ returned scanner
      → length scanner.scanned_lines ≡ 0
      → IsSkipped s logname
  not_sized : (e : Error) → s.stat_size logname ≡ failed e → IsSkipped s logname
  no_host : (e : Error) → s.hostname ≡ failed e → IsSkipped s logname
  not_prepared : (e : Error) → s.prepare ≡ some e → IsSkipped s logname
  not_executed :
      (row : Checkpoint) (e : Error)
      → row.file ≡ logname
      → s.exec row ≡ some e
      → IsSkipped s logname

-- The rows stay as they are for one of these reasons, or one row is added that shows the file.
abbrev pub IsInput : System → Str → List Checkpoint → List Checkpoint → Type 0
IsInput s logname rows rows' =
    ((rows' ≡ rows) × IsSkipped s logname)
    ⊎ ((row : Checkpoint) × (rows' ≡ rows ++ row ∷ []) × IsRecorded s logname row)

-- What the outcome of counting means for the file.
abbrev IsCounted : System → Str → Returns ℕ → Type 0
IsCounted s logname (failed e) = IsSkipped s logname
IsCounted s logname (returned n) =
    (scanner : Scanned) × (s.open_log logname ≡ returned scanner)
    × (scanner.scan_error ≡ none)
    × (n ≡ length scanner.scanned_lines)
