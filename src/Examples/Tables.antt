-- ===== src/Examples/Tables.antt =====
-- Two uploaded tables, the remote server that answers, and each theorem applied to them.
use report_api.Prelude.{
  ◌+◌, ◌≡◌, refl, true, none, some, List, [], ◌∷◌, ◌++◌, length, All, if◌then◌else◌, ltb,
}
use report_api.Prelude.Int.{pos, negsuc}
use report_api.Go.Result.{Result, ok, err, external}
use report_api.Go.Text.{Str, Bytes, codes, utf8, str_eq}
use report_api.Excel.{Row, Workbook, open_table, is_short, clean_id, find_column_index}
use report_api.Callback.Http.{Env, Log}
use report_api.Callback.Group.{lookup, group_from, under, add_under, lookup-group}
use report_api.Callback.Click.{Click, read_click_data, click_columns, clicks_of_rows, click_of_row}
use report_api.Go.Strconv.{atoi}
use report_api.Callback.Click.Clean.{read_click_data-IsClean}
use report_api.Excel.CleanId.{IsClean}
use report_api.Callback.Process.{
  Run, start, process_clicks, completed, skipped, executed_count, outcome_line,
}
use report_api.Callback.Process.Plan.{
  plan, log_after, outcomes, count_true, sent-process_clicks, counters-process_clicks,
}
use report_api.Callback.Process.Report.{report, details-process_clicks}
use report_api.Callback.Upload.{Upload, Files, is_excel, upload, save_upload, run_saved, save_path}
use report_api.Callback.Upload.Safety.{upload_success}

-- The server accepts the first request and rejects the others.
abbrev server : Env
server = record {
  respond = λ log url. (if ltb 0 (length log) then some 404 else some 200);
  unix_milli = λ log. 5;
}

abbrev request : Bytes → Log → Bytes
request url log = url

abbrev keyed : List (Str × Bytes)
keyed = (codes "7", codes "a") ∷ (codes "8", codes "b") ∷ (codes "7", codes "c") ∷ []

abbrev clicks : List Click
clicks =
    record { ad_id = codes "7"; click_count = pos 5 }
    ∷ record { ad_id = codes "9"; click_count = pos 1 }
    ∷ record { ad_id = codes "8"; click_count = negsuc 0 }
    ∷ []

abbrev click_rows : List Row
click_rows =
    (codes "广告id" ∷ codes "点击数" ∷ [])
    ∷ (codes " 7\t" ∷ codes "2" ∷ [])
    ∷ (codes "8" ∷ codes "x" ∷ [])
    ∷ []

abbrev click_book : Result Workbook
click_book = ok (record { sheets = codes "Sheet1" ∷ []; get_rows = λ sheet. ok click_rows })

lookup-group_example :
    lookup (codes "7") (group_from [] keyed) ≡ add_under none (under (codes "7") keyed)
lookup-group_example = lookup-group (codes "7") keyed

sent-process_clicks_example :
    (process_clicks server request utf8 (group_from [] keyed) clicks (start [])).sent
    ≡ log_after server request (plan keyed clicks) []
sent-process_clicks_example = sent-process_clicks server request utf8 keyed clicks []

plan_test : plan keyed clicks ≡ codes "a" ∷ codes "c" ∷ []
unfolding under str_eq
plan_test = refl

counters-process_clicks_example :
    let run = process_clicks server request utf8 (group_from [] keyed) clicks (start []) in
    (run.total ≡ length (plan keyed clicks))
    × (run.success ≡ count_true (outcomes server request (plan keyed clicks) []))
    × (run.success + run.failed ≡ run.total)
counters-process_clicks_example = counters-process_clicks server request utf8 keyed clicks []

details-process_clicks_example :
    (process_clicks server request utf8 (group_from [] keyed) clicks (start [])).details
    ≡ report server request utf8 keyed clicks []
details-process_clicks_example = details-process_clicks server request utf8 keyed clicks []

details_test :
    report server request utf8 keyed clicks []
    ≡ completed (codes "7") (pos 5) (pos 2) (codes "Success: a" ∷ codes "Failed: c" ∷ [])
      ∷ skipped (codes "9") (pos 1)
      ∷ completed (codes "8") (negsuc 0) (negsuc 0) []
      ∷ []
unfolding under str_eq executed_count outcome_line utf8
details_test = refl

abbrev read_clicks : List Click
read_clicks = record { ad_id = codes "7"; click_count = pos 2 } ∷ []

click_book_read : read_click_data click_book ≡ ok read_clicks
unfolding read_click_data open_table find_column_index click_columns clicks_of_rows click_of_row
    atoi clean_id is_short
click_book_read = refl

read_click_data-IsClean_example : All (λ (c : Click). IsClean c.ad_id) read_clicks
read_click_data-IsClean_example = read_click_data-IsClean click_book read_clicks click_book_read

-- The library opens a file that is not empty, and saving always works.
abbrev files : Files
files = record {
  save_error = λ path. none;
  open_workbook = λ content. (if ltb 0 (length content) then click_book else err (external 0));
}

abbrev count_rows : Result Workbook → Result Workbook → Log → Result Run × Log
count_rows source click log = (ok (start (log ++ codes "sent" ∷ [])), log ++ codes "sent" ∷ [])

abbrev two_uploads : List Upload
two_uploads =
    record { filename = codes "a.xlsx"; content = codes "A" }
    ∷ record { filename = codes "b.xls"; content = codes "B" }
    ∷ []

upload_success_example :
    (a : Upload) × (b : Upload) × (ok two_uploads ≡ ok (a ∷ b ∷ []))
    × (is_excel a.filename ≡ true)
    × (is_excel b.filename ≡ true)
    × (count_rows (files.open_workbook a.content) (files.open_workbook b.content) []
        ≡ (ok (start (codes "sent" ∷ [])), (upload files count_rows (ok two_uploads) [] []).sent))
upload_success_example =
    upload_success files count_rows (ok two_uploads) [] [] (start (codes "sent" ∷ []))
      (unfold upload save_upload run_saved is_excel save_path in refl)
