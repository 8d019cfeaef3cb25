-- ===== src/Activity/Handler.antt =====
-- `GetActivityReport` of service/taobao_activity.go.
use report_api.Prelude.{Option, none, some, [], ◌∷◌, if◌then◌else◌}
use report_api.Prelude.Int.{ℤ, pos}
use report_api.Go.Result.{Error}
use report_api.Go.Returns.{Returns}
use report_api.Go.Strconv.{atoi}
use report_api.Go.Text.{Str, str_eq}
use report_api.Excel.Sheet.{Sheet}
use report_api.Callback.Http.{Log}
use report_api.Callback.Upload.{Upload, Disk, Files}
use report_api.Callback.Upload.Single.{missing, Served, upload_file}
use report_api.Activity.{Service}
use report_api.Activity.ExtInfo.{Object}
use report_api.Activity.Batch.{process_excel_and_query}

-- 1 where the parameter is empty or no number.
unfoldable pub query_type_of : Str → ℤ
unfolding atoi
query_type_of [] = pos 1
query_type_of (c ∷ s) = elim (atoi (c ∷ s)) [ none ↦ pos 1 | some query_type ↦ query_type ]

-- The two texts are the parameters `biz_date` and `query_type`.
unfoldable pub get_activity_report :
    Service
    → (Str → Returns Object)
    → Files
    → (Str → Sheet → Option Error)
    → (Log → Str)
    → Str
    → Str
    → Returns Upload
    → Disk
    → Log
    → Served
unfolding upload_file process_excel_and_query query_type_of str_eq
get_activity_report taobao unmarshal files save_as now biz_date query_type form disk log =
    if str_eq biz_date []
    then (missing "biz_date is required", (disk, log))
    else upload_file files "uploaded_taobao_" "Excel file is required"
        "Only .xlsx and .xls files are accepted"
        (process_excel_and_query taobao unmarshal biz_date (query_type_of query_type) save_as now)
        form disk log
