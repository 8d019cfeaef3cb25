-- ===== src/Examples/Activities.antt =====
-- A batch of queries of the activity report on a small service.
use mathlib.Core.List.{Permᴰ}
use report_api.Prelude.{◌+◌, ◌≡◌, refl, Option, none, some, [], ◌∷◌, ◌++◌, length}
use report_api.Prelude.Int.{ℤ, pos}
use report_api.Go.Result.{Error, Result, ok}
use report_api.Go.Returns.{Returns, returned}
use report_api.Go.Text.{Str, codes, str_eq}
use report_api.Go.Text.Trim.{trim_space}
use report_api.Excel.{Table, Workbook, read_table, find_column_index}
use report_api.Excel.Sheet.{Sheet}
use report_api.Excel.Batch.Report.{entries, report, asked}
use report_api.Callback.Http.{Log}
use report_api.Sign.{Params}
use report_api.Activity.{Report, Service, activity_params}
use report_api.Activity.ExtInfo.{
  string, float64, Object, parse_ext_info, no_ext_info, ext_info_of_object,
}
use report_api.Activity.Batch.{
  pid_of_row, result_header, response_cells, query_pid, activity_request, process_excel_and_query,
}
use report_api.Activity.Batch.Rows.{process_excel_and_query-report}

abbrev decimal : ℤ → Str
decimal n = codes "1"

abbrev signed : Params
signed = activity_params decimal [] [] (activity_request [] (pos 1) [])

-- The first two entries of the map are met the other way round.
abbrev met : Params → Params
met (p ∷ q ∷ params) = q ∷ p ∷ params
met params = params

met-Permᴰ : Permᴰ signed (met signed)
unfolding activity_params
met-Permᴰ = Permᴰ.swap refl refl

abbrev shown : Report
shown = record {
  union_30d_lx_uv = pos 3;
  reward_amount = codes "1.5";
  relation_id = pos 0;
  biz_date = codes "20250101";
  pid = codes "p1";
  query_type = pos 1;
  ext_info = codes "{}";
}

abbrev taobao : Service
taobao = record {
  app_key = [];
  app_secret = [];
  timestamp = λ log. [];
  decimal = decimal;
  http_get = λ log url. returned (returned []);
  unmarshal = λ body. returned (record { request_id = []; reports = shown ∷ [] });
}

-- A number where a text is expected is passed over.
abbrev unmarshal : Str → Returns Object
unmarshal s = returned ((codes "更新时间", float64 1) ∷ (codes "人群1结算奖励uv", string (codes "7")) ∷ [])

ext_info_parsed :
    parse_ext_info unmarshal (codes "{}") ≡ (record no_ext_info { crowd1_reward_uv = codes "7" })
unfolding parse_ext_info ext_info_of_object no_ext_info str_eq
ext_info_parsed = refl

abbrev table : Table
table = record {
  header = codes "name" ∷ codes " pid" ∷ [];
  body = (codes "x" ∷ codes "p1" ∷ []) ∷ (codes "y" ∷ []) ∷ [];
}

abbrev opened : Result Workbook
opened =
    ok (record { sheets = codes "Sheet1" ∷ []; get_rows = λ sheet. ok (table.header ∷ table.body) })

table_read :
    read_table "failed to open excel" "no sheets found in excel file" "failed to read rows"
      "excel file has no data rows" opened
    ≡ ok table
unfolding read_table
table_read = refl

pid_found : find_column_index table.header (codes "pid" ∷ []) ≡ some 1
unfolding find_column_index str_eq trim_space
pid_found = refl

abbrev save_as : Str → Sheet → Option Error
save_as path sheet = none

abbrev now : Log → Str
now log = []

process_excel_and_query-report_example :
    let pids = entries (pid_of_row 1) table.body in
    let ask = query_pid taobao unmarshal (codes "20250101") (pos 1) in
    let (result, sent) =
      process_excel_and_query taobao unmarshal (codes "20250101") (pos 1) save_as now opened [] in
    ((path : Str) × (result
        ≡ ok (
          path,
          result_header
              ++ report ask (response_cells taobao unmarshal (codes "20250101") (pos 1)) 2 pids [],
        )))
    × (sent ≡ asked ask pids [])
    × (length sent ≡ 0 + length pids)
process_excel_and_query-report_example =
    process_excel_and_query-report taobao unmarshal (codes "20250101") (pos 1) save_as now opened []
      table_read pid_found (λ path sheet. refl)
