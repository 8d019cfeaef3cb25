-- ===== src/Activity/Batch.antt =====
-- `processExcelAndQuery` of service/taobao_activity.go: one query for each row of a workbook.
pub mod Rows
use report_api.Prelude.{
  ℕ, Bool, String, Option, none, some, List, [], ◌∷◌, ◌++◌, get_or, if◌then◌else◌,
}
use report_api.Prelude.Int.{ℤ, pos}
use report_api.Go.Result.{Error, Result, ok, err, panic, errorf, wrapf}
use report_api.Go.Returns.{Returns, failed, returned}
use report_api.Go.Text.{Str, codes, str_eq}
use report_api.Go.Text.Trim.{trim_space}
use report_api.Excel.{Row, Table, Workbook, read_table, find_column_index, is_short}
use report_api.Excel.Sheet.{Value, text, number, float, failure, Sheet, cell}
use report_api.Excel.Batch.{Batch, start_batch, process_rows}
use report_api.Callback.Http.{Log}
use report_api.Activity.{ActivityRequest, Report, Response, Service, call_taobao_activity_api}
use report_api.Activity.ExtInfo.{Object, ExtInfoParsed, parse_ext_info}

-- The pid of a row, unless the loop passes over it.
unfoldable pub pid_of_row : ℕ → Row → Option Str
unfolding trim_space str_eq is_short
pid_of_row pid_col row =
    if is_short row pid_col
    then none
    else (let pid = trim_space (get_or row pid_col []) in if str_eq pid [] then none else some pid)

unfoldable pub result_header : Sheet
result_header =
    cell (codes "A") 1 (text (codes "pid"))
    ∷ cell (codes "B") 1 (text (codes "biz_date"))
    ∷ cell (codes "C") 1 (text (codes "符合奖励要求的累计用户数"))
    ∷ cell (codes "D") 1 (text (codes "奖励金额"))
    ∷ cell (codes "E") 1 (text (codes "人群1结算奖励uv"))
    ∷ cell (codes "F") 1 (text (codes "人群2结算奖励uv"))
    ∷ cell (codes "G") 1 (text (codes "人群3结算奖励uv"))
    ∷ cell (codes "H") 1 (text (codes "人群4结算奖励uv"))
    ∷ cell (codes "I") 1 (text (codes "人群5结算奖励uv"))
    ∷ cell (codes "J") 1 (text (codes "账号总开奖率"))
    ∷ cell (codes "K") 1 (text (codes "开奖率"))
    ∷ cell (codes "L") 1 (text (codes "更新时间"))
    ∷ []

unfoldable pub report_cells : ℕ → Report → ExtInfoParsed → Sheet
report_cells row r ext =
    cell (codes "A") row (text r.pid)
    ∷ cell (codes "B") row (text r.biz_date)
    ∷ cell (codes "C") row (number r.union_30d_lx_uv)
    ∷ cell (codes "D") row (text r.reward_amount)
    ∷ cell (codes "E") row (text ext.crowd1_reward_uv)
    ∷ cell (codes "F") row (text ext.crowd2_reward_uv)
    ∷ cell (codes "G") row (text ext.crowd3_reward_uv)
    ∷ cell (codes "H") row (text ext.crowd4_reward_uv)
    ∷ cell (codes "I") row (text ext.crowd5_reward_uv)
    ∷ cell (codes "J") row (float ext.account_draw_rate)
    ∷ cell (codes "K") row (float ext.draw_rate)
    ∷ cell (codes "L") row (text ext.update_time)
    ∷ []

unfoldable pub activity_request : Str → ℤ → Str → ActivityRequest
activity_request biz_date query_type pid = record {
  event_id = codes "3654363";
  biz_date = biz_date;
  page_no = pos 1;
  query_type = query_type;
  page_size = pos 10;
  pid = pid;
}

-- The row of a pid without a report.
unfoldable pub note_cells : Str → ℕ → Str → Value → Sheet
note_cells biz_date row pid note =
    cell (codes "A") row (text pid)
    ∷ cell (codes "B") row (text biz_date)
    ∷ cell (codes "C") row note
    ∷ []

module _ (taobao : Service) (unmarshal : Str → Returns Object) (biz_date : Str)
    (query_type : ℤ) where
  -- Of the reports only the first is shown.
  unfoldable pub reports_cells : ℕ → Str → List Report → Sheet
  unfolding note_cells report_cells parse_ext_info
  reports_cells row pid [] = note_cells biz_date row pid (text (codes "No data"))
  reports_cells row pid (r ∷ _) = report_cells row r (parse_ext_info unmarshal r.ext_info)

  unfoldable pub response_cells : ℕ → Str → Returns Response → Sheet
  unfolding note_cells reports_cells
  response_cells row pid (failed e) = note_cells biz_date row pid (failure "Error" e)
  response_cells row pid (returned response) = reports_cells row pid response.reports

  unfoldable pub query_pid : Str → Log → Returns Response × Log
  unfolding activity_request call_taobao_activity_api
  query_pid pid log = call_taobao_activity_api taobao (activity_request biz_date query_type pid) log

  unfoldable pub process_pids : ℕ → List Row → Batch → Batch
  unfolding pid_of_row query_pid response_cells process_rows
  process_pids pid_col = process_rows (pid_of_row pid_col) query_pid response_cells

  -- The code behind the search for the pid column.
  unfoldable pub query_table :
      (Str → Sheet → Option Error)
      → (Log → Str)
      → Option ℕ
      → List Row
      → Log
      → Result (Str × Sheet) × Log
  unfolding process_pids result_header
  query_table save_as now none rows log = (err (errorf "pid column not found in excel"), log)
  query_table save_as now (some pid_col) rows log =
      let b = process_pids pid_col rows (start_batch result_header log) in
      let path = codes "taobao_result_" ++ now b.sent ++ codes ".xlsx" in
      elim (save_as path b.sheet) [
        | some e ↦ (err (wrapf "failed to save result file" e), b.sent)
        | none ↦ (ok (path, b.sheet), b.sent)
      ]

  -- `SaveAs` may fail, and the result's name shows the time.
  unfoldable pub process_excel_and_query :
      (Str → Sheet → Option Error)
      → (Log → Str)
      → Result Workbook
      → Log
      → Result (Str × Sheet) × Log
  unfolding query_table read_table find_column_index
  process_excel_and_query save_as now opened log =
      elim (read_table "failed to open excel" "no sheets found in excel file" "failed to read rows"
        "excel file has no data rows" opened) [
          | err e ↦ (err e, log)
          | panic p ↦ (panic p, log)
          | ok table ↦
              query_table save_as now (find_column_index table.header (codes "pid" ∷ [])) table.body
                log
        ]
