-- ===== src/Activity/Batch/Rows.antt =====
-- The report that a batch of queries yields.
use report_api.Prelude.{
  ℕ, ◌+◌, ◌≡◌, refl, Option, none, some, List, [], ◌∷◌, ◌++◌, length, length-append, arith,
}
use report_api.Prelude.Int.{ℤ}
use report_api.Go.Result.{Result, ok, Error}
use report_api.Go.Returns.{Returns}
use report_api.Go.Text.{Str, codes}
use report_api.Excel.{Table, Workbook, read_table, find_column_index}
use report_api.Excel.Sheet.{Sheet}
use report_api.Excel.Batch.{start_batch}
use report_api.Excel.Batch.Report.{entries, report, asked, process_rows-report}
use report_api.Callback.Http.{Log}
use report_api.Activity.{Service, call_taobao_activity_api}
use report_api.Activity.ExtInfo.{Object}
use report_api.Activity.Batch.{
  pid_of_row, result_header, response_cells, query_pid, process_pids, query_table,
  process_excel_and_query,
}

module _ (taobao : Service) (unmarshal : Str → Returns Object) (biz_date : Str)
    (query_type : ℤ) where
  asked-length :
      (pids : List Str) (log : Log)
      → length (asked (query_pid taobao unmarshal biz_date query_type) pids log)
        ≡ length log + length pids
  unfolding query_pid call_taobao_activity_api
  asked-length [] log = omega arith
  asked-length (pid ∷ pids) log = omega (
    arith,
    asked-length pids (query_pid taobao unmarshal biz_date query_type pid log).1,
    length-append log (_ ∷ []),
  )

  -- Where the workbook can be read, has a column "pid" and the result can be saved, processExcelAndQuery
  -- succeeds: below its header the result has the cells of each row with a pid, in order, and there was
  -- one request for each of them.
  pub process_excel_and_query-report :
      (save_as : Str → Sheet → Option Error) (now : Log → Str) (opened : Result Workbook)
      (log : Log) {table : Table} {pid_col : ℕ}
      → read_table "failed to open excel" "no sheets found in excel file" "failed to read rows"
          "excel file has no data rows" opened
        ≡ ok table
      → find_column_index table.header (codes "pid" ∷ []) ≡ some pid_col
      → ((path : Str) (sheet : Sheet) → save_as path sheet ≡ none)
      → let pids = entries (pid_of_row pid_col) table.body in
        let ask = query_pid taobao unmarshal biz_date query_type in
        let (result, sent) =
          process_excel_and_query taobao unmarshal biz_date query_type save_as now opened log in
        ((path : Str) × (result
            ≡ ok (
              path,
              result_header
                  ++ report ask (response_cells taobao unmarshal biz_date query_type) 2 pids log,
            )))
        × (sent ≡ asked ask pids log)
        × (length sent ≡ length log + length pids)
  unfolding process_excel_and_query query_table process_pids
  process_excel_and_query-report save_as now opened log {table} {pid_col} e found saves =
      let (_, sheet, sent) =
        process_rows-report (pid_of_row pid_col) (query_pid taobao unmarshal biz_date query_type)
          (response_cells taobao unmarshal biz_date query_type) table.body
          (start_batch result_header log) in
      rw (e, process_excel_and_query, found, query_table, saves _ _, sheet, sent)
        ((_, refl), refl, asked-length (entries (pid_of_row pid_col) table.body) log)
