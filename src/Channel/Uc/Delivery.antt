-- ===== src/Channel/Uc/Delivery.antt =====
-- Which callbacks `processUcExcelAndCallback` sends, from the two tables.
use report_api.Prelude.{◌≡◌, refl, ◌∙◌, List, [], ◌∷◌, ◌++◌, map, filter, arith}
use report_api.Go.Result.{Result, ok}
use report_api.Go.Text.{utf8}
use report_api.Excel.{Row, Table, Workbook, open_table}
use report_api.Excel.Cells.{is_accepted}
use report_api.Callback.Http.{Env, Log}
use report_api.Callback.Group.{group_from}
use report_api.Callback.Click.{Click}
use report_api.Callback.Process.{Run, process, process_clicks, start}
use report_api.Callback.Process.Plan.{plan, log_after-map, sent-process_clicks}
use report_api.Channel.Uc.{
  Columns, columns_of, source_of_row, sources_of_rows, read_uc_data_source, read_uc_click_data,
  uc_callback_url, process_uc_excel_and_callback,
}

sources_of_rows-accepted :
    (cols : Columns) (rows : List Row)
    → sources_of_rows cols rows
      ≡ map (source_of_row cols) (filter (is_accepted cols.ad_id_col cols.callback_param_col) rows)
unfolding sources_of_rows
sources_of_rows-accepted cols [] = refl
sources_of_rows-accepted cols (row ∷ rows) = ground (arith, sources_of_rows-accepted cols rows)

-- With both tables readable, the run succeeds, and what it sends is the callback of each planned
-- record, in order: for each click row in turn, the first `click_count` of the rows that hold an ad id
-- and a callback parameter and whose campaign id is the click row's id.
pub process_uc_sends :
    (env : Env) (source click : Result Workbook) (log : Log) {table : Table} {cols : Columns}
    {clicks : List Click}
    → open_table "no sheets found in data source file" "data source file has no data rows" source
      ≡ ok table
    → columns_of table.header ≡ ok cols
    → read_uc_click_data click ≡ ok clicks
    → (run : Run) × (process_uc_excel_and_callback env source click log ≡ (ok run, run.sent))
      × (run.sent
          ≡ log
            ++ map uc_callback_url (
                plan
                  (map
                    (source_of_row cols)
                    (filter (is_accepted cols.ad_id_col cols.callback_param_col) table.body))
                  clicks))
unfolding process_uc_excel_and_callback read_uc_data_source process
process_uc_sends env source click log {table} {cols} {clicks} t c k =
    let keyed =
      map (source_of_row cols)
        (filter (is_accepted cols.ad_id_col cols.callback_param_col) table.body) in
    let run =
      process_clicks env (λ r _. uc_callback_url r) (λ r. utf8 r.callback_param)
        (group_from [] keyed) clicks (start log) in
    (
      run,
      rw (t, read_uc_data_source, c, sources_of_rows-accepted cols table.body, k),
      sent-process_clicks env _ _ keyed clicks log
          ∙ log_after-map env uc_callback_url (plan keyed clicks) log,
    )
