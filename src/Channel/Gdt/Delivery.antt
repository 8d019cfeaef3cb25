-- ===== src/Channel/Gdt/Delivery.antt =====
-- Which callbacks `processGdtExcelAndCallback` sends, from the two tables.
use report_api.Prelude.{◌≡◌, ◌∙◌, true, List, [], ◌++◌, map}
use report_api.Go.Result.{Result, ok}
use report_api.Go.Text.{utf8}
use report_api.Excel.{Table, Workbook, open_table}
use report_api.Excel.Cells.{has_cell, every}
use report_api.Callback.Http.{Env, Log}
use report_api.Callback.Group.{group_from}
use report_api.Callback.Click.{Click}
use report_api.Callback.Process.{Run, process, process_clicks, start}
use report_api.Callback.Process.Plan.{plan, log_after-map, sent-process_clicks}
use report_api.Channel.Gdt.{
  Columns, columns_of, read_gdt_data_source, read_gdt_click_data, gdt_callback_url,
  process_gdt_excel_and_callback,
}
use report_api.Channel.Gdt.Panics.{accepted, tolerant_source, sources_of_rows-panic}

-- With both tables readable and a request id in each accepted row, the run succeeds, and what it sends
-- is the callback of each planned record, in order: for each click row in turn, the first
-- `click_count` accepted rows whose campaign id is the click row's id.
pub process_gdt_sends :
    (env : Env) (source click : Result Workbook) (log : Log) {table : Table} {cols : Columns}
    {clicks : List Click}
    → open_table "no sheets found in data source file" "data source file has no data rows" source
      ≡ ok table
    → columns_of table.header ≡ ok cols
    → read_gdt_click_data click ≡ ok clicks
    → every (has_cell cols.req_id_col) (accepted cols table.body) ≡ true
    → (run : Run) × (process_gdt_excel_and_callback env source click log ≡ (ok run, run.sent))
      × (run.sent
          ≡ log
            ++ map gdt_callback_url
                (plan (map (tolerant_source cols) (accepted cols table.body)) clicks))
unfolding process_gdt_excel_and_callback read_gdt_data_source process
process_gdt_sends env source click log {table} {cols} {clicks} t c k all =
    let keyed = map (tolerant_source cols) (accepted cols table.body) in
    let run =
      process_clicks env (λ r _. gdt_callback_url r) (λ r. utf8 r.callback_param)
        (group_from [] keyed) clicks (start log) in
    (
      run,
      rw (t, read_gdt_data_source, c, sources_of_rows-panic cols table.body, all, k),
      sent-process_clicks env _ _ keyed clicks log
          ∙ log_after-map env gdt_callback_url (plan keyed clicks) log,
    )
