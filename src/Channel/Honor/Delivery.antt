-- ===== src/Channel/Honor/Delivery.antt =====
-- Which callbacks `processHonorExcelAndCallback` sends, and when it panics.
use report_api.Prelude.{
  ◌≡◌, refl, true, false, List, [], ◌∷◌, map, get_or, filter, Bool-cases, inl, inr, arith,
  if◌then◌else◌,
}
use report_api.Go.Result.{Result, ok, panic, index_out_of_range}
use report_api.Go.Text.{Str, utf8}
use report_api.Excel.{Row, Table, Workbook, open_table, optional_cell, clean_id}
use report_api.Excel.Cells.{is_accepted, has_cell, every, index-cell}
use report_api.Callback.Http.{Env, Log}
use report_api.Callback.Group.{group_from}
use report_api.Callback.Click.{Click}
use report_api.Callback.Process.{Run, process, process_clicks, start}
use report_api.Callback.Process.Plan.{plan, log_after, sent-process_clicks}
use report_api.Channel.Honor.{
  Source, Columns, columns_of, source_of_row, sources_of_rows, read_honor_data_source,
  read_honor_click_data, honor_callback_url, process_honor_excel_and_callback,
}

-- The rows with an ad id and a callback parameter.
abbrev pub accepted : Columns → List Row → List Row
accepted cols rows = filter (is_accepted cols.ad_id_col cols.callback_param_col) rows

-- A row's record, the request id read like every other optional column.
abbrev pub tolerant_source : Columns → Row → Str × Source
tolerant_source cols row = (
  optional_cell row cols.campaign_id_col,
  record {
    ad_id = clean_id (get_or row cols.ad_id_col []);
    callback_param = get_or row cols.callback_param_col [];
    advertiser_id = optional_cell row cols.advertiser_id_col;
    campaign_id = optional_cell row cols.campaign_id_col;
    oaid = optional_cell row cols.oaid_col;
    req_id = optional_cell row cols.req_id_col;
  },
)

source_of_row-cell :
    (cols : Columns) (row : Row)
    → source_of_row cols row ≡ (
        if has_cell cols.req_id_col row
        then ok (tolerant_source cols row)
        else panic index_out_of_range)
unfolding source_of_row
source_of_row-cell cols row = elim (Bool-cases (has_cell cols.req_id_col row)) [
  | inl e ↦ rw (index-cell row cols.req_id_col, source_of_row, e)
  | inr e ↦ rw (index-cell row cols.req_id_col, source_of_row, e)
]

sources_of_rows-cells :
    (cols : Columns) (rows : List Row)
    → sources_of_rows cols rows ≡ (
        if every (has_cell cols.req_id_col) (accepted cols rows)
        then ok (map (tolerant_source cols) (accepted cols rows))
        else panic index_out_of_range)
unfolding sources_of_rows
sources_of_rows-cells cols [] = refl
sources_of_rows-cells cols (row ∷ rows) =
    ground (arith, source_of_row-cell cols row, sources_of_rows-cells cols rows)

-- With the data source readable and its required columns found, one accepted row without a cell for
-- the request id makes the whole request panic, before any callback is sent.
pub process_honor-panic :
    (env : Env) (source click : Result Workbook) (log : Log) {table : Table} {cols : Columns}
    → open_table "no sheets found in data source file" "data source file has no data rows" source
      ≡ ok table
    → columns_of table.header ≡ ok cols
    → every (has_cell cols.req_id_col) (accepted cols table.body) ≡ false
    → process_honor_excel_and_callback env source click log ≡ (panic index_out_of_range, log)
unfolding process_honor_excel_and_callback read_honor_data_source process
process_honor-panic env source click log {table} {cols} t c missing =
    rw (t, read_honor_data_source, c, sources_of_rows-cells cols table.body, missing)

-- With both tables readable and a request id in each accepted row, the run succeeds, and what it sends
-- is the callback of each planned record, in order: for each click row in turn, the first
-- `click_count` accepted rows whose campaign id is the click row's id.
pub process_honor_sends :
    (env : Env) (source click : Result Workbook) (log : Log) {table : Table} {cols : Columns}
    {clicks : List Click}
    → open_table "no sheets found in data source file" "data source file has no data rows" source
      ≡ ok table
    → columns_of table.header ≡ ok cols
    → read_honor_click_data click ≡ ok clicks
    → every (has_cell cols.req_id_col) (accepted cols table.body) ≡ true
    → (run : Run) × (process_honor_excel_and_callback env source click log ≡ (ok run, run.sent))
      × (run.sent
          ≡ log_after env
              (λ r log. honor_callback_url r (env.unix_milli log))
              (plan (map (tolerant_source cols) (accepted cols table.body)) clicks)
              log)
unfolding process_honor_excel_and_callback read_honor_data_source process
process_honor_sends env source click log {table} {cols} {clicks} t c k all =
    let keyed = map (tolerant_source cols) (accepted cols table.body) in
    let run =
      process_clicks env (λ r log. honor_callback_url r (env.unix_milli log))
        (λ r. utf8 r.callback_param) (group_from [] keyed) clicks (start log) in
    (
      run,
      rw (t, read_honor_data_source, c, sources_of_rows-cells cols table.body, all, k),
      sent-process_clicks env _ _ keyed clicks log,
    )
