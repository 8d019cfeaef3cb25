-- ===== src/Channel/Juliang/Delivery.antt =====
-- Which callbacks `processExcelAndCallback` sends, and when it panics.
use report_api.Prelude.{
  ◌/◌, ◌≡◌, refl, true, false, List, [], ◌∷◌, map, get_or, filter, Bool-cases, inl, inr, arith,
  if◌then◌else◌,
}
use report_api.Go.Result.{Result, ok, panic, index_out_of_range}
use report_api.Go.Text.{Str}
use report_api.Go.Base64.{decode_string}
use report_api.Excel.{Row, Table, Workbook, open_table, optional_cell, clean_id}
use report_api.Excel.Cells.{is_accepted, has_cell, every, index-cell}
use report_api.Callback.Http.{Env, Log}
use report_api.Callback.Group.{group_from}
use report_api.Callback.Click.{Click, read_click_data}
use report_api.Callback.Process.{Run, process, process_clicks, start}
use report_api.Callback.Process.Plan.{plan, log_after, sent-process_clicks}
use report_api.Channel.Juliang.{
  Source, Columns, columns_of, source_of_row, sources_of_rows, read_juliang_data_source, ad_id_cell,
  juliang_callback_url, process_juliang_excel_and_callback,
}

-- The rows with an ad id and a callback parameter.
abbrev pub accepted : Columns → List Row → List Row
accepted cols rows = filter (is_accepted cols.ad_id_col cols.callback_param_col) rows

-- A row's record, the campaign id read like every other optional column.
abbrev pub tolerant_source : Columns → Row → Str × Source
tolerant_source cols row = (
  clean_id (optional_cell row cols.campaign_id_col),
  record {
    ad_id = ad_id_cell row cols.ad_id_col cols.campaign_id_col;
    callback_param = get_or row cols.callback_param_col [];
    advertiser_id = optional_cell row cols.advertiser_id_col;
    campaign_id = clean_id (optional_cell row cols.campaign_id_col);
    cid = optional_cell row cols.cid_col;
    oaid = optional_cell row cols.oaid_col;
    req_id = optional_cell row cols.req_id_col;
    log_time = optional_cell row cols.log_time_col;
  },
)

source_of_row-cell :
    (cols : Columns) (row : Row)
    → source_of_row cols row ≡ (
        if has_cell cols.campaign_id_col row
        then ok (tolerant_source cols row)
        else panic index_out_of_range)
unfolding source_of_row
source_of_row-cell cols row = elim (Bool-cases (has_cell cols.campaign_id_col row)) [
  | inl e ↦ rw (index-cell row cols.campaign_id_col, source_of_row, e)
  | inr e ↦ rw (index-cell row cols.campaign_id_col, source_of_row, e)
]

sources_of_rows-cells :
    (cols : Columns) (rows : List Row)
    → sources_of_rows cols rows ≡ (
        if every (has_cell cols.campaign_id_col) (accepted cols rows)
        then ok (map (tolerant_source cols) (accepted cols rows))
        else panic index_out_of_range)
unfolding sources_of_rows
sources_of_rows-cells cols [] = refl
sources_of_rows-cells cols (row ∷ rows) =
    ground (arith, source_of_row-cell cols row, sources_of_rows-cells cols rows)

-- With the data source readable and its required columns found, one accepted row without a cell for
-- the campaign id makes the whole request panic, before any callback is sent.
pub process_juliang-panic :
    (env : Env) (source click : Result Workbook) (log : Log) {table : Table} {cols : Columns}
    → open_table "no sheets found in data source file" "data source file has no data rows" source
      ≡ ok table
    → columns_of table.header ≡ ok cols
    → every (has_cell cols.campaign_id_col) (accepted cols table.body) ≡ false
    → process_juliang_excel_and_callback env source click log ≡ (panic index_out_of_range, log)
unfolding process_juliang_excel_and_callback read_juliang_data_source process
process_juliang-panic env source click log {table} {cols} t c missing =
    rw (t, read_juliang_data_source, c, sources_of_rows-cells cols table.body, missing)

-- With both tables readable and a campaign id in each accepted row, the run succeeds, and what it sends
-- is the callback of each planned record, in order: for each click row in turn, the first
-- `click_count` accepted rows whose cleaned campaign id is the click row's id.
pub process_juliang_sends :
    (env : Env) (source click : Result Workbook) (log : Log) {table : Table} {cols : Columns}
    {clicks : List Click}
    → open_table "no sheets found in data source file" "data source file has no data rows" source
      ≡ ok table
    → columns_of table.header ≡ ok cols
    → read_click_data click ≡ ok clicks
    → every (has_cell cols.campaign_id_col) (accepted cols table.body) ≡ true
    → (run : Run) × (process_juliang_excel_and_callback env source click log ≡ (ok run, run.sent))
      × (run.sent
          ≡ log_after env
              (λ r log. juliang_callback_url r (env.unix_milli log / 1000))
              (plan (map (tolerant_source cols) (accepted cols table.body)) clicks)
              log)
unfolding process_juliang_excel_and_callback read_juliang_data_source process
process_juliang_sends env source click log {table} {cols} {clicks} t c k all =
    let keyed = map (tolerant_source cols) (accepted cols table.body) in
    let run =
      process_clicks env (λ r log. juliang_callback_url r (env.unix_milli log / 1000))
        (λ r. decode_string r.callback_param) (group_from [] keyed) clicks (start log) in
    (
      run,
      rw (t, read_juliang_data_source, c, sources_of_rows-cells cols table.body, all, k),
      sent-process_clicks env _ _ keyed clicks log,
    )
