-- ===== src/Channel/Gdt/Panics.antt =====
-- When `processGdtExcelAndCallback` panics.
use report_api.Prelude.{
  ◌≡◌, refl, false, List, [], ◌∷◌, map, get_or, filter, Bool-cases, inl, inr, arith, if◌then◌else◌,
}
use report_api.Go.Result.{Result, ok, panic, index_out_of_range}
use report_api.Go.Text.{Str}
use report_api.Excel.{Row, Table, Workbook, open_table, optional_cell, clean_id}
use report_api.Excel.Cells.{is_accepted, has_cell, every, index-cell}
use report_api.Callback.Http.{Env, Log}
use report_api.Callback.Process.{process}
use report_api.Channel.Gdt.{
  Source, Columns, columns_of, source_of_row, sources_of_rows, read_gdt_data_source,
  process_gdt_excel_and_callback,
}

-- The rows with an ad id and a callback parameter.
abbrev pub accepted : Columns → List Row → List Row
accepted cols rows = filter (is_accepted cols.ad_id_col cols.callback_param_col) rows

-- A row's record, the request id read like every other optional column.
abbrev pub tolerant_source : Columns → Row → Str × Source
tolerant_source cols row = (
  optional_cell row cols.campaign_id_col,
  record {
    ad_id = clean_id (get_or row cols.ad_id_col []);
    callback_param = get_or row cols.callback_param_col [];
    advertiser_id = optional_cell row cols.advertiser_id_col;
    campaign_id = optional_cell row cols.campaign_id_col;
    idfa_sum = optional_cell row cols.idfa_sum_col;
    oaid = optional_cell row cols.oaid_col;
    oaid_sum = optional_cell row cols.oaid_sum_col;
    imei = optional_cell row cols.imei_col;
    imei_sum = optional_cell row cols.imei_sum_col;
    req_id = optional_cell row cols.req_id_col;
  },
)

source_of_row-cell :
    (cols : Columns) (row : Row)
    → source_of_row cols row ≡ (
        if has_cell cols.req_id_col row
        then ok (tolerant_source cols row)
        else panic index_out_of_range)
unfolding source_of_row
source_of_row-cell cols row = elim (Bool-cases (has_cell cols.req_id_col row)) [
  | inl e ↦ rw (index-cell row cols.req_id_col, source_of_row, e)
  | inr e ↦ rw (index-cell row cols.req_id_col, source_of_row, e)
]

-- Every accepted row is read if each has a request id; otherwise reading the table panics.
pub sources_of_rows-panic :
    (cols : Columns) (rows : List Row)
    → sources_of_rows cols rows ≡ (
        if every (has_cell cols.req_id_col) (accepted cols rows)
        then ok (map (tolerant_source cols) (accepted cols rows))
        else panic index_out_of_range)
unfolding sources_of_rows
sources_of_rows-panic cols [] = refl
sources_of_rows-panic cols (row ∷ rows) =
    ground (arith, source_of_row-cell cols row, sources_of_rows-panic cols rows)

-- With the data source readable and its required columns found, one accepted row without a cell for
-- the request id makes the whole request panic, before any callback is sent.
pub process_gdt-panic :
    (env : Env) (source click : Result Workbook) (log : Log) {table : Table} {cols : Columns}
    → open_table "no sheets found in data source file" "data source file has no data rows" source
      ≡ ok table
    → columns_of table.header ≡ ok cols
    → every (has_cell cols.req_id_col) (accepted cols table.body) ≡ false
    → process_gdt_excel_and_callback env source click log ≡ (panic index_out_of_range, log)
unfolding process_gdt_excel_and_callback read_gdt_data_source process
process_gdt-panic env source click log {table} {cols} t c missing =
    rw (t, read_gdt_data_source, c, sources_of_rows-panic cols table.body, missing)
