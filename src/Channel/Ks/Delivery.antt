-- ===== src/Channel/Ks/Delivery.antt =====
-- Which callbacks `processKsExcelAndCallback` sends, from the two tables.
use report_api.Prelude.{
  ◌≡◌, refl, ◌∙◌, ◌||◌, List, [], ◌∷◌, ◌++◌, map, All, filter, not, Bool-cases, inl, inr, arith,
}
use report_api.Go.Result.{Result, ok}
use report_api.Go.Text.{Str, utf8, str_eq, str_eq→eq}
use report_api.Excel.{Row, Table, Workbook, open_table, is_short}
use report_api.Callback.Http.{Env, Log}
use report_api.Callback.Group.{under, group_from}
use report_api.Callback.Click.{Click}
use report_api.Callback.Process.{Run, process, process_clicks, start}
use report_api.Callback.Process.Plan.{plan, log_after-map, sent-process_clicks}
use report_api.Channel.Ks.{
  Source, Columns, columns_of, source_of_row, sources_of_rows, read_ks_data_source,
  read_ks_click_data, ks_callback_url, process_ks_excel_and_callback,
}

-- The rows that hold both an ad id and a callback parameter, each read once, in order.
pub sources_of_rows-filter :
    (cols : Columns) (rows : List Row)
    → sources_of_rows cols rows
      ≡ map (source_of_row cols) (
          filter
            (λ row. not (is_short row cols.ad_id_col || is_short row cols.callback_param_col))
            rows)
unfolding sources_of_rows
sources_of_rows-filter cols [] = refl
sources_of_rows-filter cols (row ∷ rows) = ground (arith, sources_of_rows-filter cols rows)

under-cons :
    (id : Str) (first : Str × Source) (keyed : List (Str × Source))
    → first.1.ad_id ≡ first.0
    → All (λ (r : Source). r.ad_id ≡ id) (under id keyed)
    → All (λ (r : Source). r.ad_id ≡ id) (under id (first ∷ keyed))
unfolding under
under-cons id (j, r) keyed e h = elim (Bool-cases (str_eq j id)) [
  | inl same ↦ rw same (e ∙ str_eq→eq j id same, h)
  | inr other ↦ rw other h
]

-- Every record that a click row asks for has the click row's ad id.
pub under-ad_id :
    (cols : Columns) (rows : List Row) (id : Str)
    → All (λ (r : Source). r.ad_id ≡ id) (under id (sources_of_rows cols rows))
unfolding sources_of_rows
under-ad_id cols [] id = unfold under in tt
under-ad_id cols (row ∷ rows) id =
    elim (Bool-cases (is_short row cols.ad_id_col || is_short row cols.callback_param_col)) [
      | inl short ↦ rw (short, sources_of_rows) (under-ad_id cols rows id)
      | inr long ↦
          rw (long, sources_of_rows)
            (under-cons id (source_of_row cols row) _ refl (under-ad_id cols rows id))
    ]

-- With both tables readable, the run succeeds, and what it sends is the callback of each planned
-- record: for each click row in turn, the first `click_count` data rows whose cleaned ad id is the
-- row's.
pub process_ks_sends :
    (env : Env) (source click : Result Workbook) (log : Log) {table : Table} {cols : Columns}
    {clicks : List Click}
    → open_table "no sheets found in data source file" "data source file has no data rows" source
      ≡ ok table
    → columns_of table.header ≡ ok cols
    → read_ks_click_data click ≡ ok clicks
    → (run : Run) × (process_ks_excel_and_callback env source click log ≡ (ok run, run.sent))
      × (run.sent ≡ log ++ map ks_callback_url (plan (sources_of_rows cols table.body) clicks))
unfolding process_ks_excel_and_callback read_ks_data_source process
process_ks_sends env source click log {table} {cols} {clicks} t c k =
    let keyed = sources_of_rows cols table.body in
    let run =
      process_clicks env (λ r _. ks_callback_url r) (λ r. utf8 r.callback_param)
        (group_from [] keyed) clicks (start log) in
    (
      run,
      rw (t, read_ks_data_source, c, k),
      sent-process_clicks env _ _ keyed clicks log
          ∙ log_after-map env ks_callback_url (plan keyed clicks) log,
    )
