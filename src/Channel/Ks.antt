-- ===== src/Channel/Ks.antt =====
-- service/ks.go: Kuaishou. Records are grouped by their cleaned ad id.
pub mod Delivery
use report_api.Prelude.{
  ℕ, ◌+◌, ◌/◌, ◌≡◌, refl, ◌||◌, Bool, Option, none, some, List, [], ◌∷◌, ◌++◌, get_or, String,
  length, ltb, if◌then◌else◌,
}
use report_api.Go.Result.{Result, ok, err, errorf, index, ◌>>=◌}
use report_api.Go.Text.{Str, Bytes, codes, utf8, str_eq}
use report_api.Go.Strconv.{atoi}
use report_api.Go.Base64.{decode_string}
use report_api.Go.Decimal.{format_nat}
use report_api.Go.Url.{Values, set, add, encode}
use report_api.Excel.{
  Row, Table, Workbook, open_table, find_column_index, clean_id, optional_cell, is_short,
}
use report_api.Callback.Http.{Env, Log}
use report_api.Callback.Group.{group_from}
use report_api.Callback.Click.{Click, read_click_data, click_columns, clicks_of_rows, click_of_row}
use report_api.Callback.Process.{Run, process}
use report_api.Callback.Upload.{Files, Upload, Disk, Outcome, upload, save_upload, run_saved}

-- `DataKsSourceRecord`.
pub record Source : Type 0 where
  pub ad_id : Str
  pub callback_param : Str
  pub advertiser_id : Str
  pub campaign_id : Str
  pub oaid_sum : Str
  pub req_id : Str

-- The column indices of `readKsDataSourceExcel`.
pub record Columns : Type 0 where
  pub ad_id_col : ℕ
  pub callback_param_col : ℕ
  pub advertiser_id_col : Option ℕ
  pub campaign_id_col : Option ℕ
  pub oaid_sum_col : Option ℕ

-- `findKsColumnIndex`, the same text as `findColumnIndex`.
unfoldable pub find_ks_column_index : Row → List Str → Option ℕ
unfolding find_column_index
find_ks_column_index header names = find_column_index header names

with_required : Row → Option ℕ → Option ℕ → Result Columns
unfolding find_ks_column_index
with_required header (some ad_id) (some callback_param) = ok (record {
  ad_id_col = ad_id;
  callback_param_col = callback_param;
  advertiser_id_col = find_ks_column_index header (codes "advertiser_id" ∷ []);
  campaign_id_col = find_ks_column_index header (codes "campaign_id" ∷ []);
  oaid_sum_col = find_ks_column_index header (codes "oaid_sum" ∷ []);
})
with_required header _ _ =
    err (errorf "required columns (ad_id, callback_param) not found in data source")

unfoldable pub columns_of : Row → Result Columns
unfolding with_required
columns_of header =
    with_required header (find_ks_column_index header (codes "ad_id" ∷ []))
      (find_ks_column_index header (codes "callback_param" ∷ []))

-- The record of a row, with its key.
unfoldable pub source_of_row : Columns → Row → Str × Source
unfolding optional_cell
source_of_row cols row =
    let ad_id = clean_id (get_or row cols.ad_id_col []) in
    (
      ad_id,
      record {
        ad_id = ad_id;
        callback_param = get_or row cols.callback_param_col [];
        advertiser_id = optional_cell row cols.advertiser_id_col;
        campaign_id = optional_cell row cols.campaign_id_col;
        oaid_sum = optional_cell row cols.oaid_sum_col;
        req_id = [];
      },
    )

-- A row without an ad id or a callback parameter is passed over.
unfoldable pub sources_of_rows : Columns → List Row → List (Str × Source)
unfolding source_of_row is_short
sources_of_rows cols [] = []
sources_of_rows cols (row ∷ rows) =
    if is_short row cols.ad_id_col || is_short row cols.callback_param_col
    then sources_of_rows cols rows
    else source_of_row cols row ∷ sources_of_rows cols rows

unfoldable pub read_ks_data_source : Result Workbook → Result (List (Str × List Source))
read_ks_data_source opened = do
  table ←
      open_table "no sheets found in data source file" "data source file has no data rows" opened
  cols ← columns_of table.header
  ok (group_from [] (sources_of_rows cols table.body))

ks_params : Source → Values
unfolding set
ks_params r =
    let v = set [] (codes "ms_task") (codes "meishutest") in
    let v = set v (codes "ms_place") (codes "1") in
    let v = set v (codes "ms_channel") (codes "ks") in
    let v = set v (codes "callback_param") (utf8 r.callback_param) in
    let v = set v (codes "advertiser_id") (utf8 r.advertiser_id) in
    let v = set v (codes "campaign_id") (utf8 r.campaign_id) in
    let v = set v (codes "ad_id") (utf8 r.ad_id) in
    let v = set v (codes "oaid_sum") (utf8 r.oaid_sum) in
    let v = set v (codes "os") (codes "ios") in
    let v = set v (codes "req_id") (utf8 (r.req_id ++ codes "-20260210")) in
    let v = set v (codes "debug") (codes "1") in set v (codes "transformType") (codes "36")

-- The URL of `executeKsCallback`.
unfoldable pub ks_callback_url : Source → Bytes
unfolding ks_params encode
ks_callback_url r =
    codes "https://ad-ocpx.zhltech.net/track/af498d3248" ++ b'?' ∷ encode (ks_params r)

-- The same text as `readClickDataExcel`.
unfoldable pub read_ks_click_data : Result Workbook → Result (List Click)
unfolding read_click_data
read_ks_click_data opened = read_click_data opened

unfoldable pub process_ks_excel_and_callback :
    Env → Result Workbook → Result Workbook → Log → Result Run × Log
process_ks_excel_and_callback env source click =
    process env (λ r _. ks_callback_url r) (λ r. utf8 r.callback_param) (read_ks_data_source source)
      (read_ks_click_data click)

unfoldable pub upload_ks_excel_files : Files → Env → Result (List Upload) → Disk → Log → Outcome
unfolding process_ks_excel_and_callback read_ks_data_source read_ks_click_data process
    ks_callback_url columns_of sources_of_rows group_from open_table upload save_upload run_saved
    read_click_data click_columns clicks_of_rows click_of_row atoi clean_id is_short
    find_column_index
upload_ks_excel_files files env = upload files (process_ks_excel_and_callback env)
