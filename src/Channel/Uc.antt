-- ===== src/Channel/Uc.antt =====
-- service/uc.go: UC. Records are grouped by their campaign id as the cell has it.
pub mod Delivery
use report_api.Prelude.{ℕ, ◌||◌, Option, some, List, [], ◌∷◌, ◌++◌, get_or, if◌then◌else◌}
use report_api.Go.Result.{Result, ok, err, errorf, ◌>>=◌}
use report_api.Go.Text.{Str, Bytes, codes, utf8}
use report_api.Go.Strconv.{atoi}
use report_api.Go.Url.{Values, set, encode}
use report_api.Excel.{
  Row, Workbook, open_table, find_column_index, clean_id, optional_cell, is_short,
}
use report_api.Callback.Http.{Env, Log}
use report_api.Callback.Group.{group_from}
use report_api.Callback.Click.{Click, read_click_data, click_columns, clicks_of_rows, click_of_row}
use report_api.Callback.Process.{Run, process}
use report_api.Callback.Upload.{Files, Upload, Disk, Outcome, upload, save_upload, run_saved}

-- `DataUcSourceRecord`.
pub record Source : Type 0 where
  pub ad_id : Str
  pub callback_param : Str
  pub advertiser_id : Str
  pub campaign_id : Str
  pub idfa : Str
  pub oaid : Str
  pub oaid_sum : Str
  pub imei : Str
  pub imei_sum : Str
  pub req_id : Str

-- The column indices of `readUcDataSourceExcel`.
pub record Columns : Type 0 where
  pub ad_id_col : ℕ
  pub callback_param_col : ℕ
  pub advertiser_id_col : Option ℕ
  pub campaign_id_col : Option ℕ
  pub idfa_col : Option ℕ
  pub oaid_col : Option ℕ
  pub oaid_sum_col : Option ℕ
  pub imei_col : Option ℕ
  pub imei_sum_col : Option ℕ

-- `findUcColumnIndex`, the same text as `findColumnIndex`.
unfoldable pub find_uc_column_index : Row → List Str → Option ℕ
unfolding find_column_index
find_uc_column_index header names = find_column_index header names

with_required : Row → Option ℕ → Option ℕ → Result Columns
unfolding find_uc_column_index
with_required header (some ad_id) (some callback_param) = ok (record {
  ad_id_col = ad_id;
  callback_param_col = callback_param;
  advertiser_id_col = find_uc_column_index header (codes "advertiser_id" ∷ []);
  campaign_id_col = find_uc_column_index header (codes "campaign_id" ∷ []);
  idfa_col = find_uc_column_index header (codes "idfa" ∷ []);
  oaid_col = find_uc_column_index header (codes "oaid" ∷ []);
  oaid_sum_col = find_uc_column_index header (codes "oaid_sum" ∷ []);
  imei_col = find_uc_column_index header (codes "imei" ∷ []);
  imei_sum_col = find_uc_column_index header (codes "imei_sum" ∷ []);
})
with_required header _ _ =
    err (errorf "required columns (ad_id, callback_param) not found in data source")

unfoldable pub columns_of : Row → Result Columns
unfolding with_required
columns_of header =
    with_required header (find_uc_column_index header (codes "ad_id" ∷ []))
      (find_uc_column_index header (codes "callback_param" ∷ []))

-- The record of a row, with its key.
unfoldable pub source_of_row : Columns → Row → Str × Source
unfolding optional_cell
source_of_row cols row =
    let campaign_id = optional_cell row cols.campaign_id_col in
    (
      campaign_id,
      record {
        ad_id = clean_id (get_or row cols.ad_id_col []);
        callback_param = get_or row cols.callback_param_col [];
        advertiser_id = optional_cell row cols.advertiser_id_col;
        campaign_id = campaign_id;
        idfa = optional_cell row cols.idfa_col;
        oaid = optional_cell row cols.oaid_col;
        oaid_sum = optional_cell row cols.oaid_sum_col;
        imei = optional_cell row cols.imei_col;
        imei_sum = optional_cell row cols.imei_sum_col;
        req_id = [];
      },
    )

-- A row without an ad id or a callback parameter is passed over.
unfoldable pub sources_of_rows : Columns → List Row → List (Str × Source)
unfolding source_of_row is_short
sources_of_rows cols [] = []
sources_of_rows cols (row ∷ rows) =
    if is_short row cols.ad_id_col || is_short row cols.callback_param_col
    then sources_of_rows cols rows
    else source_of_row cols row ∷ sources_of_rows cols rows

unfoldable pub read_uc_data_source : Result Workbook → Result (List (Str × List Source))
read_uc_data_source opened = do
  table ←
      open_table "no sheets found in data source file" "data source file has no data rows" opened
  cols ← columns_of table.header
  ok (group_from [] (sources_of_rows cols table.body))

uc_params : Source → Values
unfolding set
uc_params r =
    let v = set [] (codes "ms_task") (codes "meishutest") in
    let v = set v (codes "ms_place") (codes "1") in
    let v = set v (codes "ms_channel") (codes "Uc") in
    let v = set v (codes "callback_param") (utf8 r.callback_param) in
    let v = set v (codes "advertiser_id") (utf8 r.advertiser_id) in
    let v = set v (codes "campaign_id") (utf8 r.campaign_id) in
    let v = set v (codes "ad_id") (utf8 r.ad_id) in
    let v = set v (codes "imei_sum") (utf8 r.imei_sum) in
    let v = set v (codes "oaid") (utf8 r.oaid) in
    let v = set v (codes "oaid_sum") (utf8 r.oaid_sum) in
    let v = set v (codes "idfa") (utf8 r.idfa) in
    let v = set v (codes "req_id") (utf8 (r.req_id ++ codes "-20260202")) in
    let v = set v (codes "debug") (codes "1") in set v (codes "transformType") (codes "37")

-- The URL of `executeUcCallback`.
unfoldable pub uc_callback_url : Source → Bytes
unfolding uc_params encode
uc_callback_url r =
    codes "https://ad-ocpx.zhltech.net/track/c1d2aa6f57" ++ b'?' ∷ encode (uc_params r)

-- The same text as `readClickDataExcel`.
unfoldable pub read_uc_click_data : Result Workbook → Result (List Click)
unfolding read_click_data
read_uc_click_data opened = read_click_data opened

unfoldable pub process_uc_excel_and_callback :
    Env → Result Workbook → Result Workbook → Log → Result Run × Log
process_uc_excel_and_callback env source click =
    process env (λ r _. uc_callback_url r) (λ r. utf8 r.callback_param) (read_uc_data_source source)
      (read_uc_click_data click)

unfoldable pub upload_uc_excel_files : Files → Env → Result (List Upload) → Disk → Log → Outcome
unfolding process_uc_excel_and_callback read_uc_data_source read_uc_click_data process
    uc_callback_url columns_of sources_of_rows group_from open_table upload save_upload run_saved
    read_click_data click_columns clicks_of_rows click_of_row atoi clean_id is_short
    find_column_index
upload_uc_excel_files files env = upload files (process_uc_excel_and_callback env)
