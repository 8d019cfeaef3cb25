-- ===== src/Channel/Juliang.antt =====
-- service/juliang.go: Ocean Engine. Records are grouped by their cleaned campaign id.
pub mod Delivery
use report_api.Prelude.{
  ℕ, ◌/◌, ◌||◌, Option, none, some, List, [], ◌∷◌, ◌++◌, get_or, length, ltb, if◌then◌else◌,
}
use report_api.Go.Result.{Result, ok, err, errorf, index, ◌>>=◌}
use report_api.Go.Text.{Str, Bytes, codes, utf8}
use report_api.Go.Strconv.{atoi}
use report_api.Go.Base64.{decode_string}
use report_api.Go.Decimal.{format_nat}
use report_api.Go.Url.{Values, set, add, encode}
use report_api.Excel.{
  Row, Workbook, open_table, find_column_index, clean_id, optional_cell, is_short,
}
use report_api.Callback.Http.{Env, Log}
use report_api.Callback.Group.{group_from}
use report_api.Callback.Click.{read_click_data, click_columns, clicks_of_rows, click_of_row}
use report_api.Callback.Process.{Run, process}
use report_api.Callback.Upload.{Files, Upload, Disk, Outcome, upload, save_upload, run_saved}

-- `DataSourceRecord`.
pub record Source : Type 0 where
  pub ad_id : Str
  pub callback_param : Str
  pub advertiser_id : Str
  pub campaign_id : Str
  pub cid : Str
  pub oaid : Str
  pub req_id : Str
  pub log_time : Str

-- The column indices of `readDataSourceExcel`.
pub record Columns : Type 0 where
  pub ad_id_col : ℕ
  pub callback_param_col : ℕ
  pub advertiser_id_col : Option ℕ
  pub campaign_id_col : Option ℕ
  pub cid_col : Option ℕ
  pub oaid_col : Option ℕ
  pub req_id_col : Option ℕ
  pub log_time_col : Option ℕ

with_required : Row → Option ℕ → Option ℕ → Result Columns
unfolding find_column_index
with_required header (some ad_id) (some callback_param) = ok (record {
  ad_id_col = ad_id;
  callback_param_col = callback_param;
  advertiser_id_col = find_column_index header (codes "advertiser_id" ∷ []);
  campaign_id_col = find_column_index header (codes "campaign_id" ∷ []);
  cid_col = find_column_index header (codes "cid" ∷ []);
  oaid_col = find_column_index header (codes "oaid" ∷ []);
  req_id_col = find_column_index header (codes "req_id" ∷ []);
  log_time_col = find_column_index header (codes "log_time" ∷ []);
})
with_required header _ _ =
    err (errorf "required columns (ad_id, callback_param) not found in data source")

unfoldable pub columns_of : Row → Result Columns
unfolding with_required
columns_of header =
    with_required header (find_column_index header (codes "ad_id" ∷ []))
      (find_column_index header (codes "callback_param" ∷ []))

-- `if campaignIdCol != -1 && len(row) > campaignIdCol { record.AdId = row[adIdCol] }`.
unfoldable pub ad_id_cell : Row → ℕ → Option ℕ → Str
ad_id_cell row ad_id_col none = []
ad_id_cell row ad_id_col (some col) = if ltb col (length row) then get_or row ad_id_col [] else []

-- The record of a row, with its key. `row[campaignIdCol]` is read without a test of the index.
unfoldable pub source_of_row : Columns → Row → Result (Str × Source)
unfolding optional_cell ad_id_cell
source_of_row cols row = do
  campaign ← index row cols.campaign_id_col
  let campaign_id = clean_id campaign
  ok (
    campaign_id,
    record {
      ad_id = ad_id_cell row cols.ad_id_col cols.campaign_id_col;
      callback_param = get_or row cols.callback_param_col [];
      advertiser_id = optional_cell row cols.advertiser_id_col;
      campaign_id = campaign_id;
      cid = optional_cell row cols.cid_col;
      oaid = optional_cell row cols.oaid_col;
      req_id = optional_cell row cols.req_id_col;
      log_time = optional_cell row cols.log_time_col;
    },
  )

-- A row without an ad id or a callback parameter is passed over.
unfoldable pub sources_of_rows : Columns → List Row → Result (List (Str × Source))
unfolding is_short
sources_of_rows cols [] = ok []
sources_of_rows cols (row ∷ rows) =
    let rest = sources_of_rows cols rows in
    if is_short row cols.ad_id_col || is_short row cols.callback_param_col
    then rest
    else do first ← source_of_row cols row; others ← rest; ok (first ∷ others)

unfoldable pub read_juliang_data_source : Result Workbook → Result (List (Str × List Source))
read_juliang_data_source opened = do
  table ←
      open_table "no sheets found in data source file" "data source file has no data rows" opened
  cols ← columns_of table.header
  keyed ← sources_of_rows cols table.body
  ok (group_from [] keyed)

-- `sendCallback`: the parameters, with the time in seconds.
juliang_params : Source → ℕ → Values
unfolding add
juliang_params r now =
    let q = add [] (codes "callback") (decode_string r.callback_param) in
    let q = add q (codes "os") (codes "0") in
    let q = add q (codes "oaid") (utf8 r.oaid) in
    let q = add q (codes "event_type") (codes "20") in add q (codes "conv_time") (format_nat now)

-- The URL that `sendCallback` requests.
unfoldable pub juliang_callback_url : Source → ℕ → Bytes
unfolding juliang_params encode
juliang_callback_url r now =
    codes "https://ad.oceanengine.com/track/activate/" ++ b'?' ∷ encode (juliang_params r now)

-- `executeCallback`, which nothing calls.
execute_params : Source → Values
unfolding set
execute_params r =
    let v = set [] (codes "ms_task") (codes "2") in
    let v = set v (codes "ms_place") (codes "tab3meishuapkdef158_HK280143") in
    let v = set v (codes "ms_channel") (codes "juliang") in
    let v = set v (codes "callback_param") (utf8 r.callback_param) in
    let v = set v (codes "os") (codes "android") in
    let v = set v (codes "advertiser_id") (utf8 r.advertiser_id) in
    let v = set v (codes "campaign_id") (utf8 r.campaign_id) in
    let v = set v (codes "ad_id") (utf8 r.ad_id) in
    let v = set v (codes "cid") (utf8 r.cid) in
    let v = set v (codes "oaid") (utf8 r.oaid) in
    let v = set v (codes "caid") ([]) in
    let v = set v (codes "req_id") (utf8 (r.req_id ++ codes "-20251125")) in
    let v = set v (codes "debug") (codes "1") in set v (codes "transformtype") (codes "7")

unfoldable pub execute_callback_url : Source → Bytes
unfolding execute_params encode
execute_callback_url r =
    codes "https://ad-ocpx.zhltech.net/track/c150676cb7" ++ b'?' ∷ encode (execute_params r)

unfoldable pub process_juliang_excel_and_callback :
    Env → Result Workbook → Result Workbook → Log → Result Run × Log
process_juliang_excel_and_callback env source click =
    process env (λ r log. juliang_callback_url r (env.unix_milli log / 1000))
      (λ r. decode_string r.callback_param) (read_juliang_data_source source)
      (read_click_data click)

unfoldable pub upload_juliang_excel_files :
    Files → Env → Result (List Upload) → Disk → Log → Outcome
unfolding process_juliang_excel_and_callback read_juliang_data_source read_click_data process
    juliang_callback_url columns_of sources_of_rows group_from open_table upload save_upload
    run_saved click_columns clicks_of_rows click_of_row atoi clean_id is_short find_column_index
upload_juliang_excel_files files env = upload files (process_juliang_excel_and_callback env)
