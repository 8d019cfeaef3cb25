-- ===== src/Channel/Honor.antt =====
-- service/honor.go: Honor. Records are grouped by their campaign id, and every row needs a request id.
pub mod Delivery
use report_api.Prelude.{ℕ, ◌||◌, Option, some, List, [], ◌∷◌, ◌++◌, get_or, if◌then◌else◌}
use report_api.Go.Result.{Result, ok, err, errorf, index, ◌>>=◌}
use report_api.Go.Text.{Str, Bytes, codes, utf8, str_eq}
use report_api.Go.Strconv.{atoi}
use report_api.Go.Base64.{decode_string}
use report_api.Go.Decimal.{format_nat}
use report_api.Go.Url.{Values, set, add, encode}
use report_api.Channel.Gdt
use report_api.Channel.Gdt.{find_gdt_column_index}
use report_api.Excel.{
  Row, Workbook, open_table, find_column_index, clean_id, optional_cell, is_short,
}
use report_api.Callback.Http.{Env, Log}
use report_api.Callback.Group.{group_from}
use report_api.Callback.Click.{Click, read_click_data, click_columns, clicks_of_rows, click_of_row}
use report_api.Callback.Process.{Run, process}
use report_api.Callback.Upload.{Files, Upload, Disk, Outcome, upload, save_upload, run_saved}

-- `DataHonorSourceRecord`.
pub record Source : Type 0 where
  pub ad_id : Str
  pub callback_param : Str
  pub advertiser_id : Str
  pub campaign_id : Str
  pub oaid : Str
  pub req_id : Str

-- The column indices of `readHonorDataSourceExcel`.
pub record Columns : Type 0 where
  pub ad_id_col : ℕ
  pub callback_param_col : ℕ
  pub advertiser_id_col : Option ℕ
  pub campaign_id_col : Option ℕ
  pub oaid_col : Option ℕ
  pub req_id_col : Option ℕ

with_required : Row → Option ℕ → Option ℕ → Result Columns
unfolding find_gdt_column_index
with_required header (some ad_id) (some callback_param) = ok (record {
  ad_id_col = ad_id;
  callback_param_col = callback_param;
  advertiser_id_col = find_gdt_column_index header (codes "advertiser_id" ∷ []);
  campaign_id_col = find_gdt_column_index header (codes "campaign_id" ∷ []);
  oaid_col = find_gdt_column_index header (codes "oaid" ∷ []);
  req_id_col = find_gdt_column_index header (codes "req_id" ∷ []);
})
with_required header _ _ =
    err (errorf "required columns (ad_id, callback_param) not found in data source")

unfoldable pub columns_of : Row → Result Columns
unfolding with_required
columns_of header =
    with_required header (find_gdt_column_index header (codes "ad_id" ∷ []))
      (find_gdt_column_index header (codes "callback_param" ∷ []))

-- The record of a row, with its key. `row[reqIdCol]` is read without a test of the index.
unfoldable pub source_of_row : Columns → Row → Result (Str × Source)
unfolding optional_cell
source_of_row cols row = do
  req_id ← index row cols.req_id_col
  let campaign_id = optional_cell row cols.campaign_id_col
  ok (
    campaign_id,
    record {
      ad_id = clean_id (get_or row cols.ad_id_col []);
      callback_param = get_or row cols.callback_param_col [];
      advertiser_id = optional_cell row cols.advertiser_id_col;
      campaign_id = campaign_id;
      oaid = optional_cell row cols.oaid_col;
      req_id = req_id;
    },
  )

-- A row without an ad id or a callback parameter is passed over.
unfoldable pub sources_of_rows : Columns → List Row → Result (List (Str × Source))
unfolding is_short
sources_of_rows cols [] = ok []
sources_of_rows cols (row ∷ rows) =
    let rest = sources_of_rows cols rows in
    if is_short row cols.ad_id_col || is_short row cols.callback_param_col
    then rest
    else do first ← source_of_row cols row; others ← rest; ok (first ∷ others)

unfoldable pub read_honor_data_source : Result Workbook → Result (List (Str × List Source))
read_honor_data_source opened = do
  table ←
      open_table "no sheets found in data source file" "data source file has no data rows" opened
  cols ← columns_of table.header
  keyed ← sources_of_rows cols table.body
  ok (group_from [] keyed)

-- `sendHonorCallback`: the parameters, with the time in milliseconds.
honor_params : Source → ℕ → Values
unfolding add
honor_params r now =
    let q = add [] (codes "trackId") (decode_string r.callback_param) in
    let q = add q (codes "oaid") (utf8 r.oaid) in
    let q = add q (codes "conversionId") (codes "10001") in
    let q = add q (codes "advertiserId") (utf8 r.advertiser_id) in
    let q = add q (codes "id_type") (codes "0") in add q (codes "conversionTime") (format_nat now)

-- The URL that `sendHonorCallback` requests.
unfoldable pub honor_callback_url : Source → ℕ → Bytes
unfolding honor_params encode
honor_callback_url r now =
    codes "https://ads-drcn.platform.hihonorcloud.com/api/ad-tracking/v1/conversion"
    ++ b'?' ∷ encode (honor_params r now)

-- `executeHonorCallback` takes a record of gdt.go, and nothing calls it.
execute_honor_params : Gdt.Source → Values
unfolding set
execute_honor_params r =
    let v = set [] (codes "ms_task") (codes "meishutest") in
    let v = set v (codes "ms_place") (codes "1") in
    let v = set v (codes "ms_channel") (codes "gdt") in
    let v = set v (codes "callback_param") (utf8 r.callback_param) in
    let v = set v (codes "advertiser_id") (utf8 r.advertiser_id) in
    let v = set v (codes "campaign_id") (utf8 r.campaign_id) in
    let v = set v (codes "ad_id") (utf8 r.ad_id) in
    let v = set v (codes "oaid_sum") (utf8 r.oaid_sum) in
    let v =
      (if str_eq r.idfa_sum []
        then set (set v (codes "os") (codes "android")) (codes "muid") (utf8 r.imei)
        else set (set v (codes "os") (codes "ios")) (codes "muid") (utf8 r.idfa_sum)) in
    let v = set v (codes "req_id") (utf8 (r.req_id ++ codes "-20251127")) in
    let v = set v (codes "debug") (codes "1") in set v (codes "action") (codes "launch")

unfoldable pub execute_honor_callback_url : Gdt.Source → Bytes
unfolding execute_honor_params encode
execute_honor_callback_url r =
    codes "https://ad-ocpx.zhltech.net/track/7edce4f597" ++ b'?' ∷ encode (execute_honor_params r)

-- The same text as `readClickDataExcel`.
unfoldable pub read_honor_click_data : Result Workbook → Result (List Click)
unfolding read_click_data
read_honor_click_data opened = read_click_data opened

unfoldable pub process_honor_excel_and_callback :
    Env → Result Workbook → Result Workbook → Log → Result Run × Log
process_honor_excel_and_callback env source click =
    process env (λ r log. honor_callback_url r (env.unix_milli log)) (λ r. utf8 r.callback_param)
      (read_honor_data_source source) (read_honor_click_data click)

unfoldable pub upload_honor_excel_files : Files → Env → Result (List Upload) → Disk → Log → Outcome
unfolding process_honor_excel_and_callback read_honor_data_source read_honor_click_data process
    honor_callback_url columns_of sources_of_rows group_from open_table upload save_upload run_saved
    read_click_data click_columns clicks_of_rows click_of_row atoi clean_id is_short
    find_column_index
upload_honor_excel_files files env = upload files (process_honor_excel_and_callback env)
