-- ===== src/Examples/Channels.antt =====
-- The Kuaishou and Tencent channels on small tables.
use report_api.Prelude.{◌≡◌, refl, none, some, List, [], ◌∷◌, map}
use report_api.Prelude.Int.{pos}
use report_api.Go.Result.{Result, ok}
use report_api.Go.Text.{codes}
use report_api.Go.Strconv.{atoi}
use report_api.Excel.{Row, Workbook, Table, open_table, is_short, clean_id, find_column_index}
use report_api.Callback.Http.{Env}
use report_api.Callback.Click.{Click, read_click_data, click_columns, clicks_of_rows, click_of_row}
use report_api.Callback.Process.{Run}
use report_api.Callback.Process.Plan.{plan}
use report_api.Channel.Ks
use report_api.Channel.Ks.Delivery.{process_ks_sends}
use report_api.Channel.Gdt

abbrev pub server : Env
server = record { respond = λ log url. some 200; unix_milli = λ log. 5 }

abbrev pub book : List Row → Result Workbook
book rows = ok (record { sheets = codes "Sheet1" ∷ []; get_rows = λ sheet. ok rows })

abbrev source_rows : List Row
source_rows = (codes "7 " ∷ codes "p" ∷ []) ∷ (codes "8" ∷ []) ∷ (codes "7" ∷ codes "q" ∷ []) ∷ []

abbrev pub source_table : Table
source_table = record { header = codes "ad_id" ∷ codes "callback_param" ∷ []; body = source_rows }

abbrev pub clicks : List Click
clicks = record { ad_id = codes "7"; click_count = pos 2 } ∷ []

abbrev pub source_book : Result Workbook
source_book = book (source_table.header ∷ source_rows)

abbrev pub click_book : Result Workbook
click_book = book ((codes "广告id" ∷ codes "点击数" ∷ []) ∷ (codes " 7" ∷ codes "2" ∷ []) ∷ [])

pub source_book_read :
    open_table "no sheets found in data source file" "data source file has no data rows" source_book
    ≡ ok source_table
unfolding open_table
source_book_read = refl

pub click_book_read : Ks.read_ks_click_data click_book ≡ ok clicks
unfolding Ks.read_ks_click_data read_click_data open_table find_column_index click_columns
    clicks_of_rows click_of_row atoi clean_id is_short
click_book_read = refl

abbrev ks_columns : Ks.Columns
ks_columns = record {
  ad_id_col = 0;
  callback_param_col = 1;
  advertiser_id_col = none;
  campaign_id_col = none;
  oaid_sum_col = none;
}

ks_columns_test : Ks.columns_of source_table.header ≡ ok ks_columns
unfolding Ks.columns_of find_column_index
ks_columns_test = refl

process_ks_sends_example :
    (run : Run) × (Ks.process_ks_excel_and_callback server source_book click_book []
      ≡ (ok run, run.sent))
    × (run.sent ≡ map Ks.ks_callback_url (plan (Ks.sources_of_rows ks_columns source_rows) clicks))
process_ks_sends_example =
    process_ks_sends server source_book click_book [] source_book_read ks_columns_test
      click_book_read

abbrev gdt_columns : Gdt.Columns
gdt_columns = record {
  ad_id_col = 0;
  callback_param_col = 1;
  advertiser_id_col = none;
  campaign_id_col = none;
  idfa_sum_col = none;
  oaid_col = none;
  oaid_sum_col = none;
  imei_col = none;
  imei_sum_col = none;
  req_id_col = none;
}

gdt_columns_test : Gdt.columns_of source_table.header ≡ ok gdt_columns
unfolding Gdt.columns_of find_column_index
gdt_columns_test = refl

pub gdt_click_book_read : Gdt.read_gdt_click_data click_book ≡ ok clicks
unfolding Ks.read_ks_click_data Gdt.read_gdt_click_data
gdt_click_book_read = click_book_read
