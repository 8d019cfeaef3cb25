-- ===== src/Examples/Deliveries.antt =====
-- The channels on a data source with all the columns they need, and without them.
use report_api.Prelude.{◌/◌, ◌≡◌, refl, none, some, List, [], ◌∷◌, map, filter}
use report_api.Go.Result.{Result, ok}
use report_api.Go.Text.{codes}
use report_api.Excel.{Row, Workbook, Table, open_table, is_short, find_column_index, clean_id}
use report_api.Excel.Cells.{is_accepted}
use report_api.Callback.Click.{read_click_data, click_columns, clicks_of_rows, click_of_row}
use report_api.Go.Strconv.{atoi}
use report_api.Callback.Process.{Run}
use report_api.Callback.Process.Plan.{plan, log_after}
use report_api.Channel.Juliang
use report_api.Channel.Gdt
use report_api.Channel.Honor
use report_api.Channel.Uc
use report_api.Channel.Juliang.Delivery.{process_juliang_sends, process_juliang-panic}
use report_api.Channel.Honor.Delivery.{process_honor_sends, process_honor-panic}
use report_api.Channel.Gdt.Panics.{accepted, tolerant_source}
use report_api.Channel.Gdt.Delivery.{process_gdt_sends}
use report_api.Channel.Uc.Delivery.{process_uc_sends}
use report_api.Examples.Channels.{
  server, book, clicks, source_table, click_book, gdt_click_book_read,
}

abbrev rows : List Row
rows =
    (codes "1" ∷ codes "cGFyYW0=" ∷ codes "7" ∷ codes "r" ∷ [])
    ∷ (codes "2" ∷ codes "cQ==" ∷ codes "8" ∷ codes "s" ∷ [])
    ∷ []

abbrev table : Table
table = record {
  header = codes "ad_id" ∷ codes "callback_param" ∷ codes "campaign_id" ∷ codes "req_id" ∷ [];
  body = rows;
}

abbrev full_book : Result Workbook
full_book = book (table.header ∷ rows)

full_book_read :
    open_table "no sheets found in data source file" "data source file has no data rows" full_book
    ≡ ok table
unfolding open_table
full_book_read = refl

juliang_click_book_read : read_click_data click_book ≡ ok clicks
unfolding read_click_data open_table find_column_index click_columns clicks_of_rows click_of_row
    atoi clean_id is_short
juliang_click_book_read = refl

abbrev juliang_columns : Juliang.Columns
juliang_columns = record {
  ad_id_col = 0;
  callback_param_col = 1;
  advertiser_id_col = none;
  campaign_id_col = some 2;
  cid_col = none;
  oaid_col = none;
  req_id_col = some 3;
  log_time_col = none;
}

juliang_columns_test : Juliang.columns_of table.header ≡ ok juliang_columns
unfolding Juliang.columns_of find_column_index
juliang_columns_test = refl

abbrev honor_columns : Honor.Columns
honor_columns = record {
  ad_id_col = 0;
  callback_param_col = 1;
  advertiser_id_col = none;
  campaign_id_col = some 2;
  oaid_col = none;
  req_id_col = some 3;
}

honor_columns_test : Honor.columns_of table.header ≡ ok honor_columns
unfolding Honor.columns_of find_column_index
honor_columns_test = refl

abbrev gdt_columns : Gdt.Columns
gdt_columns = record {
  ad_id_col = 0;
  callback_param_col = 1;
  advertiser_id_col = none;
  campaign_id_col = some 2;
  idfa_sum_col = none;
  oaid_col = none;
  oaid_sum_col = none;
  imei_col = none;
  imei_sum_col = none;
  req_id_col = some 3;
}

gdt_columns_test : Gdt.columns_of table.header ≡ ok gdt_columns
unfolding Gdt.columns_of find_column_index
gdt_columns_test = refl

abbrev uc_columns : Uc.Columns
uc_columns = record {
  ad_id_col = 0;
  callback_param_col = 1;
  advertiser_id_col = none;
  campaign_id_col = some 2;
  idfa_col = none;
  oaid_col = none;
  oaid_sum_col = none;
  imei_col = none;
  imei_sum_col = none;
}

uc_columns_test : Uc.columns_of table.header ≡ ok uc_columns
unfolding Uc.columns_of find_column_index
uc_columns_test = refl

abbrev juliang_short_columns : Juliang.Columns
juliang_short_columns = record {
  ad_id_col = 0;
  callback_param_col = 1;
  advertiser_id_col = none;
  campaign_id_col = none;
  cid_col = none;
  oaid_col = none;
  req_id_col = none;
  log_time_col = none;
}

juliang_short_columns_test : Juliang.columns_of source_table.header ≡ ok juliang_short_columns
unfolding Juliang.columns_of find_column_index
juliang_short_columns_test = refl

abbrev honor_short_columns : Honor.Columns
honor_short_columns = record {
  ad_id_col = 0;
  callback_param_col = 1;
  advertiser_id_col = none;
  campaign_id_col = none;
  oaid_col = none;
  req_id_col = none;
}

honor_short_columns_test : Honor.columns_of source_table.header ≡ ok honor_short_columns
unfolding Honor.columns_of find_column_index
honor_short_columns_test = refl

process_juliang_sends_example :
    (run : Run) × (Juliang.process_juliang_excel_and_callback server full_book click_book []
      ≡ (ok run, run.sent))
    × (run.sent
        ≡ log_after server
            (λ r log. Juliang.juliang_callback_url r (server.unix_milli log / 1000))
            (plan
              (map
                (Juliang.Delivery.tolerant_source juliang_columns)
                (Juliang.Delivery.accepted juliang_columns rows))
              clicks)
            [])
process_juliang_sends_example =
    process_juliang_sends server full_book click_book [] full_book_read juliang_columns_test
      juliang_click_book_read (unfold is_short in refl)

honor_click_book_read : Honor.read_honor_click_data click_book ≡ ok clicks
unfolding Honor.read_honor_click_data
honor_click_book_read = juliang_click_book_read

process_honor_sends_example :
    (run : Run) × (Honor.process_honor_excel_and_callback server full_book click_book []
      ≡ (ok run, run.sent))
    × (run.sent
        ≡ log_after server
            (λ r log. Honor.honor_callback_url r (server.unix_milli log))
            (plan
              (map
                (Honor.Delivery.tolerant_source honor_columns)
                (Honor.Delivery.accepted honor_columns rows))
              clicks)
            [])
process_honor_sends_example =
    process_honor_sends server full_book click_book [] full_book_read honor_columns_test
      honor_click_book_read (unfold is_short in refl)

process_gdt_sends_example :
    (run : Run) × (Gdt.process_gdt_excel_and_callback server full_book click_book []
      ≡ (ok run, run.sent))
    × (run.sent
        ≡ map Gdt.gdt_callback_url
            (plan (map (tolerant_source gdt_columns) (accepted gdt_columns rows)) clicks))
process_gdt_sends_example =
    process_gdt_sends server full_book click_book [] full_book_read gdt_columns_test
      gdt_click_book_read (unfold is_short in refl)

uc_click_book_read : Uc.read_uc_click_data click_book ≡ ok clicks
unfolding Uc.read_uc_click_data
uc_click_book_read = juliang_click_book_read

process_uc_sends_example :
    (run : Run) × (Uc.process_uc_excel_and_callback server full_book click_book []
      ≡ (ok run, run.sent))
    × (run.sent
        ≡ map Uc.uc_callback_url
            (plan (map (Uc.source_of_row uc_columns) (filter (is_accepted 0 1) rows)) clicks))
process_uc_sends_example =
    process_uc_sends server full_book click_book [] full_book_read uc_columns_test
      uc_click_book_read
