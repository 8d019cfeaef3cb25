-- ===== src/Examples/Plain.antt =====
-- The orders of a period and the workbooks on a small service.
use report_api.Prelude.{
  ◌≡◌, ◌≢◌, refl, ap, if◌then◌else◌, false, Option, none, some, List, [], ◌∷◌, get_elem?, arith,
}
use report_api.Prelude.Int.{ℤ, pos}
use report_api.Go.Result.{Error, ok, external}
use report_api.Go.Returns.{Returns, failed, returned}
use report_api.Go.Strconv.{parse_int_value}
use report_api.Go.Text.{Str, codes, str_eq}
use report_api.Go.Text.Replace.{replace_all}
use report_api.Excel.Sheet.{text, cell_value, column_name}
use report_api.Callback.Http.{Log}
use report_api.Order.Client.{jd_http_get}
use report_api.Order.Pages.{fetch_pages}
use report_api.Order.Pages.Loop.{concat}
use report_api.Order.Windows.{by_window, window_end}
use report_api.Order.Windows.Cover.{IsCover, fetch_each}
use report_api.Order.Bonus.{BonusOrder, order_of_item}
use report_api.Order.Plain.{
  PlainItem, PlainOrder, PlainService, order_of_plain_item, checked_page, page_of_order_response,
  is_last_page, fetch_jd_orders_page, fetch_round, fetch_jd_orders, fetch_hour, orders_of_period,
  order_url,
}
use report_api.Order.Plain.Paging.{PlainPages, fetch_jd_orders-IsPaged}
use report_api.Order.Export.{
  Book, orders_book, bonus_orders_book, bonus_row, export_jd_orders_to_excel,
}
use report_api.Order.Export.Layout.{bonus_orders_book-cells}
use report_api.Order.Request.{
  OrderForm, exported, order_status, given_or, saved_reply, exported_reply, period_reply,
  end_time_text, get_jd_order, get_jd_bonus_order,
}
use report_api.Order.Request.Replies.{order_handlers_reply, get_jd_order_exported}
use report_api.Examples.Orders.{item, service}

abbrev plain_item : PlainItem
plain_item = record {
  order_id = pos 1;
  order_time = [];
  finish_time = [];
  modify_time = [];
  union_id = pos 0;
  sku_id = pos 0;
  sku_name = [];
  price = 0;
  final_rate = 0;
  estimate_cos_price = 0;
  estimate_fee = 0;
  actual_cos_price = 0;
  actual_fee = 0;
  valid_code = pos 0;
  position_id = pos 0;
  pid = [];
  account = [];
}

-- Every page holds one order and is the last.
abbrev plain : PlainService
plain = record {
  marshal = λ req. [];
  unmarshal_response = λ body. returned (record { code = codes "0"; query_result = [] });
  unmarshal_result = λ text. returned (record {
    code = pos 200;
    message = [];
    request_id = [];
    has_more = false;
    items = plain_item ∷ [];
  });
  server = λ log url. returned [];
  timestamp = λ log. [];
  format_time = λ t. [];
}

abbrev one_request : Log
one_request = order_url [] [] ∷ []

hour_fetched :
    fetch_jd_orders plain (pos 200) (pos 1) [] [] []
    ≡ some (ok (order_of_plain_item plain_item ∷ []), one_request)
unfolding fetch_jd_orders fetch_pages fetch_round fetch_jd_orders_page jd_http_get is_last_page
    page_of_order_response checked_page str_eq
hour_fetched = refl

fetch_jd_orders-IsPaged_example :
    (pages : List (List PlainOrder)) × PlainPages plain
      (pos 200)
      (pos 1)
      []
      []
      1
      []
      pages
      one_request
    × (order_of_plain_item plain_item ∷ [] ≡ concat pages)
fetch_jd_orders-IsPaged_example =
    fetch_jd_orders-IsPaged plain (pos 200) (pos 1) [] [] [] hour_fetched

abbrev form : OrderForm
form = record {
  start_time = codes "0";
  end_time = codes "1";
  page_size = none;
  order_type = codes "1";
}

-- "0" and "1" are one second apart.
abbrev parse_time : Str → Returns ℤ
parse_time s =
    if str_eq s (codes "0")
    then returned (pos 0)
    else if str_eq s (codes "1")
    then returned (pos 1_000_000_000)
    else failed (external 0)

abbrev save_as : Str → Book → Option Error
save_as path book = none

order_handlers_reply_example :
    (order_status (get_jd_order parse_time save_as plain form []).0 ≢ 0)
    × (order_status
          (get_jd_bonus_order parse_time save_as service (codes "0") (codes "1") none none [] []).0
        ≢ 0)
order_handlers_reply_example =
    order_handlers_reply parse_time save_as plain form service (codes "0") (codes "1") none none []
      []

abbrev exported_book : Book
exported_book = orders_book (order_of_plain_item plain_item ∷ [])

order_exported :
    get_jd_order parse_time save_as plain form []
    ≡ (exported (codes "jd_orders.xlsx") exported_book, one_request)
unfolding get_jd_order period_reply end_time_text exported_reply saved_reply
    export_jd_orders_to_excel orders_of_period by_window window_end fetch_hour fetch_jd_orders
    fetch_pages fetch_round fetch_jd_orders_page jd_http_get is_last_page page_of_order_response
    checked_page str_eq replace_all
order_exported = refl

get_jd_order_exported_example :
    (start : ℤ) × (end : ℤ) × (ws : List (ℤ × ℤ)) × (orders : List PlainOrder) × (parse_time
        (codes "0")
      ≡ returned start)
    × (parse_time (end_time_text (codes "1")) ≡ returned end)
    × IsCover 3_600_000_000_000 end start ws
    × (fetch_each
          (fetch_hour plain
            (parse_int_value (given_or (codes "200") none))
            (parse_int_value (codes "1")))
          ws
          []
          []
        ≡ some (ok orders, (get_jd_order parse_time save_as plain form []).1))
    × (exported_book ≡ orders_book orders)
    × (save_as (codes "jd_orders.xlsx") exported_book ≡ none)
get_jd_order_exported_example =
    get_jd_order_exported parse_time save_as plain form [] (ap (λ out. out.0) order_exported)

abbrev bonus_order : BonusOrder
bonus_order = order_of_item (λ t. []) item

-- The 31st column is "AE".
bonus_orders_book-cells_example :
    (cell_value (column_name 30) 1 (bonus_orders_book (bonus_order ∷ [])).cells
      ≡ some (text (codes "排序值")))
    × (cell_value (column_name 30) 2 (bonus_orders_book (bonus_order ∷ [])).cells
        ≡ some (text bonus_order.sort_value))
bonus_orders_book-cells_example =
    bonus_orders_book-cells (bonus_order ∷ []) 0 30 bonus_order (codes "排序值")
      (λ order. text order.sort_value) refl (omega arith) refl

sort_value_cell : get_elem? (bonus_row bonus_order) 30 ≡ some (codes "AE", text (codes "s"))
unfolding bonus_row order_of_item
sort_value_cell = refl
