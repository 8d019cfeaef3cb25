-- ===== src/Examples/Incomes.antt =====
-- The report of incomes on a small service.
use report_api.Prelude.{◌≡◌, refl, false, Option, none, some, [], ◌∷◌}
use report_api.Prelude.Int.{pos}
use report_api.Go.Result.{Error}
use report_api.Go.Returns.{returned}
use report_api.Go.Text.{Str, Bytes, codes, str_eq}
use report_api.Excel.Sheet.{text, cell_value, fill_row, write_cells, column_name}
use report_api.Order.Export.{Book}
use report_api.Order.Pages.{fetch_pages}
use report_api.Order.Request.{no_orders, exported_reply}
use report_api.Cps.Orders.{get_cps_order, get_cps_user}
use report_api.Cps.{
  new_client, cps_client, Network, Library, checked_body, post, bytes_to_result, do_json, get_path,
  decoded, page_of_array, page_of_json, fetch_top_page, is_last_top_page, query_all_paged,
}
use report_api.Cps.Incomes.{
  BillInfo, IncomeOrder, IncomeDetail, IncomeForm, IncomeVo, income_values, income_headers,
  income_row, income_rows, incomes_book,
}

abbrev bill : BillInfo
bill = record {
  state_text = [];
  settle_amount_text = [];
  assess_amount_text = [];
  sub_publisher_id = [];
  state = pos 0;
  accounting_time = [];
}

abbrev order : IncomeOrder
order = record {
  coupon_discount_fee = [];
  item_pic_url = [];
  item_id = [];
  pay_time = [];
  item_title = [];
  order_id = [];
  state_desc = [];
  part_confirm_fee = [];
  actual_paid_fee = [];
  gmt_create = [];
  state_code = pos 0;
}

abbrev income : IncomeDetail
income = record {
  bill_info = some bill;
  bill_id = [];
  deeplink = codes "d";
  plain_bill_id = codes "p";
  trade_order = some order;
}

-- Every reply holds one income and names no next page.
abbrev json : Library Bytes IncomeDetail
json = record {
  new_json = λ bytes. returned bytes;
  error_response = λ j. none;
  get = λ key j. j;
  array = λ j. some (j ∷ []);
  bool = λ j. false;
  decode = λ j. some income;
}

abbrev net : Network
net = record { respond = λ log body. returned (200, returned []); unix_seconds = λ log. [] }

abbrev form : IncomeForm
form = record {
  page_size = codes "10";
  start_create = codes "1";
  end_create = codes "2";
  start_update = codes "1";
  end_update = codes "2";
  create_month = codes "202501";
}

abbrev marshal : IncomeVo → Str
marshal vo = []

abbrev save_as : Str → Book → Option Error
save_as path book = none

abbrev no_book : Book
no_book = record { sheet_name = []; cells = [] }

abbrev book_of : Option Book → Book
book_of none = no_book
book_of (some book) = book

abbrev made : Book
made = book_of (incomes_book (income ∷ []))

-- Column "R" is headed by the order's state and holds the bill's plain id.
shifted_column :
    (cell_value (codes "R") 1 made.cells ≡ some (text (codes "订单状态")))
    × (cell_value (codes "R") 2 made.cells ≡ some (text (codes "p")))
unfolding cell_value incomes_book income_rows income_row income_values income_headers fill_row
    write_cells column_name str_eq
shifted_column = (refl, refl)

client_made :
    new_client (codes "35026206") (codes "8e7c9f532cac60b5baf0445eb0a3ab0e") cps_client.session
    ≡ returned cps_client
unfolding new_client str_eq
client_made = refl

-- No entry of a reply can be read.
abbrev unreadable : {D : Type 0} → Library Bytes D
unreadable = record {
  new_json = λ bytes. returned bytes;
  error_response = λ j. none;
  get = λ key j. j;
  array = λ j. some (j ∷ []);
  bool = λ j. false;
  decode = λ j. none;
}

no_order : (get_cps_order save_as unreadable net (λ size page_no. []) 1 [] []).0 ≡ no_orders
unfolding get_cps_order query_all_paged fetch_pages fetch_top_page do_json post checked_body
    bytes_to_result page_of_json page_of_array get_path decoded is_last_top_page exported_reply
no_order = refl

no_user : (get_cps_user save_as unreadable net (λ date size page_no. []) 1 [] [] []).0 ≡ no_orders
unfolding get_cps_user query_all_paged fetch_pages fetch_top_page do_json post checked_body
    bytes_to_result page_of_json page_of_array get_path decoded is_last_top_page exported_reply
no_user = refl
