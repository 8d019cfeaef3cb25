-- ===== src/Order/Plain.antt =====
-- The orders of service/jd_order.go: one page of them, the pages of an hour and the hours of a period.
pub mod Paging
use report_api.Prelude.{
  ℕ, ◌+◌, Bool, true, false, not, ◌||◌, Option, none, some, List, [], ◌∷◌, ◌++◌, map, ltb,
  if◌then◌else◌,
}
use report_api.Prelude.Int.{ℤ, pos, eqb_ℤ, distance}
use report_api.Go.Result.{Result, Error, ok, errorf}
use report_api.Go.Returns.{Returns, failed, returned, ◌>>=◌, wrap_error, to_result}
use report_api.Go.Text.{Str, Bytes, codes, utf8, str_eq}
use report_api.Go.Url.{Values, set, encode}
use report_api.Excel.Sheet.{Float64}
use report_api.Callback.Http.{Log}
use report_api.Order.Client.{Server, jd_http_get}
use report_api.Order.Pages.{fetch_pages}
use report_api.Order.Windows.{by_window}
use report_api.Sign.{Params, generate_jd_sign}

abbrev pub jd_app_key : Str
jd_app_key = codes "5c9b5dc2edb53e58b37d94027f27a6d7"

abbrev pub jd_app_secret : Str
jd_app_secret = codes "de67c89669df4ade93faf34aa8168a8e"

abbrev pub jd_access_token : Str
jd_access_token = []

-- An entry of `JdQueryResult.Data`.
pub record PlainItem : Type 0 where
  pub order_id : ℤ
  pub order_time : Str
  pub finish_time : Str
  pub modify_time : Str
  pub union_id : ℤ
  pub sku_id : ℤ
  pub sku_name : Str
  pub price : Float64
  pub final_rate : Float64
  pub estimate_cos_price : Float64
  pub estimate_fee : Float64
  pub actual_cos_price : Float64
  pub actual_fee : Float64
  pub valid_code : ℤ
  pub position_id : ℤ
  pub pid : Str
  pub account : Str

-- `JdQueryResult`.
pub record QueryResult : Type 0 where
  pub code : ℤ
  pub message : Str
  pub request_id : Str
  pub has_more : Bool
  pub items : List PlainItem

-- `JdOrderResponse`: the result is JSON within JSON.
pub record OrderResponse : Type 0 where
  pub code : Str
  pub query_result : Str

-- `JdOrderData`.
pub record PlainOrder : Type 0 where
  pub order_id : ℤ
  pub order_time : Str
  pub finish_time : Str
  pub modify_time : Str
  pub union_id : ℤ
  pub sku_id : ℤ
  pub sku_name : Str
  pub price : Float64
  pub final_rate : Float64
  pub estimate_cos_price : Float64
  pub estimate_fee : Float64
  pub actual_cos_price : Float64
  pub actual_fee : Float64
  pub valid_code : ℤ
  pub position_id : ℤ
  pub pid : Str
  pub account : Str

-- The map `orderReq`.
pub record PlainReq : Type 0 where
  pub page_index : ℕ
  pub page_size : ℤ
  pub start_time : Str
  pub end_time : Str
  pub order_type : ℤ

-- What the requests rely on: jsoniter, the server, the local clock in the format
-- "2006-01-02 15:04:05.000-0700", and `t.Format("2006-01-02 15:04:05")` of a time in nanoseconds.
pub record PlainService : Type 0 where
  pub marshal : PlainReq → Str
  pub unmarshal_response : Bytes → Returns OrderResponse
  pub unmarshal_result : Str → Returns QueryResult
  pub server : Server
  pub timestamp : Log → Str
  pub format_time : ℤ → Str

unfoldable pub order_of_plain_item : PlainItem → PlainOrder
order_of_plain_item item = record {
  order_id = item.order_id;
  order_time = item.order_time;
  finish_time = item.finish_time;
  modify_time = item.modify_time;
  union_id = item.union_id;
  sku_id = item.sku_id;
  sku_name = item.sku_name;
  price = item.price;
  final_rate = item.final_rate;
  estimate_cos_price = item.estimate_cos_price;
  estimate_fee = item.estimate_fee;
  actual_cos_price = item.actual_cos_price;
  actual_fee = item.actual_fee;
  valid_code = item.valid_code;
  position_id = item.position_id;
  pid = item.pid;
  account = item.account;
}

-- The parameters that are signed.
unfoldable pub order_params : Str → Str → Params
order_params timestamp param_json =
    (codes "access_token", jd_access_token)
    ∷ (codes "app_key", jd_app_key)
    ∷ (codes "method", codes "jd.union.open.order.row.query")
    ∷ (codes "v", codes "1.0")
    ∷ (codes "timestamp", timestamp)
    ∷ (codes "360buy_param_json", param_json)
    ∷ []

order_values : Str → Str → Bytes → Values
unfolding set utf8
order_values timestamp param_json sign =
    let v = set [] (codes "access_token") (utf8 jd_access_token) in
    let v = set v (codes "app_key") (utf8 jd_app_key) in
    let v = set v (codes "method") (codes "jd.union.open.order.row.query") in
    let v = set v (codes "v") (codes "1.0") in
    let v = set v (codes "sign") sign in
    let v = set v (codes "360buy_param_json") (utf8 param_json) in
    set v (codes "timestamp") (utf8 timestamp)

unfoldable pub order_url : Str → Str → Bytes
unfolding order_values encode order_params generate_jd_sign
order_url timestamp param_json =
    let sign = generate_jd_sign (order_params timestamp param_json) jd_app_secret in
    codes "https://api.jd.com/routerjson" ++ b'?' ∷ encode (order_values timestamp param_json sign)

unfoldable pub checked_page : QueryResult → Returns (List PlainOrder × Bool)
unfolding order_of_plain_item
checked_page result =
    if eqb_ℤ result.code (pos 200)
    then returned (map order_of_plain_item result.items, result.has_more)
    else failed (errorf "JD API query error")

-- Both codes are checked, and the inner JSON is read between them.
unfoldable pub page_of_order_response :
    (Str → Returns QueryResult) → OrderResponse → Returns (List PlainOrder × Bool)
unfolding checked_page
page_of_order_response unmarshal_result r =
    if str_eq r.code (codes "0")
    then (do
      result ← wrap_error "failed to parse queryResult" (unmarshal_result r.query_result)
      checked_page result)
    else failed (errorf "JD API error")

-- The loop stops behind a page that has no more behind it, and behind the hundredth.
unfoldable pub is_last_page : ℕ → List PlainOrder → Bool → Bool
is_last_page page_index new has_more = not has_more || ltb 100 (page_index + 1)

module _ (jd : PlainService) (page_size order_type : ℤ) where
  -- The functions that read the two replies run after the request was sent.
  unfoldable pub fetch_jd_orders_page : Str → Str → ℕ → Log → Returns (List PlainOrder × Bool) × Log
  unfolding order_url jd_http_get page_of_order_response
  fetch_jd_orders_page start_time end_time page_index log =
      let req : PlainReq = record {
        page_index = page_index;
        page_size = page_size;
        start_time = start_time;
        end_time = end_time;
        order_type = order_type;
      } in
      let url = order_url (jd.timestamp log) (jd.marshal req) in
      let (response, log') = jd_http_get jd.server url jd.unmarshal_response log in
      ((do r ← response; page_of_order_response jd.unmarshal_result r), log')

  -- One round of the loop, which takes nothing from the page before.
  unfoldable pub fetch_round : Str → Str → ℕ → Bool → Log → Result (List PlainOrder × Bool) × Log
  unfolding fetch_jd_orders_page
  fetch_round start_time end_time page_index has_more log =
      let (page, log') = fetch_jd_orders_page start_time end_time page_index log in
      (to_result page, log')

  unfoldable pub fetch_jd_orders : Str → Str → Log → Option (Result (List PlainOrder) × Log)
  unfolding fetch_round is_last_page fetch_pages
  fetch_jd_orders start_time end_time log =
      fetch_pages (fetch_round start_time end_time) is_last_page 100 1 true [] log

  -- The pages of one hour.
  unfoldable pub fetch_hour : ℤ → ℤ → Log → Option (Result (List PlainOrder) × Log)
  unfolding fetch_jd_orders
  fetch_hour current until log = fetch_jd_orders (jd.format_time current) (jd.format_time until) log

  -- The loop of `GetJdOrder` over the hours of a period; its length in nanoseconds is fuel enough.
  unfoldable pub orders_of_period : ℤ → ℤ → Log → Option (Result (List PlainOrder) × Log)
  unfolding fetch_hour by_window
  orders_of_period start end log =
      by_window fetch_hour 3_600_000_000_000 (distance start end) start end [] log
