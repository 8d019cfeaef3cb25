-- ===== src/Order/Bonus.antt =====
-- The bonus orders of service/jd_order.go: one page of them.
pub mod Paging
pub mod Period
use report_api.Prelude.{
  ℕ, ◌+◌, ◌/◌, ◌≡◌, refl, Bool, true, false, Option, none, some, List, [], ◌∷◌, ◌++◌, map, zero,
  suc, length, ◌||◌, ◌==◌, ltb, if◌then◌else◌,
}
use report_api.Prelude.Int.{ℤ, pos, negsuc, ltb_ℤ}
use report_api.Go.Result.{Result, Error, ok, err, panic, errorf, wrap, ◌>>=◌}
use report_api.Go.Text.{Str, Bytes, codes, str_eq}
use report_api.Go.Strconv.{parse_int_value}
use report_api.Go.Url.{Values, set, encode}
use report_api.Excel.Sheet.{Float64}
use report_api.Callback.Http.{Log}
use report_api.Order.Pages.{fetch_pages}

-- An entry of `queryResult.data`: the times are in milliseconds.
pub record Item : Type 0 where
  pub union_id : ℤ
  pub bonus_invalid_code : Str
  pub bonus_invalid_text : Str
  pub pay_price : Float64
  pub estimate_cos_price : Float64
  pub estimate_fee : Float64
  pub actual_cos_price : Float64
  pub actual_fee : Float64
  pub order_time : ℤ
  pub finish_time : ℤ
  pub position_id : ℤ
  pub order_id : ℤ
  pub bonus_state : ℤ
  pub bonus_text : Str
  pub sku_name : Str
  pub commission_rate : Float64
  pub sub_union_id : Str
  pub pid : Str
  pub ext1 : Str
  pub union_alias : Str
  pub sub_side_rate : Float64
  pub subsidy_rate : Float64
  pub final_rate : Float64
  pub activity_name : Str
  pub parent_id : ℤ
  pub sku_id : ℤ
  pub estimate_bonus_fee : Float64
  pub actual_bonus_fee : Float64
  pub order_state : ℤ
  pub order_text : Str
  pub sort_value : Str
  pub activity_id : ℤ
  pub channel_id : ℤ
  pub item_id : Str
  pub id : ℤ
  pub account : Str

-- `JdBonusOrderData`.
pub record BonusOrder : Type 0 where
  pub union_id : ℤ
  pub bonus_invalid_code : Str
  pub bonus_invalid_text : Str
  pub pay_price : Float64
  pub estimate_cos_price : Float64
  pub estimate_fee : Float64
  pub actual_cos_price : Float64
  pub actual_fee : Float64
  pub order_time : Str
  pub finish_time : Str
  pub position_id : ℤ
  pub order_id : ℤ
  pub bonus_state : ℤ
  pub bonus_text : Str
  pub sku_name : Str
  pub commission_rate : Float64
  pub sub_union_id : Str
  pub pid : Str
  pub ext1 : Str
  pub union_alias : Str
  pub sub_side_rate : Float64
  pub subsidy_rate : Float64
  pub final_rate : Float64
  pub activity_name : Str
  pub parent_id : ℤ
  pub sku_id : ℤ
  pub estimate_bonus_fee : Float64
  pub actual_bonus_fee : Float64
  pub order_state : ℤ
  pub order_text : Str
  pub sort_value : Str
  pub activity_id : ℤ
  pub channel_id : ℤ
  pub item_id : Str
  pub id : ℤ
  pub account : Str

-- `JdBonusOrderResponse` with its `JdBonusQueryResult`.
pub record Response : Type 0 where
  pub code : Str
  pub query_code : ℤ
  pub message : Str
  pub items : List Item

-- The map `orderReq`.
pub record OrderReq : Type 0 where
  pub opt_type : ℤ
  pub start_time : ℤ
  pub end_time : ℤ
  pub page_no : ℕ
  pub page_size : ℤ
  pub sort_value : Option Str
  pub activity_id : Option ℤ

-- What the handler relies on: the library jsoniter writes and reads JSON, a server replies with a body
-- or an error, and the local clock shows a time. Both may depend on the requests sent before.
pub record Service : Type 0 where
  pub marshal : OrderReq → Bytes
  pub unmarshal : Bytes → Result Response
  pub reply : Log → Bytes → Result Bytes
  pub timestamp : Log → Bytes
  -- `time.Unix(seconds, 0).Format("2006-01-02 15:04:05")` in the server's time zone.
  pub zone : ℕ → Str

-- `if t > 0 { time.Unix(t/1000, 0).Format(…) }`, and else the empty text.
unfoldable pub shown_time : (ℕ → Str) → ℤ → Str
shown_time zone (pos t) = if ltb 0 t then zone (t / 1000) else []
shown_time zone (negsuc t) = []

unfoldable pub order_of_item : (ℕ → Str) → Item → BonusOrder
unfolding shown_time
order_of_item zone item = record {
  union_id = item.union_id;
  bonus_invalid_code = item.bonus_invalid_code;
  bonus_invalid_text = item.bonus_invalid_text;
  pay_price = item.pay_price;
  estimate_cos_price = item.estimate_cos_price;
  estimate_fee = item.estimate_fee;
  actual_cos_price = item.actual_cos_price;
  actual_fee = item.actual_fee;
  order_time = shown_time zone item.order_time;
  finish_time = shown_time zone item.finish_time;
  position_id = item.position_id;
  order_id = item.order_id;
  bonus_state = item.bonus_state;
  bonus_text = item.bonus_text;
  sku_name = item.sku_name;
  commission_rate = item.commission_rate;
  sub_union_id = item.sub_union_id;
  pid = item.pid;
  ext1 = item.ext1;
  union_alias = item.union_alias;
  sub_side_rate = item.sub_side_rate;
  subsidy_rate = item.subsidy_rate;
  final_rate = item.final_rate;
  activity_name = item.activity_name;
  parent_id = item.parent_id;
  sku_id = item.sku_id;
  estimate_bonus_fee = item.estimate_bonus_fee;
  actual_bonus_fee = item.actual_bonus_fee;
  order_state = item.order_state;
  order_text = item.order_text;
  sort_value = item.sort_value;
  activity_id = item.activity_id;
  channel_id = item.channel_id;
  item_id = item.item_id;
  id = item.id;
  account = item.account;
}

-- The last sort value of the page that is not empty.
unfoldable pub next_sort_value : Str → List Item → Str
next_sort_value last [] = last
next_sort_value last (item ∷ items) =
    next_sort_value (if str_eq item.sort_value [] then last else item.sort_value) items

-- What stays the same from page to page.
pub record Query : Type 0 where
  pub opt_type : ℤ
  pub start_time : ℤ
  pub end_time : ℤ
  pub page_size : ℤ
  pub activity_id : Str

-- The optional parameters are left out where they are empty.
unfoldable pub order_req : Query → ℕ → Str → OrderReq
unfolding parse_int_value
order_req q page_no sort_value = record {
  opt_type = q.opt_type;
  start_time = q.start_time;
  end_time = q.end_time;
  page_no = page_no;
  page_size = q.page_size;
  sort_value = if str_eq sort_value [] then none else some sort_value;
  activity_id = if str_eq q.activity_id [] then none else some (parse_int_value q.activity_id);
}

-- The access token of the source is empty and is not sent.
bonus_params : Bytes → Bytes → Values
unfolding set
bonus_params timestamp param_json =
    let v = set [] (codes "app_key") (codes "b2157684ef97af6719adacc85dbbf088") in
    let v = set v (codes "method") (codes "jd.union.open.order.bonus.query") in
    let v = set v (codes "timestamp") timestamp in
    let v = set v (codes "format") (codes "json") in
    let v = set v (codes "v") (codes "1.0") in
    let v = set v (codes "sign_method") (codes "md5") in
    set v (codes "360buy_param_json") param_json

unfoldable pub bonus_url : Bytes → Bytes → Bytes
unfolding bonus_params encode
bonus_url timestamp param_json =
    codes "http://ad-ocpx.zhltech.net/wfc/jd/order/bonus/query"
    ++ b'?' ∷ encode (bonus_params timestamp param_json)

-- The function that reads the body: an empty one leaves the response empty.
unfoldable pub read_response : (Bytes → Result Response) → Bytes → Result Response
read_response unmarshal [] = ok (record { code = []; query_code = pos 0; message = []; items = [] })
read_response unmarshal (b ∷ body) = unmarshal (b ∷ body)

is_200 : ℤ → Bool
is_200 (pos n) = n == 200
is_200 (negsuc n) = false

-- Both codes are checked before the data is read.
unfoldable pub page_of_response : (ℕ → Str) → Response → Result (List BonusOrder × Str)
unfolding is_200
page_of_response zone r =
    if str_eq r.code (codes "0")
    then (if is_200 r.query_code
        then ok (map (order_of_item zone) r.items, next_sort_value [] r.items)
        else err (errorf "JD Bonus API query error"))
    else err (errorf "JD Bonus API error")

-- The loop stops behind a page that names no sort value, that is empty, or that is the hundredth.
unfoldable pub is_last : ℕ → List BonusOrder → Str → Bool
is_last page_no new next = str_eq next [] || length new == 0 || ltb 100 (page_no + 1)

module _ (jd : Service) where
  -- The orders of a page and the sort value from which the next one starts.
  unfoldable pub fetch_page : Query → ℕ → Str → Log → Result (List BonusOrder × Str) × Log
  unfolding order_req bonus_url read_response page_of_response
  fetch_page q page_no sort_value log =
      let url = bonus_url (jd.timestamp log) (jd.marshal (order_req q page_no sort_value)) in
      (
        (do
          content ← wrap "request failed" (jd.reply log url)
          response ← read_response jd.unmarshal content
          page_of_response jd.zone response),
        log ++ url ∷ [],
      )

  -- `fetchJdBonusOrdersWithPagination`.
  unfoldable pub fetch_bonus_orders : Query → Log → Option (Result (List BonusOrder) × Log)
  unfolding fetch_page is_last fetch_pages
  fetch_bonus_orders q log = fetch_pages (fetch_page q) is_last 100 1 [] [] log
