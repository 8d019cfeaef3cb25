-- ===== src/Cps/Orders.antt =====
-- The reports service/cps_order.go and cps_user.go, with queryOrder.go and queryUser.go of common/topsdk-go. Their
-- workbooks keep the empty "Sheet1". The fuel is the pages that the loop may fetch.
use report_api.Prelude.{ℕ, Bool, Option, List, [], ◌∷◌}
use report_api.Prelude.Int.{ℤ}
use report_api.Go.Result.{Error}
use report_api.Go.Strconv.{parse_int_value}
use report_api.Go.Text.{Str, codes}
use report_api.Excel.Sheet.{Value, text, number, boolean, table_sheet}
use report_api.Callback.Http.{Log}
use report_api.Order.Export.{Book}
use report_api.Order.Request.{OrderReply, exported_reply}
use report_api.Cps.{cps_client, Network, Library, query_all_paged}

-- `TradeOrderDTO`.
pub record TradeOrder : Type 0 where
  pub refund_fee : Str
  pub item_pic_url : Str
  pub order_id : Str
  pub item_title : Str
  pub pay_time : Str
  pub state_desc : Str
  pub part_confirm_fee : Str
  pub actual_paid_fee : Str
  pub gmt_create : Str
  pub item_id : Str
  pub estimate_commission : Str
  pub estimate_commission_rate : Str
  pub state_code : ℤ
  pub item_price : Str
  pub end_time : Str
  pub item_image_url : Str
  pub sub_publisher_id : Str

-- `UserDetailDTO`.
pub record UserDetail : Type 0 where
  pub user_id : Str
  pub day_one_user_retention : Bool
  pub card_coupon_new_user : Bool
  pub sub_publisher_id : Str

unfoldable pub trade_order_headers : List Str
trade_order_headers =
    codes "退款金额"
    ∷ codes "商品图"
    ∷ codes "订单id"
    ∷ codes "商品标题"
    ∷ codes "付款时间"
    ∷ codes "订单状态描述"
    ∷ codes "确收金额"
    ∷ codes "实际付款金额"
    ∷ codes "创建时间"
    ∷ codes "商品id"
    ∷ codes "预估佣金"
    ∷ codes "预估费率"
    ∷ codes "订单状态码"
    ∷ codes "商品价格"
    ∷ codes "订单结束时间"
    ∷ codes "itemImageUrl"
    ∷ codes "子推广者id"
    ∷ []

unfoldable pub trade_order_row : TradeOrder → List (Str × Value)
trade_order_row order =
    (codes "A", text order.refund_fee)
    ∷ (codes "B", text order.item_pic_url)
    ∷ (codes "C", text order.order_id)
    ∷ (codes "D", text order.item_title)
    ∷ (codes "E", text order.pay_time)
    ∷ (codes "F", text order.state_desc)
    ∷ (codes "G", text order.part_confirm_fee)
    ∷ (codes "H", text order.actual_paid_fee)
    ∷ (codes "I", text order.gmt_create)
    ∷ (codes "J", text order.item_id)
    ∷ (codes "K", text order.estimate_commission)
    ∷ (codes "L", text order.estimate_commission_rate)
    ∷ (codes "M", number order.state_code)
    ∷ (codes "N", text order.item_price)
    ∷ (codes "O", text order.end_time)
    ∷ (codes "P", text order.item_image_url)
    ∷ (codes "Q", text order.sub_publisher_id)
    ∷ []

unfoldable pub trade_orders_book : List TradeOrder → Book
unfolding trade_order_headers trade_order_row table_sheet
trade_orders_book orders = record {
  sheet_name = codes "Orders";
  cells = table_sheet trade_order_headers trade_order_row orders;
}

unfoldable pub user_headers : List Str
user_headers = codes "UserId" ∷ codes "用户是否次留" ∷ codes "用户是否为卡券新用户" ∷ codes "子推广者id" ∷ []

unfoldable pub user_row : UserDetail → List (Str × Value)
user_row user =
    (codes "A", text user.user_id)
    ∷ (codes "B", boolean user.day_one_user_retention)
    ∷ (codes "C", boolean user.card_coupon_new_user)
    ∷ (codes "D", text user.sub_publisher_id)
    ∷ []

unfoldable pub users_book : List UserDetail → Book
unfolding user_headers user_row table_sheet
users_book users = record {
  sheet_name = codes "Incomes";
  cells = table_sheet user_headers user_row users;
}

module _ (save_as : Str → Book → Option Error) where
  unfoldable pub get_cps_order :
      {J : Type 0}
      → Library J TradeOrder
      → Network
      → (ℤ → ℕ → Str)
      → ℕ
      → Str
      → Log
      → OrderReply × Log
  unfolding trade_orders_book query_all_paged exported_reply parse_int_value
  get_cps_order json net order_vo fuel page_size log =
      let size = parse_int_value page_size in
      exported_reply (codes "orders.xlsx") trade_orders_book
        (λ orders path. save_as path (trade_orders_book orders))
        (query_all_paged json fuel cps_client net (codes "alibaba.idle.affiliate.cps.order.query")
          (codes "alibaba_idle_affiliate_cps_order_query_response" ∷ codes "result" ∷ [])
          (codes "trade_order_d_t_o")
          (λ page_no. (codes "trade_order_vo", order_vo size page_no) ∷ []) log)
        log

  unfoldable pub get_cps_user :
      {J : Type 0}
      → Library J UserDetail
      → Network
      → (Str → ℤ → ℕ → Str)
      → ℕ
      → Str
      → Str
      → Log
      → OrderReply × Log
  unfolding users_book query_all_paged exported_reply parse_int_value
  get_cps_user json net user_vo fuel query_user_date page_size log =
      let size = parse_int_value page_size in
      exported_reply (codes "user.xlsx") users_book (λ users path. save_as path (users_book users))
        (query_all_paged json fuel cps_client net
          (codes "alibaba.idle.affiliate.user.action.log.query")
          (codes "alibaba_idle_affiliate_user_action_log_query_response" ∷ codes "result" ∷ [])
          (codes "user_action_log_d_t_o")
          (λ page_no.
            (codes "user_action_log_query_params", user_vo query_user_date size page_no) ∷ [])
          log)
        log
