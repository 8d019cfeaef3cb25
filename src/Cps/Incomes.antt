-- ===== src/Cps/Incomes.antt =====
-- The report service/cps_income.go, with queryIncome.go of common/topsdk-go. Its workbook keeps the empty
-- "Sheet1". The fuel is the pages that the loop may fetch.
pub mod Whole
use report_api.Prelude.{
  ℕ, ◌+◌, Bool, true, false, not, ◌||◌, Option, none, some, List, [], ◌∷◌, ◌++◌, map, if◌then◌else◌,
}
use report_api.Prelude.Int.{ℤ, pos}
use report_api.Go.Result.{Error, Result, ok, err, panic, type_assertion, nil_dereference}
use report_api.Go.Strconv.{parse_int_value}
use report_api.Go.Text.{Str, codes, str_eq}
use report_api.Excel.Sheet.{
  Value, text, number, boolean, Sheet, cell, fill_row, write_cells, table_sheet,
}
use report_api.Callback.Http.{Log}
use report_api.Order.Export.{Book}
use report_api.Order.Request.{
  OrderReply, fault, not_exported, exported, not_fetched, no_orders, stuck, saved_reply,
  exported_reply,
}
use report_api.Sign.{Params}
use report_api.Cps.{cps_client, Network, Library, query_all_paged}

-- `BillInfo`.
pub record BillInfo : Type 0 where
  pub state_text : Str
  pub settle_amount_text : Str
  pub assess_amount_text : Str
  pub sub_publisher_id : Str
  pub state : ℤ
  pub accounting_time : Str

-- `TradeOrderDTO2`.
pub record IncomeOrder : Type 0 where
  pub coupon_discount_fee : Str
  pub item_pic_url : Str
  pub item_id : Str
  pub pay_time : Str
  pub item_title : Str
  pub order_id : Str
  pub state_desc : Str
  pub part_confirm_fee : Str
  pub actual_paid_fee : Str
  pub gmt_create : Str
  pub state_code : ℤ

-- `IncomeDetailDTO`: a missing object is a nil pointer.
pub record IncomeDetail : Type 0 where
  pub bill_info : Option BillInfo
  pub bill_id : Str
  pub deeplink : Str
  pub plain_bill_id : Str
  pub trade_order : Option IncomeOrder

unfoldable pub income_headers : List Str
income_headers =
    codes "Bill ID"
    ∷ codes "佣金状态描述"
    ∷ codes "结算佣金"
    ∷ codes "预估佣金"
    ∷ codes "二级推广者id"
    ∷ codes "状态"
    ∷ codes "记账时间"
    ∷ codes "销账时间"
    ∷ codes "商品图"
    ∷ codes "商品id"
    ∷ codes "付款时间"
    ∷ codes "商品标题"
    ∷ codes "订单id"
    ∷ codes "订单状态描述"
    ∷ codes "确收金额"
    ∷ codes "实付金额"
    ∷ codes "创建时间"
    ∷ codes "订单状态"
    ∷ codes "订单结束时间"
    ∷ codes "未加密订单号"
    ∷ codes "deeplink"
    ∷ []

-- The row passes over the column "H".
unfoldable pub income_values : ℕ → IncomeDetail → BillInfo → IncomeOrder → Sheet
unfolding write_cells
income_values row income bill order = write_cells row (
    (codes "A", text income.bill_id)
    ∷ (codes "B", text bill.state_text)
    ∷ (codes "C", text bill.settle_amount_text)
    ∷ (codes "D", text bill.assess_amount_text)
    ∷ (codes "E", text bill.sub_publisher_id)
    ∷ (codes "F", number bill.state)
    ∷ (codes "G", text bill.accounting_time)
    ∷ (codes "I", text order.item_pic_url)
    ∷ (codes "J", text order.item_id)
    ∷ (codes "K", text order.pay_time)
    ∷ (codes "L", text order.item_title)
    ∷ (codes "M", text order.order_id)
    ∷ (codes "N", text order.state_desc)
    ∷ (codes "O", text order.part_confirm_fee)
    ∷ (codes "P", text order.actual_paid_fee)
    ∷ (codes "Q", text order.gmt_create)
    ∷ (codes "R", text income.plain_bill_id)
    ∷ (codes "S", text income.deeplink)
    ∷ [])

-- `none` is the panic of reading a field of a nil pointer.
unfoldable pub income_row : ℕ → IncomeDetail → Option BillInfo → Option IncomeOrder → Option Sheet
unfolding income_values
income_row row income none order = none
income_row row income (some bill) none = none
income_row row income (some bill) (some order) = some (income_values row income bill order)

abbrev pub joined : Option Sheet → Option Sheet → Option Sheet
joined none rest = none
joined (some row) none = none
joined (some row) (some rest) = some (row ++ rest)

unfoldable pub income_rows : ℕ → List IncomeDetail → Option Sheet
unfolding income_row
income_rows row [] = some []
income_rows row (income ∷ incomes) =
    joined (income_row row income income.bill_info income.trade_order)
      (income_rows (row + 1) incomes)

unfoldable pub incomes_book : List IncomeDetail → Option Book
unfolding income_headers income_rows fill_row
incomes_book incomes = elim (income_rows 2 incomes) [
  | none ↦ none
  | some rows ↦ some (record {
    sheet_name = codes "Incomes";
    cells = fill_row 1 0 (map text income_headers) ++ rows;
  })
]

-- The parameters of the request; `billState` has no use.
pub record IncomeForm : Type 0 where
  pub page_size : Str
  pub start_create : Str
  pub end_create : Str
  pub start_update : Str
  pub end_update : Str
  pub create_month : Str

-- The fields of `IncomeDetailVo`.
pub record IncomeVo : Type 0 where
  pub page_size : ℤ
  pub page_num : ℕ
  pub start_create : ℤ
  pub end_create : ℤ
  pub create_month : Str
  pub start_update : ℤ
  pub end_update : ℤ

-- An empty parameter is not put into the map, and the loop's type assertions panic on a missing one.
unfoldable pub has_all_parameters : IncomeForm → Bool
unfolding str_eq
has_all_parameters form = not (
    str_eq form.start_create []
    || str_eq form.end_create []
    || str_eq form.create_month []
    || str_eq form.start_update []
    || str_eq form.end_update [])

unfoldable pub income_vo : IncomeForm → ℕ → IncomeVo
unfolding parse_int_value
income_vo form page_num = record {
  page_size = parse_int_value form.page_size;
  page_num = page_num;
  start_create = parse_int_value form.start_create;
  end_create = parse_int_value form.end_create;
  create_month = form.create_month;
  start_update = parse_int_value form.start_update;
  end_update = parse_int_value form.end_update;
}

unfoldable pub query_all_paged_incomes :
    {J : Type 0}
    → Library J IncomeDetail
    → Network
    → (IncomeVo → Str)
    → ℕ
    → IncomeForm
    → Log
    → Option (Result (List IncomeDetail) × Log)
unfolding has_all_parameters income_vo query_all_paged
query_all_paged_incomes json net marshal fuel form log =
    if has_all_parameters form
    then query_all_paged json fuel cps_client net
        (codes "alibaba.idle.affiliate.cps.income.details.query")
        (codes "alibaba_idle_affiliate_cps_income_details_query_response" ∷ codes "result" ∷ [])
        (codes "commission_detail_d_t_o")
        (λ page_no. (codes "income_detail_vo", marshal (income_vo form page_no)) ∷ []) log
    else some (panic type_assertion, log)

module _ (save_as : Str → Book → Option Error) where
  unfoldable pub saved_incomes : Option Book → OrderReply
  unfolding saved_reply
  saved_incomes none = fault
  saved_incomes (some book) =
      saved_reply (codes "incoms.xlsx") book (save_as (codes "incoms.xlsx") book)

  -- The code behind the query.
  unfoldable pub incomes_reply : Option (Result (List IncomeDetail) × Log) → Log → OrderReply × Log
  unfolding saved_incomes incomes_book
  incomes_reply none log = (stuck, log)
  incomes_reply (some (err e, log')) log = (not_fetched e, log')
  incomes_reply (some (panic p, log')) log = (fault, log')
  incomes_reply (some (ok [], log')) log = (no_orders, log')
  incomes_reply (some (ok (i ∷ is), log')) log = (saved_incomes (incomes_book (i ∷ is)), log')

  unfoldable pub get_cps_income :
      {J : Type 0}
      → Library J IncomeDetail
      → Network
      → (IncomeVo → Str)
      → ℕ
      → IncomeForm
      → Log
      → OrderReply × Log
  unfolding query_all_paged_incomes incomes_reply
  get_cps_income json net marshal fuel form log =
      incomes_reply (query_all_paged_incomes json net marshal fuel form log) log
