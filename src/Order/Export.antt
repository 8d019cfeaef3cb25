-- ===== src/Order/Export.antt =====
-- The workbooks of service/jd_order.go: `exportJdOrdersToExcel` and `exportJdBonusOrdersToExcel`. The names of
-- the columns are placed by a formula, and the values of a row by the letters that the code writes out.
pub mod Layout
use report_api.Prelude.{List, [], ◌∷◌, Option}
use report_api.Go.Result.{Error}
use report_api.Go.Text.{Str, codes}
use report_api.Excel.Sheet.{Value, text, number, float, Sheet, table_sheet}
use report_api.Order.Plain.{PlainOrder}
use report_api.Order.Bonus.{BonusOrder}

-- A workbook with one sheet, "Sheet1" being deleted.
pub record Book : Type 0 where
  pub sheet_name : Str
  pub cells : Sheet

unfoldable pub order_headers : List Str
order_headers =
    codes "订单ID"
    ∷ codes "下单时间"
    ∷ codes "完成时间"
    ∷ codes "修改时间"
    ∷ codes "联盟ID"
    ∷ codes "商品ID"
    ∷ codes "商品名称"
    ∷ codes "商品价格"
    ∷ codes "佣金比例"
    ∷ codes "预估计费金额"
    ∷ codes "预估佣金"
    ∷ codes "实际计费金额"
    ∷ codes "实际佣金"
    ∷ codes "有效码"
    ∷ codes "推广位ID"
    ∷ codes "推广位"
    ∷ codes "账户信息"
    ∷ []

unfoldable pub order_row : PlainOrder → List (Str × Value)
order_row order =
    (codes "A", number order.order_id)
    ∷ (codes "B", text order.order_time)
    ∷ (codes "C", text order.finish_time)
    ∷ (codes "D", text order.modify_time)
    ∷ (codes "E", number order.union_id)
    ∷ (codes "F", number order.sku_id)
    ∷ (codes "G", text order.sku_name)
    ∷ (codes "H", float order.price)
    ∷ (codes "I", float order.final_rate)
    ∷ (codes "J", float order.estimate_cos_price)
    ∷ (codes "K", float order.estimate_fee)
    ∷ (codes "L", float order.actual_cos_price)
    ∷ (codes "M", float order.actual_fee)
    ∷ (codes "N", number order.valid_code)
    ∷ (codes "O", number order.position_id)
    ∷ (codes "P", text order.pid)
    ∷ (codes "Q", text order.account)
    ∷ []

unfoldable pub orders_book : List PlainOrder → Book
unfolding order_headers order_row table_sheet
orders_book orders = record {
  sheet_name = codes "JD Orders";
  cells = table_sheet order_headers order_row orders;
}

unfoldable pub bonus_headers : List Str
bonus_headers =
    codes "联盟ID"
    ∷ codes "无效状态码"
    ∷ codes "无效状态文案"
    ∷ codes "实际支付金额"
    ∷ codes "预估计费金额"
    ∷ codes "预估佣金"
    ∷ codes "实际计费金额"
    ∷ codes "实际佣金"
    ∷ codes "下单时间"
    ∷ codes "完成时间"
    ∷ codes "推广位ID"
    ∷ codes "订单号"
    ∷ codes "奖励状态"
    ∷ codes "奖励状态文案"
    ∷ codes "商品名称"
    ∷ codes "佣金比例(%)"
    ∷ codes "子联盟ID"
    ∷ codes "PID"
    ∷ codes "扩展字段"
    ∷ codes "母站长标称"
    ∷ codes "分成比例(%)"
    ∷ codes "补贴比例(%)"
    ∷ codes "最终分佣比例(%)"
    ∷ codes "活动名称"
    ∷ codes "主单订单号"
    ∷ codes "SkuID"
    ∷ codes "预估奖励金额"
    ∷ codes "实际奖励金额"
    ∷ codes "订单状态"
    ∷ codes "订单状态文案"
    ∷ codes "排序值"
    ∷ codes "奖励活动ID"
    ∷ codes "渠道关系ID"
    ∷ codes "联盟商品ID"
    ∷ codes "奖励订单ID"
    ∷ codes "账户ID"
    ∷ []

unfoldable pub bonus_row : BonusOrder → List (Str × Value)
bonus_row order =
    (codes "A", number order.union_id)
    ∷ (codes "B", text order.bonus_invalid_code)
    ∷ (codes "C", text order.bonus_invalid_text)
    ∷ (codes "D", float order.pay_price)
    ∷ (codes "E", float order.estimate_cos_price)
    ∷ (codes "F", float order.estimate_fee)
    ∷ (codes "G", float order.actual_cos_price)
    ∷ (codes "H", float order.actual_fee)
    ∷ (codes "I", text order.order_time)
    ∷ (codes "J", text order.finish_time)
    ∷ (codes "K", number order.position_id)
    ∷ (codes "L", number order.order_id)
    ∷ (codes "M", number order.bonus_state)
    ∷ (codes "N", text order.bonus_text)
    ∷ (codes "O", text order.sku_name)
    ∷ (codes "P", float order.commission_rate)
    ∷ (codes "Q", text order.sub_union_id)
    ∷ (codes "R", text order.pid)
    ∷ (codes "S", text order.ext1)
    ∷ (codes "T", text order.union_alias)
    ∷ (codes "U", float order.sub_side_rate)
    ∷ (codes "V", float order.subsidy_rate)
    ∷ (codes "W", float order.final_rate)
    ∷ (codes "X", text order.activity_name)
    ∷ (codes "Y", number order.parent_id)
    ∷ (codes "Z", number order.sku_id)
    ∷ (codes "AA", float order.estimate_bonus_fee)
    ∷ (codes "AB", float order.actual_bonus_fee)
    ∷ (codes "AC", number order.order_state)
    ∷ (codes "AD", text order.order_text)
    ∷ (codes "AE", text order.sort_value)
    ∷ (codes "AF", number order.activity_id)
    ∷ (codes "AG", number order.channel_id)
    ∷ (codes "AH", text order.item_id)
    ∷ (codes "AI", number order.id)
    ∷ (codes "AJ", text order.account)
    ∷ []

unfoldable pub bonus_orders_book : List BonusOrder → Book
unfolding bonus_headers bonus_row table_sheet
bonus_orders_book orders = record {
  sheet_name = codes "JD Bonus Orders";
  cells = table_sheet bonus_headers bonus_row orders;
}

-- `f.SaveAs(path)` may fail.
module _ (save_as : Str → Book → Option Error) where
  unfoldable pub export_jd_orders_to_excel : List PlainOrder → Str → Option Error
  unfolding orders_book
  export_jd_orders_to_excel orders path = save_as path (orders_book orders)

  unfoldable pub export_jd_bonus_orders_to_excel : List BonusOrder → Str → Option Error
  unfolding bonus_orders_book
  export_jd_bonus_orders_to_excel orders path = save_as path (bonus_orders_book orders)
