-- ===== src/Order/Export/Layout.antt =====
-- Where the two workbooks hold what.
use report_api.Prelude.{
  ℕ, zero, suc, ◌+◌, ◌<◌, ◌≡◌, refl, ap, ◌∙◌, some, List, [], ◌∷◌, map, get_elem?, arith,
}
use report_api.Go.Text.{Str, codes}
use report_api.Excel.Sheet.{Value, text, number, float, cell_value, column_name}
use report_api.Excel.Sheet.Columns.{value_of_cell, IsLettered, table_sheet-cell}
use report_api.Order.Plain.{PlainOrder}
use report_api.Order.Bonus.{BonusOrder}
use report_api.Order.Export.{
  order_headers, order_row, orders_book, bonus_headers, bonus_row, bonus_orders_book,
}

order_row-IsLettered : (order : PlainOrder) → IsLettered 0 (order_row order)
unfolding order_row column_name
order_row-IsLettered order = (
  refl,
  (
    refl,
    (
      refl,
      (
        refl,
        (
          refl,
          (
            refl,
            (
              refl,
              (refl, (refl, (refl, (refl, (refl, (refl, (refl, (refl, (refl, (refl, tt)))))))))),
            ),
          ),
        ),
      ),
    ),
  ),
)

-- In the workbook of orders each of the 17 columns has its name in the first row, and in the row n + 2
-- the n-th order's value.
orders_book-cells :
    (orders : List PlainOrder) (n d : ℕ) (order : PlainOrder)
    → get_elem? orders n ≡ some order
    → d < 17
    → (cell_value (column_name d) 1 (orders_book orders).cells
        ≡ get_elem? (map text order_headers) d)
      × (cell_value (column_name d) (n + 2) (orders_book orders).cells
          ≡ get_elem? (map value_of_cell (order_row order)) d)
unfolding orders_book order_headers order_row
orders_book-cells orders n d order e h =
    table_sheet-cell order_headers order_row orders n d order (omega arith) (λ s. omega arith)
      order_row-IsLettered e (omega (arith, h))

-- The columns of the workbook of bonus orders: what a column is called, and the field that it shows.
abbrev pub bonus_fields : List (Str × (BonusOrder → Value))
bonus_fields =
    (codes "联盟ID", λ order. number order.union_id)
    ∷ (codes "无效状态码", λ order. text order.bonus_invalid_code)
    ∷ (codes "无效状态文案", λ order. text order.bonus_invalid_text)
    ∷ (codes "实际支付金额", λ order. float order.pay_price)
    ∷ (codes "预估计费金额", λ order. float order.estimate_cos_price)
    ∷ (codes "预估佣金", λ order. float order.estimate_fee)
    ∷ (codes "实际计费金额", λ order. float order.actual_cos_price)
    ∷ (codes "实际佣金", λ order. float order.actual_fee)
    ∷ (codes "下单时间", λ order. text order.order_time)
    ∷ (codes "完成时间", λ order. text order.finish_time)
    ∷ (codes "推广位ID", λ order. number order.position_id)
    ∷ (codes "订单号", λ order. number order.order_id)
    ∷ (codes "奖励状态", λ order. number order.bonus_state)
    ∷ (codes "奖励状态文案", λ order. text order.bonus_text)
    ∷ (codes "商品名称", λ order. text order.sku_name)
    ∷ (codes "佣金比例(%)", λ order. float order.commission_rate)
    ∷ (codes "子联盟ID", λ order. text order.sub_union_id)
    ∷ (codes "PID", λ order. text order.pid)
    ∷ (codes "扩展字段", λ order. text order.ext1)
    ∷ (codes "母站长标称", λ order. text order.union_alias)
    ∷ (codes "分成比例(%)", λ order. float order.sub_side_rate)
    ∷ (codes "补贴比例(%)", λ order. float order.subsidy_rate)
    ∷ (codes "最终分佣比例(%)", λ order. float order.final_rate)
    ∷ (codes "活动名称", λ order. text order.activity_name)
    ∷ (codes "主单订单号", λ order. number order.parent_id)
    ∷ (codes "SkuID", λ order. number order.sku_id)
    ∷ (codes "预估奖励金额", λ order. float order.estimate_bonus_fee)
    ∷ (codes "实际奖励金额", λ order. float order.actual_bonus_fee)
    ∷ (codes "订单状态", λ order. number order.order_state)
    ∷ (codes "订单状态文案", λ order. text order.order_text)
    ∷ (codes "排序值", λ order. text order.sort_value)
    ∷ (codes "奖励活动ID", λ order. number order.activity_id)
    ∷ (codes "渠道关系ID", λ order. number order.channel_id)
    ∷ (codes "联盟商品ID", λ order. text order.item_id)
    ∷ (codes "奖励订单ID", λ order. number order.id)
    ∷ (codes "账户ID", λ order. text order.account)
    ∷ []

bonus_row-IsLettered : (order : BonusOrder) → IsLettered 0 (bonus_row order)
unfolding bonus_row column_name
bonus_row-IsLettered order = (
  refl,
  (
    refl,
    (
      refl,
      (
        refl,
        (
          refl,
          (
            refl,
            (
              refl,
              (
                refl,
                (
                  refl,
                  (
                    refl,
                    (
                      refl,
                      (
                        refl,
                        (
                          refl,
                          (
                            refl,
                            (
                              refl,
                              (
                                refl,
                                (
                                  refl,
                                  (
                                    refl,
                                    (
                                      refl,
                                      (
                                        refl,
                                        (
                                          refl,
                                          (
                                            refl,
                                            (
                                              refl,
                                              (
                                                refl,
                                                (
                                                  refl,
                                                  (
                                                    refl,
                                                    (
                                                      refl,
                                                      (
                                                        refl,
                                                        (
                                                          refl,
                                                          (
                                                            refl,
                                                            (
                                                            refl,
                                                            (
                                                            refl,
                                                            (refl, (refl, (refl, (refl, tt)))),
                                                            ),
                                                            ),
                                                          ),
                                                        ),
                                                      ),
                                                    ),
                                                  ),
                                                ),
                                              ),
                                            ),
                                          ),
                                        ),
                                      ),
                                    ),
                                  ),
                                ),
                              ),
                            ),
                          ),
                        ),
                      ),
                    ),
                  ),
                ),
              ),
            ),
          ),
        ),
      ),
    ),
  ),
)

bonus_headers-fields :
    map text bonus_headers ≡ map (λ (f : Str × (BonusOrder → Value)). text f.0) bonus_fields
unfolding bonus_headers
bonus_headers-fields = refl

bonus_row-fields :
    (order : BonusOrder)
    → map value_of_cell (bonus_row order)
      ≡ map (λ (f : Str × (BonusOrder → Value)). f.1 order) bonus_fields
unfolding bonus_row
bonus_row-fields order = refl

get_elem-map {ℓ κ} :
    {A : Type ℓ} {B : Type κ} (f : A → B) (xs : List A) (d : ℕ) {x : A}
    → get_elem? xs d ≡ some x
    → get_elem? (map f xs) d ≡ some (f x)
get_elem-map f [] d h = cc
get_elem-map f (y ∷ xs) zero h = cc
get_elem-map f (y ∷ xs) (suc d) h = get_elem-map f xs d h

-- In the workbook of bonus orders the d-th column, beyond "Z" too, has in its first row the name that
-- `bonus_fields` gives it, and in the row n + 2 the n-th order's value of the field that belongs to it.
pub bonus_orders_book-cells :
    (orders : List BonusOrder) (n d : ℕ) (order : BonusOrder) (name : Str)
    (field : BonusOrder → Value)
    → get_elem? orders n ≡ some order
    → d < 36
    → get_elem? bonus_fields d ≡ some (name, field)
    → (cell_value (column_name d) 1 (bonus_orders_book orders).cells ≡ some (text name))
      × (cell_value (column_name d) (n + 2) (bonus_orders_book orders).cells ≡ some (field order))
unfolding bonus_orders_book bonus_headers bonus_row
bonus_orders_book-cells orders n d order name field e h f =
    let (first, row) =
      table_sheet-cell bonus_headers bonus_row orders n d order (omega arith) (λ s. omega arith)
        bonus_row-IsLettered e (omega (arith, h)) in
    (
      first
          ∙ ap (λ cells. get_elem? cells d) bonus_headers-fields
          ∙ get_elem-map (λ (g : Str × (BonusOrder → Value)). text g.0) bonus_fields d f,
      row
          ∙ ap (λ cells. get_elem? cells d) (bonus_row-fields order)
          ∙ get_elem-map (λ (g : Str × (BonusOrder → Value)). g.1 order) bonus_fields d f,
    )
